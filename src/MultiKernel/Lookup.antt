-- ===== src/MultiKernel/Lookup.antt =====
-- src/mrtkernel.cpp: what the searches of MRTKernel for a processor and for a waiting task find.
use sys_rt.Common.{
  ℕ, ◌≡◌, subst, inl, inr, Option, none, some, List, [], ◌∷◌, arith, if◌then◌else◌, opt_eq,
  opt_eq→eq, Bool-cases,
}
use sys_rt.MultiKernel.{MultiKernel, find_processor, get_processor}
use sys_rt.MultiKernel.Cpu.{first_new}

-- The last processor that is found runs the task.
find_processor-runs :
    (curr : ℕ → Option ℕ) (ps : List ℕ) (t p : ℕ) (ret : Option ℕ)
    → ((q : ℕ) → ret ≡ some q → curr q ≡ some t)
    → find_processor curr ps t ret ≡ some p
    → curr p ≡ some t
unfolding find_processor
find_processor-runs curr [] t p ret h e = h p e
find_processor-runs curr (x ∷ ps) t p ret h e =
    find_processor-runs curr ps t p (if opt_eq (curr x) (some t) then some x else ret)
      (λ q i. elim (Bool-cases (opt_eq (curr x) (some t))) [
        | inl same ↦
            let found : x ≡ q = ground arith in
            subst (λ y. curr y ≡ some t) found (opt_eq→eq (curr x) (some t) same)
        | inr other ↦ h q (ground arith)
      ])
      e

pub get_processor-runs :
    (k : MultiKernel) (t p : ℕ) → get_processor k t ≡ some p → k.curr_exe p ≡ some t
unfolding get_processor
get_processor-runs k t p e =
    find_processor-runs k.curr_exe k.cpus t p none (λ q i. absurd (ground arith)) e

pub first_new-free :
    (disp : ℕ → Option ℕ) (q : List ℕ) (t : ℕ) → first_new disp q ≡ some t → disp t ≡ none
unfolding first_new
first_new-free disp [] t e = absurd (ground arith)
first_new-free disp (x ∷ q) t e = elim (Bool-cases (opt_eq (disp x) none)) [
  | inl new ↦
      let found : x ≡ t = ground arith in
      subst (λ y. disp y ≡ none) found (opt_eq→eq (disp x) none new)
  | inr old ↦ first_new-free disp q t (ground arith)
]
