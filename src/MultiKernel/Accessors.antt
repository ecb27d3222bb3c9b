-- ===== src/MultiKernel/Accessors.antt =====
-- src/mrtkernel.cpp: addCPU and the accessors of MRTKernel.
use sys_rt.Common.{
  ℕ, ◌≡◌, ◌≢◌, ◌∙◌, ap, false, Option, none, some, List, [], ◌∷◌, ◌++◌, Run, ok, fault, arith, ◌==◌,
  All, All-map, IsDistinct, Bool-cases, inl, inr, Option-cases, update, opt_eq, if◌then◌else◌,
}
use sys_rt.Sim.{SimTime}
use sys_rt.TaskModel.{TaskAttrs}
use sys_rt.Scheduler.{Scheduler}
use sys_rt.MultiKernel.{MultiKernel, new_multi}
use sys_rt.MultiKernel.Handlers.{System}
use sys_rt.MultiKernel.Exclusion.{Reach, one_processor}

-- A processor from outside, which is not told its kernel; it stands behind the others.
unfoldable pub add_cpu : MultiKernel → ℕ → MultiKernel
add_cpu k c = record k {
  curr_exe = update k.curr_exe c none;
  switching = update k.switching c false;
  cpus = k.cpus ++ c ∷ [];
}

-- The vector is empty, so the first processor is written out of range.
unfoldable pub get_processors : MultiKernel → Run (List ℕ)
get_processors k = elim k.cpus [ [] ↦ ok [] | p ∷ ps ↦ fault ]

unfoldable pub free_of : (ℕ → Option ℕ) → List ℕ → Option ℕ
free_of curr [] = none
free_of curr (p ∷ ps) = let rest = free_of curr ps in if opt_eq (curr p) none then some p else rest

unfoldable pub get_free_processor : MultiKernel → Option ℕ
unfolding free_of
get_free_processor k = free_of k.curr_exe k.cpus

unfoldable pub get_task : MultiKernel → ℕ → Option ℕ
get_task k c = k.curr_exe c

-- The tasks whose names getRunningTasks gives.
abbrev pub running_of : (ℕ → Option ℕ) → List ℕ → List ℕ
running_of curr [] = []
running_of curr (p ∷ ps) =
    let rest = running_of curr ps in elim (curr p) [ none ↦ rest | some t ↦ t ∷ rest ]

unfoldable pub get_running_tasks : MultiKernel → List ℕ
get_running_tasks k = running_of k.curr_exe k.cpus

-- A task that runs on none of the processors is not in their list.
running_of-absent :
    (curr : ℕ → Option ℕ) (t : ℕ) (ps : List ℕ)
    → All (λ p. curr p ≢ some t) ps
    → All (λ z. (t == z) ≡ false) (running_of curr ps)
running_of-absent curr t [] h = tt
running_of-absent curr t (p ∷ ps) h = elim (Option-cases (curr p)) [
  | inl idle ↦ rw (running_of, idle) (running_of-absent curr t ps h.1)
  | inr (z, busy) ↦ rw (running_of, busy) (differs z busy, running_of-absent curr t ps h.1)
]
  where
    differs : (z : ℕ) → curr p ≡ some z → (t == z) ≡ false
    differs z busy = elim (Bool-cases (t == z)) [
      | inl same ↦ let e : z ≡ t = ground arith in absurd (h.0 (busy ∙ ap (λ x. some x) e))
      | inr other ↦ other
    ]

running_of-IsDistinct :
    (curr : ℕ → Option ℕ)
    → ((p q t : ℕ) → curr p ≡ some t → curr q ≡ some t → p ≡ q)
    → (ps : List ℕ) → IsDistinct ps
    → IsDistinct (running_of curr ps)
running_of-IsDistinct curr once [] d = tt
running_of-IsDistinct curr once (p ∷ ps) d = elim (Option-cases (curr p)) [
  | inl idle ↦ rw (running_of, idle) (running_of-IsDistinct curr once ps d.1)
  | inr (t, busy) ↦
      rw (running_of, busy)
        (
          running_of-absent curr t ps
              (All-map (λ q. (p == q) ≡ false) (λ q. curr q ≢ some t) ps (elsewhere t busy) d.0),
          running_of-IsDistinct curr once ps d.1,
        )
]
  where
    elsewhere : (t : ℕ) → curr p ≡ some t → (q : ℕ) → (p == q) ≡ false → curr q ≢ some t
    elsewhere t busy q apart e = let same = once p q t busy e in absurd (ground arith)

-- No task is in the list twice after any history from a kernel that internalConstructor made, whose
-- processors are distinct.
pub get_running_tasks-IsDistinct :
    (sc : SimTime) (env : ℕ → TaskAttrs) (q : Scheduler) (cpus : List ℕ) (s : System)
    → Reach sc env
        (record { kernel = new_multi q cpus; ending = λ p. false; beginning = λ p. false })
        s
    → IsDistinct s.kernel.cpus
    → IsDistinct (get_running_tasks s.kernel)
unfolding get_running_tasks
get_running_tasks-IsDistinct sc env q cpus s r d =
    running_of-IsDistinct s.kernel.curr_exe (one_processor sc env q cpus s r) s.kernel.cpus d
