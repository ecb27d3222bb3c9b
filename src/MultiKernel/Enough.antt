-- ===== src/MultiKernel/Enough.antt =====
-- src/mrtkernel.cpp: dispatch() has processors enough, because each one that is not free has a task of
-- the ready queue of its own.
use sys_rt.Common.{
  ℕ, zero, suc, ◌+◌, ◌≤◌, ◌≡◌, refl, ap, inl, inr, true, false, Option, none, some, List, [], ◌∷◌,
  arith, ◌==◌, length, drop, if◌then◌else◌, opt_eq, All, IsDistinct, Bool-cases, Option-cases,
  Returns,
}
use sys_rt.Sim.{SimTime}
use sys_rt.MultiKernel.{MultiKernel, get_processor, is_free, is_dispatched, count_new, dispatch_all}
use sys_rt.MultiKernel.Lookup.{get_processor-runs}
use sys_rt.MultiKernel.Dispatch.{
  NoSwitch, Told, free_count, dispatched_count, new_tasks, dispatch_all-Told,
}

-- How many of the processors a place in the map of dispatched tasks names.
abbrev named_count : Option ℕ → List ℕ → ℕ
named_count o [] = 0
named_count o (p ∷ ps) = (if opt_eq o (some p) then 1 else 0) + named_count o ps

-- How many of the processors have one of the tasks dispatched to them.
abbrev taken_count : (ℕ → Option ℕ) → List ℕ → List ℕ → ℕ
taken_count dispatched q [] = 0
taken_count dispatched q (p ∷ ps) =
    (if is_dispatched dispatched q p then 1 else 0) + taken_count dispatched q ps

named_count-absent :
    (p : ℕ) (ps : List ℕ) → All (λ q. (p == q) ≡ false) ps → named_count (some p) ps ≡ 0
named_count-absent p [] h = refl
named_count-absent p (q ∷ ps) h = rw (h.0, named_count-absent p ps h.1) refl

named_count-none : (ps : List ℕ) → named_count none ps ≡ 0
named_count-none [] = refl
named_count-none (p ∷ ps) = omega (arith, named_count-none ps)

named_count-once : (c : ℕ) (ps : List ℕ) → IsDistinct ps → named_count (some c) ps ≤ 1
named_count-once c [] d = omega arith
named_count-once c (p ∷ ps) d = elim (Bool-cases (c == p)) [
  | inl e ↦
      let same : c ≡ p = ground arith in
      let rest : named_count (some c) ps ≡ 0 = rw same (named_count-absent p ps d.0) in
      rw (e, rest) (omega arith)
  | inr e ↦ rw e (omega (arith, named_count-once c ps d.1))
]

taken_count-none : (dispatched : ℕ → Option ℕ) (ps : List ℕ) → taken_count dispatched [] ps ≡ 0
unfolding is_dispatched
taken_count-none dispatched [] = refl
taken_count-none dispatched (p ∷ ps) = omega (arith, taken_count-none dispatched ps)

taken_count-cons :
    (dispatched : ℕ → Option ℕ) (t : ℕ) (q ps : List ℕ)
    → taken_count dispatched (t ∷ q) ps
      ≤ named_count (dispatched t) ps + taken_count dispatched q ps
unfolding is_dispatched
taken_count-cons dispatched t q [] = omega arith
taken_count-cons dispatched t q (p ∷ ps) = elim (Bool-cases (opt_eq (dispatched t) (some p))) [
  | inl e ↦ rw e (omega (arith, taken_count-cons dispatched t q ps))
  | inr e ↦ rw e (omega (arith, taken_count-cons dispatched t q ps))
]

-- Different processors have different tasks.
taken_count-dispatched_count :
    (dispatched : ℕ → Option ℕ) (q ps : List ℕ)
    → IsDistinct ps
    → taken_count dispatched q ps ≤ dispatched_count dispatched q
taken_count-dispatched_count dispatched [] ps d = rw (taken_count-none dispatched ps) (omega arith)
taken_count-dispatched_count dispatched (t ∷ q) ps d =
    let step = taken_count-cons dispatched t q ps in
    let rest = taken_count-dispatched_count dispatched q ps d in
    elim (Option-cases (dispatched t)) [
      | inl e ↦ let step' = rw e at step in rw e (omega (arith, step', rest, named_count-none ps))
      | inr (c, e) ↦
          let step' = rw e at step in rw e (omega (arith, step', rest, named_count-once c ps d))
    ]

module _ (k : MultiKernel) where
  -- Each processor that is not free has a task of the ready queue.
  abbrev pub Occupied : Type 0
  Occupied = (p : ℕ) → is_free k p ≡ false → is_dispatched k.dispatched k.sched.queue p ≡ true

  length-taken_count :
      Occupied
      → (ps : List ℕ) → length ps ≤ free_count k ps + taken_count k.dispatched k.sched.queue ps
  length-taken_count busy [] = omega arith
  length-taken_count busy (p ∷ ps) = elim (Bool-cases (is_free k p)) [
    | inl e ↦ rw e (omega (arith, length-taken_count busy ps))
    | inr e ↦ rw (e, busy p e) (omega (arith, length-taken_count busy ps))
  ]

  -- The window of the first loop: its tasks are new or dispatched.
  count_new-window :
      ((p t : ℕ) → k.curr_exe p ≡ some t → k.dispatched t ≡ some p)
      → (n : ℕ) (ts : List ℕ) (i num : ℕ)
      → (j : ℕ) × (j ≤ n)
        × ((count_new k n ts i num).0 ≡ i + j)
        × (dispatched_count k.dispatched ts + (count_new k n ts i num).1
            ≡ dispatched_count k.dispatched (drop j ts) + j + num)
  unfolding count_new
  count_new-window runs zero ts i num = (0, omega arith, omega arith, omega arith)
  count_new-window runs (suc n) [] i num = (0, omega arith, omega arith, omega arith)
  count_new-window runs (suc n) (t ∷ ts) i num = elim (Option-cases (k.dispatched t)) [
    | inl new ↦
        let idle : get_processor k t ≡ none = elim (Option-cases (get_processor k t)) [
          | inl e ↦ e
          | inr (p, e) ↦ absurd (ground (arith, runs p t (get_processor-runs k t p e)))
        ] in
        let (j, a, b, c) = count_new-window runs n ts (i + 1) (num + 1) in
        rw (count_new, idle, new) (suc j, omega arith, omega arith, omega arith)
    | inr (p, old) ↦
        let (j, a, b, c) = count_new-window runs n ts (i + 1) num in
        elim (Bool-cases (opt_eq (get_processor k t) none)) [
          | inl e ↦ rw (count_new, old, e) (suc j, omega arith, omega arith, omega arith)
          | inr e ↦ rw (count_new, old, e) (suc j, omega arith, omega arith, omega arith)
        ]
  ]

  -- If no processor is in a context switch, each running task is dispatched to its processor, and
  -- each of the distinct processors that is not free has a task of the ready queue dispatched to
  -- it, dispatch() ends, having dispatched one processor for each new task that it found, with
  -- the queue and the maps of tasks and processors as they were.
  pub dispatch_all-Occupied :
      (sc : SimTime) (now : ℕ)
      → IsDistinct k.cpus
      → NoSwitch k
      → ((p t : ℕ) → k.curr_exe p ≡ some t → k.dispatched t ≡ some p)
      → Occupied
      → Returns (Told k (new_tasks k).1) (dispatch_all sc now k)
  dispatch_all-Occupied sc now distinct still runs busy =
      let (j, a, b, c) = count_new-window runs (length k.cpus) k.sched.queue 0 0 in
      let stop : (new_tasks k).0 ≡ j = omega (arith, b) in
      let place = ap (λ i. dispatched_count k.dispatched (drop i k.sched.queue)) stop in
      dispatch_all-Told sc now k still (
        omega (
          arith,
          place,
          length-taken_count busy k.cpus,
          taken_count-dispatched_count k.dispatched k.sched.queue k.cpus distinct,
        ))
