-- ===== src/MultiKernel/Dispatch.antt =====
-- src/mrtkernel.cpp: dispatch() ends when there are processors enough for the new tasks.
use sys_rt.Common.{
  ℕ, zero, suc, ◌+◌, ◌≤◌, ◌<◌, ◌≡◌, refl, sym, ◌∙◌, ap, inl, inr, false, Option, none, some, List,
  [], ◌∷◌, arith, length, drop, drop-drop, if◌then◌else◌, Bool-cases, Option-cases, Returns,
  Returns-map, Returns-bind,
}
use sys_rt.Sim.{SimTime}
use sys_rt.MultiKernel.{
  MultiKernel, is_free, get_next_free_proc, dispatch_cpu, count_new, next_dispatched, dispatch_loop,
  dispatch_all,
}

-- How many of the processors are free.
abbrev pub free_count : MultiKernel → List ℕ → ℕ
free_count k [] = 0
free_count k (p ∷ ps) = (if is_free k p then 1 else 0) + free_count k ps

-- How many of the tasks are dispatched to a processor.
abbrev pub dispatched_count : (ℕ → Option ℕ) → List ℕ → ℕ
dispatched_count dispatched [] = 0
dispatched_count dispatched (t ∷ ts) =
    elim (dispatched t) [ none ↦ 0 | some c ↦ 1 ] + dispatched_count dispatched ts

-- The place up to which dispatch() looks for new tasks, and how many it finds.
abbrev pub new_tasks : MultiKernel → ℕ × ℕ
new_tasks k = count_new k (length k.cpus) k.sched.queue 0 0

abbrev pub NoSwitch : MultiKernel → Type 0
NoSwitch k = (p : ℕ) → k.switching p ≡ false

get_next_free_proc-none :
    (k : MultiKernel) (ps : List ℕ) → get_next_free_proc k ps ≡ none → free_count k ps ≡ 0
unfolding get_next_free_proc
get_next_free_proc-none k [] e = refl
get_next_free_proc-none k (p ∷ ps) e = elim (Bool-cases (is_free k p)) [
  | inl free ↦ absurd (ground arith)
  | inr busy ↦
      let rest : get_next_free_proc k ps ≡ none = ground arith in
      rw busy (omega (arith, get_next_free_proc-none k ps rest))
]

get_next_free_proc-some :
    (k : MultiKernel) (ps : List ℕ) (p : ℕ) (rest : List ℕ)
    → get_next_free_proc k ps ≡ some (p, rest)
    → free_count k ps ≡ free_count k rest + 1
unfolding get_next_free_proc
get_next_free_proc-some k [] p rest e = absurd (ground arith)
get_next_free_proc-some k (x ∷ ps) p rest e = elim (Bool-cases (is_free k x)) [
  | inl free ↦ let same : ps ≡ rest = ground arith in rw (free, same) (omega arith)
  | inr busy ↦
      let later : get_next_free_proc k ps ≡ some (p, rest) = ground arith in
      rw busy (omega (arith, get_next_free_proc-some k ps p rest later))
]

-- The inner loop ends if some task from its place on is dispatched, behind that task.
next_dispatched-Returns :
    (dispatched : ℕ → Option ℕ) (q : List ℕ) (i : ℕ)
    → 0 < dispatched_count dispatched q
    → Returns
        (λ r.
          (n : ℕ) × (r.1 ≡ i + suc n)
          × (dispatched_count dispatched q ≡ dispatched_count dispatched (drop (suc n) q) + 1))
        (next_dispatched dispatched q i)
unfolding next_dispatched
next_dispatched-Returns dispatched [] i h = absurd (omega arith)
next_dispatched-Returns dispatched (t ∷ q) i h = elim (Option-cases (dispatched t)) [
  | inr (c, found) ↦ rw (next_dispatched, found) (0, omega arith, omega arith)
  | inl free ↦
      let more : 0 < dispatched_count dispatched q = let h' = rw free at h in omega (arith, h') in
      rw (next_dispatched, free)
        (Returns-map _ _ (next_dispatched dispatched q (i + 1))
          (next_dispatched-Returns dispatched q (i + 1) more)
          λ r (n, e, c). (suc n, e ∙ omega arith, omega (arith, c)))
]

-- The count of free processors reads the maps of the kernel alone.
free_count-congr :
    (k k' : MultiKernel) (ps : List ℕ)
    → k'.curr_exe ≡ k.curr_exe
    → k'.dispatched ≡ k.dispatched
    → k'.tasks ≡ k.tasks
    → free_count k' ps ≡ free_count k ps
unfolding is_free
free_count-congr k k' [] a b c = refl
free_count-congr k k' (p ∷ ps) a b c = rw (free_count-congr k k' ps a b c, a, b, c) refl

-- The maps that a dispatch of processors leaves, with the number of context switches.
pub record Told (k : MultiKernel) (num : ℕ) (k' : MultiKernel) : Type 0 where
  pub switches : k'.context_switch ≡ k.context_switch + num
  pub sched_kept : k'.sched ≡ k.sched
  pub curr_kept : k'.curr_exe ≡ k.curr_exe
  pub dispatched_kept : k'.dispatched ≡ k.dispatched
  pub tasks_kept : k'.tasks ≡ k.tasks
  pub switching_kept : k'.switching ≡ k.switching

module _ (sc : SimTime) (now : ℕ) where
  dispatch_cpu-Told :
      (k : MultiKernel) (p : ℕ) → k.switching p ≡ false → Told k 1 (dispatch_cpu sc now k p)
  unfolding dispatch_cpu
  dispatch_cpu-Told k p e =
      rw (dispatch_cpu, e)
        (record {
          switches = refl;
          sched_kept = refl;
          curr_kept = refl;
          dispatched_kept = refl;
          tasks_kept = refl;
          switching_kept = refl;
        })

  Told-next : (k k₁ k' : MultiKernel) (num : ℕ) → Told k 1 k₁ → Told k₁ num k' → Told k (suc num) k'
  Told-next k k₁ k' num a b = record {
    switches = b.switches ∙ omega (arith, a.switches);
    sched_kept = b.sched_kept ∙ a.sched_kept;
    curr_kept = b.curr_kept ∙ a.curr_kept;
    dispatched_kept = b.dispatched_kept ∙ a.dispatched_kept;
    tasks_kept = b.tasks_kept ∙ a.tasks_kept;
    switching_kept = b.switching_kept ∙ a.switching_kept;
  }

  still_after : (k k₁ : MultiKernel) → Told k 1 k₁ → NoSwitch k → NoSwitch k₁
  still_after k k₁ t still p = ap (λ f. f p) t.switching_kept ∙ still p

  counted :
      (k k₁ : MultiKernel)
      → Told k 1 k₁
      → (i : ℕ)
      → dispatched_count k₁.dispatched (drop i k₁.sched.queue)
        ≡ dispatched_count k.dispatched (drop i k.sched.queue)
  counted k k₁ t i =
      ap (λ s. dispatched_count k₁.dispatched (drop i s.queue)) t.sched_kept
      ∙ ap (λ d. dispatched_count d (drop i k.sched.queue)) t.dispatched_kept

  dispatch_loop-Told :
      (num : ℕ) (k : MultiKernel) (ps : List ℕ) (i : ℕ)
      → NoSwitch k
      → num ≤ free_count k ps + dispatched_count k.dispatched (drop i k.sched.queue)
      → Returns (Told k num) (dispatch_loop sc now num k ps i)
  unfolding dispatch_loop
  dispatch_loop-Told zero k ps i still h = record {
    switches = omega arith;
    sched_kept = refl;
    curr_kept = refl;
    dispatched_kept = refl;
    tasks_kept = refl;
    switching_kept = refl;
  }
  dispatch_loop-Told (suc num) k ps i still h = elim (Option-cases (get_next_free_proc k ps)) [
    | inr ((p, rest), found) ↦
        let t = dispatch_cpu-Told k p (still p) in
        let k₁ = dispatch_cpu sc now k p in
        rw (dispatch_loop, found)
          (Returns-map (Told k₁ num) _ (dispatch_loop sc now num k₁ rest i)
            (dispatch_loop-Told num k₁ rest i (still_after k k₁ t still) (
              omega (
                arith,
                free_count-congr k k₁ rest t.curr_kept t.dispatched_kept t.tasks_kept,
                counted k k₁ t i,
                get_next_free_proc-some k ps p rest found,
              )))
            λ k' u. Told-next k k₁ k' num t u)
    | inl none_free ↦
        let left : 0 < dispatched_count k.dispatched (drop i k.sched.queue) =
          omega (arith, get_next_free_proc-none k ps none_free) in
        rw (dispatch_loop, none_free)
          (Returns-bind _ (Told k (suc num)) (next_dispatched k.dispatched (drop i k.sched.queue) i)
            _ (next_dispatched-Returns k.dispatched (drop i k.sched.queue) i left)
            λ r (n, e, c).
              let k₁ = dispatch_cpu sc now k r.0 in
              let t = dispatch_cpu-Told k r.0 (still r.0) in
              let place : drop (suc n) (drop i k.sched.queue) ≡ drop r.1 k.sched.queue =
                drop-drop i (suc n) k.sched.queue ∙ ap (λ j. drop j k.sched.queue) (sym e) in
              let behind = ap (λ q. dispatched_count k.dispatched q) place in
              Returns-map (Told k₁ num) _ (dispatch_loop sc now num k₁ [] r.1)
                (dispatch_loop-Told num k₁ [] r.1 (still_after k k₁ t still) (
                  omega
                    (arith, counted k k₁ t r.1, behind, c, get_next_free_proc-none k ps none_free)))
                λ k' u. Told-next k k₁ k' num t u)
  ]

  -- If no processor is in a context switch, and the new tasks that dispatch() finds are no more
  -- than the free processors and the dispatched tasks behind the place where it stopped looking
  -- together, dispatch() ends, having dispatched one processor for each new task, with the queue
  -- and the maps of tasks and processors as they were.
  pub dispatch_all-Told :
      (k : MultiKernel)
      → NoSwitch k
      → (new_tasks k).1
        ≤ free_count k k.cpus + dispatched_count k.dispatched (drop (new_tasks k).0 k.sched.queue)
      → Returns (Told k (new_tasks k).1) (dispatch_all sc now k)
  unfolding dispatch_all
  dispatch_all-Told k still h = dispatch_loop-Told (new_tasks k).1 k k.cpus (new_tasks k).0 still h
