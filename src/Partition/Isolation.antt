-- ===== src/Partition/Isolation.antt =====
-- src/parti_mrtkernel.cpp: histories of the partitioned kernel, and the processors that they leave alone.
use sys_rt.Common.{
  ℕ, ◌≡◌, refl, sym, ◌∙◌, subst, ap, inl, inr, Bool, true, false, arith, ◌==◌, ok, mem,
  IfReturns_ok, Bool-cases,
}
use sys_rt.Sim.{SimTime}
use sys_rt.TaskModel.{TaskAttrs}
use sys_rt.Partition.{
  Partitioned, place_of, on_arrival, suspend, on_end, on_begin_dispatch_multi,
  on_end_dispatch_multi, dispatch_processor,
}
use sys_rt.Partition.Refinement.{processor}
use sys_rt.Partition.Local.{OwnTasks, Local, on_arrival-Local, suspend-Local, on_end-Local}
use sys_rt.Partition.Switching.{
  dispatch_processor-Local, on_begin_dispatch_multi-Local, on_end_dispatch_multi-Local,
}

-- A handler of processor p, or of a task of processor p, that returns.
pub data Step (sc : SimTime) (p : ℕ) (k : Partitioned) : Partitioned → Type 0 where
  arrives :
      {k' : Partitioned} (env : ℕ → TaskAttrs) (now t : ℕ)
      → place_of k t ≡ ok p
      → on_arrival env now k t ≡ ok k'
      → Step sc p k k'
  suspends : {k' : Partitioned} (t : ℕ) → place_of k t ≡ ok p → suspend k t ≡ ok k' → Step sc p k k'
  finishes : {k' : Partitioned} (t : ℕ) → place_of k t ≡ ok p → on_end k t ≡ ok k' → Step sc p k k'
  dispatches : (now : ℕ) → Step sc p k (dispatch_processor sc now k p)
  begins :
      {k' : Partitioned} (env : ℕ → TaskAttrs) (now : ℕ)
      → on_begin_dispatch_multi env now k p ≡ ok k'
      → Step sc p k k'
  ends :
      {k' : Partitioned} (env : ℕ → TaskAttrs) (now : ℕ)
      → on_end_dispatch_multi env now k p ≡ ok k'
      → Step sc p k k'

-- Handlers of the processors that are allowed, in any order.
pub data Reach (sc : SimTime) (allowed : ℕ → Bool) (k : Partitioned) : Partitioned → Type 0 where
  here : Reach sc allowed k k
  next :
      {k' k'' : Partitioned} (p : ℕ)
      → Reach sc allowed k k'
      → allowed p ≡ true
      → Step sc p k' k''
      → Reach sc allowed k k''

allowed-apart :
    (allowed : ℕ → Bool) (p q : ℕ) → allowed p ≡ true → allowed q ≡ false → (p == q) ≡ false
allowed-apart allowed p q a f = elim (Bool-cases (p == q)) [
  | inl same ↦ let e : p ≡ q = ground arith in let bad = ap allowed e in absurd (ground arith)
  | inr other ↦ other
]

module _ (sc : SimTime) where
  Step-Local : (p : ℕ) (k k' : Partitioned) → OwnTasks k p → Step sc p k k' → Local k p k'
  Step-Local p k k' o (arrives env now t e r) =
      IfReturns_ok (Local k p) _ (on_arrival-Local k t p e env now) r
  Step-Local p k k' o (suspends t e r) = IfReturns_ok (Local k p) _ (suspend-Local k t p e) r
  Step-Local p k k' o (finishes t e r) = IfReturns_ok (Local k p) _ (on_end-Local k t p e) r
  Step-Local p k k' o (dispatches now) = dispatch_processor-Local sc now k p
  Step-Local p k k' o (begins env now r) =
      IfReturns_ok (Local k p) _ (on_begin_dispatch_multi-Local env now k p o) r
  Step-Local p k k' o (ends env now r) =
      IfReturns_ok (Local k p) _ (on_end_dispatch_multi-Local env now k p o) r

  -- The other processors keep to their own tasks too.
  Local-OwnTasks :
      (p : ℕ) (k k' : Partitioned)
      → ((q : ℕ) → OwnTasks k q)
      → Local k p k'
      → (q : ℕ) → OwnTasks k' q
  Local-OwnTasks p k k' o l q = elim (Bool-cases (p == q)) [
    | inl same ↦ let e : p ≡ q = ground arith in subst (λ x. OwnTasks k' x) e (l.owns (o p))
    | inr other ↦ record {
      queued = λ z m.
          l.placed z
          ∙ (o q).queued z
              (subst (λ s. mem z s.queue ≡ true) (ap (λ x. x.sched) (l.same q other)) m);
      running =
          λ z m. l.placed z ∙ (o q).running z (sym (ap (λ x. x.curr_exe) (l.same q other)) ∙ m);
    }
  ]

  -- If every processor of the partitioned kernel has only its own tasks in its queue and running,
  -- then after any history of arrivals, suspensions and ends of tasks, dispatches, and begins and
  -- ends of switches that return, on the processors that are allowed, every processor still has
  -- only its own tasks, and each processor that is not allowed has the same scheduler, current
  -- and previous task and switch state as at first.
  pub Reach-Isolated :
      (allowed : ℕ → Bool) (k k' : Partitioned)
      → ((p : ℕ) → OwnTasks k p)
      → Reach sc allowed k k'
      → ((p : ℕ) → OwnTasks k' p) × ((q : ℕ) → allowed q ≡ false → processor k' q ≡ processor k q)
  Reach-Isolated allowed k k' o here = (o, λ q f. refl)
  Reach-Isolated allowed k k' o (next {k' = k₁} p r a s) =
      let (o₁, same) = Reach-Isolated allowed k k₁ o r in
      let l = Step-Local p k₁ k' (o₁ p) s in
      (
        Local-OwnTasks p k₁ k' o₁ l,
        λ q f.
            let apart : (p == q) ≡ false = allowed-apart allowed p q a f in
            l.same q apart ∙ same q f,
      )
