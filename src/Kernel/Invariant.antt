-- ===== src/Kernel/Invariant.antt =====
-- The invariant of RTKernel: the ready queue is well formed, and the task that runs, or that the
-- kernel is switching to, is one of it.
use sys_rt.Common.{
  ℕ, ◌≡◌, ◌∙◌, subst, inl, inr, true, false, not, Option, some, arith, ◌==◌, Bool-cases, opt_eq,
  opt_eq_refl, if_both, mem, Returns, Returns-bind,
}
use sys_rt.Sim.{SimTime}
use sys_rt.TaskModel.{TaskAttrs}
use sys_rt.TaskModel.Order.{IsNumbered}
use sys_rt.PList
use sys_rt.Scheduler
use sys_rt.Scheduler.{SchedulerClass, ngedf_scheduler, Scheduler, get_first}
use sys_rt.Scheduler.Invariant.{
  IsValid as QueueIsValid, Inserted, insert-Inserted, Extracted, extract-Extracted,
}
use sys_rt.Kernel.{Kernel, terminate, activate, suspend, on_arrival, on_end, dispatch}

pub record IsValid (env : ℕ → TaskAttrs) (k : Kernel) : Type 0 where
  pub queue_valid : QueueIsValid env k.sched
  pub running : (t : ℕ) → k.curr_exe ≡ some t → mem t k.sched.queue ≡ true

-- A valid kernel in which the task t is queued.
abbrev pub Holds : (ℕ → TaskAttrs) → ℕ → Kernel → Type 0
Holds env t k = IsValid env k × (mem t k.sched.queue ≡ true)

-- A valid kernel in which the task t is not queued.
abbrev pub Lacks : (ℕ → TaskAttrs) → ℕ → Kernel → Type 0
Lacks env t k = IsValid env k × (mem t k.sched.queue ≡ false)

-- What a suspension does to the queue is an extraction.
pub suspend-sched :
    (P : Scheduler → Type 0) (k : Kernel) (t : ℕ)
    → Returns P (Scheduler.extract k.sched t)
    → Returns (λ k'. P k'.sched) (suspend k t)
unfolding suspend
suspend-sched P k t h =
    Returns-bind P (λ k'. P k'.sched) (Scheduler.extract k.sched t) _ h
      λ s p. if_both {A = Kernel} (λ k'. P k'.sched) (opt_eq k.curr_exe (some t)) (λ _. p) (λ _. p)

-- What an activation does to the queue is an insertion.
pub activate-sched :
    (P : Scheduler → Type 0) (env : ℕ → TaskAttrs) (now : ℕ) (k : Kernel) (t : ℕ)
    → Returns P (Scheduler.insert env now k.sched t)
    → Returns (λ k'. P k'.sched) (activate env now k t)
unfolding activate
activate-sched P env now k t h =
    Returns-bind P (λ k'. P k'.sched) (Scheduler.insert env now k.sched t) _ h λ s p. p

module _ (env : ℕ → TaskAttrs) (u : IsNumbered env) (now : ℕ) (k : Kernel) (v : IsValid env k) where
  Inserted-Holds :
      (t : ℕ) (s : Scheduler) → Inserted env now k.sched t s → Holds env t (record k { sched = s })
  Inserted-Holds t s x = (
    record {
      queue_valid = x.valid;
      running = λ z e. elim (Bool-cases (t == z)) [
        | inl p ↦ let q : t ≡ z = ground arith in subst (λ y. mem y s.queue ≡ true) q x.member
        | inr d ↦ x.others z d ∙ v.running z e
      ];
    },
    x.member,
  )

  -- An arrival.
  pub on_arrival-Holds :
      (sc : SimTime) (t : ℕ)
      → k.sched.registered t ≡ true
      → mem t k.sched.queue ≡ false
      → Returns (Holds env t) (on_arrival sc env now k t)
  unfolding on_arrival dispatch
  on_arrival-Holds sc t known out =
      Returns-bind (Inserted env now k.sched t) (Holds env t) (Scheduler.insert env now k.sched t) _
        (insert-Inserted env u now k.sched t v.queue_valid known out)
        λ s x.
          let (w, h) = Inserted-Holds t s x in
          if_both (Holds env t) (not k.is_context_switching)
            (λ _. (record { queue_valid = w.queue_valid; running = w.running }, h))
            (λ _. (record { queue_valid = w.queue_valid; running = w.running }, h))

  pub activate-Holds :
      (t : ℕ)
      → k.sched.registered t ≡ true
      → mem t k.sched.queue ≡ false
      → Returns (Holds env t) (activate env now k t)
  unfolding activate
  activate-Holds t known out =
      Returns-bind (Inserted env now k.sched t) (Holds env t) (Scheduler.insert env now k.sched t) _
        (insert-Inserted env u now k.sched t v.queue_valid known out) λ s x. Inserted-Holds t s x

  -- A task that does not run leaves the queue and nothing else.
  Extracted-Lacks :
      (t : ℕ) (s : Scheduler)
      → Extracted env k.sched t s
      → opt_eq k.curr_exe (some t) ≡ false
      → Lacks env t (record k { sched = s })
  Extracted-Lacks t s x idle = (
    record {
      queue_valid = x.valid;
      running = λ z e. elim (Bool-cases (t == z)) [
        | inl p ↦ let q : t ≡ z = ground arith in absurd (absurd_eq k.curr_exe idle (rw q e))
        | inr d ↦ x.others z d ∙ v.running z e
      ];
    },
    x.gone,
  )
    where
      absurd_eq : (o : Option ℕ) → opt_eq o (some t) ≡ false → o ≡ some t → ⊥
      absurd_eq o h e = ground (arith, opt_eq_refl (some t))

  -- A suspension, also of the task that runs.
  pub suspend-Lacks : (t : ℕ) → mem t k.sched.queue ≡ true → Returns (Lacks env t) (suspend k t)
  unfolding suspend
  suspend-Lacks t in_queue =
      Returns-bind (Extracted env k.sched t) (Lacks env t) (Scheduler.extract k.sched t) _
        (extract-Extracted env u k.sched t v.queue_valid in_queue)
        λ s x.
          if_both (Lacks env t) (opt_eq k.curr_exe (some t))
            (λ _. (record { queue_valid = x.valid; running = λ z e. cc }, x.gone))
            (λ idle. Extracted-Lacks t s x idle)

  -- A task is terminated only if the kernel neither runs it nor switches to it.
  pub terminate-Lacks :
      (t : ℕ)
      → mem t k.sched.queue ≡ true
      → opt_eq k.curr_exe (some t) ≡ false
      → Returns (Lacks env t) (terminate k t)
  unfolding terminate
  terminate-Lacks t in_queue idle =
      Returns-bind (Extracted env k.sched t) (Lacks env t) (Scheduler.extract k.sched t) _
        (extract-Extracted env u k.sched t v.queue_valid in_queue) λ s x. Extracted-Lacks t s x idle

  -- The end of an instance.
  pub on_end-Lacks : (t : ℕ) → mem t k.sched.queue ≡ true → Returns (Lacks env t) (on_end k t)
  unfolding on_end dispatch
  on_end-Lacks t in_queue =
      Returns-bind (Extracted env k.sched t) (Lacks env t) (Scheduler.extract k.sched t) _
        (extract-Extracted env u k.sched t v.queue_valid in_queue)
        λ s x.
          if_both (Lacks env t) (not (PList.empty s.queue))
            (λ _. (record { queue_valid = x.valid; running = λ z e. cc }, x.gone))
            (λ _. (record { queue_valid = x.valid; running = λ z e. cc }, x.gone))
