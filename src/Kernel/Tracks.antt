-- ===== src/Kernel/Tracks.antt =====
-- Which tasks the handlers of RTKernel keep in the ready queue.
use sys_rt.Common.{
  ℕ, ◌≡◌, refl, inl, inr, true, false, not, if_both, some, Bool-cases, Option-cases, opt_eq, mem,
  Returns, Returns-bind, Returns-both, deref-bind, subst, sym,
}
use sys_rt.Sim.{SimTime}
use sys_rt.TaskModel.{TaskAttrs}
use sys_rt.TaskModel.Order.{IsNumbered}
use sys_rt.Scheduler
use sys_rt.Scheduler.{Scheduler, get_first}
use sys_rt.Scheduler.Invariant.{
  IsValid as QueueIsValid, Inserted, insert-Inserted, Extracted, extract-Extracted,
}
use sys_rt.Scheduler.Selection.{get_first-Outranks}
use sys_rt.Scheduler.Notify
use sys_rt.Scheduler.Notified.{Kept, notify-Kept}
use sys_rt.Kernel.{
  Kernel, emit, task_schedule, notify_sched, preempt, switch_to, suspend, activate, on_arrival,
  dispatch, on_begin_dispatch, on_end_dispatch,
}
use sys_rt.Kernel.Invariant.{
  IsValid, Holds, Lacks, suspend-sched, suspend-Lacks, activate-sched, activate-Holds,
  on_arrival-Holds,
}
use sys_rt.Kernel.Dispatch.{on_begin_dispatch-idle, preempt-sched}

module _ (env : ℕ → TaskAttrs) (u : IsNumbered env) (now : ℕ) where
  Kept-refl : (s : Scheduler) → QueueIsValid env s → Kept env s s
  Kept-refl s v = record { valid = v; members = λ z. refl; known_kept = refl; class_kept = refl }

  notify_sched-Kept :
      (k : Kernel) (t : ℕ)
      → QueueIsValid env k.sched
      → mem t k.sched.queue ≡ true
      → Returns (λ k'. Kept env k.sched k'.sched) (notify_sched env now k (some t))
  unfolding notify_sched
  notify_sched-Kept k t v in_queue =
      Returns-bind (λ r. Kept env k.sched r.0) _ (Notify.notify env now k.sched (some t)) _
        (notify-Kept env u now k.sched v t in_queue) λ r x. x

  switch_to-Kept :
      (k : Kernel) (t : ℕ)
      → QueueIsValid env k.sched
      → mem t k.sched.queue ≡ true
      → Returns (λ k'. Kept env k.sched k'.sched) (switch_to env now k (some t))
  unfolding switch_to
  switch_to-Kept k t v in_queue = elim (Bool-cases (opt_eq (some t) k.pre_exe)) [
    | inl last ↦
        rw (last, switch_to)
          (notify_sched-Kept (emit (record k { curr_exe = some t }) (task_schedule t)) t v in_queue)
    | inr other ↦ rw (other, switch_to) (Kept-refl k.sched v)
  ]

  pub on_begin_dispatch-Kept :
      (k : Kernel)
      → IsValid env k
      → Returns (λ k'. Kept env k.sched k'.sched) (on_begin_dispatch env now k)
  unfolding on_begin_dispatch
  on_begin_dispatch-Kept k v = elim (Option-cases (get_first k.sched)) [
    | inl e ↦
        subst (Returns (λ k'. Kept env k.sched k'.sched))
          (sym (on_begin_dispatch-idle env u now k v e)) (Kept-refl k.sched v.queue_valid)
    | inr (t, first) ↦
        let ready = (get_first-Outranks env k.sched t v.queue_valid first).0 in
        let in_queue = v.queue_valid.listed t ready.0 ready.1 in
        elim (Bool-cases (opt_eq k.curr_exe (some t))) [
          | inl same ↦ rw (first, same) (Kept-refl k.sched v.queue_valid)
          | inr other ↦
              rw (first, other)
                (subst
                  (λ s.
                    Returns (λ k'. Kept env s k'.sched) (switch_to env now (preempt k) (some t)))
                  (preempt-sched env u now k)
                  (switch_to-Kept (preempt k) t (rw (preempt-sched env u now k) v.queue_valid)
                    (rw (preempt-sched env u now k) in_queue)))
        ]
  ]

  pub on_end_dispatch-Kept :
      (k : Kernel) (t : ℕ)
      → IsValid env k
      → k.curr_exe ≡ some t
      → Returns (λ k'. Kept env k.sched k'.sched) (on_end_dispatch env now k)
  unfolding on_end_dispatch
  on_end_dispatch-Kept k t v e =
      let k₁ = record (emit k (task_schedule t)) { is_context_switching = false } in
      subst (Returns (λ k'. Kept env k.sched k'.sched)) (sym (deref-bind k.curr_exe t _ e))
        (notify_sched-Kept k₁ t v.queue_valid (v.running t e))

  -- A queued task leaves the queue, and the kernel stays valid.
  abbrev pub Suspended : Kernel → ℕ → Kernel → Type 0
  Suspended k t k' = IsValid env k' × Extracted env k.sched t k'.sched

  pub suspend-Suspended :
      (k : Kernel) (t : ℕ)
      → IsValid env k
      → mem t k.sched.queue ≡ true
      → Returns (Suspended k t) (suspend k t)
  suspend-Suspended k t v in_queue =
      Returns-both (Lacks env t) (λ k'. Extracted env k.sched t k'.sched) (Suspended k t)
        (suspend k t) (suspend-Lacks env u now k v t in_queue)
        (suspend-sched (Extracted env k.sched t) k t
          (extract-Extracted env u k.sched t v.queue_valid in_queue))
        λ k' l x. (l.0, x)

  abbrev pub Activated : Kernel → ℕ → Kernel → Type 0
  Activated k t k' = IsValid env k' × Inserted env now k.sched t k'.sched

  pub activate-Activated :
      (k : Kernel) (t : ℕ)
      → IsValid env k
      → k.sched.registered t ≡ true
      → mem t k.sched.queue ≡ false
      → Returns (Activated k t) (activate env now k t)
  activate-Activated k t v known out =
      Returns-both (Holds env t) (λ k'. Inserted env now k.sched t k'.sched) (Activated k t)
        (activate env now k t) (activate-Holds env u now k v t known out)
        (activate-sched (Inserted env now k.sched t) env now k t
          (insert-Inserted env u now k.sched t v.queue_valid known out))
        λ k' l x. (l.0, x)

  -- An arrival inserts the task, whenever the dispatch is to be.
  pub on_arrival-Activated :
      (sc : SimTime) (k : Kernel) (t : ℕ)
      → IsValid env k
      → k.sched.registered t ≡ true
      → mem t k.sched.queue ≡ false
      → Returns (Activated k t) (on_arrival sc env now k t)
  unfolding on_arrival dispatch
  on_arrival-Activated sc k t v known out =
      Returns-both (Holds env t) (λ k'. Inserted env now k.sched t k'.sched) (Activated k t)
        (on_arrival sc env now k t) (on_arrival-Holds env u now k v sc t known out)
        (Returns-bind (Inserted env now k.sched t) (λ k'. Inserted env now k.sched t k'.sched)
          (Scheduler.insert env now k.sched t) _
          (insert-Inserted env u now k.sched t v.queue_valid known out)
          λ s x.
            if_both {A = Kernel} (λ k'. Inserted env now k.sched t k'.sched)
              (not k.is_context_switching) (λ _. x) (λ _. x))
        λ k' l x. (l.0, x)
