-- ===== src/Kernel/Dispatch.antt =====
-- The two halves of a dispatch: the choice of the task, and the end of the context switch.
use sys_rt.Common.{
  ℕ, ◌≡◌, refl, sym, ◌∙◌, subst, ◌⊎◌, inl, inr, true, false, none, some, [], ◌∷◌, ◌++◌, ok, fault,
  arith, ◌==◌, Bool-cases, Option-cases, opt_eq, opt_eq_refl, opt_eq→eq, mem, Returns, Returns-bind,
  Returns-map, >>=-eq-ok, deref-bind,
}
use sys_rt.Sim.{notify_after, end_dispatch_evt}
use sys_rt.TaskModel.{TaskAttrs}
use sys_rt.TaskModel.Order.{IsNumbered}
use sys_rt.Scheduler
use sys_rt.Scheduler.{Scheduler, get_first}
use sys_rt.Scheduler.Selection.{IsReady, Outranks, get_first-Outranks, get_first-none}
use sys_rt.Scheduler.Notify
use sys_rt.Scheduler.Notified.{Kept, notify-Kept}
use sys_rt.Kernel.{
  Kernel, emit, task_schedule, task_deschedule, notify_sched, preempt, switch_to, suspend,
  on_begin_dispatch, on_end_dispatch,
}
use sys_rt.Scheduler.Invariant.{IsValid as QueueIsValid}
use sys_rt.Kernel.Invariant.{IsValid}

-- A valid kernel whose task is t.
abbrev pub Runs : (ℕ → TaskAttrs) → ℕ → Kernel → Type 0
Runs env t k = IsValid env k × (k.curr_exe ≡ some t)

-- When the first task of the queue is not the one that runs, onBeginDispatch deschedules the
-- running task, remembers it, and starts a context switch to the first task that ends after the
-- context switch delay.
pub on_begin_dispatch-preempts :
    (env : ℕ → TaskAttrs) (now : ℕ) (k : Kernel) (c t : ℕ)
    → k.curr_exe ≡ some c
    → get_first k.sched ≡ some t
    → (c == t) ≡ false
    → on_begin_dispatch env now k
      ≡ ok (record k {
        curr_exe = some t;
        pre_exe = some c;
        is_context_switching = true;
        start_context_switch = now;
        calls =
            (k.calls ++ task_deschedule c)
            ++ notify_after end_dispatch_evt k.context_switch_delay ∷ [];
      })
unfolding on_begin_dispatch
on_begin_dispatch-preempts env now k c t running first other = ground (arith)

-- The task that ran last goes on at once, with no context switch.
pub on_begin_dispatch-resumes :
    (env : ℕ → TaskAttrs) (now : ℕ) (k : Kernel) (t : ℕ)
    → k.curr_exe ≡ none
    → k.pre_exe ≡ some t
    → get_first k.sched ≡ some t
    → on_begin_dispatch env now k
      ≡ notify_sched env now (emit (record k { curr_exe = some t }) (task_schedule t)) (some t)
unfolding on_begin_dispatch
on_begin_dispatch-resumes env now k t idle last first = ground (arith, opt_eq_refl (some t))

module _ (env : ℕ → TaskAttrs) (u : IsNumbered env) (now : ℕ) where
  notify_sched-Runs :
      (k : Kernel) (t : ℕ)
      → IsValid env k
      → k.curr_exe ≡ some t
      → mem t k.sched.queue ≡ true
      → Returns
          (λ k'. Runs env t k' × (k'.is_context_switching ≡ k.is_context_switching))
          (notify_sched env now k (some t))
  unfolding notify_sched
  notify_sched-Runs k t v e in_queue =
      Returns-bind (λ r. Kept env k.sched r.0) _ (Notify.notify env now k.sched (some t)) _
        (notify-Kept env u now k.sched v.queue_valid t in_queue)
        λ r x. (
          (record { queue_valid = x.valid; running = λ z p. x.members z ∙ v.running z p }, e),
          refl,
        )

  -- With no ready task there is none that runs, and nothing happens.
  pub on_begin_dispatch-idle :
      (k : Kernel) → IsValid env k → get_first k.sched ≡ none → on_begin_dispatch env now k ≡ ok k
  unfolding on_begin_dispatch
  on_begin_dispatch-idle k v e = elim (Option-cases k.curr_exe) [
    | inl idle ↦ rw (e, idle, opt_eq) refl
    | inr (c, running) ↦ absurd (
        (get_first-none env k.sched v.queue_valid).0 e c
          (v.queue_valid.queued c (v.running c running)))
  ]

  switch_to-Runs :
      (k : Kernel) (t : ℕ)
      → QueueIsValid env k.sched
      → mem t k.sched.queue ≡ true
      → Returns (Runs env t) (switch_to env now k (some t))
  unfolding switch_to
  switch_to-Runs k t w in_queue = elim (Bool-cases (opt_eq (some t) k.pre_exe)) [
    | inl last ↦
        let k' = emit (record k { curr_exe = some t }) (task_schedule t) in
        let v : IsValid env k' = record {
          queue_valid = w;
          running = λ z p. let q : t ≡ z = cc in subst (λ y. mem y k.sched.queue ≡ true) q in_queue;
        } in
        rw (last, switch_to)
          (Returns-map _ (Runs env t) (notify_sched env now k' (some t))
            (notify_sched-Runs k' t v refl in_queue) λ k'' r. r.0)
    | inr other ↦
        rw (other, switch_to)
          (
            record {
              queue_valid = w;
              running =
                  λ z p. let q : t ≡ z = cc in subst (λ y. mem y k.sched.queue ≡ true) q in_queue;
            },
            refl,
          )
  ]

  pub preempt-sched : (k : Kernel) → (preempt k).sched ≡ k.sched
  unfolding preempt
  preempt-sched k = ground arith

  -- A dispatch leaves the kernel with the first task of the queue, running or being switched to.
  pub on_begin_dispatch-Runs :
      (k : Kernel) (t : ℕ)
      → IsValid env k
      → get_first k.sched ≡ some t
      → Returns (Runs env t) (on_begin_dispatch env now k)
  unfolding on_begin_dispatch
  on_begin_dispatch-Runs k t v first =
      let ready = (get_first-Outranks env k.sched t v.queue_valid first).0 in
      let in_queue = v.queue_valid.listed t ready.0 ready.1 in
      elim (Bool-cases (opt_eq k.curr_exe (some t))) [
        | inl same ↦ rw (first, same) (v, opt_eq→eq k.curr_exe (some t) same)
        | inr other ↦
            rw (first, other)
              (switch_to-Runs (preempt k) t (rw preempt-sched v.queue_valid)
                (rw preempt-sched in_queue))
      ]

  -- For tasks with distinct numbers, onBeginDispatch of a valid kernel returns a valid kernel,
  -- and for every task that is ready it has a current task, running or being switched to, that is
  -- that task or outranks it: lower priority value, then earlier insertion, then lower number.
  pub on_begin_dispatch-Outranks :
      (k : Kernel)
      → IsValid env k
      → Returns
          (λ k'.
            IsValid env k'
            × ((z : ℕ)
                → IsReady k.sched z
                → (t : ℕ) × (k'.curr_exe ≡ some t) × ((t ≡ z) ⊎ Outranks env k.sched t z)))
          (on_begin_dispatch env now k)
  on_begin_dispatch-Outranks k v = elim (Option-cases (get_first k.sched)) [
    | inl e ↦
        rw (on_begin_dispatch-idle k v e)
          (v, λ z ready. absurd ((get_first-none env k.sched v.queue_valid).0 e z ready))
    | inr (t, e) ↦
        Returns-map (Runs env t) _ (on_begin_dispatch env now k) (on_begin_dispatch-Runs k t v e)
          λ k' (w, runs).
            (w, λ z ready. (t, runs, (get_first-Outranks env k.sched t v.queue_valid e).1 z ready))
  ]

  -- For tasks with distinct numbers, onEndDispatch of a valid kernel with a current task returns
  -- a valid kernel with the same current task and with the context switch over.
  pub on_end_dispatch-Runs :
      (k : Kernel) (t : ℕ)
      → IsValid env k
      → k.curr_exe ≡ some t
      → Returns
          (λ k'. Runs env t k' × (k'.is_context_switching ≡ false))
          (on_end_dispatch env now k)
  unfolding on_end_dispatch
  on_end_dispatch-Runs k t v e =
      let k' = record (emit k (task_schedule t)) { is_context_switching = false } in
      subst (Returns (λ k''. Runs env t k'' × (k''.is_context_switching ≡ false)))
        (sym (deref-bind k.curr_exe t _ e))
        (notify_sched-Runs k' t (record { queue_valid = v.queue_valid; running = v.running }) e
          (v.running t e))

-- After a suspension of the current task that returns, onEndDispatch follows a NULL pointer.
pub on_end_dispatch-suspend :
    (env : ℕ → TaskAttrs) (now : ℕ) (k k' : Kernel) (t : ℕ)
    → k.curr_exe ≡ some t
    → suspend k t ≡ ok k'
    → on_end_dispatch env now k' ≡ fault
unfolding suspend on_end_dispatch
on_end_dispatch-suspend env now k k' t e h =
    let (s, p, q) = >>=-eq-ok (Scheduler.extract k.sched t) _ h in
    let idle : k'.curr_exe ≡ none = ground (arith, q, opt_eq_refl (some t)) in
    rw (idle, on_end_dispatch) refl
