-- ===== src/Closed/Kernels.antt =====
-- src/kernel.cpp: what the handlers of RTKernel do to who executes.
use sys_rt.Common.{
  ℕ, ◌≡◌, refl, sym, ◌∙◌, inl, inr, Bool, true, false, not, Option, none, some, List, ok, >>=-eq-ok,
  arith, opt_eq, opt_eq→eq, Bool-cases, Option-cases, deref-bind, Returns_ok, if_both,
}
use sys_rt.Sim.{SimTime, EventCall}
use sys_rt.Sim.Outstanding.{outstanding}
use sys_rt.PList
use sys_rt.TaskModel.{TaskAttrs}
use sys_rt.Scheduler
use sys_rt.Scheduler.{Scheduler, get_first}
use sys_rt.Scheduler.Notify
use sys_rt.Scheduler.Timer.{notify-apart}
use sys_rt.TaskModel.Order.{IsNumbered}
use sys_rt.Kernel.{
  Kernel, emit, task_schedule, notify_sched, dispatch, preempt, switch_to, on_arrival, on_end,
  on_begin_dispatch, on_end_dispatch,
}
use sys_rt.Kernel.Invariant.{IsValid}
use sys_rt.Kernel.Dispatch.{
  on_begin_dispatch-idle, on_begin_dispatch-preempts, on_begin_dispatch-resumes,
}
use sys_rt.Closed.{is_sched, is_desched, is_ending, quiet}
use sys_rt.Closed.Turns
use sys_rt.Closed.Turns.{Turns}
use sys_rt.Closed.Calls.{Muted, emit-Muted}

-- The calls that start a dispatch.
emit-dispatch :
    (k : Kernel) (s : Scheduler) (es : List EventCall)
    → ((p : ℕ) (b : Bool) → outstanding (is_sched p) b es ≡ b)
    → ((p : ℕ) (b : Bool) → outstanding (is_desched p) b es ≡ b)
    → ((b : Bool) → outstanding is_ending b es ≡ b)
    → Muted k (emit (record k { sched = s }) es)
emit-dispatch k s es f g h =
    let m = emit-Muted (record k { sched = s }) es f g h in
    record {
      switching_kept = m.switching_kept;
      scheds_kept = m.scheds_kept;
      deschs_kept = m.deschs_kept;
      ending_kept = m.ending_kept;
    }

-- An arrival: the queue alone changes.
pub on_arrival-Muted :
    (sc : SimTime) (env : ℕ → TaskAttrs) (now : ℕ) (k : Kernel) (t : ℕ) {k' : Kernel}
    → on_arrival sc env now k t ≡ ok k'
    → Muted k k' × (k'.curr_exe ≡ k.curr_exe)
unfolding on_arrival dispatch
on_arrival-Muted sc env now k t {k'} e =
    let (s, _, h) = >>=-eq-ok (Scheduler.insert env now k.sched t) _ e in
    Returns_ok (λ q. Muted k q × (q.curr_exe ≡ k.curr_exe)) _
      (if_both {A = Kernel} (λ q. Muted k q × (q.curr_exe ≡ k.curr_exe))
        (not k.is_context_switching)
        (λ _. (emit-dispatch k s _ (λ p b. refl) (λ p b. refl) (λ b. refl), refl))
        (λ _. (emit-dispatch k s _ (λ p b. refl) (λ p b. refl) (λ b. refl), refl)))
      h

-- The end of an instance.
pub on_end-Muted : (k : Kernel) (t : ℕ) {k' : Kernel} → on_end k t ≡ ok k' → Muted k k'
unfolding on_end dispatch
on_end-Muted k t {k'} e =
    let (s, _, h) = >>=-eq-ok (Scheduler.extract k.sched t) _ e in
    Returns_ok (Muted k) _
      (if_both {A = Kernel} (Muted k) (not (PList.empty s.queue))
        (λ _.
          let m = emit-dispatch k s _ (λ p b. refl) (λ p b. refl) (λ b. refl) in
          record {
            switching_kept = m.switching_kept;
            scheds_kept = m.scheds_kept;
            deschs_kept = m.deschs_kept;
            ending_kept = m.ending_kept;
          })
        (λ _. record {
          switching_kept = refl;
          scheds_kept = λ p b. refl;
          deschs_kept = λ p b. refl;
          ending_kept = λ b. refl;
        }))
      h

-- What the scheduler is told of a task.
notify_sched-Muted :
    (env : ℕ → TaskAttrs) (now : ℕ) (k : Kernel) (t : Option ℕ) {k' : Kernel}
    → notify_sched env now k t ≡ ok k'
    → Muted k k' × (k'.curr_exe ≡ k.curr_exe)
unfolding notify_sched
notify_sched-Muted env now k t {k'} e =
    let (r, a, h) = >>=-eq-ok (Notify.notify env now k.sched t) _ e in
    Returns_ok (λ q. Muted k q × (q.curr_exe ≡ k.curr_exe)) _
      (
        emit-dispatch k r.0 r.1 (λ p b. notify-apart (is_sched p) b refl env now k.sched t a)
            (λ p b. notify-apart (is_desched p) b refl env now k.sched t a)
            (λ b. notify-apart is_ending b refl env now k.sched t a),
        refl,
      )
      h

module _ (env : ℕ → TaskAttrs) (u : IsNumbered env) (now : ℕ) (k : Kernel)
    (executes scheds deschs : ℕ → Bool) (ending : Bool)
    (c : Turns k.curr_exe k.is_context_switching executes scheds deschs)
    (still : (t : ℕ) → deschs t ≡ false) where
  -- Who executes after a handler that left the kernel k' with the calls that it made.
  abbrev pub After : Kernel → Type 0
  After k' =
      Turns k'.curr_exe k'.is_context_switching executes
        (λ p. outstanding (is_sched p) (scheds p) k'.calls)
        (λ p. outstanding (is_desched p) (deschs p) k'.calls)
      × (k'.is_context_switching ≡ true → outstanding is_ending ending k'.calls ≡ true)

  -- The first task goes on at once.
  resumes-Turns :
      (t : ℕ) {k' : Kernel}
      → k.curr_exe ≡ none
      → notify_sched env now
          (emit (record (quiet k) { curr_exe = some t }) (task_schedule t))
          (some t)
        ≡ ok k'
      → After k'
  resumes-Turns t {k'} idle e =
      let (m, cur) =
        notify_sched-Muted env now (emit (record (quiet k) { curr_exe = some t }) (task_schedule t))
          (some t) e in
      (
        Turns.Turns-carry _ _ _ _ _ (Turns.Turns-resume _ _ _ _ _ c t idle still) _ _ _ _ _ cur
            m.switching_kept (λ p. refl) (λ p. m.scheds_kept p (scheds p) ∙ ground arith)
            (λ p. m.deschs_kept p (deschs p)),
        λ on. absurd (c.target (sym m.switching_kept ∙ on) idle),
      )

  -- The kernel chooses another task.
  chooses-Turns :
      (t : ℕ) {k' : Kernel} (o : Option ℕ)
      → ((z : ℕ) → scheds z ≡ false)
      → get_first k.sched ≡ some t
      → k.curr_exe ≡ o
      → opt_eq o (some t) ≡ false
      → on_begin_dispatch env now (quiet k) ≡ ok k'
      → After k'
  unfolding on_begin_dispatch preempt switch_to
  chooses-Turns t {k'} (some x) silent first cur other e =
      let w = sym (on_begin_dispatch-preempts env now (quiet k) x t cur first other) ∙ e in
      Returns_ok After _
        (
          Turns.Turns-carry _ _ _ _ _
              (Turns.Turns-switch _ _ _ _ _ c (some x) t cur (λ q. ground arith) silent still) _ _ _
              _ _ refl refl (λ p. refl) (λ p. ground (arith, silent p)) (λ p. ground arith),
          λ on. refl,
        )
        w
  chooses-Turns t {k'} none silent first cur other e =
      elim (Bool-cases (opt_eq (some t) k.pre_exe)) [
        | inl last ↦
            let pre : k.pre_exe ≡ some t = sym (opt_eq→eq (some t) k.pre_exe last) in
            resumes-Turns t cur
              (sym (on_begin_dispatch-resumes env now (quiet k) t cur pre first) ∙ e)
        | inr fresh ↦
            Returns_ok After _
              (
                Turns.Turns-carry _ _ _ _ _
                    (Turns.Turns-switch _ _ _ _ _ c none t cur (λ q. ground arith) silent still) _ _
                    _ _ _ refl refl (λ p. refl) (λ p. refl) (λ p. refl),
                λ on. refl,
              )
              (rw (first, cur, fresh) at e)
      ]

  pub on_begin_dispatch-Turns :
      {k' : Kernel}
      → IsValid env k
      → ((z : ℕ) → scheds z ≡ false)
      → (k.is_context_switching ≡ true → ending ≡ true)
      → on_begin_dispatch env now (quiet k) ≡ ok k'
      → After k'
  unfolding on_begin_dispatch
  on_begin_dispatch-Turns {k'} v silent ends e = elim (Option-cases (get_first k.sched)) [
    | inl empty ↦
        let v' : IsValid env (quiet k) = record {
          queue_valid = v.queue_valid;
          running = v.running;
        } in
        Returns_ok After _ (c, ends) (sym (on_begin_dispatch-idle env u now (quiet k) v' empty) ∙ e)
    | inr (t, first) ↦ elim (Bool-cases (opt_eq k.curr_exe (some t))) [
      | inl same ↦ Returns_ok After _ (c, ends) (rw (first, same) at e)
      | inr other ↦ chooses-Turns t k.curr_exe silent first refl other e
    ]
  ]

  -- The end of a context switch, which is on.
  pub on_end_dispatch-Turns :
      {k' : Kernel}
      → k.is_context_switching ≡ true
      → on_end_dispatch env now (quiet k) ≡ ok k'
      → After k'
  unfolding on_end_dispatch
  on_end_dispatch-Turns {k'} on e = elim (Option-cases k.curr_exe) [
    | inl none_runs ↦ absurd (c.target on none_runs)
    | inr (t, cur) ↦
        let kk = record (emit (quiet k) (task_schedule t)) { is_context_switching = false } in
        let (m, cur') =
          notify_sched-Muted env now kk (some t) (sym (deref-bind k.curr_exe t _ cur) ∙ e) in
        (
          Turns.Turns-carry _ _ _ _ _ (Turns.Turns-begin _ _ _ _ _ c t cur on still) _ _ _ _ _ cur'
              m.switching_kept (λ p. refl) (λ p. m.scheds_kept p (scheds p) ∙ ground arith)
              (λ p. m.deschs_kept p (deschs p)),
          λ h. absurd (ground (arith, m.switching_kept, h)),
        )
  ]
