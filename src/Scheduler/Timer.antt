-- ===== src/Scheduler/Timer.antt =====
-- What notify calls of events is about the timer of the round-robin scheduler alone.
use sys_rt.Common.{
  ℕ, ◌≡◌, refl, Bool, false, Option, none, some, List, [], ◌∷◌, if◌then◌else◌, arith, ok, >>=-eq-ok,
  Bool-cases, inl, inr, ltb, subst, or_throw, task_not_found,
}
use sys_rt.Sim.{Event, EventCall, notify_after, cancel, rr_evt}
use sys_rt.Sim.Outstanding.{outstanding}
use sys_rt.TaskModel.{TaskAttrs}
use sys_rt.Scheduler.{
  SchedulerClass, fp_scheduler, edf_scheduler, fifo_scheduler, ngedf_scheduler, rr_scheduler,
  Scheduler,
}
use sys_rt.Scheduler.Notify

module _ (is : Event → Bool) (b : Bool) (other : is rr_evt ≡ false) where
  -- What a scheduler calls of its slice timer concerns no processor.
  rr_notify-apart :
      (s : Scheduler) (t : Option ℕ) {es : List EventCall}
      → Notify.rr_notify s t ≡ ok es
      → outstanding is b es ≡ b
  unfolding Notify.rr_notify
  rr_notify-apart s none {es} e =
      let w : cancel rr_evt ∷ [] ≡ es = cc in subst (λ y. outstanding is b y ≡ b) w (rw other refl)
  rr_notify-apart s (some t) {es} e =
      let (slice, _, q) = >>=-eq-ok (or_throw (Notify.find_slice s t) task_not_found) _ e in
      let w : cancel rr_evt ∷ (if ltb 0 slice then notify_after rr_evt slice ∷ [] else []) ≡ es =
        cc in
      subst (λ y. outstanding is b y ≡ b) w
        (elim (Bool-cases (ltb 0 slice)) [
          | inl h ↦ rw (h, other) refl
          | inr h ↦ rw (h, other) refl
        ])

  notify_as-apart :
      (c : SchedulerClass) (env : ℕ → TaskAttrs) (now : ℕ) (s : Scheduler) (t : Option ℕ)
      {r : Scheduler × List EventCall}
      → Notify.notify_as c env now s t ≡ ok r
      → outstanding is b r.1 ≡ b
  unfolding Notify.notify_as
  notify_as-apart fp_scheduler env now s t e = ground (arith)
  notify_as-apart edf_scheduler env now s t e = ground (arith)
  notify_as-apart fifo_scheduler env now s t e = ground (arith)
  notify_as-apart ngedf_scheduler env now s t e =
      let (_, _, q) = >>=-eq-ok (Notify.enable_nonpreemt env now (Notify.notify_base s t) t) _ e in
      ground (arith, q)
  notify_as-apart (rr_scheduler slice) env now s t {r} e =
      let (es, h, q) = >>=-eq-ok (Notify.rr_notify s t) _ e in
      let w : (s, es) ≡ r = cc in subst (λ y. outstanding is b y.1 ≡ b) w (rr_notify-apart s t h)

  pub notify-apart :
      (env : ℕ → TaskAttrs) (now : ℕ) (s : Scheduler) (t : Option ℕ)
      {r : Scheduler × List EventCall}
      → Notify.notify env now s t ≡ ok r
      → outstanding is b r.1 ≡ b
  unfolding Notify.notify
  notify-apart env now s t e = notify_as-apart s.class env now s t e
