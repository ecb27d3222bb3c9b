-- ===== src/Scheduler/Notified.antt =====
-- What notify keeps, whatever the scheduler: a valid queue of the same tasks.
use sys_rt.Common.{
  ℕ, ◌≡◌, refl, sym, ◌∙◌, subst, inl, inr, true, Option, some, arith, ◌==◌, Bool-cases, mem,
  Returns, Returns-bind, List,
}
use sys_rt.Sim.{EventCall}
use sys_rt.TaskModel.{TaskAttrs, Policy, rr_model}
use sys_rt.TaskModel.Order.{IsNumbered}
use sys_rt.Scheduler.{
  SchedulerClass, matches, fp_scheduler, edf_scheduler, fifo_scheduler, ngedf_scheduler,
  rr_scheduler, Scheduler,
}
use sys_rt.Scheduler.Notify.{
  notify, notify_as, notify_base, rr_notify, find_slice, rr_slice_of, enable_nonpreemt,
}
use sys_rt.Scheduler.Invariant.{IsValid}
use sys_rt.Scheduler.NonPreemptive.{Running, enable_nonpreemt-Running}

-- Same tasks, known and queued.
pub record Kept (env : ℕ → TaskAttrs) (s s' : Scheduler) : Type 0 where
  pub valid : IsValid env s'
  pub members : (z : ℕ) → mem z s'.queue ≡ mem z s.queue
  pub known_kept : s'.registered ≡ s.registered
  pub class_kept : s'.class ≡ s.class

notify_base-Kept :
    (env : ℕ → TaskAttrs) (s : Scheduler) (t : Option ℕ)
    → IsValid env s
    → Kept env s (notify_base s t)
unfolding notify_base
notify_base-Kept env s t v = record {
  valid = record { sorted = v.sorted; queued = v.queued; listed = v.listed; typed = v.typed };
  members = λ z. refl;
  known_kept = refl;
  class_kept = refl;
}

rr_slice_of-matches :
    (slice : ℕ) (p : Policy)
    → matches (rr_scheduler slice) p ≡ true
    → (v : ℕ) × (rr_slice_of p ≡ some v)
unfolding rr_slice_of
rr_slice_of-matches slice (rr_model v) h = (v, refl)
rr_slice_of-matches slice p h = absurd (ground arith)

module _ (env : ℕ → TaskAttrs) (u : IsNumbered env) (now : ℕ) (s : Scheduler)
    (v : IsValid env s) where
  abbrev NotifyKept : Scheduler × List EventCall → Type 0
  NotifyKept r = Kept env s r.0

  rr_notify-Returns :
      (t slice : ℕ)
      → s.class ≡ rr_scheduler slice
      → mem t s.queue ≡ true
      → Returns (λ es. Unit {0}) (rr_notify s (some t))
  unfolding rr_notify find_slice
  rr_notify-Returns t slice cls in_queue =
      let known = (v.queued t in_queue).0 in
      let (w, e) = rr_slice_of-matches slice (s.model t).policy (rw cls at (v.typed t known)) in
      rw (known, e) tt

  Running-Kept :
      (t : ℕ) (s' : Scheduler)
      → mem t s.queue ≡ true
      → Running env (notify_base s (some t)) t s'
      → Kept env s s'
  unfolding notify_base
  Running-Kept t s' in_queue (w, queued, _, same, known, cls) = record {
    valid = w;
    known_kept = known;
    class_kept = cls;
    members = λ z. elim (Bool-cases (t == z)) [
      | inl e ↦
          let p : t ≡ z = ground arith in
          subst (λ y. mem y s'.queue ≡ mem y s.queue) p (queued ∙ sym in_queue)
      | inr d ↦ (same z d).0
    ];
  }

  notify_as-Kept :
      (c : SchedulerClass) (t : ℕ)
      → s.class ≡ c
      → mem t s.queue ≡ true
      → Returns NotifyKept (notify_as c env now s (some t))
  unfolding notify_as notify_base
  notify_as-Kept fp_scheduler t e in_queue = notify_base-Kept env s (some t) v
  notify_as-Kept edf_scheduler t e in_queue = notify_base-Kept env s (some t) v
  notify_as-Kept fifo_scheduler t e in_queue = notify_base-Kept env s (some t) v
  notify_as-Kept (rr_scheduler slice) t e in_queue =
      Returns-bind (λ es. Unit {0}) NotifyKept (rr_notify s (some t)) _
        (rr_notify-Returns t slice e in_queue)
        λ es _. record { valid = v; members = λ z. refl; known_kept = refl; class_kept = refl }
  notify_as-Kept ngedf_scheduler t e in_queue =
      let s₀ = notify_base s (some t) in
      Returns-bind (Running env s₀ t) NotifyKept (enable_nonpreemt env now s₀ (some t)) _
        (enable_nonpreemt-Running env u now t s₀ (notify_base-Kept env s (some t) v).valid e
          in_queue)
        λ s' run. Running-Kept t s' in_queue run

  -- For tasks with distinct numbers, notify of a queued task of a valid queue returns under each
  -- of the five schedulers, and keeps the queue valid with the same tasks in it.
  pub notify-Kept : (t : ℕ) → mem t s.queue ≡ true → Returns NotifyKept (notify env now s (some t))
  unfolding notify
  notify-Kept t in_queue = notify_as-Kept s.class t refl in_queue
