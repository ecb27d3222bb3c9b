-- ===== src/Scheduler/Invariant.antt =====
-- The invariant of the ready queue: it is sorted, and its tasks are the active ones.
use sys_rt.Common.{
  ℕ, ◌≡◌, refl, sym, ◌∙◌, subst, inl, inr, Bool, true, false, ok, fault, arith, ◌==◌, ==_refl,
  Bool-cases, mem, update, Returns, Returns-inv,
}
use sys_rt.PList
use sys_rt.Scheduler.Unqueued.{differs, Sorted-update}
use sys_rt.PList.Order.{Sorted, insert-Sorted, mem-insert_self, mem-insert_ne}
use sys_rt.PList.Erase.{
  remove, erase-mem, erase-not_mem, mem-remove_ne, mem-remove_self, mem_of_mem-remove,
  remove-Sorted,
}
use sys_rt.TaskModel.{TaskAttrs, TaskModel, set_active, set_inactive, precedes, set_preemtive}
use sys_rt.TaskModel.Order.{IsNumbered, precedes-IsStrictOrder}
use sys_rt.Scheduler.{
  SchedulerClass, matches, Scheduler, set_model, insert, extract, released, new_run,
}

pub record IsValid (env : ℕ → TaskAttrs) (s : Scheduler) : Type 0 where
  pub sorted : Sorted (precedes env s.model) s.queue
  pub queued :
      (t : ℕ) → mem t s.queue ≡ true → (s.registered t ≡ true) × ((s.model t).active ≡ true)
  pub listed : (t : ℕ) → s.registered t ≡ true → (s.model t).active ≡ true → mem t s.queue ≡ true
  pub typed : (t : ℕ) → s.registered t ≡ true → matches s.class (s.model t).policy ≡ true

-- The queue and the models after `insert` of t at the time `now`.
pub record Inserted (env : ℕ → TaskAttrs) (now : ℕ) (s : Scheduler) (t : ℕ) (s' : Scheduler)
    : Type 0 where
  pub valid : IsValid env s'
  pub member : mem t s'.queue ≡ true
  pub others : (z : ℕ) → (t == z) ≡ false → mem z s'.queue ≡ mem z s.queue
  pub known_kept : s'.registered ≡ s.registered
  pub stamped : (s'.model t).insert_time ≡ now
  pub policy_kept : (s'.model t).policy ≡ (s.model t).policy
  pub priorities_kept : s'.old_priorities ≡ s.old_priorities
  pub class_kept : s'.class ≡ s.class
  pub models_kept : (z : ℕ) → (t == z) ≡ false → s'.model z ≡ s.model z

pub record Extracted (env : ℕ → TaskAttrs) (s : Scheduler) (t : ℕ) (s' : Scheduler) : Type 0 where
  pub valid : IsValid env s'
  pub gone : mem t s'.queue ≡ false
  pub others : (z : ℕ) → (t == z) ≡ false → mem z s'.queue ≡ mem z s.queue
  pub known_kept : s'.registered ≡ s.registered
  pub priorities_kept : s'.old_priorities ≡ s.old_priorities
  pub class_kept : s'.class ≡ s.class
  pub stopped : (s'.model t).active ≡ false
  pub released_model : released s.class (s.model t) ≡ ok (s'.model t)
  pub models_kept : (z : ℕ) → (t == z) ≡ false → s'.model z ≡ s.model z

typed_update :
    {env : ℕ → TaskAttrs} (s : Scheduler) (t : ℕ) (m : TaskModel)
    → IsValid env s
    → matches s.class m.policy ≡ true
    → (z : ℕ) → s.registered z ≡ true
    → matches s.class (update s.model t m z).policy ≡ true
typed_update s t m v fit z known = elim (Bool-cases (t == z)) [
  | inl e ↦ rw e fit
  | inr e ↦ rw e (v.typed z known)
]

abbrev pub Stopped : SchedulerClass → TaskModel → Type 0
Stopped c m = (m.active ≡ false) × (matches c m.policy ≡ true)

released-Stopped :
    (c : SchedulerClass) (m : TaskModel)
    → matches c m.policy ≡ true
    → Returns (Stopped c) (released c m)
unfolding released set_inactive set_preemtive
released-Stopped c m h = ground arith

module _ (env : ℕ → TaskAttrs) (u : IsNumbered env) where
  enqueued-IsValid :
      (s : Scheduler) (t : ℕ) (m : TaskModel)
      → IsValid env s
      → s.registered t ≡ true
      → mem t s.queue ≡ false
      → m.active ≡ true
      → matches s.class m.policy ≡ true
      → IsValid env (record s {
        model = update s.model t m;
        queue = PList.insert (precedes env (update s.model t m)) t s.queue;
      })
  enqueued-IsValid s t m v known out on fit = record {
    typed = typed_update s t m v fit;
    sorted = insert-Sorted lt order t s.queue (Sorted-update env s.model s.queue t m out v.sorted);
    queued = λ z p. elim (Bool-cases (t == z)) [
      | inl e ↦
          let same : t ≡ z = ground arith in
          (subst (λ a. s.registered a ≡ true) same known, rw e on)
      | inr e ↦
          let old = v.queued z (sym (mem-insert_ne lt t z s.queue e) ∙ p) in (old.0, rw e old.1)
    ];
    listed = λ z p r. elim (Bool-cases (t == z)) [
      | inl e ↦
          let same : t ≡ z = ground arith in
          subst (λ a. mem a (PList.insert lt t s.queue) ≡ true) same
            (mem-insert_self lt order t s.queue)
      | inr e ↦ mem-insert_ne lt t z s.queue e ∙ v.listed z p (rw e at r)
    ];
  }
    where
      lt : ℕ → ℕ → Bool
      lt = precedes env (update s.model t m)

      order : PList.IsStrictOrder lt
      order = precedes-IsStrictOrder env (update s.model t m) u

  -- On a valid queue, insert of a known task that is not queued returns a valid queue with that
  -- task added, stamped with the present as its insertion time and with its policy kept, and all
  -- other tasks and models unchanged.
  pub insert-Inserted :
      (now : ℕ) (s : Scheduler) (t : ℕ)
      → IsValid env s
      → s.registered t ≡ true
      → mem t s.queue ≡ false
      → Returns (Inserted env now s t) (insert env now s t)
  unfolding insert set_active
  insert-Inserted now s t v known out = rw known (record {
    valid = enqueued-IsValid s t m v known out refl (v.typed t known);
    member = mem-insert_self lt (precedes-IsStrictOrder env (update s.model t m) u) t s.queue;
    others = λ z e. mem-insert_ne lt t z s.queue e;
    known_kept = refl;
    stamped = rw (==_refl t);
    policy_kept = rw (==_refl t);
    priorities_kept = refl;
    class_kept = refl;
    models_kept = λ z e. rw e;
  })
    where
      m : TaskModel
      m = record (s.model t) { active = true; insert_time = now }

      lt : ℕ → ℕ → Bool
      lt = precedes env (update s.model t m)

  dequeued-IsValid :
      (s : Scheduler) (t : ℕ) (m : TaskModel)
      → IsValid env s
      → m.active ≡ false
      → matches s.class m.policy ≡ true
      → IsValid env (record s { model = update s.model t m; queue = remove t s.queue })
  dequeued-IsValid s t m v off fit = record {
    typed = typed_update s t m v fit;
    sorted =
        Sorted-update env s.model (remove t s.queue) t m gone
          (remove-Sorted (precedes env s.model) t s.queue v.sorted);
    queued = λ z p.
        let e = differs t z (remove t s.queue) gone p in
        let old = v.queued z (mem_of_mem-remove t z s.queue p) in (old.0, rw e old.1);
    listed = λ z p r. elim (Bool-cases (t == z)) [
      | inl e ↦ absurd (clash off (rw e at r))
      | inr e ↦ mem-remove_ne t z s.queue e ∙ v.listed z p (rw e at r)
    ];
  }
    where
      gone : mem t (remove t s.queue) ≡ false
      gone =
          mem-remove_self (precedes env s.model) (precedes-IsStrictOrder env s.model u) t s.queue
            v.sorted

      clash : m.active ≡ false → m.active ≡ true → ⊥
      clash h k = ground arith

  -- Writing an inactive model of a task that is not queued.
  pub set_model-IsValid :
      (s : Scheduler) (t : ℕ) (m : TaskModel)
      → IsValid env s
      → mem t s.queue ≡ false
      → m.active ≡ false
      → matches s.class m.policy ≡ true
      → IsValid env (set_model s t m)
  unfolding set_model
  set_model-IsValid s t m v out off fit = record {
    typed = typed_update s t m v fit;
    sorted = Sorted-update env s.model s.queue t m out v.sorted;
    queued = λ z p. let e = differs t z s.queue out p in rw e (v.queued z p);
    listed = λ z p r. elim (Bool-cases (t == z)) [
      | inl e ↦ absurd (clash off (rw e at r))
      | inr e ↦ v.listed z p (rw e at r)
    ];
  }
    where
      clash : m.active ≡ false → m.active ≡ true → ⊥
      clash h k = ground arith

  -- On a valid queue, extract of a queued task returns a valid queue without that task, its model
  -- inactive, and all other tasks and models unchanged.
  pub extract-Extracted :
      (s : Scheduler) (t : ℕ)
      → IsValid env s
      → mem t s.queue ≡ true
      → Returns (Extracted env s t) (extract s t)
  unfolding extract set_model
  extract-Extracted s t v in_queue =
      let known : s.registered t ≡ true = (v.queued t in_queue).0 in
      let (m, e, stop) =
        Returns-inv (Stopped s.class) (released s.class (s.model t))
          (released-Stopped s.class (s.model t) (v.typed t known)) in
      rw (known, erase-mem t s.queue in_queue, e)
        (record {
          valid = dequeued-IsValid s t m v stop.0 stop.1;
          gone =
              mem-remove_self (precedes env s.model) (precedes-IsStrictOrder env s.model u) t
                s.queue v.sorted;
          others = λ z d. mem-remove_ne t z s.queue d;
          known_kept = refl;
          priorities_kept = refl;
          class_kept = refl;
          stopped = rw (==_refl t) stop.0;
          released_model = rw (==_refl t) e;
          models_kept = λ z d. rw d;
        })

-- extract of a task that is known but not queued erases the end iterator, which is undefined.
pub extract-not_queued :
    (s : Scheduler) (t : ℕ) → s.registered t ≡ true → mem t s.queue ≡ false → extract s t ≡ fault
unfolding extract
extract-not_queued s t known out = rw (known, erase-not_mem t s.queue out)

-- A new run empties the queue and deactivates the models.
pub new_run-IsValid :
    (env : ℕ → TaskAttrs) (s : Scheduler) → IsValid env s → IsValid env (new_run s)
unfolding new_run set_inactive
new_run-IsValid env s v = record {
  typed = λ t p. rw p (v.typed t p);
  sorted = tt;
  queued = λ t p. absurd (ground arith);
  listed = λ t p r. absurd (ground arith);
}
