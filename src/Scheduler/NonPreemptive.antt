-- ===== src/Scheduler/NonPreemptive.antt =====
-- NGEDF: the task that runs cannot be outranked.
use sys_rt.Common.{
  ℕ, ◌<◌, ◌≡◌, refl, sym, ◌∙◌, subst, List, inl, inr, Bool, true, false, none, some, throw, arith,
  ◌==◌, ==_refl, Bool-cases, Option-cases, mem, Returns, Returns-bind, Returns-map, task_not_found,
}
use sys_rt.Sim.{EventCall}
use sys_rt.TaskModel.{TaskAttrs, Policy, ngedf_model, get_priority, set_nonpreemtive}
use sys_rt.TaskModel.Order.{IsNumbered, Lexicographic}
use sys_rt.Scheduler.{ngedf_scheduler, matches, Scheduler, set_model, extract, get_first}
use sys_rt.Scheduler.Notify.{notify, notify_as, enable_nonpreemt, notify_base}
use sys_rt.Scheduler.Invariant.{
  IsValid, Inserted, insert-Inserted, Extracted, extract-Extracted, set_model-IsValid,
}
use sys_rt.Scheduler.Selection.{Outranks, get_first-Outranks, get_first-none}

-- The model of an NGEDF task that runs.
abbrev pub IsNonPreemptive : Policy → Type 0
IsNonPreemptive p = (ext_p : Bool) × (prio : ℕ) × (p ≡ ngedf_model false ext_p prio)

ngedf-set_nonpreemtive :
    (p : Policy) → matches ngedf_scheduler p ≡ true → Returns IsNonPreemptive (set_nonpreemtive p)
unfolding set_nonpreemtive
ngedf-set_nonpreemtive (ngedf_model b e q) h = (e, q, refl)
ngedf-set_nonpreemtive p h = absurd (ground arith)

-- notify of NULL throws: an idle processor is not expected.
pub ngedf-notify_null :
    (env : ℕ → TaskAttrs) (now : ℕ) (s : Scheduler)
    → s.class ≡ ngedf_scheduler
    → notify env now s none ≡ throw task_not_found
unfolding notify notify_as enable_nonpreemt notify_base
ngedf-notify_null env now s cls =
    subst (λ c. notify_as c env now s none ≡ throw task_not_found) (sym cls) refl

-- A task that its deadline ranks.
abbrev IsPreemptive : (ℕ → TaskAttrs) → Scheduler → ℕ → Type 0
IsPreemptive env s z =
    (ext_p : Bool) × (prio : ℕ) × ((s.model z).policy ≡ ngedf_model true ext_p prio)
    × (0 < (env z).deadline)

-- Against priority 0 a positive deadline does not win.
Outranks-zero :
    (env : ℕ → TaskAttrs) (s : Scheduler) (t f : ℕ)
    → IsNonPreemptive (s.model t).policy
    → IsPreemptive env s f
    → ¬ Outranks env s f t
unfolding get_priority
Outranks-zero env s t f (e, q, shape) (e', q', shape', late) o = lost (rw (shape, shape') at o)
  where
    lost :
        ¬ Lexicographic
          (env f).deadline
          (s.model f).insert_time
          (env f).task_number
          0
          (s.model t).insert_time
          (env t).task_number
    lost h = ground arith

abbrev pub Running : (ℕ → TaskAttrs) → Scheduler → ℕ → Scheduler → Type 0
Running env s t s' =
    IsValid env s'
    × (mem t s'.queue ≡ true)
    × IsNonPreemptive (s'.model t).policy
    × ((z : ℕ) → (t == z) ≡ false → (mem z s'.queue ≡ mem z s.queue) × (s'.model z ≡ s.model z))
    × (s'.registered ≡ s.registered)
    × (s'.class ≡ s.class)

module _ (env : ℕ → TaskAttrs) (u : IsNumbered env) (now : ℕ) (t : ℕ) where
  pub enable_nonpreemt-Running :
      (s : Scheduler)
      → IsValid env s
      → s.class ≡ ngedf_scheduler
      → mem t s.queue ≡ true
      → Returns (Running env s t) (enable_nonpreemt env now s (some t))
  unfolding enable_nonpreemt set_model
  enable_nonpreemt-Running s v cls in_queue =
      let known = (v.queued t in_queue).0 in
      rw known (
        Returns-bind (Extracted env s t) (Running env s t) (extract s t) _
          (extract-Extracted env u s t v in_queue)
          λ s₁ x.
            let known₁ : s₁.registered t ≡ true = rw x.known_kept known in
            let fit : matches ngedf_scheduler (s₁.model t).policy ≡ true =
              rw (x.class_kept ∙ cls) at (x.valid.typed t known₁) in
            Returns-bind IsNonPreemptive (Running env s t) (set_nonpreemtive (s₁.model t).policy) _
              (ngedf-set_nonpreemtive (s₁.model t).policy fit)
              λ p (e, q, shape).
                let m = record (s₁.model t) { policy = p } in
                let w =
                  set_model-IsValid env u s₁ t m x.valid x.gone x.stopped
                    (rw (x.class_kept, cls, shape) refl) in
                Returns-map (Inserted env now (set_model s₁ t m) t) (Running env s t) _
                  (insert-Inserted env u now (set_model s₁ t m) t w known₁ x.gone)
                  λ s₂ y. (
                    y.valid,
                    y.member,
                    (e, q, y.policy_kept ∙ rw (==_refl t) shape),
                    λ z d.
                        (y.others z d ∙ x.others z d, y.models_kept z d ∙ rw d (x.models_kept z d)),
                    y.known_kept ∙ x.known_kept,
                    y.class_kept ∙ x.class_kept,
                  ))

  first_of-Running :
      (s s' : Scheduler)
      → Running env s t s'
      → ((z : ℕ) → (t == z) ≡ false → mem z s.queue ≡ true → IsPreemptive env s z)
      → get_first s' ≡ some t
  first_of-Running s s' (w, queued, np, same, _, _) others = elim (Option-cases (get_first s')) [
    | inl e ↦ absurd ((get_first-none env s' w).0 e t (w.queued t queued))
    | inr (f, e) ↦ elim (Bool-cases (t == f)) [
      | inl p ↦ let q : t ≡ f = ground arith in rw q e
      | inr d ↦
          let (ready, best) = get_first-Outranks env s' f w e in
          let (q_eq, m_eq) = same f d in
          let old = others f d (sym q_eq ∙ w.listed f ready.0 ready.1) in
          let weak : IsPreemptive env s' f = (old.0, old.1, rw m_eq old.2, old.3) in
          elim (best t (w.queued t queued)) [
            | inl p ↦ absurd (ground arith)
            | inr o ↦ absurd (Outranks-zero env s' t f np weak o)
          ]
    ]
  ]

  -- Under NGEDF, notify of a queued task returns a valid queue whose first task it is, whatever
  -- the deadlines of the others, if those are preemptive and have positive deadlines.
  pub ngedf-notify-first :
      (s : Scheduler)
      → IsValid env s
      → s.class ≡ ngedf_scheduler
      → mem t s.queue ≡ true
      → ((z : ℕ) → (t == z) ≡ false → mem z s.queue ≡ true → IsPreemptive env s z)
      → Returns (λ r. IsValid env r.0 × (get_first r.0 ≡ some t)) (notify env now s (some t))
  unfolding notify notify_as notify_base
  ngedf-notify-first s v cls in_queue others =
      let s₀ = notify_base s (some t) in
      let v₀ : IsValid env s₀ = record {
        sorted = v.sorted;
        queued = v.queued;
        listed = v.listed;
        typed = v.typed;
      } in
      let First : Scheduler × List EventCall → Type 0 =
        λ r. IsValid env r.0 × (get_first r.0 ≡ some t) in
      subst (λ c. Returns First (notify_as c env now s (some t))) (sym cls)
        (Returns-bind (Running env s₀ t) First (enable_nonpreemt env now s₀ (some t)) _
          (enable_nonpreemt-Running s₀ v₀ cls in_queue)
          λ s' run. (run.0, first_of-Running s₀ s' run others))
