-- ===== src/Scheduler/Threshold.antt =====
-- Preemption thresholds: raising a task to its threshold, and what lowering it does.
use sys_rt.Common.{
  ℕ, ◌≡◌, refl, ◌∙◌, sym, ap, inl, inr, ◌==◌, Bool-cases, true, false, ok, ◌>>=◌, arith, ==_refl,
  mem, update, Returns, Returns-bind, Returns-map, Returns-bind₂, to_int, from_int,
}
use sys_rt.PList.Order.{Sorted-congr}
use sys_rt.TaskModel.{
  TaskAttrs, TaskModel, precedes, task_model_cmp, set_inactive, fp_model, get_priority,
  change_priority,
}
use sys_rt.TaskModel.Order.{IsNumbered}
use sys_rt.Scheduler.{
  fp_scheduler, matches, Scheduler, set_model, insert, extract, released, set_priority,
  enable_threshold, disable_threshold,
}
use sys_rt.Scheduler.Invariant.{
  IsValid, Inserted, insert-Inserted, Extracted, extract-Extracted, set_model-IsValid,
}

-- A written model agrees with the old one in what the two models agree in.
update_agrees :
    {X : Type 0} (f : TaskModel → X) (model : ℕ → TaskModel) (t : ℕ) (m : TaskModel) (z : ℕ)
    → f m ≡ f (model t)
    → f (update model t m z) ≡ f (model z)
update_agrees f model t m z e = elim (Bool-cases (t == z)) [
  | inl p ↦ let q : t ≡ z = ground arith in rw p (e ∙ ap (λ y. f (model y)) q)
  | inr p ↦ rw p refl
]

-- The order of the queue does not read thresholds.
pub threshold-IsValid :
    (env : ℕ → TaskAttrs) (s : Scheduler) (t th : ℕ)
    → IsValid env s
    → IsValid env (set_model s t (record (s.model t) { threshold = th }))
unfolding set_model precedes task_model_cmp
threshold-IsValid env s t th v =
    let m = record (s.model t) { threshold = th } in
    let policies = λ (z : ℕ). update_agrees (λ y. y.policy) s.model t m z refl in
    let times = λ (z : ℕ). update_agrees (λ y. y.insert_time) s.model t m z refl in
    let actives = λ (z : ℕ). update_agrees (λ y. y.active) s.model t m z refl in
    record {
      sorted =
          Sorted-congr _ _ s.queue (λ a b p q. rw (policies a, policies b, times a, times b) refl)
            v.sorted;
      queued = λ z p. ((v.queued z p).0, actives z ∙ (v.queued z p).1);
      listed = λ z p q. v.listed z p (sym (actives z) ∙ q);
      typed = λ z p. ap (λ y. matches s.class y) (policies z) ∙ v.typed z p;
    }

abbrev pub Raised : (ℕ → TaskAttrs) → Scheduler → ℕ → ℕ → Scheduler × ℕ → Type 0
Raised env s t prio r =
    IsValid env r.0
    × (mem t r.0.queue ≡ true)
    × ((r.0.model t).policy ≡ fp_model (from_int (s.model t).threshold))
    × (r.0.old_priorities t ≡ to_int prio)
    × (r.1 ≡ (s.model t).threshold)
    × (r.0.class ≡ fp_scheduler)

-- changePriority of a fixed-priority model.
pub fp-set_priority :
    (env : ℕ → TaskAttrs) (s : Scheduler) (t old p : ℕ)
    → (s.model t).policy ≡ fp_model old
    → set_priority env s t p ≡ ok (set_model s t (record (s.model t) { policy = fp_model p }))
unfolding set_priority change_priority
fp-set_priority env s t old p pol = rw pol refl

-- A queued fixed-priority task out of the queue: its model is the old one, inactive.
abbrev pub Lowered : (ℕ → TaskAttrs) → Scheduler → ℕ → Scheduler → Type 0
Lowered env s t s' =
    Extracted env s t s' × (s'.model t ≡ set_inactive (s.model t)) × (s'.registered t ≡ true)

abbrev pub Reinserted : (ℕ → TaskAttrs) → Scheduler → ℕ → ℕ → Scheduler → Type 0
Reinserted env s t p s' =
    IsValid env s'
    × (mem t s'.queue ≡ true)
    × ((s'.model t).policy ≡ fp_model p)
    × (s'.old_priorities ≡ s.old_priorities)
    × (s'.class ≡ s.class)

module _ (env : ℕ → TaskAttrs) (u : IsNumbered env) (t : ℕ) where
  pub extract-Lowered :
      (s : Scheduler)
      → IsValid env s
      → s.class ≡ fp_scheduler
      → mem t s.queue ≡ true
      → Returns (Lowered env s t) (extract s t)
  unfolding released set_inactive
  extract-Lowered s v cls in_queue =
      Returns-map (Extracted env s t) (Lowered env s t) (extract s t)
        (extract-Extracted env u s t v in_queue)
        λ s' x. (x, ground (arith, x.released_model, cls), rw x.known_kept (v.queued t in_queue).0)

  module _ (now : ℕ) where
    -- A task out of the queue that gets a new fixed priority and is inserted again.
    reinserted :
        (s : Scheduler) (old p : ℕ)
        → IsValid env s
        → mem t s.queue ≡ false
        → s.registered t ≡ true
        → (s.model t).active ≡ false
        → (s.model t).policy ≡ fp_model old
        → s.class ≡ fp_scheduler
        → Returns (Reinserted env s t p) (set_priority env s t p >>= λ s₂. insert env now s₂ t)
    unfolding set_priority change_priority set_model
    reinserted s old p v out known off pol cls =
        let m = record (s.model t) { policy = fp_model p } in
        let w = set_model-IsValid env u s t m v out off (rw cls refl) in
        rw pol (
          Returns-map (Inserted env now (set_model s t m) t) (Reinserted env s t p)
            (insert env now (set_model s t m) t)
            (insert-Inserted env u now (set_model s t m) t w known out)
            λ s' x.
              (x.valid, x.member, x.policy_kept ∙ rw (==_refl t), x.priorities_kept, x.class_kept))

    -- For a queued fixed-priority task of a valid queue, enableThreshold returns a valid queue in
    -- which the task has its threshold as its priority, with the old priority stored.
    pub enable_threshold-raises :
        (s : Scheduler) (prio : ℕ)
        → IsValid env s
        → s.class ≡ fp_scheduler
        → mem t s.queue ≡ true
        → (s.model t).policy ≡ fp_model prio
        → Returns (Raised env s t prio) (enable_threshold env now s t)
    unfolding enable_threshold get_priority set_inactive
    enable_threshold-raises s prio v cls in_queue pol =
        rw ((v.queued t in_queue).0, pol)
          (Returns-bind (Lowered env s₀ t) (Raised env s t prio) (extract s₀ t) _
            (extract-Lowered s₀ v₀ cls in_queue)
            λ s₁ (x, e, known).
              Returns-bind₂ (Reinserted env s₁ t (from_int (s₁.model t).threshold))
                (Raised env s t prio) _ (λ s₂. insert env now s₂ t) _
                (reinserted s₁ prio _ x.valid x.gone known (rw e refl) (rw e pol)
                  (x.class_kept ∙ cls))
                λ s₃ (w, queued, raised, kept, cls₃). (
                  w,
                  queued,
                  raised ∙ rw e,
                  (rw (kept, x.priorities_kept) (rw (==_refl t))),
                  rw e,
                  cls₃ ∙ x.class_kept ∙ cls,
                ))
      where
        s₀ : Scheduler
        s₀ = record s { old_priorities = update s.old_priorities t (to_int prio) }

        v₀ : IsValid env s₀
        v₀ = record { sorted = v.sorted; queued = v.queued; listed = v.listed; typed = v.typed }

    -- disableThreshold puts the task back with the priority that it has: the one that
    -- enableThreshold remembered stays unused.
    pub disable_threshold-keeps :
        (s : Scheduler) (p : ℕ)
        → IsValid env s
        → s.class ≡ fp_scheduler
        → mem t s.queue ≡ true
        → (s.model t).policy ≡ fp_model p
        → Returns (Reinserted env s t p) (disable_threshold env now s t)
    unfolding disable_threshold get_priority set_inactive
    disable_threshold-keeps s p v cls in_queue pol = rw (v.queued t in_queue).0 (
        Returns-bind (Lowered env s t) (Reinserted env s t p) (extract s t) _
          (extract-Lowered s v cls in_queue)
          λ s₁ (x, e, known).
            let same : get_priority (env t) (s₁.model t).policy ≡ p = rw (e, pol) in
            rw same (
              Returns-map (Reinserted env s₁ t p) (Reinserted env s t p) _
                (reinserted s₁ p p x.valid x.gone known (rw e refl) (rw e pol) (x.class_kept ∙ cls))
                λ s₃ (w, queued, kept, prios, cls₃).
                  (w, queued, kept, prios ∙ x.priorities_kept, cls₃ ∙ x.class_kept)))

    -- For a queued fixed-priority task of a valid queue, enableThreshold and then
    -- disableThreshold return a valid queue in which the task still has its threshold as its
    -- priority, while the old priority stays stored and unused.
    pub disable_threshold-enable_threshold :
        (s : Scheduler) (prio : ℕ)
        → IsValid env s
        → s.class ≡ fp_scheduler
        → mem t s.queue ≡ true
        → (s.model t).policy ≡ fp_model prio
        → Returns
            (λ s'.
              IsValid env s'
              × (mem t s'.queue ≡ true)
              × ((s'.model t).policy ≡ fp_model (from_int (s.model t).threshold))
              × (s'.old_priorities t ≡ to_int prio))
            (enable_threshold env now s t >>= λ r. disable_threshold env now r.0 t)
    disable_threshold-enable_threshold s prio v cls in_queue pol =
        Returns-bind (Raised env s t prio) _ (enable_threshold env now s t) _
          (enable_threshold-raises s prio v cls in_queue pol)
          λ r (w, queued, raised, old, _, cls₁).
            Returns-map (Reinserted env r.0 t _) _ (disable_threshold env now r.0 t)
              (disable_threshold-keeps r.0 _ w cls₁ queued raised)
              λ s' (w', queued', kept, prios, _). (w', queued', kept, (rw prios old))
