-- ===== src/Resource/Inheritance/Protocol.antt =====
-- Priority inheritance with fixed priorities on RTKernel: what a request that has to wait does to the
-- owner, and what a release gives back.
use sys_rt.Common.{
  ℕ, ◌≡◌, refl, ◌∙◌, Bool, true, false, some, List, ◌∷◌, arith, ◌==◌, ==_refl, update, mem, Returns,
  Returns-bind, Returns-map,
}
use sys_rt.PList
use sys_rt.PList.Order.{mem-insert_self}
use sys_rt.TaskModel.{TaskAttrs, fp_model, get_priority, precedes, set_inactive}
use sys_rt.TaskModel.Order.{IsNumbered, precedes-IsStrictOrder}
use sys_rt.Scheduler
use sys_rt.Scheduler.{Scheduler, SchedulerClass, fp_scheduler, set_model}
use sys_rt.Scheduler.Invariant.{IsValid, Inserted, insert-Inserted, set_model-IsValid}
use sys_rt.PList.Erase.{front-head, erase-head}
use sys_rt.Scheduler.Threshold.{fp-set_priority, Lowered, extract-Lowered}
use sys_rt.Kernel
use sys_rt.Kernel.{Kernel}
use sys_rt.Kernel.Invariant.{suspend-sched, activate-sched}
use sys_rt.Resource.{lock, unlock, is_locked, rt_kernel}
use sys_rt.Resource.Inheritance.{Pir, known, request, inherit, release, hand_over}

module _ (env : ℕ → TaskAttrs) (u : IsNumbered env) (from_ps : ℕ → ℕ) (now : ℕ) where
  -- The owner o, at the priority p of the task t that waits for r.
  pub record Inherits (r t o p : ℕ) (a : Kernel × Pir × Bool) : Type 0 where
    pub refused : a.2 ≡ false
    pub valid : IsValid env a.0.sched
    pub raised : (a.0.sched.model o).policy ≡ fp_model p
    pub ready : mem o a.0.sched.queue ≡ true
    pub waits : mem t a.0.sched.queue ≡ false
    pub listed : mem t (a.1.blocked r) ≡ true

  -- The owner reinserted under its new priority.
  raised-Inserted :
      (k : Kernel) (o q p : ℕ)
      → IsValid env k.sched
      → k.sched.class ≡ fp_scheduler
      → mem o k.sched.queue ≡ false
      → k.sched.registered o ≡ true
      → (k.sched.model o).active ≡ false
      → (k.sched.model o).policy ≡ fp_model q
      → let s = set_model k.sched o (record (k.sched.model o) { policy = fp_model p }) in
        Returns
          (λ k'. Inserted env now s o k'.sched)
          (Kernel.activate env now (record k { sched = s }) o)
  unfolding Kernel.activate set_model
  raised-Inserted k o q p v cls out reg off pol =
      let m = record (k.sched.model o) { policy = fp_model p } in
      let s = set_model k.sched o m in
      let w = set_model-IsValid env u k.sched o m v out off (rw cls refl) in
      Returns-bind (Inserted env now s o) _ (Scheduler.insert env now s o) _
        (insert-Inserted env u now s o w reg out) λ s' x. x

  inherit-Inherits :
      (k : Kernel) (m : Pir) (t r o p q : ℕ)
      → IsValid env k.sched
      → k.sched.class ≡ fp_scheduler
      → (t == o) ≡ false
      → mem t k.sched.queue ≡ true
      → mem o k.sched.queue ≡ true
      → (k.sched.model t).policy ≡ fp_model p
      → (k.sched.model o).policy ≡ fp_model q
      → Returns (Inherits r t o p) (inherit (rt_kernel env) from_ps env now k m t r o)
  unfolding inherit get_priority set_inactive set_model
  inherit-Inherits k m t r o p q v cls apart in_t in_o pol_t pol_o =
      let tapart : (o == t) ≡ false = ground arith in
      Returns-bind (Lowered env k.sched o) _ (Scheduler.extract k.sched o) _
        (extract-Lowered env u o k.sched v cls in_o)
        λ s₁ (x₁, e₁, reg₁).
          let k₁ = record k { sched = s₁ } in
          let in_t₁ : mem t s₁.queue ≡ true = x₁.others t tapart ∙ in_t in
          let cls₁ = x₁.class_kept ∙ cls in
          Returns-bind (λ k₂. Lowered env s₁ t k₂.sched) _ (Kernel.suspend k₁ t) _
            (suspend-sched (Lowered env s₁ t) k₁ t (extract-Lowered env u t s₁ x₁.valid cls₁ in_t₁))
            λ k₂ (x₂, e₂, reg₂).
              let prio : get_priority (env t) (k₂.sched.model t).policy ≡ p =
                rw (e₂, x₁.models_kept t tapart, pol_t) refl in
              let model_o : k₂.sched.model o ≡ set_inactive (k.sched.model o) =
                x₂.models_kept o apart ∙ e₁ in
              rw (prio, fp-set_priority env k₂.sched o q p (rw (model_o, pol_o) refl))
                (Returns-bind
                  (λ k₄.
                    Inserted env now
                      (set_model k₂.sched o (record (k₂.sched.model o) { policy = fp_model p })) o
                      k₄.sched)
                  _ _ _
                  (raised-Inserted k₂ o q p x₂.valid (x₂.class_kept ∙ cls₁)
                    (x₂.others o apart ∙ x₁.gone) (rw x₂.known_kept reg₁) (rw model_o refl)
                    (rw (model_o, pol_o) refl))
                  λ k₄ y. record {
                    refused = refl;
                    valid = y.valid;
                    raised = y.policy_kept ∙ rw (==_refl o) refl;
                    ready = y.member;
                    waits = y.others t tapart ∙ x₂.gone;
                    listed = rw (==_refl r) (
                        mem-insert_self (precedes env k₄.sched.model)
                          (precedes-IsStrictOrder env k₄.sched.model u) t (m.blocked r));
                  })

  -- On RTKernel with fixed priorities and a valid queue, a request by a queued task for a locked
  -- resource whose owner is another queued task is refused, suspends the requester and lists it
  -- as blocked, and leaves the owner ready at the requester's priority in a valid queue.
  pub request-Inherits :
      (k : Kernel) (m : Pir) (t r n o p q : ℕ)
      → IsValid env k.sched
      → k.sched.class ≡ fp_scheduler
      → (t == o) ≡ false
      → mem t k.sched.queue ≡ true
      → mem o k.sched.queue ≡ true
      → (k.sched.model t).policy ≡ fp_model p
      → (k.sched.model o).policy ≡ fp_model q
      → is_locked (m.res r) ≡ true
      → (m.res r).owner ≡ some o
      → Returns (Inherits r t o p) (request (rt_kernel env) from_ps env now k m t r n)
  unfolding request
  request-Inherits k m t r n o p q v cls apart in_t in_o pol_t pol_o held own =
      rw ((v.queued t in_t).0, held, own, known, (v.queued o in_o).0)
        (inherit-Inherits k m t r o p q v cls apart in_t in_o pol_t pol_o)

  -- After a hand-over: t at its old priority, w with the resource, and both ready.
  pub record HandsOver (m : Pir) (t r w : ℕ) (ws : List ℕ) (a : Kernel × Pir) : Type 0 where
    pub valid : IsValid env a.0.sched
    pub restored : (a.0.sched.model t).policy ≡ fp_model (from_ps (m.old_priorities t r))
    pub still_ready : mem t a.0.sched.queue ≡ true
    pub ready : mem w a.0.sched.queue ≡ true
    pub owner : (a.1.res r).owner ≡ some w
    pub waiting : a.1.blocked r ≡ ws
    pub unrecorded : a.1.old_priorities ≡ m.old_priorities

  hand_over-HandsOver :
      (is_active : ℕ → Bool) (k : Kernel) (m : Pir) (t r w p : ℕ) (ws : List ℕ)
      → IsValid env k.sched
      → k.sched.class ≡ fp_scheduler
      → (t == w) ≡ false
      → mem t k.sched.queue ≡ true
      → mem w k.sched.queue ≡ false
      → k.sched.registered w ≡ true
      → (k.sched.model t).policy ≡ fp_model p
      → is_active t ≡ true
      → m.blocked r ≡ w ∷ ws
      → Returns (HandsOver m t r w ws) (hand_over (rt_kernel env) from_ps env now is_active k m t r)
  unfolding hand_over PList.front PList.erase set_inactive set_model lock
  hand_over-HandsOver is_active k m t r w p ws v cls apart in_t out_w reg_w pol act shape =
      let new = from_ps (m.old_priorities t r) in
      rw (front-head w ws (m.blocked r) shape, erase-head w ws (m.blocked r) shape)
        (Returns-bind (λ k₁. Lowered env k.sched t k₁.sched) _ (Kernel.suspend k t) _
          (suspend-sched (Lowered env k.sched t) k t (extract-Lowered env u t k.sched v cls in_t))
          λ k₁ (x, e, reg).
            rw (reg, act, fp-set_priority env k₁.sched t p new (rw (e, pol) refl))
              (Returns-bind
                (λ k₃.
                  Inserted env now
                    (set_model k₁.sched t (record (k₁.sched.model t) { policy = fp_model new })) t
                    k₃.sched)
                _ _ _
                (raised-Inserted k₁ t p new x.valid (x.class_kept ∙ cls) x.gone reg (rw e refl)
                  (rw (e, pol) refl))
                λ k₃ y.
                  let out : mem w k₃.sched.queue ≡ false =
                    y.others w apart ∙ x.others w apart ∙ out_w in
                  let known_w : k₃.sched.registered w ≡ true =
                    rw (y.known_kept, x.known_kept) reg_w in
                  Returns-bind (λ k₄. Inserted env now k₃.sched w k₄.sched) _ _ _
                    (activate-sched (Inserted env now k₃.sched w) env now k₃ w
                      (insert-Inserted env u now k₃.sched w y.valid known_w out))
                    λ k₄ z. record {
                      valid = z.valid;
                      restored =
                          rw (z.models_kept t (ground arith)) (y.policy_kept ∙ rw (==_refl t) refl);
                      still_ready = z.others t (ground arith) ∙ y.member;
                      ready = z.member;
                      owner = rw (==_refl r) refl;
                      waiting = rw (==_refl r) refl;
                      unrecorded = refl;
                    }))

  -- On RTKernel with fixed priorities and a valid queue, a release by a queued, active task whose
  -- resource has a blocked task at the front, known and not queued, makes that task the owner and
  -- ready, takes it off the blocked queue, gives the releasing task the priority recorded at its
  -- own request, and records no priority for the new owner.
  pub release-HandsOver :
      (is_active : ℕ → Bool) (k : Kernel) (m : Pir) (t r n w p : ℕ) (ws : List ℕ)
      → IsValid env k.sched
      → k.sched.class ≡ fp_scheduler
      → (t == w) ≡ false
      → mem t k.sched.queue ≡ true
      → mem w k.sched.queue ≡ false
      → k.sched.registered w ≡ true
      → (k.sched.model t).policy ≡ fp_model p
      → is_active t ≡ true
      → m.blocked r ≡ w ∷ ws
      → Returns (HandsOver m t r w ws) (release (rt_kernel env) from_ps env now is_active k m t r n)
  unfolding release PList.empty unlock
  release-HandsOver is_active k m t r n w p ws v cls apart in_t out_w reg_w pol act shape =
      let m' = record m { res = update m.res r (unlock (m.res r) 1) } in
      let full : PList.empty (m.blocked r) ≡ false = rw shape refl in
      rw full (
        Returns-map (HandsOver m' t r w ws) (HandsOver m t r w ws) _
          (hand_over-HandsOver is_active k m' t r w p ws v cls apart in_t out_w reg_w pol act shape)
          λ a h. record {
            valid = h.valid;
            restored = h.restored;
            still_ready = h.still_ready;
            ready = h.ready;
            owner = h.owner;
            waiting = h.waiting;
            unrecorded = h.unrecorded;
          })
