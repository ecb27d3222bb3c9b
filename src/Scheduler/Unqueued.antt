-- ===== src/Scheduler/Unqueued.antt =====
-- The order of the ready queue when the model of a task outside it is written.
use sys_rt.Common.{
  ℕ, ◌≡◌, subst, inl, inr, Bool, true, false, List, arith, ◌==◌, Bool-cases, mem, update,
}
use sys_rt.PList.Order.{Sorted, Sorted-congr}
use sys_rt.TaskModel.{TaskAttrs, TaskModel, precedes}

-- A member and a non-member differ.
pub differs : (t a : ℕ) (q : List ℕ) → mem t q ≡ false → mem a q ≡ true → (t == a) ≡ false
differs t a q out p = elim (Bool-cases (t == a)) [
  | inl e ↦
      let same : t ≡ a = ground arith in
      absurd (clash (mem a q) p (subst (λ v. mem v q ≡ false) same out))
  | inr e ↦ e
]
  where
    clash : (b : Bool) → b ≡ true → b ≡ false → ⊥
    clash b h k = ground arith

precedes-update :
    (env : ℕ → TaskAttrs) (model : ℕ → TaskModel) (t : ℕ) (m : TaskModel) (a b : ℕ)
    → (t == a) ≡ false
    → (t == b) ≡ false
    → precedes env model a b ≡ precedes env (update model t m) a b
unfolding precedes
precedes-update env model t m a b p r = rw (p, r)

-- A model outside the queue can be written without disturbing the order.
pub Sorted-update :
    (env : ℕ → TaskAttrs) (model : ℕ → TaskModel) (q : List ℕ) (t : ℕ) (m : TaskModel)
    → mem t q ≡ false
    → Sorted (precedes env model) q
    → Sorted (precedes env (update model t m)) q
Sorted-update env model q t m out h =
    Sorted-congr (precedes env model) (precedes env (update model t m)) q
      (λ a b p r. precedes-update env model t m a b (differs t a q out p) (differs t b q out r)) h
