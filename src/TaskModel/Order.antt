-- ===== src/TaskModel/Order.antt =====
-- TaskModelCmp is a strict total order, as std::set wants of its comparison.
use sys_rt.Common.{ℕ, ◌≡◌, ◌<◌, ◌↔◌, ◌⊎◌, true, false, arith}
use sys_rt.PList.{IsStrictOrder}
use sys_rt.TaskModel.{TaskAttrs, TaskModel, get_priority, task_model_cmp, precedes}

-- Task numbers come from a static counter, so no two tasks share one.
pub record IsNumbered (env : ℕ → TaskAttrs) : Type 0 where
  pub distinct : (a b : ℕ) → (env a).task_number ≡ (env b).task_number → a ≡ b

-- Lower priority value first, then the earlier insertion, then the lower task number.
abbrev pub Lexicographic : ℕ → ℕ → ℕ → ℕ → ℕ → ℕ → Type 0
Lexicographic p i n p' i' n' = (p < p') ⊎ ((p ≡ p') × ((i < i') ⊎ ((i ≡ i') × (n < n'))))

-- TaskModelCmp is true exactly when the first model is lexicographically less: lower priority
-- value, then earlier insertion, then lower task number.
pub task_model_cmp_iff :
    (ta tb : TaskAttrs) (a b : TaskModel)
    → (task_model_cmp ta a tb b ≡ true)
      ↔ Lexicographic
          (get_priority ta a.policy)
          a.insert_time
          ta.task_number
          (get_priority tb b.policy)
          b.insert_time
          tb.task_number
unfolding task_model_cmp
task_model_cmp_iff ta tb a b = (λ h. ground arith, λ h. ground arith)

cmp_irrefl : (t : TaskAttrs) (a : TaskModel) → task_model_cmp t a t a ≡ false
unfolding task_model_cmp
cmp_irrefl t a = ground arith

cmp_trans :
    (ta tb tc : TaskAttrs) (a b c : TaskModel)
    → task_model_cmp ta a tb b ≡ true
    → task_model_cmp tb b tc c ≡ true
    → task_model_cmp ta a tc c ≡ true
unfolding task_model_cmp
cmp_trans ta tb tc a b c h k = ground arith

cmp_total :
    (ta tb : TaskAttrs) (a b : TaskModel)
    → task_model_cmp ta a tb b ≡ false
    → task_model_cmp tb b ta a ≡ false
    → ta.task_number ≡ tb.task_number
unfolding task_model_cmp
cmp_total ta tb a b h k = ground arith

-- For tasks with distinct numbers the comparison of the ready queue is irreflexive, transitive
-- and total, under every policy.
pub precedes-IsStrictOrder :
    (env : ℕ → TaskAttrs) (model : ℕ → TaskModel)
    → IsNumbered env
    → IsStrictOrder (precedes env model)
unfolding precedes
precedes-IsStrictOrder env model u = record {
  irrefl = λ a. cmp_irrefl (env a) (model a);
  trans = λ a b c. cmp_trans (env a) (env b) (env c) (model a) (model b) (model c);
  total = λ a b h k. u.distinct a b (cmp_total (env a) (env b) (model a) (model b) h k);
}
