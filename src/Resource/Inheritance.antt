-- ===== src/Resource/Inheritance.antt =====
-- src/piresman.hpp, piresman.cpp: PIRManager, the priority inheritance protocol.
pub mod Protocol
use sys_rt.Common.{
  ℕ, ◌≡◌, Bool, true, false, Option, none, some, List, [], ◌∷◌, Run, ok, throw, ◌>>=◌, deref,
  or_throw, no_task_model, no_owner_model, if◌then◌else◌, update, to_int,
}
use sys_rt.PList
use sys_rt.TaskModel.{TaskAttrs, get_priority, precedes}
use sys_rt.Scheduler
use sys_rt.Scheduler.{Scheduler}
use sys_rt.Resource.{Resource, lock, unlock, is_locked, AbsKernel}

-- `old_priorities t r`, where a map without an entry for r gives 0, and the blocked tasks of each
-- resource in the order of TaskModelCmp.
pub record Pir : Type 0 where
  pub res : ℕ → Resource
  pub old_priorities : ℕ → ℕ → ℕ
  pub blocked : ℕ → List ℕ

-- `_sched->find` of a task that may be NULL.
abbrev pub known : Scheduler → Option ℕ → Option ℕ
known s none = none
known s (some t) = if s.registered t then some t else none

-- `from_ps` is sc_time(double(v), SC_PS).
module _ {K : Type 0} (abs : AbsKernel K) (from_ps : ℕ → ℕ) (env : ℕ → TaskAttrs) (now : ℕ) where
  -- The priority of a task as its model has it.
  abbrev priority : K → ℕ → ℕ
  priority k t = get_priority (env t) ((abs.sched k).model t).policy

  -- The owner takes over the priority of the task that has to wait.
  unfoldable pub inherit : K → Pir → ℕ → ℕ → ℕ → Run (K × Pir × Bool)
  inherit k m t r owner = do
    s₁ ← Scheduler.extract (abs.sched k) owner
    k₂ ← abs.suspend (abs.with_sched k s₁) t
    s₃ ← Scheduler.set_priority env (abs.sched k₂) owner (priority k₂ t)
    k₄ ← abs.activate now (abs.with_sched k₂ s₃) owner
    let q = PList.insert (precedes env (abs.sched k₄).model) t (m.blocked r)
    ok (k₄, record m { blocked = update m.blocked r q }, false)

  unfoldable pub request : K → Pir → ℕ → ℕ → ℕ → Run (K × Pir × Bool)
  unfolding inherit
  request k m t r n =
      let granted : K × Pir × Bool = (
        k,
        record m {
          res = update m.res r (lock (m.res r) t 1);
          old_priorities =
              update m.old_priorities t (update (m.old_priorities t) r (to_int (priority k t)));
        },
        true,
      ) in
      let waits =
        or_throw (known (abs.sched k) (m.res r).owner) no_owner_model >>= inherit k m t r in
      or_throw (known (abs.sched k) (some t)) no_task_model >>= λ t'.
      if is_locked (m.res r) then waits else ok granted

  -- `is_active` is Task::isActive when the release is made.
  unfoldable pub hand_over : (ℕ → Bool) → K → Pir → ℕ → ℕ → Run (K × Pir)
  hand_over is_active k m t r = do
    w ← PList.front (m.blocked r)
    ws ← PList.erase w (m.blocked r)
    k₁ ← abs.suspend k t
    t' ← deref (known (abs.sched k₁) (some t))
    s₂ ← Scheduler.set_priority env (abs.sched k₁) t (from_ps (m.old_priorities t r))
    let k₂ = abs.with_sched k₁ s₂
    k₃ ← if is_active t then abs.activate now k₂ t else ok k₂
    k₄ ← abs.activate now k₃ w
    ok (k₄, record m { res = update m.res r (lock (m.res r) w 1); blocked = update m.blocked r ws })

  unfoldable pub release : (ℕ → Bool) → K → Pir → ℕ → ℕ → ℕ → Run (K × Pir)
  unfolding hand_over
  release is_active k m t r n =
      let m' = record m { res = update m.res r (unlock (m.res r) 1) } in
      if PList.empty (m.blocked r) then ok (k, m') else hand_over is_active k m' t r
