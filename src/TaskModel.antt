-- ===== src/TaskModel.antt =====
-- src/scheduler.hpp, scheduler.cpp: TaskModel and TaskModelCmp, with the models that derive from
-- TaskModel in fpsched.hpp, edfsched.hpp, fifosched.hpp, rrsched.hpp and npedf.hpp.
-- A model is known by the task that it belongs to; a lower number is a higher priority.
pub mod Order
use sys_rt.Common.{
  ℕ, ◌≡◌, Bool, true, false, Run, ok, throw, fault, Exc, cannot_change_priority, ltb, leb, ◌==◌,
  ◌&&◌, if◌then◌else◌, int_max, to_int, from_int,
}
use sys_rt.Sim.{SimTime}

-- What the models read of a task, by the virtual methods of AbsRTTask and getLastSched of Task.
pub record TaskAttrs : Type 0 where
  pub deadline : ℕ
  pub arrival : ℕ
  pub task_number : ℕ
  pub last_sched : ℕ

-- The subclass of a model with the fields that it adds.
pub data Policy : Type 0 where
  fp_model : (prio : ℕ) → Policy
  edf_model : (ext_p : Bool) (prio : ℕ) → Policy
  fifo_model : Policy
  rr_model : (rr_slice : ℕ) → Policy
  ngedf_model : (preemtive : Bool) (ext_p : Bool) (prio : ℕ) → Policy

pub record TaskModel : Type 0 where
  pub active : Bool
  pub insert_time : ℕ
  pub threshold : ℕ
  pub policy : Policy

-- The constructor: inactive, with the threshold INT_MAX.
unfoldable pub new_model : Policy → TaskModel
new_model p = record { active = false; insert_time = 0; threshold = int_max; policy = p }

unfoldable pub set_active : TaskModel → TaskModel
set_active m = record m { active = true }

unfoldable pub set_inactive : TaskModel → TaskModel
set_inactive m = record m { active = false }

-- getPriority of each model.
unfoldable pub get_priority : TaskAttrs → Policy → ℕ
get_priority a (fp_model prio) = prio
get_priority a (edf_model true prio) = from_int prio
get_priority a (edf_model false prio) = a.deadline
get_priority a fifo_model = a.arrival
get_priority a (rr_model slice) = 1
get_priority a (ngedf_model true ext_p prio) = a.deadline
get_priority a (ngedf_model false ext_p prio) = 0

-- changePriority of each model: FIFO only warns, RR throws, the NGEDF model inherits EDF's.
unfoldable pub change_priority : TaskAttrs → ℕ → Policy → Run Policy
change_priority a p (fp_model prio) = ok (fp_model p)
change_priority a p (edf_model ext_p prio) =
    if p == a.deadline then ok (edf_model false prio) else ok (edf_model true (to_int p))
change_priority a p fifo_model = ok fifo_model
change_priority a p (rr_model slice) = throw cannot_change_priority
change_priority a p (ngedf_model preemtive ext_p prio) =
    if p == a.deadline
    then ok (ngedf_model preemtive false prio)
    else ok (ngedf_model preemtive true (to_int p))

-- set_preemtive and set_nonpreemtive through a dynamic_cast: on another model it gives NULL.
unfoldable pub set_preemtive : Policy → Run Policy
set_preemtive (ngedf_model preemtive ext_p prio) = ok (ngedf_model true ext_p prio)
set_preemtive _ = fault

unfoldable pub set_nonpreemtive : Policy → Run Policy
set_nonpreemtive (ngedf_model preemtive ext_p prio) = ok (ngedf_model false ext_p prio)
set_nonpreemtive _ = fault

-- RRModel::isRoundExpired at the time `now`.
unfoldable pub is_round_expired : SimTime → ℕ → TaskAttrs → ℕ → Bool
is_round_expired sc now a slice = ltb 0 slice && leb slice (sc.sub now a.last_sched)

-- TaskModelCmp::operator().
unfoldable pub task_model_cmp : TaskAttrs → TaskModel → TaskAttrs → TaskModel → Bool
task_model_cmp ta a tb b =
    if ltb (get_priority ta a.policy) (get_priority tb b.policy)
    then true
    else if get_priority ta a.policy == get_priority tb b.policy
    then (if ltb a.insert_time b.insert_time
        then true
        else if a.insert_time == b.insert_time
        then ltb ta.task_number tb.task_number
        else false)
    else false

-- The comparison of two tasks' models, as the queue makes it.
unfoldable pub precedes : (ℕ → TaskAttrs) → (ℕ → TaskModel) → ℕ → ℕ → Bool
precedes env model a b = task_model_cmp (env a) (model a) (env b) (model b)
