-- ===== src/Scheduler.antt =====
-- src/scheduler.hpp, scheduler.cpp: the Scheduler with its ready queue, and the operations that
-- fpsched, edfsched, fifosched, rrsched and npedf override.
-- The objects that `_tasks` points to are `model`, its keys `registered`; time is the argument `now`.
pub mod Unqueued
pub mod Invariant
pub mod Selection
pub mod Threshold
pub mod Notify
pub mod Timer
pub mod RoundRobin
pub mod Turns
pub mod NonPreemptive
pub mod Notified
pub mod Members
use sys_rt.Common.{
  ℕ, ◌≡◌, Bool, true, false, not, ◌||◌, Option, none, some, List, [], ◌∷◌, Run, ok, throw, fault,
  ◌>>=◌, deref, or_throw, Exc, element_present, task_not_found, leb, ltb, ◌==◌, if◌then◌else◌,
  get_elem?, update, to_int, from_int,
}
use sys_rt.Sim.{SimTime, EventCall, notify_after, cancel, rr_evt}
use sys_rt.PList
use sys_rt.TaskModel.{
  TaskAttrs, Policy, fp_model, edf_model, fifo_model, rr_model, ngedf_model, TaskModel, new_model,
  set_active, set_inactive, get_priority, change_priority, set_preemtive, set_nonpreemtive,
  precedes, is_round_expired,
}

pub data SchedulerClass : Type 0 where
  fp_scheduler edf_scheduler fifo_scheduler ngedf_scheduler : SchedulerClass
  rr_scheduler : (default_slice : ℕ) → SchedulerClass

-- The models that a scheduler's addTask creates.
abbrev pub matches : SchedulerClass → Policy → Bool
matches fp_scheduler (fp_model _) = true
matches edf_scheduler (edf_model _ _) = true
matches fifo_scheduler fifo_model = true
matches ngedf_scheduler (ngedf_model _ _ _) = true
matches (rr_scheduler _) (rr_model _) = true
matches _ _ = false

pub record Scheduler : Type 0 where
  pub class : SchedulerClass
  pub registered : ℕ → Bool
  pub model : ℕ → TaskModel
  pub queue : List ℕ
  pub curr_exe : Option ℕ
  pub old_priorities : ℕ → ℕ

unfoldable pub find : Scheduler → ℕ → Option TaskModel
find s t = if s.registered t then some (s.model t) else none

unfoldable pub set_model : Scheduler → ℕ → TaskModel → Scheduler
set_model s t m = record s { model = update s.model t m }

-- `_tasks[task] = model`
unfoldable pub enqueue_model : Scheduler → ℕ → TaskModel → Scheduler
enqueue_model s t m = record s {
  registered = update s.registered t true;
  model = update s.model t m;
}

-- setInsertTime and setActive on the model, then the insertion into the ordered queue.
unfoldable pub insert : (ℕ → TaskAttrs) → ℕ → Scheduler → ℕ → Run Scheduler
unfolding find
insert env now s t = do
  m ← deref (find s t)
  let model = update s.model t (set_active (record m { insert_time = now }))
  ok (record s { model = model; queue = PList.insert (precedes env model) t s.queue })

-- NGEDFScheduler::extract also makes the model preemptive again.
unfoldable pub released : SchedulerClass → TaskModel → Run TaskModel
released ngedf_scheduler m = do
  p ← set_preemtive m.policy
  ok (record (set_inactive m) { policy = p })
released _ m = ok (set_inactive m)

-- A task that the scheduler does not know is left alone.
unfoldable pub extract : Scheduler → ℕ → Run Scheduler
unfolding find
extract s t =
    if s.registered t
    then (do
      q ← PList.erase t s.queue
      m ← released s.class (s.model t)
      ok (record (set_model s t m) { queue = q }))
    else ok s

unfoldable pub scheduler_get_priority : (ℕ → TaskAttrs) → Scheduler → ℕ → Run ℕ
unfolding find
scheduler_get_priority env s t = do
  m ← deref (find s t)
  ok (to_int (get_priority (env t) m.policy))

unfoldable pub get_threshold : Scheduler → ℕ → Run ℕ
unfolding find
get_threshold s t = do m ← deref (find s t); ok m.threshold

unfoldable pub set_threshold : Scheduler → ℕ → ℕ → Run Scheduler
unfolding find
set_threshold s t th = do m ← deref (find s t); ok (set_model s t (record m { threshold = th }))

-- changePriority through the pointer to the model.
unfoldable pub set_priority : (ℕ → TaskAttrs) → Scheduler → ℕ → ℕ → Run Scheduler
set_priority env s t p = do
  policy ← change_priority (env t) p (s.model t).policy
  ok (set_model s t (record (s.model t) { policy = policy }))

unfoldable pub enable_threshold : (ℕ → TaskAttrs) → ℕ → Scheduler → ℕ → Run (Scheduler × ℕ)
unfolding find
enable_threshold env now s t = do
  m ← deref (find s t)
  let old = update s.old_priorities t (to_int (get_priority (env t) m.policy))
  s₁ ← extract (record s { old_priorities = old }) t
  let tmp = (s₁.model t).threshold
  s₂ ← set_priority env s₁ t (from_int tmp)
  s₃ ← insert env now s₂ t
  ok (s₃, tmp)

-- Up to its last statement, the call of dispatch on the kernel.
unfoldable pub disable_threshold : (ℕ → TaskAttrs) → ℕ → Scheduler → ℕ → Run Scheduler
unfolding find
disable_threshold env now s t = do
  m ← deref (find s t)
  s₁ ← extract s t
  s₂ ← set_priority env s₁ t (get_priority (env t) (s₁.model t).policy)
  insert env now s₂ t

-- `none` is NULL.
unfoldable pub get_task_n : Scheduler → ℕ → Option ℕ
get_task_n s n = if leb (PList.size s.queue) n then none else get_elem? s.queue n

unfoldable pub get_first : Scheduler → Option ℕ
get_first s = get_task_n s 0

unfoldable pub new_run : Scheduler → Scheduler
new_run s = record s {
  queue = [];
  model = λ t. if s.registered t then set_inactive (s.model t) else s.model t;
}

-- The models of the discarded tasks are deleted or leaked; nothing refers to them any more.
unfoldable pub discard_tasks : Scheduler → Scheduler
discard_tasks s = record s { queue = []; registered = λ t. false }

-- addTask of each scheduler; `p` is the parsed parameter, which is none for the empty string.
unfoldable pub add_task : Scheduler → ℕ → Option ℕ → Run Scheduler
add_task s t p = elim s.class [
  | fp_scheduler ↦ do prio ← deref p; ok (enqueue_model s t (new_model (fp_model (from_int prio))))
  | edf_scheduler ↦ ok (enqueue_model s t (new_model (edf_model false 0)))
  | fifo_scheduler ↦
      if s.registered t
      then throw element_present
      else ok (enqueue_model s t (new_model fifo_model))
  | ngedf_scheduler ↦ ok (enqueue_model s t (new_model (ngedf_model false false 0)))
  | rr_scheduler slice ↦
      if s.registered t
      then throw element_present
      else ok (
          enqueue_model s t
            (new_model (rr_model (from_int (elim p [ none ↦ slice | some v ↦ v ])))))
]
