-- ===== src/Kernel.antt =====
-- src/kernel.hpp, kernel.cpp: RTKernel, the single-processor kernel. What it calls on a task is
-- Task::schedule and Task::deschedule of src/task.cpp; `env` holds what the scheduler reads of the
-- tasks, and `now` is sc_time_stamp(). Threads do not exist: a handler runs to its end.
pub mod Invariant
pub mod Dispatch
pub mod Cycle
pub mod Tracks
use sys_rt.Common.{
  ℕ, ◌≡◌, Bool, true, false, not, Option, none, some, List, [], ◌∷◌, ◌++◌, Run, ok, fault, ◌>>=◌,
  deref, if◌then◌else◌, opt_eq,
}
use sys_rt.Sim.{
  SimTime, EventCall, notify, notify_after, cancel, sched_evt, desched_evt, begin_dispatch_evt,
  end_dispatch_evt,
}
use sys_rt.PList
use sys_rt.TaskModel.{TaskAttrs}
use sys_rt.Scheduler
use sys_rt.Scheduler.{Scheduler}
use sys_rt.Scheduler.Notify

pub record Kernel : Type 0 where
  pub sched : Scheduler
  pub curr_exe : Option ℕ
  pub pre_exe : Option ℕ
  pub handled : List ℕ
  pub is_context_switching : Bool
  pub context_switch_delay : ℕ
  pub start_context_switch : ℕ
  -- The calls made of events so far, the latest at the end.
  pub calls : List EventCall

abbrev pub emit : Kernel → List EventCall → Kernel
emit k es = record k { calls = k.calls ++ es }

-- Task::schedule and Task::deschedule.
abbrev pub task_schedule : ℕ → List EventCall
task_schedule t = notify (sched_evt t) ∷ []

abbrev pub task_deschedule : ℕ → List EventCall
task_deschedule t = cancel (sched_evt t) ∷ notify (desched_evt t) ∷ []

-- The constructor, with `s->setKernel(this)` left out: a scheduler has one kernel.
unfoldable pub new_kernel : Scheduler → Kernel
new_kernel s = record {
  sched = s;
  curr_exe = none;
  pre_exe = none;
  handled = [];
  is_context_switching = false;
  context_switch_delay = 0;
  start_context_switch = 0;
  calls = [];
}

unfoldable pub add_task : Kernel → ℕ → Option ℕ → Run Kernel
add_task k t params = do
  s ← Scheduler.add_task k.sched t params
  ok (record k { sched = s; handled = k.handled ++ t ∷ [] })

unfoldable pub terminate : Kernel → ℕ → Run Kernel
terminate k t = do s ← Scheduler.extract k.sched t; ok (record k { sched = s })

unfoldable pub activate : (ℕ → TaskAttrs) → ℕ → Kernel → ℕ → Run Kernel
activate env now k t = do s ← Scheduler.insert env now k.sched t; ok (record k { sched = s })

unfoldable pub suspend : Kernel → ℕ → Run Kernel
suspend k t = do
  s ← Scheduler.extract k.sched t
  let k' = record k { sched = s }
  ok (
      if opt_eq k.curr_exe (some t)
      then emit (record k' { curr_exe = none; pre_exe = some t }) (task_deschedule t)
      else k')

unfoldable pub discard_tasks : Kernel → Kernel
discard_tasks k = record k { sched = Scheduler.discard_tasks k.sched; handled = [] }

unfoldable pub dispatch : Kernel → Kernel
dispatch k = emit k (notify_after begin_dispatch_evt 0 ∷ [])

-- During a context switch the dispatch waits for its end.
unfoldable pub on_arrival : SimTime → (ℕ → TaskAttrs) → ℕ → Kernel → ℕ → Run Kernel
unfolding dispatch
on_arrival sc env now k t = do
  s ← Scheduler.insert env now k.sched t
  let k' = record k { sched = s }
  ok (
      if not k.is_context_switching
      then dispatch k'
      else emit k' (
          cancel begin_dispatch_evt
          ∷ notify_after begin_dispatch_evt
              (sc.sub k.context_switch_delay (sc.sub now k.start_context_switch))
          ∷ []))

unfoldable pub on_end : Kernel → ℕ → Run Kernel
unfolding dispatch
on_end k t = do
  s ← Scheduler.extract k.sched t
  let k' = record k { sched = s; curr_exe = none; pre_exe = some t }
  ok (if not (PList.empty s.queue) then dispatch k' else k')

-- `_sched->notify(t)`
unfoldable pub notify_sched : (ℕ → TaskAttrs) → ℕ → Kernel → Option ℕ → Run Kernel
notify_sched env now k t = do
  (s, es) ← Notify.notify env now k.sched t
  ok (emit (record k { sched = s }) es)

-- The task that runs gives way.
unfoldable pub preempt : Kernel → Kernel
preempt k = elim k.curr_exe [
  | none ↦ k
  | some c ↦ emit (record k { pre_exe = some c }) (task_deschedule c)
]

unfoldable pub switch_to : (ℕ → TaskAttrs) → ℕ → Kernel → Option ℕ → Run Kernel
switch_to env now k none = notify_sched env now k none
switch_to env now k (some t) =
    if not (opt_eq (some t) k.pre_exe)
    then ok (
        emit
          (record k { is_context_switching = true; curr_exe = some t; start_context_switch = now })
          (notify_after end_dispatch_evt k.context_switch_delay ∷ []))
    else notify_sched env now (emit (record k { curr_exe = some t }) (task_schedule t)) (some t)

unfoldable pub on_begin_dispatch : (ℕ → TaskAttrs) → ℕ → Kernel → Run Kernel
unfolding preempt switch_to
on_begin_dispatch env now k =
    let new_exe = Scheduler.get_first k.sched in
    if not (opt_eq k.curr_exe new_exe) then switch_to env now (preempt k) new_exe else ok k

unfoldable pub on_end_dispatch : (ℕ → TaskAttrs) → ℕ → Kernel → Run Kernel
on_end_dispatch env now k = do
  t ← deref k.curr_exe
  notify_sched env now (record (emit k (task_schedule t)) { is_context_switching = false }) (some t)

-- setThreshold, enableThreshold and disableThreshold of the task that runs.
unfoldable pub set_threshold : Kernel → ℕ → Run Kernel
set_threshold k th = do
  t ← deref k.curr_exe
  s ← Scheduler.set_threshold k.sched t th
  ok (record k { sched = s })

unfoldable pub enable_threshold : (ℕ → TaskAttrs) → ℕ → Kernel → Run (Kernel × ℕ)
enable_threshold env now k = do
  t ← deref k.curr_exe
  (s, tmp) ← Scheduler.enable_threshold env now k.sched t
  ok (record k { sched = s }, tmp)

unfoldable pub disable_threshold : (ℕ → TaskAttrs) → ℕ → Kernel → Run Kernel
unfolding dispatch
disable_threshold env now k = do
  t ← deref k.curr_exe
  s ← Scheduler.disable_threshold env now k.sched t
  ok (dispatch (record k { sched = s }))

unfoldable pub new_run : Kernel → Kernel
new_run k = record k { curr_exe = none }
