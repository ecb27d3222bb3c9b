-- ===== src/Scheduler/Notify.antt =====
-- src/scheduler.cpp, rrsched.cpp, npedf.cpp: the virtual notify, and the round of RRScheduler.
use sys_rt.Common.{
  ℕ, Bool, false, not, ◌||◌, Option, none, some, List, [], ◌∷◌, Run, ok, throw, ◌>>=◌, or_throw,
  task_not_found, ltb, ◌==◌, if◌then◌else◌, update,
}
use sys_rt.Sim.{SimTime, EventCall, notify_after, cancel, rr_evt}
use sys_rt.PList
use sys_rt.TaskModel.{TaskAttrs, Policy, rr_model, set_nonpreemtive, precedes, is_round_expired}
use sys_rt.Scheduler.{
  SchedulerClass, fp_scheduler, edf_scheduler, fifo_scheduler, ngedf_scheduler, rr_scheduler,
  Scheduler, set_model, insert, extract,
}

-- Scheduler::notify, which FP, EDF and FIFO keep.
unfoldable pub notify_base : Scheduler → Option ℕ → Scheduler
notify_base s t = record s { curr_exe = t }

-- NGEDFScheduler::enableNonpreemt, called from its notify.
unfoldable pub enable_nonpreemt : (ℕ → TaskAttrs) → ℕ → Scheduler → Option ℕ → Run Scheduler
enable_nonpreemt env now s none = throw task_not_found
enable_nonpreemt env now s (some t) =
    if s.registered t
    then (do
      s₁ ← extract s t
      p ← set_nonpreemtive (s₁.model t).policy
      insert env now (set_model s₁ t (record (s₁.model t) { policy = p })) t)
    else throw task_not_found

-- dynamic_cast<RRModel *>, with the slice of the model.
unfoldable pub rr_slice_of : Policy → Option ℕ
rr_slice_of (rr_model slice) = some slice
rr_slice_of _ = none

-- The slice of a task that RRScheduler can find.
unfoldable pub find_slice : Scheduler → ℕ → Option ℕ
find_slice s t = if s.registered t then rr_slice_of (s.model t).policy else none

-- RRScheduler::notify: the slice timer is cancelled, and started for a task with a slice.
unfoldable pub rr_notify : Scheduler → Option ℕ → Run (List EventCall)
rr_notify s none = ok (cancel rr_evt ∷ [])
rr_notify s (some t) = do
  slice ← or_throw (find_slice s t) task_not_found
  ok (cancel rr_evt ∷ (if ltb 0 slice then notify_after rr_evt slice ∷ [] else []))

-- The virtual notify, with the calls that it makes of events.
unfoldable pub notify_as :
    SchedulerClass → (ℕ → TaskAttrs) → ℕ → Scheduler → Option ℕ → Run (Scheduler × List EventCall)
notify_as fp_scheduler env now s t = ok (notify_base s t, [])
notify_as edf_scheduler env now s t = ok (notify_base s t, [])
notify_as fifo_scheduler env now s t = ok (notify_base s t, [])
notify_as ngedf_scheduler env now s t = do
  s₁ ← enable_nonpreemt env now (notify_base s t) t
  ok (s₁, [])
notify_as (rr_scheduler slice) env now s t = do calls ← rr_notify s t; ok (s, calls)

unfoldable pub notify :
    (ℕ → TaskAttrs) → ℕ → Scheduler → Option ℕ → Run (Scheduler × List EventCall)
unfolding notify_as
notify env now s t = notify_as s.class env now s t

-- isRoundExpired of the task's model, which is no RRModel if the cast gives NULL.
unfoldable pub expired : SimTime → (ℕ → TaskAttrs) → ℕ → Scheduler → ℕ → Bool
expired sc env now s t = elim (rr_slice_of (s.model t).policy) [
  | none ↦ false
  | some slice ↦ is_round_expired sc now (env t) slice
]

-- The model at the front goes back into the queue with the present as its insertion time.
unfoldable pub requeue : (ℕ → TaskAttrs) → ℕ → Scheduler → ℕ → Run Scheduler
requeue env now s t = do
  q ← PList.erase t s.queue
  let model = update s.model t (record (s.model t) { insert_time = now })
  ok (
      if (s.model t).active
      then record s { model = model; queue = PList.insert (precedes env model) t q }
      else record s { queue = q })

-- What round does to the timer, for the slice of the first model.
unfoldable pub rearm : Bool → Option ℕ → List EventCall
rearm restart none = []
rearm restart (some slice) =
    if slice == 0
    then cancel rr_evt ∷ []
    else if restart
    then cancel rr_evt ∷ notify_after rr_evt slice ∷ []
    else []

-- RRScheduler::round up to its last statement, the call of dispatch on the kernel. The timer is
-- started again if another task is first now, or the same one with its slice used up.
unfoldable pub round : SimTime → (ℕ → TaskAttrs) → ℕ → Scheduler → Run (Scheduler × List EventCall)
round sc env now s = do
  t ← PList.front s.queue
  s₁ ← if expired sc env now s t then requeue env now s t else ok s
  f ← PList.front s₁.queue
  ok (s₁, rearm (not (f == t) || expired sc env now s₁ f) (rr_slice_of (s₁.model f).policy))
