-- ===== src/MultiKernel/Events.antt =====
-- Which begin and end events of the processors are pending, read off the calls that are made of them.
use sys_rt.Common.{ℕ, ◌≡◌, Bool, false, Option, none, some, List, ◌++◌, ◌==◌, ok}
use sys_rt.Sim.{Event, EventCall, begin_evt, multi_end_evt, rr_evt, sched_evt}
use sys_rt.Sim.Outstanding.{outstanding}
use sys_rt.TaskModel.{TaskAttrs}
use sys_rt.Scheduler.{Scheduler}
use sys_rt.Scheduler.Notify
use sys_rt.Scheduler.Timer.{notify-apart}
use sys_rt.MultiKernel.Cpu.{schedule_if}

abbrev pub is_begin : ℕ → Event → Bool
is_begin p (begin_evt q) = p == q
is_begin p _ = false

abbrev pub is_end : ℕ → Event → Bool
is_end p (multi_end_evt q) = p == q
is_end p _ = false

module _ (is : Event → Bool) (b : Bool) (other : is rr_evt ≡ false) where
  pub dispatched-apart :
      (st : Option ℕ) (env : ℕ → TaskAttrs) (now : ℕ) (s : Scheduler)
      {r : Scheduler × List EventCall}
      → ((t : ℕ) → is (sched_evt t) ≡ false)
      → Notify.notify env now s st ≡ ok r
      → outstanding is b (schedule_if st ++ r.1) ≡ b
  unfolding Notify.notify
  dispatched-apart none env now s h e = notify-apart is b other env now s none e
  dispatched-apart (some t) env now s h e = rw (h t) (notify-apart is b other env now s (some t) e)
