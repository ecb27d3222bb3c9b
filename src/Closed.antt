-- ===== src/Closed.antt =====
-- RTKernel with the tasks that it runs and the events between them: what src/kernel.cpp calls on a
-- task and src/task.cpp on its kernel, with the handlers of the task's events. The state has the task
-- objects, the kernel, and for which tasks a schedule or deschedule is pending, and
-- whether the end of a context switch is.
pub mod Turns
pub mod Calls
pub mod Kernels
pub mod Written
pub mod Queueing
pub mod Instances
pub mod Arriving
pub mod Safety
pub mod Places
pub mod Progress
pub mod Service
use sys_rt.Common.{ℕ, ◌≡◌, Bool, true, false, Option, some, List, [], ◌==◌, ok, Run, update}
use sys_rt.Sim.{SimTime, Event, sched_evt, desched_evt, end_dispatch_evt}
use sys_rt.Sim.Outstanding.{outstanding}
use sys_rt.TaskModel.{TaskAttrs}
use sys_rt.Kernel.{Kernel, on_begin_dispatch, on_end_dispatch}
use sys_rt.Task
use sys_rt.Task.{Task, Handled, is_active, is_executing}
use sys_rt.KernelInstr.{call_all}

abbrev pub is_sched : ℕ → Event → Bool
is_sched p (sched_evt q) = p == q
is_sched p _ = false

abbrev pub is_desched : ℕ → Event → Bool
is_desched p (desched_evt q) = p == q
is_desched p _ = false

abbrev pub is_ending : Event → Bool
is_ending end_dispatch_evt = true
is_ending _ = false

pub record System : Type 0 where
  pub kernel : Kernel
  pub task : ℕ → Task
  pub scheds : ℕ → Bool
  pub deschs : ℕ → Bool
  pub ending : Bool

-- What the scheduler reads of the tasks.
abbrev pub reads : (ℕ → Task) → ℕ → TaskAttrs
reads task t = record {
  deadline = (task t).dl;
  arrival = (task t).arrival;
  task_number = (task t).number;
  last_sched = (task t).last_sched;
}

abbrev pub quiet : Kernel → Kernel
quiet k = record k { calls = [] }

-- The system after a handler that left the kernel k with the calls that it made.
abbrev pub handled : (ℕ → Task) → (ℕ → Bool) → (ℕ → Bool) → Bool → Kernel → System
handled task scheds deschs ending k = record {
  kernel = quiet k;
  task = task;
  scheds = λ p. outstanding (is_sched p) (scheds p) k.calls;
  deschs = λ p. outstanding (is_desched p) (deschs p) k.calls;
  ending = outstanding is_ending ending k.calls;
}

-- What a handler of the task t calls, the task being written already.
abbrev pub calls_of : SimTime → ℕ → System → ℕ → Handled → Run Kernel
calls_of sc now s t h = call_all sc (reads (update s.task t h.0)) now t h.1 (quiet s.kernel)

abbrev pub executes : System → ℕ → Bool
executes s t = is_executing (s.task t).state

-- No schedule or deschedule is pending. Their notifications are immediate, so that a timed event
-- fires only then.
abbrev pub IsQuiet : System → Type 0
IsQuiet s = ((t : ℕ) → s.scheds t ≡ false) × ((t : ℕ) → s.deschs t ≡ false)

-- A handler that returns, with what SystemC calls it on. An instruction of a task ends while the task
-- executes and is not about to stop, and a buffered arrival is taken before another one comes.
pub data Step (sc : SimTime) (s : System) : System → Type 0 where
  arrives :
      {k : Kernel} (now iat_sample t : ℕ)
      → s.kernel.sched.registered t ≡ true
      → calls_of sc now s t (Task.on_arrival sc iat_sample now (s.task t)) ≡ ok k
      → Step sc s (
          handled
            (update s.task t (Task.on_arrival sc iat_sample now (s.task t)).0)
            s.scheds
            s.deschs
            s.ending
            k)
  buffered :
      {h : Handled} {k : Kernel} (now t : ℕ)
      → s.kernel.sched.registered t ≡ true
      → is_active (s.task t).state ≡ false
      → Task.on_fake_arrival sc now (s.task t) ≡ ok h
      → calls_of sc now s t h ≡ ok k
      → Step sc s (handled (update s.task t h.0) s.scheds s.deschs s.ending k)
  schedules :
      {h : Handled} {k : Kernel} (now t : ℕ) (cpu : Option ℕ)
      → s.scheds t ≡ true
      → Task.on_sched cpu now (s.task t) ≡ ok h
      → calls_of sc now s t h ≡ ok k
      → Step sc s (handled (update s.task t h.0) (update s.scheds t false) s.deschs s.ending k)
  deschedules :
      {h : Handled} {k : Kernel} (now t : ℕ) (cpu : Option ℕ)
      → s.deschs t ≡ true
      → Task.on_desched cpu (s.task t) ≡ ok h
      → calls_of sc now s t h ≡ ok k
      → Step sc s (handled (update s.task t h.0) s.scheds (update s.deschs t false) s.ending k)
  ends :
      {h : Handled} {k : Kernel} (now t x p : ℕ)
      → executes s t ≡ true
      → s.deschs t ≡ false
      → Task.on_instr_end sc (some p) x (s.task t) ≡ ok h
      → calls_of sc now s t h ≡ ok k
      → Step sc s (handled (update s.task t h.0) s.scheds s.deschs s.ending k)
  begins :
      {k : Kernel} (now : ℕ)
      → IsQuiet s
      → on_begin_dispatch (reads s.task) now (quiet s.kernel) ≡ ok k
      → Step sc s (handled s.task s.scheds s.deschs s.ending k)
  switches :
      {k : Kernel} (now : ℕ)
      → IsQuiet s
      → s.kernel.is_context_switching ≡ true
      → s.ending ≡ true
      → on_end_dispatch (reads s.task) now (quiet s.kernel) ≡ ok k
      → Step sc s (handled s.task s.scheds s.deschs false k)

pub data Reach (sc : SimTime) (s : System) : System → Type 0 where
  here : Reach sc s s
  next : {t u : System} → Reach sc s t → Step sc t u → Reach sc s u
