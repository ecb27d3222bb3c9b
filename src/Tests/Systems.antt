-- ===== src/Tests/Systems.antt =====
-- The closed system of RTKernel, at a task that is preempted.
use sys_rt.Common.{
  ◌>>=◌, ℕ, ◌+◌, ◌≡◌, refl, ◌⊎◌, inl, true, false, none, some, [], ok, arith, ltb, update,
}
use sys_rt.PList
use sys_rt.TaskModel.{fp_model, set_active, precedes, task_model_cmp, get_priority}
use sys_rt.Scheduler
use sys_rt.Scheduler.{Scheduler, fp_scheduler, get_first}
use sys_rt.Scheduler.Invariant.{IsValid}
use sys_rt.Scheduler.Notify
use sys_rt.Kernel
use sys_rt.Kernel.{Kernel, new_kernel, on_begin_dispatch, on_end_dispatch}
use sys_rt.Task
use sys_rt.Task.{Task, Handled, tsk_idle}
use sys_rt.KernelInstr.{call_kernel, call_all}
use sys_rt.Closed.{
  Reach, System, here, next, arrives, schedules, begins, switches, reads, quiet, handled, executes,
  calls_of,
}
use sys_rt.Closed.Safety.{one_executes}
use sys_rt.Closed.Places.{following}
use sys_rt.Closed.Progress.{deschedule, handlers_return}
use sys_rt.Closed.Service.{current_executes}
use sys_rt.Tests.Samples.{clock, running}

abbrev no_queue : Scheduler
no_queue = record {
  class = fp_scheduler;
  registered = λ t. ltb t 3;
  model = λ t. record { active = false; insert_time = 0; threshold = 1; policy = fp_model (5 + t) };
  queue = [];
  curr_exe = none;
  old_priorities = λ t. 0;
}

abbrev idle_task : ℕ → Task
idle_task t = record running { number = t; state = tsk_idle; num_jobs = 0 }

no_queue-IsValid : IsValid (reads idle_task) no_queue
no_queue-IsValid = record {
  sorted = tt;
  queued = λ t p. absurd (ground arith);
  listed = λ t p q. absurd (ground arith);
  typed = λ t p. refl;
}

abbrev at_start : System
at_start = record {
  kernel = new_kernel no_queue;
  task = idle_task;
  scheds = λ t. false;
  deschs = λ t. false;
  ending = false;
}

-- Task 1 arrives at 5.
abbrev h1 : Handled
h1 = Task.on_arrival clock 0 5 (at_start.task 1)

abbrev first_arrival : (k : Kernel) × (calls_of clock 5 at_start 1 h1 ≡ ok k)
unfolding new_kernel call_all call_kernel Kernel.on_arrival Kernel.dispatch Scheduler.insert
    set_active PList.insert precedes task_model_cmp get_priority Task.on_arrival Task.is_active
    Task.handle_arrival Task.reset_instrs Task.reactivate
first_arrival = (_, refl)

abbrev s1 : System
s1 =
    handled (update at_start.task 1 h1.0) at_start.scheds at_start.deschs at_start.ending
      first_arrival.0

-- The kernel switches to it.
abbrev first_choice : (k : Kernel) × (on_begin_dispatch (reads s1.task) 5 (quiet s1.kernel) ≡ ok k)
unfolding first_arrival on_begin_dispatch get_first Scheduler.get_task_n PList.size Kernel.preempt
    Kernel.switch_to new_kernel
first_choice = (_, refl)

abbrev s2 : System
s2 = handled s1.task s1.scheds s1.deschs s1.ending first_choice.0

abbrev first_switch : (k : Kernel) × (on_end_dispatch (reads s2.task) 6 (quiet s2.kernel) ≡ ok k)
unfolding first_arrival first_choice on_end_dispatch Kernel.notify_sched Notify.notify
    Notify.notify_as Notify.notify_base new_kernel
first_switch = (_, refl)

abbrev s3 : System
s3 = handled s2.task s2.scheds s2.deschs false first_switch.0

-- It begins to execute.
abbrev first_run :
    (h : Handled) × (Task.on_sched (some 0) 6 (s3.task 1) ≡ ok h)
    × ((k : Kernel) × (calls_of clock 6 s3 1 h ≡ ok k))
unfolding first_arrival first_choice first_switch Task.on_sched Task.current call_all call_kernel
    Task.on_arrival Task.is_active Task.handle_arrival new_kernel
first_run = (_, refl, (_, refl))

abbrev s4 : System
s4 =
    handled (update s3.task 1 first_run.0.0) (update s3.scheds 1 false) s3.deschs s3.ending
      first_run.2.0

-- Task 0, which goes before it, arrives at 7.
abbrev h0 : Handled
h0 = Task.on_arrival clock 0 7 (s4.task 0)

abbrev second_arrival : (k : Kernel) × (calls_of clock 7 s4 0 h0 ≡ ok k)
unfolding first_arrival first_choice first_switch first_run Task.on_sched call_all call_kernel
    Kernel.on_arrival Kernel.dispatch Scheduler.insert set_active PList.insert precedes
    task_model_cmp get_priority Task.on_arrival Task.is_active Task.handle_arrival Task.reset_instrs
    Task.reactivate new_kernel
second_arrival = (_, refl)

abbrev s5 : System
s5 = handled (update s4.task 0 h0.0) s4.scheds s4.deschs s4.ending second_arrival.0

abbrev second_choice : (k : Kernel) × (on_begin_dispatch (reads s5.task) 7 (quiet s5.kernel) ≡ ok k)
unfolding on_begin_dispatch get_first Scheduler.get_task_n PList.size Kernel.preempt
    Kernel.switch_to first_arrival first_choice first_switch first_run second_arrival Task.on_sched
    call_all call_kernel Kernel.on_arrival Kernel.dispatch Scheduler.insert set_active PList.insert
    precedes task_model_cmp get_priority Task.on_arrival Task.is_active Task.handle_arrival
    Task.reset_instrs Task.reactivate new_kernel
second_choice = (_, refl)

abbrev s6 : System
s6 = handled s5.task s5.scheds s5.deschs s5.ending second_choice.0

-- The history of these steps.
history : Reach clock at_start s6
unfolding second_choice Task.is_executing first_arrival first_choice first_switch first_run
    second_arrival Task.on_sched call_all call_kernel Kernel.on_arrival Kernel.dispatch
    Scheduler.insert set_active PList.insert precedes task_model_cmp get_priority Task.on_arrival
    Task.is_active Task.handle_arrival Task.reset_instrs Task.reactivate new_kernel
history =
    (next
      (next
        (next
          (next
            (next (next here (arrives 5 0 1 refl first_arrival.1))
              (begins 5 ((λ t. refl), (λ t. refl)) first_choice.1))
            (switches 6 ((λ t. refl), (λ t. refl)) refl refl first_switch.1))
          (schedules 6 1 (some 0) refl first_run.1 first_run.2.1))
        (arrives 7 0 0 refl second_arrival.1))
      (begins 7 ((λ t. ground arith), (λ t. ground arith)) second_choice.1))

-- Task 1 still executes, and is about to stop.
one_executes_example :
    (executes s6 1 ≡ true → ◌≡◌ {A = ℕ} 1 1)
    × ((s6.kernel.curr_exe ≡ some 1) ⊎ (s6.deschs 1 ≡ true))
unfolding second_choice Task.is_executing first_arrival first_choice first_switch first_run
    second_arrival Task.on_sched call_all call_kernel Kernel.on_arrival Kernel.dispatch
    Scheduler.insert set_active PList.insert precedes task_model_cmp get_priority Task.on_arrival
    Task.is_active Task.handle_arrival Task.reset_instrs Task.reactivate new_kernel
one_executes_example =
    one_executes clock no_queue idle_task s6 no_queue-IsValid (λ t. refl) (λ t. refl) (λ t. refl)
      history 1 1 refl

handlers_return_example :
    (k : Kernel) × ((Task.on_desched (some 0) (s6.task 1)
        >>= following (λ i. ltb i 2) (calls_of clock 8 s6 1))
      ≡ ok k)
unfolding second_choice Task.is_executing first_arrival first_choice first_switch first_run
    second_arrival Task.on_sched call_all call_kernel Kernel.on_arrival Kernel.dispatch
    Scheduler.insert set_active PList.insert precedes task_model_cmp get_priority Task.on_arrival
    Task.is_active Task.handle_arrival Task.reset_instrs Task.reactivate new_kernel
handlers_return_example =
    handlers_return clock (λ t i. ltb i 2) no_queue idle_task s6
      (Task.on_desched (some 0) (s6.task 1) >>= following (λ i. ltb i 2) (calls_of clock 8 s6 1))
      no_queue-IsValid (λ t. refl) (λ t. refl) (λ t. refl) (λ t. omega arith) history
      (λ t i h. ground (arith, h)) (deschedule 8 1 0 refl)

-- Task 1 stops, the switch to task 0 ends, and task 0 executes.
current_executes_example : (s' : System) × Reach clock s6 s' × (executes s' 0 ≡ true)
unfolding second_choice Task.is_executing first_arrival first_choice first_switch first_run
    second_arrival Task.on_sched call_all call_kernel Kernel.on_arrival Kernel.dispatch
    Scheduler.insert set_active PList.insert precedes task_model_cmp get_priority Task.on_arrival
    Task.is_active Task.handle_arrival Task.reset_instrs Task.reactivate new_kernel
current_executes_example =
    current_executes clock no_queue idle_task s6 9 0 no_queue-IsValid (λ t. refl) (λ t. refl)
      (λ t. refl) (λ t. omega arith) history refl (inl (1, refl))
