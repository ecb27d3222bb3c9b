-- ===== src/Tests/Processors.antt =====
-- The theorems of the multiprocessor kernels, applied to a kernel with two processors.
use sys_rt.Common.{
  ℕ, ◌≡◌, refl, false, none, some, [], ◌∷◌, ◌++◌, ok, fault, arith, update, Returns, ◌==◌,
  if◌then◌else◌,
}
use sys_rt.PList
use sys_rt.TaskModel.{set_active, precedes, task_model_cmp, get_priority}
use sys_rt.Scheduler
use sys_rt.Scheduler.{Scheduler, get_first, get_task_n}
use sys_rt.Scheduler.Notify
use sys_rt.Kernel
use sys_rt.Kernel.{task_deschedule}
use sys_rt.MultiKernel.{
  MultiKernel, count_new, find_processor, is_free, is_dispatched, dispatch_all, get_processor,
  dispatch_loop, get_next_free_proc, new_multi, dispatch_cpu,
}
use sys_rt.MultiKernel.Cpu.{
  on_arrival, on_begin_dispatch_multi, on_end_dispatch_multi, clear_cpu, first_new, begin_switch,
}
use sys_rt.MultiKernel.Handlers.{System, handled, quiet}
use sys_rt.MultiKernel.Exclusion.{arrives, begins, ends, here, next, one_processor}
use sys_rt.MultiKernel.Dispatch.{Told, new_tasks}
use sys_rt.MultiKernel.Enough.{Occupied, dispatch_all-Occupied}
use sys_rt.MultiKernel.Stale.{on_begin_dispatch_multi-dispatch_cpu}
use sys_rt.Partition.{Partitioned, place_of, partition_get_first}
use sys_rt.Partition
use sys_rt.MultiKernel.Accessors.{
  add_cpu, get_processors, get_free_processor, get_task, get_running_tasks,
}
use sys_rt.Partition.Refinement.{
  processor, run_map, silent, on_begin_dispatch_multi-refines, on_end_dispatch_multi-refines,
}
use sys_rt.Partition.Suspension.{suspend-task_deschedule}
use sys_rt.Tests.Samples.{clock, env, fp_queue}

abbrev fresh : System
fresh = record {
  kernel = new_multi fp_queue (0 ∷ 1 ∷ []);
  ending = λ p. false;
  beginning = λ p. false;
}

-- Task 2 arrives, so that both processors are dispatched.
abbrev arrived :
    (k : MultiKernel) × (on_arrival clock env 5 (quiet fresh.kernel) 2 ≡ ok k)
    × (new_tasks k ≡ (2, 2))
unfolding on_arrival new_multi Scheduler.insert set_active PList.insert precedes task_model_cmp
    get_priority dispatch_all dispatch_loop count_new get_processor find_processor
    get_next_free_proc is_free is_dispatched dispatch_cpu
arrived = (_, refl, refl)

abbrev told : System
told = handled fresh.ending fresh.beginning arrived.0

abbrev begun : System
begun =
    handled told.ending (update told.beginning 0 false)
      (on_begin_dispatch_multi clock 5 (quiet told.kernel) 0)

ended :
    (k : MultiKernel) × (on_end_dispatch_multi env 7 (quiet begun.kernel) 0 ≡ ok k)
    × (k.curr_exe 0 ≡ some 0)
unfolding on_end_dispatch_multi on_begin_dispatch_multi clear_cpu first_new begin_switch
    Notify.notify Notify.notify_as arrived
ended = (_, refl, refl)

one_processor_example : ◌≡◌ {A = ℕ} 0 0
unfolding new_multi on_end_dispatch_multi on_begin_dispatch_multi clear_cpu first_new begin_switch
    arrived
one_processor_example =
    one_processor clock env fp_queue (0 ∷ 1 ∷ [])
      (handled (update begun.ending 0 false) begun.beginning ended.0)
      (next (next (next here (arrives 5 2 (λ p. refl) arrived.1)) (begins 5 0 refl))
        (ends 7 0 refl ended.1))
      0 0 0 ended.2 ended.2

-- The accessors of a kernel whose processor 1 runs task 1.
accessors :
    let k = record (add_cpu (new_multi fp_queue (0 ∷ [])) 1) {
      curr_exe = λ p. if p == 1 then some 1 else none;
    } in
    (get_processors k ≡ fault)
    × (get_free_processor k ≡ some 0)
    × (get_task k 1 ≡ some 1)
    × (get_running_tasks k ≡ 1 ∷ [])
unfolding new_multi add_cpu get_processors get_free_processor get_task get_running_tasks
accessors = (refl, refl, refl, refl)

-- Processor 1 runs task 0, and task 1 is new.
abbrev half_busy : MultiKernel
half_busy = record (new_multi fp_queue (0 ∷ 1 ∷ [])) {
  tasks = 0 ∷ 1 ∷ 2 ∷ [];
  curr_exe = λ p. if p == 1 then some 0 else none;
  dispatched = λ t. if t == 0 then some 1 else none;
}

half_busy-Occupied : Occupied half_busy
unfolding new_multi is_free is_dispatched
half_busy-Occupied p e = ground arith

one_is_new : new_tasks half_busy ≡ (2, 1)
unfolding new_multi count_new get_processor find_processor
one_is_new = refl

dispatch_all-Occupied_example :
    Returns (Told half_busy (new_tasks half_busy).1) (dispatch_all clock 5 half_busy)
unfolding new_multi
dispatch_all-Occupied_example =
    dispatch_all-Occupied half_busy clock 5 ((refl, tt), (tt, tt)) (λ p. refl)
      (λ p t e. ground arith) half_busy-Occupied

-- Processor 0 is in a switch to task 0, which runs on processor 1.
abbrev stale : MultiKernel
stale = record (new_multi fp_queue (0 ∷ 1 ∷ [])) {
  switching = λ p. p == 0;
  end_task = λ p. some 0;
  curr_exe = λ p. if p == 1 then some 0 else none;
  dispatched = λ t. if t == 0 then some 1 else none;
}

on_begin_dispatch_multi-dispatch_cpu_example :
    let k' = on_begin_dispatch_multi clock 5 (dispatch_cpu clock 5 stale 0) 0 in
    (k'.curr_exe 1 ≡ some 0) × (k'.end_task 0 ≡ some 0) × (k'.dispatched 0 ≡ some 0)
unfolding new_multi
on_begin_dispatch_multi-dispatch_cpu_example =
    on_begin_dispatch_multi-dispatch_cpu clock 5 stale 0 1 0 (1 ∷ []) refl refl refl refl refl

abbrev parted : Partitioned
parted = record {
  multi = record (new_multi fp_queue (0 ∷ 1 ∷ [])) { curr_exe = λ p. some 1 };
  size = 2;
  schedulers = λ p. fp_queue;
  task_affinity = λ t. 0;
  pre_exe = λ p. none;
  need_dispatch = λ p. false;
}

begun_alike :
    run_map (λ k'. processor k' 0) (Partition.on_begin_dispatch_multi env 9 parted 0)
    ≡ run_map silent (Kernel.on_begin_dispatch env 9 (processor parted 0))
unfolding partition_get_first place_of get_first get_task_n PList.size
begun_alike = on_begin_dispatch_multi-refines env 9 parted 0 0 refl refl

ended_alike :
    run_map (λ k'. processor k' 0) (Partition.on_end_dispatch_multi env 9 parted 0)
    ≡ run_map silent (Kernel.on_end_dispatch env 9 (processor parted 0))
unfolding place_of
ended_alike = on_end_dispatch_multi-refines env 9 parted 0 1 refl refl

abbrev extracted : (s : Scheduler) × (Scheduler.extract fp_queue 0 ≡ ok s)
unfolding Scheduler.extract PList.erase Scheduler.released Scheduler.find
extracted = (_, refl)

descheduled_elsewhere :
    Returns
      (λ k'.
        (k'.multi.curr_exe 0 ≡ none)
        × (k'.pre_exe 0 ≡ some 0)
        × (k'.multi.calls ≡ parted.multi.calls ++ task_deschedule 0))
      (Partition.suspend parted 0)
unfolding place_of
descheduled_elsewhere = suspend-task_deschedule parted 0 0 extracted.0 refl extracted.1
