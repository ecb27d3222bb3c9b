-- ===== src/Tests/Isolated.antt =====
-- The isolation of processors, where task 0 and task 1 are ready on processor 0 and task 2 runs on processor 1.
use sys_rt.Common.{ℕ, ◌≡◌, refl, false, none, some, [], ◌∷◌, ok, arith, ◌==◌, if◌then◌else◌}
use sys_rt.PList
use sys_rt.Scheduler.{get_first, get_task_n}
use sys_rt.MultiKernel.{new_multi, dispatch_cpu}
use sys_rt.Partition.{
  Partitioned, place_of, dispatch_processor, on_begin_dispatch_multi, partition_get_first,
}
use sys_rt.Kernel
use sys_rt.Partition.Refinement.{processor, run_map, silent}
use sys_rt.Partition.Simulation.{Reach-begins}
use sys_rt.Partition.Local.{OwnTasks}
use sys_rt.Partition.Isolation.{dispatches, begins, here, next, Reach-Isolated}
use sys_rt.Tests.Samples.{clock, env, fp_queue}

abbrev spread : Partitioned
spread = record {
  multi = record (new_multi fp_queue (0 ∷ 1 ∷ [])) {
    curr_exe = λ p. if p == 1 then some 2 else none;
  };
  size = 2;
  schedulers = λ p. if p == 0 then fp_queue else record fp_queue { queue = [] };
  task_affinity = λ t. if t == 2 then 1 else 0;
  pre_exe = λ p. none;
  need_dispatch = λ p. false;
}

spread-OwnTasks : (p : ℕ) → OwnTasks spread p
unfolding place_of
spread-OwnTasks p = record { queued = λ z m. ground arith; running = λ z m. ground arith }

abbrev asked : Partitioned
asked = dispatch_processor clock 9 spread 0

begun : (k : Partitioned) × (on_begin_dispatch_multi env 9 asked 0 ≡ ok k)
unfolding on_begin_dispatch_multi dispatch_processor partition_get_first get_first get_task_n
    PList.size dispatch_cpu new_multi
begun = (_, refl)

Reach-Isolated_example :
    ((p : ℕ) → OwnTasks begun.0 p)
    × ((q : ℕ) → (q == 0) ≡ false → processor begun.0 q ≡ processor spread q)
Reach-Isolated_example =
    Reach-Isolated clock (λ p. p == 0) spread begun.0 spread-OwnTasks
      (next 0 (next 0 here refl (dispatches 9)) refl (begins env 9 begun.1))

Reach-begins_example :
    run_map (λ l. processor l 0) (on_begin_dispatch_multi env 9 asked 0)
    ≡ run_map silent (Kernel.on_begin_dispatch env 9 (processor asked 0))
unfolding partition_get_first get_first get_task_n PList.size dispatch_processor dispatch_cpu
    new_multi
Reach-begins_example =
    Reach-begins clock (λ p. p == 0) spread asked spread-OwnTasks (next 0 here refl (dispatches 9))
      env 9 0 0 refl
