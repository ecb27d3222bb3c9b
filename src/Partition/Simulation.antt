-- ===== src/Partition/Simulation.antt =====
-- src/parti_mrtkernel.cpp: after any history a processor of the partitioned kernel dispatches as RTKernel does.
use sys_rt.Common.{ℕ, ◌≡◌, Bool, some}
use sys_rt.Sim.{SimTime}
use sys_rt.TaskModel.{TaskAttrs}
use sys_rt.Kernel
use sys_rt.Partition.{
  Partitioned, partition_get_first, on_begin_dispatch_multi, on_end_dispatch_multi,
}
use sys_rt.Partition.Refinement.{
  processor, run_map, silent, on_begin_dispatch_multi-refines, on_end_dispatch_multi-refines,
}
use sys_rt.Partition.Local.{OwnTasks}
use sys_rt.Partition.Switching.{get_first-mem}
use sys_rt.Partition.Isolation.{Reach, Reach-Isolated}

module _ (sc : SimTime) (allowed : ℕ → Bool) (k k' : Partitioned) (own : (p : ℕ) → OwnTasks k p)
    (reached : Reach sc allowed k k') (env : ℕ → TaskAttrs) (now p t : ℕ) where
  -- If every processor of the partitioned kernel has only its own tasks in its queue and running,
  -- then after any history of handlers that return, onBeginDispatchMulti of a processor with a
  -- ready task does to the processor what RTKernel::onBeginDispatch does to the single-processor
  -- kernel with the same scheduler and state, up to the calls of events, and it ends in the same
  -- way.
  pub Reach-begins :
      partition_get_first k' p ≡ some t
      → run_map (λ l. processor l p) (on_begin_dispatch_multi env now k' p)
        ≡ run_map silent (Kernel.on_begin_dispatch env now (processor k' p))
  unfolding partition_get_first
  Reach-begins first = on_begin_dispatch_multi-refines env now k' p t first (
      ((Reach-Isolated sc allowed k k' own reached).0 p).queued t
        (get_first-mem (k'.schedulers p) t first))

  -- The same of onEndDispatchMulti and RTKernel::onEndDispatch, for a current task.
  Reach-ends :
      k'.multi.curr_exe p ≡ some t
      → run_map (λ l. processor l p) (on_end_dispatch_multi env now k' p)
        ≡ run_map silent (Kernel.on_end_dispatch env now (processor k' p))
  Reach-ends runs =
      on_end_dispatch_multi-refines env now k' p t runs
        (((Reach-Isolated sc allowed k k' own reached).0 p).running t runs)
