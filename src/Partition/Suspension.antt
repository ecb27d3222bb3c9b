-- ===== src/Partition/Suspension.antt =====
-- src/parti_mrtkernel.cpp: suspend, whose processor is the task's own whether the task runs there or not.
use sys_rt.Common.{ℕ, ◌≡◌, refl, none, some, ◌++◌, ok, ==_refl, Returns}
use sys_rt.Scheduler
use sys_rt.Scheduler.{Scheduler}
use sys_rt.Kernel.{task_deschedule}
use sys_rt.Partition.{Partitioned, place_of, partition_extract, vacate, suspend, with_scheduler}

-- On the partitioned kernel, suspend of a task that its scheduler can extract leaves the task's
-- processor without a current task, whichever task that was, while only the suspended task is
-- descheduled.
pub suspend-task_deschedule :
    (k : Partitioned) (p t : ℕ) (s : Scheduler)
    → place_of k t ≡ ok p
    → Scheduler.extract (k.schedulers p) t ≡ ok s
    → Returns
        (λ k'.
          (k'.multi.curr_exe p ≡ none)
          × (k'.pre_exe p ≡ some t)
          × (k'.multi.calls ≡ k.multi.calls ++ task_deschedule t))
        (suspend k t)
unfolding suspend partition_extract vacate place_of
suspend-task_deschedule k p t s e h =
    let e₁ : place_of (with_scheduler k p s) t ≡ ok p = e in
    rw (suspend, partition_extract, e, h, e₁, vacate, ==_refl p) (refl, refl, refl)
