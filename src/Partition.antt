-- ===== src/Partition.antt =====
-- src/parti_mrtkernel.hpp, parti_mrtkernel.cpp: Parti_Mrtkernel, the multiprocessor kernel where a task
-- belongs to one processor; src/partition_edf.hpp, partition_edf.cpp: partition_scheduler, which
-- has a scheduler for each processor. A processor is known by its place in `cpus`, which is its
-- index; `multi.sched` is not used.
pub mod Refinement
pub mod Suspension
pub mod Local
pub mod Switching
pub mod Isolation
pub mod Simulation
use sys_rt.Common.{
  ℕ, ◌+◌, ◌≡◌, Bool, true, false, not, Option, none, some, List, [], ◌∷◌, ◌++◌, Run, ok, fault,
  ◌>>=◌, deref, if◌then◌else◌, opt_eq, update, ltb, ◌==◌,
}
use sys_rt.Sim.{SimTime, EventCall, notify_after, dispatch_ev}
use sys_rt.TaskModel.{TaskAttrs}
use sys_rt.Scheduler
use sys_rt.Scheduler.{Scheduler}
use sys_rt.Scheduler.Notify
use sys_rt.Kernel.{task_schedule, task_deschedule}
use sys_rt.MultiKernel.{MultiKernel, emit, dispatch_cpu, end_event_notify}

pub record Partitioned : Type 0 where
  pub multi : MultiKernel
  pub size : ℕ
  pub schedulers : ℕ → Scheduler
  pub task_affinity : ℕ → ℕ
  pub pre_exe : ℕ → Option ℕ
  pub need_dispatch : ℕ → Bool

abbrev pub tell : Partitioned → List EventCall → Partitioned
tell k es = record k { multi = emit k.multi es }

-- The place of a task's processor and scheduler, which is not checked.
unfoldable pub place_of : Partitioned → ℕ → Run ℕ
place_of k t = if ltb (k.task_affinity t) k.size then ok (k.task_affinity t) else fault

abbrev pub with_scheduler : Partitioned → ℕ → Scheduler → Partitioned
with_scheduler k p s = record k { schedulers = update k.schedulers p s }

unfoldable pub partition_add_task : Partitioned → ℕ → Option ℕ → Run Partitioned
unfolding place_of
partition_add_task k t param = do
  p ← place_of k t
  s ← Scheduler.add_task (k.schedulers p) t param
  ok (with_scheduler k p s)

unfoldable pub partition_insert : (ℕ → TaskAttrs) → ℕ → Partitioned → ℕ → Run Partitioned
unfolding place_of
partition_insert env now k t = do
  p ← place_of k t
  s ← Scheduler.insert env now (k.schedulers p) t
  ok (with_scheduler k p s)

unfoldable pub partition_extract : Partitioned → ℕ → Run Partitioned
unfolding place_of
partition_extract k t = do
  p ← place_of k t
  s ← Scheduler.extract (k.schedulers p) t
  ok (with_scheduler k p s)

-- The place of NULL is read through the pointer.
unfoldable pub partition_notify : (ℕ → TaskAttrs) → ℕ → Partitioned → Option ℕ → Run Partitioned
unfolding place_of
partition_notify env now k st = do
  t ← deref st
  p ← place_of k t
  r ← Notify.notify env now (k.schedulers p) st
  ok (tell (with_scheduler k p r.0) r.1)

unfoldable pub partition_get_first : Partitioned → ℕ → Option ℕ
partition_get_first k p = Scheduler.get_first (k.schedulers p)

unfoldable pub partition_get_task_n : Partitioned → ℕ → ℕ → Option ℕ
partition_get_task_n k n p = Scheduler.get_task_n (k.schedulers p) n

-- dispatch(CPU *).
unfoldable pub dispatch_processor : SimTime → ℕ → Partitioned → ℕ → Partitioned
dispatch_processor sc now k p = record k { multi = dispatch_cpu sc now k.multi p }

unfoldable pub dispatch_of_task : SimTime → ℕ → Partitioned → ℕ → Run Partitioned
unfolding place_of dispatch_processor
dispatch_of_task sc now k t = do p ← place_of k t; ok (dispatch_processor sc now k p)

unfoldable pub dispatch_interface1 : Partitioned → ℕ → Partitioned
dispatch_interface1 k p =
    tell (record k { need_dispatch = update k.need_dispatch p true })
      (notify_after dispatch_ev 0 ∷ [])

unfoldable pub dispatch_interface2 : Partitioned → ℕ → Run Partitioned
unfolding place_of dispatch_interface1
dispatch_interface2 k t = do p ← place_of k t; ok (dispatch_interface1 k p)

-- dispatch(): every processor needs one.
unfoldable pub dispatch_every : Partitioned → Partitioned
dispatch_every k =
    tell (record k { need_dispatch = λ p. if ltb p k.size then true else k.need_dispatch p })
      (notify_after dispatch_ev 0 ∷ [])

-- The loop over the processors in `ps`.
unfoldable pub dispatch_call : SimTime → ℕ → List ℕ → Partitioned → Partitioned
unfolding dispatch_processor
dispatch_call sc now [] k = k
dispatch_call sc now (p ∷ ps) k = dispatch_call sc now ps (
    if k.need_dispatch p
    then record (dispatch_processor sc now k p) { need_dispatch = update k.need_dispatch p false }
    else k)

unfoldable pub preempt : Partitioned → ℕ → Partitioned
preempt k e = elim (k.multi.curr_exe e) [
  | none ↦ k
  | some c ↦ tell (record k { pre_exe = update k.pre_exe e (some c) }) (task_deschedule c)
]

unfoldable pub switch_to : (ℕ → TaskAttrs) → ℕ → Partitioned → ℕ → Option ℕ → Run Partitioned
unfolding partition_notify
switch_to env now k e none = partition_notify env now k none
switch_to env now k e (some t) =
    let k₁ = record k {
      multi = record k.multi { curr_exe = update k.multi.curr_exe e (some t) };
    } in
    if not (opt_eq (some t) (k.pre_exe e))
    then ok (record k {
      multi =
          emit
            (record k.multi {
              curr_exe = update k.multi.curr_exe e (some t);
              switching = update k.multi.switching e true;
              start_switching = update k.multi.start_switching e now;
            })
            (end_event_notify e k.multi.context_switch_delay);
    })
    else partition_notify env now (tell k₁ (task_schedule t)) (some t)

unfoldable pub on_begin_dispatch_multi : (ℕ → TaskAttrs) → ℕ → Partitioned → ℕ → Run Partitioned
unfolding preempt switch_to partition_get_first
on_begin_dispatch_multi env now k e =
    let new_exe = partition_get_first k e in
    if not (opt_eq (k.multi.curr_exe e) new_exe)
    then switch_to env now (preempt k e) e new_exe
    else ok k

unfoldable pub on_end_dispatch_multi : (ℕ → TaskAttrs) → ℕ → Partitioned → ℕ → Run Partitioned
unfolding partition_notify
on_end_dispatch_multi env now k p = do
  t ← deref (k.multi.curr_exe p)
  partition_notify env now
      (tell (record k { multi = record k.multi { switching = update k.multi.switching p false } })
        (task_schedule t))
      (some t)

unfoldable pub on_arrival : (ℕ → TaskAttrs) → ℕ → Partitioned → ℕ → Run Partitioned
unfolding partition_insert dispatch_interface2
on_arrival env now k t = do k₁ ← partition_insert env now k t; dispatch_interface2 k₁ t

-- What suspend and onEnd do to the task's processor, whichever task that runs.
unfoldable pub vacate : Partitioned → ℕ → ℕ → Partitioned
vacate k t p = record k {
  multi = record k.multi {
    curr_exe = update k.multi.curr_exe p none;
    old_exe = update k.multi.old_exe t (some p);
    dispatched = update k.multi.dispatched t none;
  };
  pre_exe = update k.pre_exe p (some t);
}

unfoldable pub suspend : Partitioned → ℕ → Run Partitioned
unfolding partition_extract place_of vacate
suspend k t = do
  k₁ ← partition_extract k t
  p ← place_of k₁ t
  ok (vacate (tell k₁ (task_deschedule t)) t p)

unfoldable pub on_end : Partitioned → ℕ → Run Partitioned
unfolding partition_extract place_of vacate dispatch_interface1
on_end k t = do
  p ← place_of k t
  k₁ ← partition_extract k t
  ok (dispatch_interface1 (vacate k₁ t p) p)
