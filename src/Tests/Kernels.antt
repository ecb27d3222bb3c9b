-- ===== src/Tests/Kernels.antt =====
-- The theorems of the kernel and of the resource managers, applied to sample kernels.
use sys_rt.Common.{
  arith, ℕ, ◌≡◌, ◌↔◌, ◌⊎◌, inl, refl, true, false, some, List, [], ◌∷◌, ◌++◌, ok, fault, Returns,
}
use sys_rt.Sim.{notify_after, end_dispatch_evt}
use sys_rt.PList
use sys_rt.Scheduler
use sys_rt.Scheduler.{Scheduler, get_first, get_task_n}
use sys_rt.Scheduler.Selection.{IsReady, Outranks}
use sys_rt.Kernel.{Kernel, task_deschedule, suspend, activate, on_begin_dispatch, on_end_dispatch}
use sys_rt.Kernel.Invariant.{IsValid}
use sys_rt.Kernel.Dispatch.{
  Runs, on_begin_dispatch-preempts, on_begin_dispatch-Outranks, on_end_dispatch-Runs,
  on_end_dispatch-suspend,
}
use sys_rt.Kernel.Cycle.{System, begins, here, next, SystemIsValid, Reach-IsValid}
use sys_rt.Task.{Task}
use sys_rt.Resource.{Resource, rt_kernel, is_locked}
use sys_rt.Resource.Fcfs
use sys_rt.Resource.Fcfs.{Fcfs}
use sys_rt.Resource.Fcfs.Line.{line, IsSound, request-line, release-line}
use sys_rt.Resource.Inheritance
use sys_rt.Resource.Inheritance.{Pir}
use sys_rt.Resource.Inheritance.Protocol.{Inherits, request-Inherits, HandsOver, release-HandsOver}
use sys_rt.KernelInstr.{thre_on_end, sched_on_end}
use sys_rt.KernelInstr.Suspend
use sys_rt.KernelInstr.Suspend.{on_suspend-Suspended, on_end-Activated, on_end-last_fault}
use sys_rt.Kernel.Tracks.{Suspended, Activated}
use sys_rt.KernelInstr.Ends.{IsTop, thre_on_end-IsTop, sched_on_end-last}
use sys_rt.Tests.Samples.{
  kernel_of, busy-IsValid, running, clock, env, env-IsNumbered, fp_queue, fp_queue-IsValid,
}

first_is_0 : get_first fp_queue ≡ some 0
unfolding get_first get_task_n PList.size
first_is_0 = refl

on_begin_dispatch-Outranks_example :
    Returns
      (λ k'.
        IsValid env k'
        × ((z : ℕ)
            → IsReady fp_queue z
            → (t : ℕ) × (k'.curr_exe ≡ some t) × ((t ≡ z) ⊎ Outranks env fp_queue t z)))
      (on_begin_dispatch env 9 (kernel_of (some 1)))
on_begin_dispatch-Outranks_example =
    on_begin_dispatch-Outranks env env-IsNumbered 9 (kernel_of (some 1)) busy-IsValid

keeps_current :
    Returns
      (λ k'. Runs env 1 k' × (k'.is_context_switching ≡ false))
      (on_end_dispatch env 9 (kernel_of (some 1)))
keeps_current = on_end_dispatch-Runs env env-IsNumbered 9 (kernel_of (some 1)) 1 busy-IsValid refl

-- The kernel after the suspension of its task 1.
suspended : (k : Kernel) × (suspend (kernel_of (some 1)) 1 ≡ ok k)
unfolding suspend Scheduler.extract PList.erase Scheduler.released Scheduler.find
suspended = (_, refl)

suspended_faults : on_end_dispatch env 9 suspended.0 ≡ fault
suspended_faults = on_end_dispatch-suspend env 9 (kernel_of (some 1)) suspended.0 1 refl suspended.1

abbrev busy : System
busy = record { env = env; kernel = kernel_of (some 1) }

abbrev switched : System
switched = record {
  env = env;
  kernel = record (kernel_of (some 1)) {
    curr_exe = some 0;
    pre_exe = some 1;
    is_context_switching = true;
    start_context_switch = 9;
    calls = ([] ++ task_deschedule 1) ++ notify_after end_dispatch_evt 3 ∷ [];
  };
}

Reach-IsValid_example : SystemIsValid switched
Reach-IsValid_example =
    Reach-IsValid {sc = clock} {s = busy} {t = switched}
      (next here
        (begins 9 (on_begin_dispatch-preempts env 9 (kernel_of (some 1)) 1 0 refl first_is_0 refl)))
      (record { numbered = env-IsNumbered; kernel_valid = busy-IsValid })

-- One unit, held by task 1, for which task 2 waits.
abbrev held : Resource
held = record { total = 1; available = 0; owner = some 1 }

abbrev fcfs_sample : Fcfs
fcfs_sample = record { res = λ r. held; curr_users = λ r. some 1; blocked = λ r. 2 ∷ [] }

request-line_example :
    Returns
      (λ a.
        IsSound a.1 3
        × (line a.1 3 ≡ line fcfs_sample 3 ++ 0 ∷ [])
        × ((a.2 ≡ true) ↔ (line fcfs_sample 3 ≡ [])))
      (Fcfs.request (rt_kernel env) 9 (kernel_of (some 0)) fcfs_sample 0 3 1)
unfolding suspend Scheduler.extract PList.erase Scheduler.released Scheduler.find
request-line_example =
    request-line (rt_kernel env) 9 (kernel_of (some 0)) fcfs_sample 3 0 1
      (inl (1, refl, refl, refl)) tt

release-line_example :
    Returns
      (λ a. IsSound a.1 3 × (1 ∷ line a.1 3 ≡ line fcfs_sample 3))
      (Fcfs.release (rt_kernel env) 9 (kernel_of (some 1)) fcfs_sample 1 3 1)
unfolding activate Scheduler.insert Scheduler.find
release-line_example =
    release-line (rt_kernel env) 9 (kernel_of (some 1)) fcfs_sample 3 1 1
      (inl (1, refl, refl, refl)) refl (tt, tt)

abbrev pir_sample : List ℕ → Pir
pir_sample ws = record { res = λ r. held; old_priorities = λ t r. 6; blocked = λ r. ws }

request-Inherits_example :
    Returns (Inherits env env-IsNumbered (λ v. v) 9 3 0 1 5) (
      Inheritance.request (rt_kernel env) (λ v. v) env 9 (kernel_of (some 0)) (pir_sample []) 0 3 1)
unfolding is_locked
request-Inherits_example =
    request-Inherits env env-IsNumbered (λ v. v) 9 (kernel_of (some 0)) (pir_sample []) 0 3 1 1 5 6
      fp_queue-IsValid refl refl refl refl refl refl refl refl

release-HandsOver_example :
    Returns (HandsOver env env-IsNumbered (λ v. v) 9 (pir_sample (2 ∷ [])) 1 3 2 []) (
      Inheritance.release
        (rt_kernel env)
        (λ v. v)
        env
        9
        (λ t. true)
        (kernel_of (some 1))
        (pir_sample (2 ∷ []))
        1
        3
        1)
release-HandsOver_example =
    release-HandsOver env env-IsNumbered (λ v. v) 9 (λ t. true) (kernel_of (some 1))
      (pir_sample (2 ∷ [])) 1 3 1 2 6 [] fp_queue-IsValid refl refl refl refl refl refl refl refl

-- Task 1 in the first of two instructions, and in the last one.
abbrev first_instr : Task
first_instr = record running { number = 1 }

abbrev last_instr : Task
last_instr = record running { number = 1; act_instr = 1 }

thre_on_end-IsTop_example :
    Returns
      (λ r. IsTop env 1 r.0)
      (thre_on_end clock env 9 (some 0) 7 (kernel_of (some 1)) first_instr)
thre_on_end-IsTop_example =
    thre_on_end-IsTop clock env env-IsNumbered 9 0 7 (kernel_of (some 1)) first_instr 6 busy-IsValid
      refl refl refl refl (omega arith) (omega arith)

last_instruction_faults :
    (sched_on_end clock env 9 (some 0) 7 (kernel_of (some 1)) last_instr ≡ fault)
    × (thre_on_end clock env 9 (some 0) 7 (kernel_of (some 1)) last_instr ≡ fault)
last_instruction_faults =
    sched_on_end-last clock env env-IsNumbered 9 0 7 (kernel_of (some 1)) last_instr busy-IsValid
      refl refl (omega arith)

-- Task 1 suspends itself, and a task that is out of the queue resumes.
suspends_itself :
    Returns
      (Suspended env env-IsNumbered 9 (kernel_of (some 1)) 1)
      (Suspend.on_suspend 7 20 (kernel_of (some 1)) first_instr)
suspends_itself =
    on_suspend-Suspended env env-IsNumbered 9 7 20 (kernel_of (some 1)) first_instr busy-IsValid
      refl

resumes :
    Returns
      (λ r. Activated env env-IsNumbered 29 (kernel_of (some 1)) 2 r.0)
      (Suspend.on_end clock env 29
        (some 0)
        (kernel_of (some 1))
        (record first_instr { number = 2 }))
resumes =
    on_end-Activated env env-IsNumbered 29 clock (some 0) (kernel_of (some 1))
      (record first_instr { number = 2 }) busy-IsValid refl refl (omega arith)

resumes_behind_last :
    Suspend.on_end clock env 29 (some 0) (kernel_of (some 1)) (record last_instr { number = 2 })
    ≡ fault
resumes_behind_last =
    on_end-last_fault env env-IsNumbered 29 clock 0 (kernel_of (some 1))
      (record last_instr { number = 2 }) refl refl refl (omega arith)
