-- ===== src/KernelInstr.antt =====
-- src/threinstr.cpp, schedinstr.cpp: the instructions that set and give up a preemption threshold,
-- with the task and the single-processor kernel that they call. `x` is the number of the
-- instruction, whose execution time is 0, and `cpu` is the kernel's processor. The kernel is an
-- RTKernel, so that the cast does not give NULL.
pub mod Ends
pub mod Suspend
use sys_rt.Common.{ℕ, Option, List, [], ◌∷◌, Run, ok, ◌>>=◌}
use sys_rt.Sim.{SimTime, EventCall, notify, cancel, instr_end_evt, thre_evt}
use sys_rt.TaskModel.{TaskAttrs}
use sys_rt.Kernel
use sys_rt.Kernel.{Kernel, emit}
use sys_rt.Task
use sys_rt.Task.{
  Task, TaskCall, Handled, event, kernel_on_arrival, kernel_on_end, kernel_terminate,
  kernel_suspend, kernel_dispatch, instr_reset, instr_get_duration, instr_schedule,
  instr_deschedule, exit_process,
}

unfoldable pub schedule : ℕ → List EventCall
schedule x = notify (instr_end_evt x) ∷ []

unfoldable pub deschedule : ℕ → List EventCall
deschedule x = cancel (instr_end_evt x) ∷ []

unfoldable pub end_run : ℕ → List EventCall
end_run x = cancel (instr_end_evt x) ∷ cancel (thre_evt x) ∷ []

module _ (sc : SimTime) (env : ℕ → TaskAttrs) (now : ℕ) where
  -- What the task calls of its kernel. The calls of its instructions are left to the caller.
  unfoldable pub call_kernel : ℕ → TaskCall → Kernel → Run Kernel
  call_kernel t (event e) k = ok (emit k (e ∷ []))
  call_kernel t kernel_on_arrival k = Kernel.on_arrival sc env now k t
  call_kernel t kernel_on_end k = Kernel.on_end k t
  call_kernel t kernel_terminate k = Kernel.terminate k t
  call_kernel t kernel_suspend k = Kernel.suspend k t
  call_kernel t kernel_dispatch k = ok (Kernel.dispatch k)
  call_kernel t (instr_reset i) k = ok k
  call_kernel t (instr_get_duration i) k = ok k
  call_kernel t (instr_schedule i) k = ok k
  call_kernel t (instr_deschedule i) k = ok k
  call_kernel t exit_process k = ok k

  unfoldable pub call_all : ℕ → List TaskCall → Kernel → Run Kernel
  unfolding call_kernel
  call_all t [] k = ok k
  call_all t (c ∷ cs) k = do k₁ ← call_kernel t c k; call_all t cs k₁

  -- `_father->onInstrEnd()`
  unfoldable pub father_end : Option ℕ → Kernel → Task → Run (Kernel × Handled)
  unfolding call_all
  father_end cpu k t = do r ← Task.on_instr_end sc cpu 0 t; k₁ ← call_all t.number r.1 k; ok (k₁, r)

  -- ThreInstr::onEnd
  unfoldable pub thre_on_end : Option ℕ → ℕ → Kernel → Task → Run (Kernel × Handled)
  unfolding father_end
  thre_on_end cpu x k t = do
    (k₁, r) ← father_end cpu k t
    k₂ ← Kernel.set_threshold k₁ 0
    (k₃, tmp) ← Kernel.enable_threshold env now k₂
    ok (emit k₃ (notify (thre_evt x) ∷ []), r)

  -- SchedInstr::onEnd
  unfoldable pub sched_on_end : Option ℕ → ℕ → Kernel → Task → Run (Kernel × Handled)
  unfolding father_end
  sched_on_end cpu x k t = do
    (k₁, r) ← father_end cpu k t
    k₂ ← Kernel.disable_threshold env now k₁
    ok (emit (Kernel.dispatch k₂) (notify (thre_evt x) ∷ []), r)
