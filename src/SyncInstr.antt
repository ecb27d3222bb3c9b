-- ===== src/SyncInstr.antt =====
-- src/waitinstr.cpp: the instructions that ask for a resource and give it back, with the task, the
-- RTKernel and the resource manager that they call. `x` is the number of the instruction, `r` the
-- resource that it names and `n` the units; the kernel is an RTKernel, so that the cast does not
-- give NULL.
pub mod Steps
pub mod History
pub mod Progress
use sys_rt.Common.{ℕ, Option, List, [], ◌∷◌, Run, ok, ◌>>=◌}
use sys_rt.Sim.{SimTime, EventCall, notify, cancel, instr_end_evt, wait_evt, signal_evt}
use sys_rt.TaskModel.{TaskAttrs}
use sys_rt.Kernel.{Kernel, emit}
use sys_rt.Task.{Task, Handled}
use sys_rt.KernelInstr.{father_end}
use sys_rt.Resource.Managed.{Manager, request_resource, release_resource}

unfoldable pub wait_schedule : ℕ → List EventCall
wait_schedule x = notify (instr_end_evt x) ∷ []

unfoldable pub wait_deschedule : ℕ → List EventCall
wait_deschedule x = cancel (instr_end_evt x) ∷ []

unfoldable pub wait_end_run : ℕ → List EventCall
wait_end_run x = cancel (instr_end_evt x) ∷ cancel (wait_evt x) ∷ []

unfoldable pub signal_end_run : ℕ → List EventCall
signal_end_run x = cancel (instr_end_evt x) ∷ cancel (signal_evt x) ∷ []

module _ {M : Type 0} (manager : Manager M) (sc : SimTime) (env : ℕ → TaskAttrs) (now : ℕ) where
  -- WaitInstr::onEnd
  unfoldable pub wait_on_end :
      Option ℕ → ℕ → ℕ → ℕ → Kernel → Option M → Task → Run (Kernel × M × Handled)
  unfolding father_end request_resource
  wait_on_end cpu x r n k m t = do
    (k₁, h) ← father_end sc env now cpu k t
    (k₂, m₁, ret) ← request_resource manager k₁ m t.number r n
    ok (emit k₂ (notify (wait_evt x) ∷ []), m₁, h)

  -- SignalInstr::onEnd
  unfoldable pub signal_on_end :
      Option ℕ → ℕ → ℕ → ℕ → Kernel → Option M → Task → Run (Kernel × M × Handled)
  unfolding father_end release_resource
  signal_on_end cpu x r n k m t = do
    let k₀ = emit k (cancel (instr_end_evt x) ∷ notify (signal_evt x) ∷ [])
    (k₁, h) ← father_end sc env now cpu k₀ t
    (k₂, m₁) ← release_resource manager k₁ m t.number r n
    ok (k₂, m₁, h)
