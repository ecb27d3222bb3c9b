-- ===== src/KernelInstr/Suspend.antt =====
-- src/suspend_instr.cpp: the instruction that suspends its task for a while, with the task and the
-- single-processor kernel that it calls. SystemC calls its handlers only where they are registered.
use sys_rt.Common.{
  ℕ, ◌+◌, ◌^◌, ltb, ◌<◌, ◌≡◌, refl, inl, inr, true, false, ◌==◌, Bool-cases, Option, some, List, [],
  ◌∷◌, Run, ok, fault, ◌>>=◌, mem, arith, Returns, Returns-bind,
}
use sys_rt.Sim.{SimTime, EventCall, notify, notify_after, cancel, susp_evt, resume_evt}
use sys_rt.TaskModel.{TaskAttrs}
use sys_rt.TaskModel.Order.{IsNumbered}
use sys_rt.Scheduler.Invariant.{extract-not_queued}
use sys_rt.Kernel
use sys_rt.Kernel.{Kernel, emit}
use sys_rt.Kernel.Invariant.{IsValid}
use sys_rt.Kernel.Tracks.{Suspended, suspend-Suspended, Activated, on_arrival-Activated}
use sys_rt.Task
use sys_rt.Task.{Task, Handled, current, is_executing, next_arrival}
use sys_rt.Task.Instructions.{on_instr_end-last}
use sys_rt.KernelInstr.{call_kernel, call_all, father_end}

unfoldable pub schedule : ℕ → List EventCall
schedule x = notify (susp_evt x) ∷ []

unfoldable pub deschedule : ℕ → List EventCall
deschedule x = []

unfoldable pub end_run : ℕ → List EventCall
end_run x = cancel (susp_evt x) ∷ cancel (resume_evt x) ∷ []

unfoldable pub on_suspend : ℕ → ℕ → Kernel → Task → Run Kernel
on_suspend x delay k t = do
  k₁ ← Kernel.suspend k t.number
  ok (emit (Kernel.dispatch k₁) (notify_after (resume_evt x) delay ∷ []))

module _ (sc : SimTime) (env : ℕ → TaskAttrs) (now : ℕ) where
  unfoldable pub on_end : Option ℕ → Kernel → Task → Run (Kernel × Handled)
  unfolding father_end
  on_end cpu k t = do
    (k₁, r) ← father_end sc env now cpu k t
    k₂ ← Kernel.on_arrival sc env now k₁ t.number
    ok (k₂, r)

module _ (env : ℕ → TaskAttrs) (u : IsNumbered env) (now : ℕ) where
  -- The task leaves the ready queue of a valid kernel, which stays valid.
  pub on_suspend-Suspended :
      (x delay : ℕ) (k : Kernel) (t : Task)
      → IsValid env k
      → mem t.number k.sched.queue ≡ true
      → Returns (Suspended env u now k t.number) (on_suspend x delay k t)
  unfolding on_suspend Kernel.dispatch
  on_suspend-Suspended x delay k t v in_queue =
      Returns-bind (Suspended env u now k t.number) (Suspended env u now k t.number)
        (Kernel.suspend k t.number) _ (suspend-Suspended env u now k t.number v in_queue)
        λ k₁ (w, e). (record { queue_valid = w.queue_valid; running = w.running }, e)

  -- The task comes back into the ready queue of a valid kernel, behind an instruction that is not
  -- the last one.
  pub on_end-Activated :
      (sc : SimTime) (cpu : Option ℕ) (k : Kernel) (t : Task)
      → IsValid env k
      → k.sched.registered t.number ≡ true
      → mem t.number k.sched.queue ≡ false
      → t.act_instr + 1 < t.instr_count
      → Returns (λ r. Activated env u now k t.number r.0) (on_end sc env now cpu k t)
  unfolding on_end father_end Task.on_instr_end current call_all call_kernel
  on_end-Activated sc cpu k t v known out more =
      let inside : ltb t.act_instr t.instr_count ≡ true = ground arith in
      let not_last : (t.act_instr + 1 == t.instr_count) ≡ false = ground arith in
      let back : (r : Handled)
          → Returns {A = Kernel × Handled} (λ q. Activated env u now k t.number q.0)
              (do k₂ ← Kernel.on_arrival sc env now k t.number; ok (k₂, r)) =
        λ r.
          Returns-bind (Activated env u now k t.number) (λ r. Activated env u now k t.number r.0)
            (Kernel.on_arrival sc env now k t.number) _
            (on_arrival-Activated env u now sc k t.number v known out) λ k₂ a. a in
      elim (Bool-cases (is_executing t.state)) [
        | inl e ↦ rw (inside, not_last, e) (back _)
        | inr e ↦ rw (inside, not_last, e) (back _)
      ]

  -- Behind the last instruction the instance ends, which extracts the task once more: it is not in
  -- the ready queue.
  pub on_end-last_fault :
      (sc : SimTime) (p : ℕ) (k : Kernel) (t : Task)
      → k.sched.registered t.number ≡ true
      → mem t.number k.sched.queue ≡ false
      → t.act_instr + 1 ≡ t.instr_count
      → t.execd_time < 2 ^ 64
      → on_end sc env now (some p) k t ≡ fault
  unfolding on_end father_end call_all call_kernel Kernel.on_end
  on_end-last_fault sc p k t known out last fits =
      rw
        (
          on_instr_end-last sc p 0 t last (omega arith),
          extract-not_queued k.sched t.number known out,
        )
        refl
