-- ===== src/KernelInstr/Ends.antt =====
-- src/threinstr.cpp, schedinstr.cpp: what the end of a threshold instruction does to the kernel.
use sys_rt.Common.{
  ℕ, ◌+◌, ◌^◌, ◌<◌, ◌≡◌, refl, ◌∙◌, ap, inl, inr, ==_refl, subst, Bool-cases, true, not, none,
  if_both, some, [], ◌∷◌, fault, ◌>>=◌, arith, mem, Returns, Returns-bind, Returns-unbind,
  bind-fault, from_int,
}
use sys_rt.Sim.{SimTime, cancel, dead_evt}
use sys_rt.TaskModel.{TaskAttrs, fp_model}
use sys_rt.TaskModel.Order.{IsNumbered}
use sys_rt.Scheduler
use sys_rt.Scheduler.{Scheduler, fp_scheduler, set_model, matches}
use sys_rt.Scheduler.Invariant.{IsValid as QueueIsValid, Extracted, extract-Extracted}
use sys_rt.Scheduler.Threshold.{Raised, threshold-IsValid, enable_threshold-raises}
use sys_rt.PList
use sys_rt.Kernel.{
  Kernel, emit, on_end, dispatch, set_threshold, enable_threshold, disable_threshold,
}
use sys_rt.Kernel.Invariant.{IsValid}
use sys_rt.Task.{Task, Handled, tsk_exec, next_arrival, chk_buff_arrival}
use sys_rt.Task.Instructions.{on_instr_end-next, on_instr_end-last}
use sys_rt.KernelInstr.{call_kernel, call_all, father_end, thre_on_end, sched_on_end}

-- The kernel is valid, and its current task t has the fixed priority 0.
pub record IsTop (env : ℕ → TaskAttrs) (t : ℕ) (k : Kernel) : Type 0 where
  pub valid : IsValid env k
  pub current : k.curr_exe ≡ some t
  pub top : (k.sched.model t).policy ≡ fp_model 0

-- The kernel after the end of the task's instance: valid, without the task, and with none that runs.
abbrev pub Ended : (ℕ → TaskAttrs) → Kernel → ℕ → Kernel → Type 0
Ended env k t k' = IsValid env k' × Extracted env k.sched t k'.sched × (k'.curr_exe ≡ none)

pub on_end-Ended :
    (env : ℕ → TaskAttrs) (u : IsNumbered env) (k : Kernel) (t : ℕ)
    → QueueIsValid env k.sched
    → mem t k.sched.queue ≡ true
    → Returns (Ended env k t) (on_end k t)
unfolding on_end dispatch
on_end-Ended env u k t v in_queue =
    Returns-bind (Extracted env k.sched t) (Ended env k t) (Scheduler.extract k.sched t) _
      (extract-Extracted env u k.sched t v in_queue)
      λ s x.
        if_both {A = Kernel} (Ended env k t) (not (PList.empty s.queue))
          (λ _. (record { queue_valid = x.valid; running = λ z e. cc }, x, refl))
          (λ _. (record { queue_valid = x.valid; running = λ z e. cc }, x, refl))

module _ (sc : SimTime) (env : ℕ → TaskAttrs) (u : IsNumbered env) (now p : ℕ) where
  -- The two calls of ThreInstr::onEnd on a kernel that runs a queued task.
  zero_threshold-IsTop :
      (k : Kernel) (t prio : ℕ)
      → IsValid env k
      → k.sched.class ≡ fp_scheduler
      → k.curr_exe ≡ some t
      → (k.sched.model t).policy ≡ fp_model prio
      → Returns (λ r. IsTop env t r.0) (set_threshold k 0 >>= λ k₂. enable_threshold env now k₂)
  unfolding set_threshold enable_threshold Scheduler.set_threshold set_model from_int
  zero_threshold-IsTop k t prio v cls cur pol =
      let in_queue = v.running t cur in
      let s : Scheduler = set_model k.sched t (record (k.sched.model t) { threshold = 0 }) in
      let same : s.model t ≡ record (k.sched.model t) { threshold = 0 } = rw (==_refl t) refl in
      rw (cur, (v.queue_valid.queued t in_queue).0)
        (Returns-bind (Raised env s t prio) (λ r. IsTop env t r.0)
          (Scheduler.enable_threshold env now s t) _
          (enable_threshold-raises env u t now s prio
            (threshold-IsValid env k.sched t 0 v.queue_valid) cls in_queue (rw same pol))
          λ r (w, queued, raised, _, _, _). record {
            valid = record {
              queue_valid = w;
              running = λ z e. let q : t ≡ z = cc in subst (λ y. mem y r.0.queue ≡ true) q queued;
            };
            current = refl;
            top = raised ∙ ap (λ m. fp_model (from_int m.threshold)) same;
          })

  -- When a threshold instruction ends that is not the last one of an executing task, which is the
  -- current one of a valid RTKernel with fixed priorities, its execution time below 2^64, onEnd
  -- returns a valid kernel with the same current task, whose priority is now 0, whatever
  -- threshold the instruction was made with.
  pub thre_on_end-IsTop :
      (x : ℕ) (k : Kernel) (t : Task) (prio : ℕ)
      → IsValid env k
      → k.sched.class ≡ fp_scheduler
      → k.curr_exe ≡ some t.number
      → (k.sched.model t.number).policy ≡ fp_model prio
      → t.state ≡ tsk_exec
      → t.act_instr + 1 < t.instr_count
      → t.execd_time < 2 ^ 64
      → Returns (λ r. IsTop env t.number r.0) (thre_on_end sc env now (some p) x k t)
  unfolding thre_on_end father_end call_all call_kernel
  thre_on_end-IsTop x k t prio v cls cur pol runs more fits =
      rw (on_instr_end-next sc p 0 t runs more (omega arith)) (
        Returns-bind (λ k₂. Returns (λ r. IsTop env n r.0) (enable_threshold env now k₂)) Top
          (set_threshold k 0) _
          (Returns-unbind (λ r. IsTop env n r.0) (set_threshold k 0)
            (λ k₂. enable_threshold env now k₂) (zero_threshold-IsTop k n prio v cls cur pol))
          λ k₂ h.
            Returns-bind (λ r. IsTop env n r.0) Top (enable_threshold env now k₂) _ h
              λ r w. record {
                valid = record { queue_valid = w.valid.queue_valid; running = w.valid.running };
                current = w.current;
                top = w.top;
              })
    where
      n : ℕ
      n = t.number

      Top : Kernel × Handled → Type 0
      Top r = IsTop env n r.0

  -- The end of the last instruction ends the instance.
  pub father_end-Ended :
      (k : Kernel) (t : Task)
      → IsValid env k
      → mem t.number k.sched.queue ≡ true
      → t.act_instr + 1 ≡ t.instr_count
      → t.execd_time < 2 ^ 64
      → Returns (λ r. Ended env k t.number r.0) (father_end sc env now (some p) k t)
  unfolding father_end call_all call_kernel next_arrival
  father_end-Ended k t v in_queue last fits = rw (on_instr_end-last sc p 0 t last (omega arith)) (
      Returns-bind (Ended env k n) (λ r. Ended env k n r.0)
        (do k₁ ← on_end ended n; call_all sc env now n (next_arrival t) k₁) _
        (Returns-bind (Ended env k n) (Ended env k n) (on_end ended n)
          (λ k₁. call_all sc env now n (next_arrival t) k₁)
          (on_end-Ended env u ended n v.queue_valid in_queue)
          λ k₁ e. elim (Bool-cases (chk_buff_arrival t)) [
            | inl c ↦
                rw c (record { queue_valid = e.0.queue_valid; running = e.0.running }, e.1, e.2)
            | inr c ↦ rw c e
          ])
        λ k₁ e. e)
    where
      n : ℕ
      n = t.number

      ended : Kernel
      ended = emit k (cancel (dead_evt t.number) ∷ [])

  -- When a scheduling or a threshold instruction ends that is the last one of its task, which is
  -- queued in a valid RTKernel, its execution time below 2^64, onEnd follows a NULL pointer: the
  -- end of the instance has left no current task.
  pub sched_on_end-last :
      (x : ℕ) (k : Kernel) (t : Task)
      → IsValid env k
      → mem t.number k.sched.queue ≡ true
      → t.act_instr + 1 ≡ t.instr_count
      → t.execd_time < 2 ^ 64
      → (sched_on_end sc env now (some p) x k t ≡ fault)
        × (thre_on_end sc env now (some p) x k t ≡ fault)
  unfolding thre_on_end sched_on_end set_threshold disable_threshold
  sched_on_end-last x k t v in_queue last fits =
      let ends = father_end-Ended k t v in_queue last fits in
      (
        bind-fault (λ r. Ended env k t.number r.0) (father_end sc env now (some p) k t) _ ends
            (λ r e. rw e.2 refl),
        bind-fault (λ r. Ended env k t.number r.0) (father_end sc env now (some p) k t) _ ends
            (λ r e. rw e.2 refl),
      )
