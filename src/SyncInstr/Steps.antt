-- ===== src/SyncInstr/Steps.antt =====
-- src/waitinstr.cpp: what the ends of wait and signal instructions do to RTKernel and to the lines of
-- its first-come-first-served manager.
use sys_rt.Common.{
  ℕ, ◌+◌, ◌^◌, ◌<◌, ◌≤◌, ◌≡◌, ◌∙◌, inl, inr, true, false, some, List, Bool-cases, arith, mem,
  Returns, Returns-bind, Returns-map, [], ◌∷◌, if_both, ◌==◌, subst,
}
use sys_rt.Sim.{SimTime, EventCall, notify, cancel, instr_end_evt, signal_evt}
use sys_rt.TaskModel.{TaskAttrs}
use sys_rt.TaskModel.Order.{IsNumbered}
use sys_rt.Scheduler.{Scheduler}
use sys_rt.Scheduler.Invariant.{Extracted}
use sys_rt.Kernel.{Kernel, emit, dispatch}
use sys_rt.Kernel.Invariant.{IsValid}
use sys_rt.Task.{Task, Handled, tsk_exec}
use sys_rt.Task.Instructions.{on_instr_end-next}
use sys_rt.KernelInstr.{call_kernel, call_all, father_end}
use sys_rt.KernelInstr.Ends.{Ended, father_end-Ended}
use sys_rt.Resource.{rt_kernel}
use sys_rt.Resource.Fcfs.{Fcfs, request, release}
use sys_rt.Resource.Fcfs.Waiting.{Waits}
use sys_rt.Resource.Fcfs.Asking.{Joined, request-Waits}
use sys_rt.Resource.Fcfs.Handing.{Left, Woken, release-Waits}
use sys_rt.Resource.Managed.{fcfs_manager, request_resource, release_resource}
use sys_rt.SyncInstr.{wait_on_end, signal_on_end}

pub emit-IsValid :
    (env : ℕ → TaskAttrs) (k : Kernel) (es : List EventCall)
    → IsValid env k
    → IsValid env (emit k es)
emit-IsValid env k es v = record { queue_valid = v.queue_valid; running = v.running }

-- Who waits for nothing can leave the queue.
pub Extracted-Waits :
    (env : ℕ → TaskAttrs) (s s' : Scheduler) (m : Fcfs) (t : ℕ)
    → Extracted env s t s'
    → Waits s m
    → Waits s' m
Extracted-Waits env s s' m t x w = record {
  sound = w.sound;
  out = λ r z e.
      let (known, out) = w.out r z e in
      (
        rw x.known_kept known,
        elim (Bool-cases (t == z)) [
          | inl p ↦ let q : t ≡ z = ground arith in subst (λ y. mem y s'.queue ≡ false) q x.gone
          | inr p ↦ x.others z p ∙ out
        ],
      );
  once = w.once;
  apart = w.apart;
}

module _ (env : ℕ → TaskAttrs) (u : IsNumbered env) (now r n : ℕ) (k : Kernel) (m : Fcfs)
    (v : IsValid env k) (w : Waits k.sched m) (t : ℕ) where
  -- The kernel and the manager are valid together, and t is at the end of the line of r.
  abbrev pub Requested : Kernel → Fcfs → Type 0
  Requested k' m' = IsValid env k' × Waits k'.sched m' × Joined env u now k m r v w t m'

  -- The kernel and the manager are valid together, and t has left the line of r.
  abbrev pub Released : Kernel → Fcfs → Type 0
  Released k' m' =
      IsValid env k'
      × Waits k'.sched m'
      × Left env u now k m r v w t m'
      × Woken env u now k m r v w k' m'

  pub request_resource-Requested :
      mem t k.sched.queue ≡ true
      → Returns (λ a. Requested a.0 a.1) (request_resource (fcfs_manager env now) k (some m) t r n)
  unfolding request_resource dispatch
  request_resource-Requested in_queue =
      Returns-bind (λ a. Requested a.0 a.1) (λ a. Requested a.0 a.1)
        (request (rt_kernel env) now k m t r n) _ (request-Waits env u now k m r v w t n in_queue)
        λ a h.
          if_both {A = Kernel} (λ k'. Requested k' a.1) a.2 (λ _. h)
            (λ _. (emit-IsValid env a.0 _ h.0, h.1, h.2))

  pub release_resource-Released :
      (m.res r).owner ≡ some t
      → Returns (λ a. Released a.0 a.1) (release_resource (fcfs_manager env now) k (some m) t r n)
  unfolding release_resource dispatch
  release_resource-Released own =
      Returns-bind (λ a. Released a.0 a.1) (λ a. Released a.0 a.1)
        (release (rt_kernel env) now k m t r n) _ (release-Waits env u now k m r v w t n own)
        λ a h. (emit-IsValid env a.0 _ h.0, h.1, h.2, h.3)

module _ (sc : SimTime) (env : ℕ → TaskAttrs) (u : IsNumbered env) (now p x r n : ℕ) (k : Kernel)
    (m : Fcfs) (v : IsValid env k) (w : Waits k.sched m) (t : Task)
    (fits : t.execd_time < 2 ^ 64) where
  -- A wait instruction that is not the last one.
  pub wait_on_end-Requested :
      t.state ≡ tsk_exec
      → t.act_instr + 1 < t.instr_count
      → mem t.number k.sched.queue ≡ true
      → Returns
          (λ a. Requested env u now r n k m v w t.number a.0 a.1)
          (wait_on_end (fcfs_manager env now) sc env now (some p) x r n k (some m) t)
  unfolding wait_on_end father_end call_all call_kernel
  wait_on_end-Requested runs more in_queue =
      rw (on_instr_end-next sc p 0 t runs more (omega arith)) (
        Returns-bind (λ a. Requested env u now r n k m v w t.number a.0 a.1)
          (λ a. Requested env u now r n k m v w t.number a.0 a.1)
          (request_resource (fcfs_manager env now) k (some m) t.number r n) _
          (request_resource-Requested env u now r n k m v w t.number in_queue)
          λ a h. (emit-IsValid env a.0 _ h.0, h.1, h.2))

  -- The end of an instruction of the task, whether the last one or not, keeps both valid.
  father_end-Waits :
      t.state ≡ tsk_exec
      → t.act_instr + 1 ≤ t.instr_count
      → mem t.number k.sched.queue ≡ true
      → Returns (λ a. IsValid env a.0 × Waits a.0.sched m) (father_end sc env now (some p) k t)
  unfolding father_end call_all call_kernel
  father_end-Waits runs some_left in_queue = elim (Bool-cases (t.act_instr + 1 == t.instr_count)) [
    | inl last ↦
        Returns-map (λ a. Ended env k t.number a.0) _ (father_end sc env now (some p) k t)
          (father_end-Ended sc env u now p k t v in_queue (ground arith) fits)
          λ a (v', x, _). (v', Extracted-Waits env k.sched a.0.sched m t.number x w)
    | inr more ↦ rw (on_instr_end-next sc p 0 t runs (ground arith) (omega arith)) (v, w)
  ]

module _ (sc : SimTime) (env : ℕ → TaskAttrs) (u : IsNumbered env) (now p x r n : ℕ) (k : Kernel)
    (m : Fcfs) (v : IsValid env k) (w : Waits k.sched m) (t : Task)
    (fits : t.execd_time < 2 ^ 64) where
  -- When a signal instruction of an executing, queued task ends, also as its last one, on a valid
  -- RTKernel with a manager whose waiting tasks are out of the queue, and the task holds the
  -- resource, onEnd returns a valid kernel and such a manager: the task is out of the line, the
  -- other lines are as they were, and the new holder, if there is one, is in the ready queue.
  pub signal_on_end-Released :
      t.state ≡ tsk_exec
      → t.act_instr + 1 ≤ t.instr_count
      → mem t.number k.sched.queue ≡ true
      → (m.res r).owner ≡ some t.number
      → Returns
          (λ a. Released env u now r n k m v w t.number a.0 a.1)
          (signal_on_end (fcfs_manager env now) sc env now (some p) x r n k (some m) t)
  unfolding signal_on_end
  signal_on_end-Released runs some_left in_queue own =
      Returns-bind (λ a. IsValid env a.0 × Waits a.0.sched m) Goal
        (father_end sc env now (some p) k₀ t) _
        (father_end-Waits sc env u now p x r n k₀ m (emit-IsValid env k _ v) w t fits runs some_left
          in_queue)
        λ a (v₁, w₁).
          Returns-bind (λ b. Released env u now r n a.0 m v₁ w₁ t.number b.0 b.1) Goal
            (release_resource (fcfs_manager env now) a.0 (some m) t.number r n) _
            (release_resource-Released env u now r n a.0 m v₁ w₁ t.number own) λ b h. h
    where
      k₀ : Kernel
      k₀ = emit k (cancel (instr_end_evt x) ∷ notify (signal_evt x) ∷ [])

      Goal : Kernel × Fcfs × Handled → Type 0
      Goal a = Released env u now r n k m v w t.number a.0 a.1
