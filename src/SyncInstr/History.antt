-- ===== src/SyncInstr/History.antt =====
-- Histories of RTKernel with its first-come-first-served manager: wait and signal instructions end,
-- tasks arrive and finish, and the kernel dispatches, in any order.
use sys_rt.Common.{
  ℕ, ◌+◌, ◌^◌, ◌<◌, ◌≤◌, ◌≡◌, ◌∙◌, subst, inl, inr, true, false, some, Bool-cases, arith, mem, ok,
  ◌==◌, Returns_ok,
}
use sys_rt.Sim.{SimTime}
use sys_rt.TaskModel.{TaskAttrs}
use sys_rt.TaskModel.Order.{IsNumbered}
use sys_rt.Scheduler.{Scheduler}
use sys_rt.Scheduler.Invariant.{Inserted}
use sys_rt.Scheduler.Notified.{Kept}
use sys_rt.Kernel.{Kernel, on_arrival, on_end, on_begin_dispatch, on_end_dispatch}
use sys_rt.Kernel.Invariant.{IsValid}
use sys_rt.Kernel.Dispatch.{on_begin_dispatch-Outranks, on_end_dispatch-Runs}
use sys_rt.Kernel.Cycle.{retimed-IsValid}
use sys_rt.Kernel.Tracks.{
  Activated, on_arrival-Activated, on_begin_dispatch-Kept, on_end_dispatch-Kept,
}
use sys_rt.Task.{Task, Handled, tsk_exec}
use sys_rt.KernelInstr.Ends.{Ended, on_end-Ended}
use sys_rt.Resource.Fcfs.{Fcfs}
use sys_rt.Resource.Fcfs.Waiting.{Waits}
use sys_rt.Resource.Managed.{fcfs_manager}
use sys_rt.SyncInstr.{wait_on_end, signal_on_end}
use sys_rt.SyncInstr.Steps.{
  Requested, Released, wait_on_end-Requested, signal_on_end-Released, Extracted-Waits,
}

pub record LockSystem : Type 0 where
  pub env : ℕ → TaskAttrs
  pub kernel : Kernel
  pub mgr : Fcfs

-- The object of the current task in the middle of an instruction, as the handler finds it.
pub record Executes (s : LockSystem) (t : Task) : Type 0 where
  pub current : s.kernel.curr_exe ≡ some t.number
  pub executing : t.state ≡ tsk_exec
  pub instruction : t.act_instr + 1 ≤ t.instr_count
  pub fits : t.execd_time < 2 ^ 64

-- A handler that returns. A task that waits for a resource is active, so that its arrivals are buffered;
-- only the holder of a resource gives it back.
pub data Step (sc : SimTime) (s : LockSystem) : LockSystem → Type 0 where
  waits :
      {k : Kernel} {m : Fcfs} {h : Handled} (now p x r n : ℕ) (t : Task)
      → Executes s t
      → t.act_instr + 1 < t.instr_count
      → wait_on_end (fcfs_manager s.env now) sc s.env now (some p) x r n s.kernel (some s.mgr) t
        ≡ ok (k, m, h)
      → Step sc s (record s { kernel = k; mgr = m })
  signals :
      {k : Kernel} {m : Fcfs} {h : Handled} (now p x r n : ℕ) (t : Task)
      → Executes s t
      → (s.mgr.res r).owner ≡ some t.number
      → signal_on_end (fcfs_manager s.env now) sc s.env now (some p) x r n s.kernel (some s.mgr) t
        ≡ ok (k, m, h)
      → Step sc s (record s { kernel = k; mgr = m })
  arrives :
      {k : Kernel} (now t : ℕ)
      → s.kernel.sched.registered t ≡ true
      → mem t s.kernel.sched.queue ≡ false
      → ((r : ℕ) → mem t (s.mgr.blocked r) ≡ false)
      → on_arrival sc s.env now s.kernel t ≡ ok k
      → Step sc s (record s { kernel = k })
  finishes :
      {k : Kernel} (t : ℕ)
      → s.kernel.curr_exe ≡ some t
      → on_end s.kernel t ≡ ok k
      → Step sc s (record s { kernel = k })
  begins :
      {k : Kernel} (now : ℕ)
      → on_begin_dispatch s.env now s.kernel ≡ ok k
      → Step sc s (record s { kernel = k })
  ends :
      {k : Kernel} (now t : ℕ)
      → s.kernel.curr_exe ≡ some t
      → on_end_dispatch s.env now s.kernel ≡ ok k
      → Step sc s (record s { kernel = k })
  retimes :
      {env : ℕ → TaskAttrs}
      → IsNumbered env
      → ((t : ℕ) → mem t s.kernel.sched.queue ≡ true → env t ≡ s.env t)
      → Step sc s (record s { env = env })

pub data Reach (sc : SimTime) (s : LockSystem) : LockSystem → Type 0 where
  here : Reach sc s s
  next : {t u : LockSystem} → Reach sc s t → Step sc t u → Reach sc s u

pub record IsSafe (s : LockSystem) : Type 0 where
  pub numbered : IsNumbered s.env
  pub kernel_valid : IsValid s.env s.kernel
  pub waiting : Waits s.kernel.sched s.mgr

Kept-Waits :
    (env : ℕ → TaskAttrs) (s s' : Scheduler) (m : Fcfs) → Kept env s s' → Waits s m → Waits s' m
Kept-Waits env s s' m x w = record {
  sound = w.sound;
  out = λ r z e. let (known, out) = w.out r z e in (rw x.known_kept known, x.members z ∙ out);
  once = w.once;
  apart = w.apart;
}

Inserted-Waits :
    (env : ℕ → TaskAttrs) (now : ℕ) (s s' : Scheduler) (m : Fcfs) (t : ℕ)
    → Inserted env now s t s'
    → ((r : ℕ) → mem t (m.blocked r) ≡ false)
    → Waits s m
    → Waits s' m
Inserted-Waits env now s s' m t x free w = record {
  sound = w.sound;
  out = λ r z e.
      let (known, out) = w.out r z e in
      (
        rw x.known_kept known,
        elim (Bool-cases (t == z)) [
          | inl p ↦
              let q : t ≡ z = ground arith in
              let f : mem z (m.blocked r) ≡ false =
                subst (λ y. mem y (m.blocked r) ≡ false) q (free r) in
              absurd (ground arith)
          | inr p ↦ x.others z p ∙ out
        ],
      );
  once = w.once;
  apart = w.apart;
}

module _ (sc : SimTime) (s : LockSystem) (safe : IsSafe s) where
  pub waited :
      {k : Kernel} {m : Fcfs} {h : Handled} (now p x r n : ℕ) (t : Task)
      → Executes s t
      → t.act_instr + 1 < t.instr_count
      → wait_on_end (fcfs_manager s.env now) sc s.env now (some p) x r n s.kernel (some s.mgr) t
        ≡ ok (k, m, h)
      → Requested s.env safe.numbered now r n s.kernel s.mgr safe.kernel_valid safe.waiting t.number
          k m
  waited now p x r n t c more e =
      Returns_ok _ _
        (wait_on_end-Requested sc s.env safe.numbered now p x r n s.kernel s.mgr safe.kernel_valid
          safe.waiting t c.fits c.executing more (safe.kernel_valid.running t.number c.current))
        e

  pub signalled :
      {k : Kernel} {m : Fcfs} {h : Handled} (now p x r n : ℕ) (t : Task)
      → Executes s t
      → (s.mgr.res r).owner ≡ some t.number
      → signal_on_end (fcfs_manager s.env now) sc s.env now (some p) x r n s.kernel (some s.mgr) t
        ≡ ok (k, m, h)
      → Released s.env safe.numbered now r n s.kernel s.mgr safe.kernel_valid safe.waiting t.number
          k m
  signalled now p x r n t c own e =
      Returns_ok _ _
        (signal_on_end-Released sc s.env safe.numbered now p x r n s.kernel s.mgr safe.kernel_valid
          safe.waiting t c.fits c.executing c.instruction
          (safe.kernel_valid.running t.number c.current) own)
        e

pub Step-IsSafe : {sc : SimTime} {s t : LockSystem} → Step sc s t → IsSafe s → IsSafe t
Step-IsSafe {sc} {s} (waits now p x r n t c more e) v =
    let (w, h, _) = waited sc s v now p x r n t c more e in
    record { numbered = v.numbered; kernel_valid = w; waiting = h }
Step-IsSafe {sc} {s} (signals now p x r n t c own e) v =
    let (w, h, _, _) = signalled sc s v now p x r n t c own e in
    record { numbered = v.numbered; kernel_valid = w; waiting = h }
Step-IsSafe {sc} {s} (arrives now t known out free e) v =
    let (w, x) =
      Returns_ok (Activated s.env v.numbered now s.kernel t) _
        (on_arrival-Activated s.env v.numbered now sc s.kernel t v.kernel_valid known out) e in
    record {
      numbered = v.numbered;
      kernel_valid = w;
      waiting = Inserted-Waits s.env now s.kernel.sched _ s.mgr t x free v.waiting;
    }
Step-IsSafe {sc} {s} (finishes t c e) v =
    let (w, x, _) =
      Returns_ok (Ended s.env s.kernel t) _
        (on_end-Ended s.env v.numbered s.kernel t v.kernel_valid.queue_valid
          (v.kernel_valid.running t c))
        e in
    record {
      numbered = v.numbered;
      kernel_valid = w;
      waiting = Extracted-Waits s.env s.kernel.sched _ s.mgr t x v.waiting;
    }
Step-IsSafe {sc} {s} (begins now e) v =
    let x =
      Returns_ok (λ k'. Kept s.env s.kernel.sched k'.sched) _
        (on_begin_dispatch-Kept s.env v.numbered now s.kernel v.kernel_valid) e in
    record {
      numbered = v.numbered;
      kernel_valid =
          (Returns_ok _ _ (on_begin_dispatch-Outranks s.env v.numbered now s.kernel v.kernel_valid)
            e).0;
      waiting = Kept-Waits s.env s.kernel.sched _ s.mgr x v.waiting;
    }
Step-IsSafe {sc} {s} (ends now t c e) v =
    let x =
      Returns_ok (λ k'. Kept s.env s.kernel.sched k'.sched) _
        (on_end_dispatch-Kept s.env v.numbered now s.kernel t v.kernel_valid c) e in
    record {
      numbered = v.numbered;
      kernel_valid =
          (Returns_ok _ _ (on_end_dispatch-Runs s.env v.numbered now s.kernel t v.kernel_valid c)
            e).0.0;
      waiting = Kept-Waits s.env s.kernel.sched _ s.mgr x v.waiting;
    }
Step-IsSafe {sc} {s} (retimes {env = env} u same) v = record {
  numbered = u;
  kernel_valid = retimed-IsValid s.env env s.kernel same v.kernel_valid;
  waiting = v.waiting;
}

-- Any history of RTKernel with the first-come-first-served manager, in which wait instructions
-- that are not the last end, signal instructions of holders end, tasks that wait for nothing
-- arrive, current tasks finish and the kernel dispatches, keeps the system safe: a valid kernel,
-- every resource sound, and each task that waits known, out of the ready queue, and in one place
-- of one line.
pub Reach-IsSafe : {sc : SimTime} {s t : LockSystem} → Reach sc s t → IsSafe s → IsSafe t
Reach-IsSafe here v = v
Reach-IsSafe (next r st) v = Step-IsSafe st (Reach-IsSafe r v)
