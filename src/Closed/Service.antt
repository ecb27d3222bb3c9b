-- ===== src/Closed/Service.antt =====
-- On RTKernel the current task gets to execute: a context switch to it ends, and its schedule event fires.
use sys_rt.Common.{
  ℕ, ◌≡◌, refl, inl, inr, ◌⊎◌, true, false, some, [], ◌∷◌, ok, arith, mem, Bool-cases, Returns-inv,
}
use sys_rt.Sim.{SimTime, cancel, end_evt, desched_evt}
use sys_rt.Kernel.{new_kernel}
use sys_rt.Kernel.Invariant.{IsValid}
use sys_rt.Kernel.Dispatch.{on_end_dispatch-Runs}
use sys_rt.KernelInstr.{call_all, call_kernel}
use sys_rt.Scheduler.{Scheduler}
use sys_rt.Scheduler.Invariant.{IsValid as QueueIsValid}
use sys_rt.Task
use sys_rt.Task.{
  Task, Handled, tsk_idle, tsk_exec, tsk_ready, event, instr_schedule, instr_deschedule, current,
  is_executing,
}
use sys_rt.Closed.{
  System, Reach, here, next, schedules, deschedules, switches, reads, quiet, executes,
}
use sys_rt.Closed.Written.{IsSafe, reads-IsNumbered}
use sys_rt.Closed.Safety.{Reach-IsSafe, new_kernel-IsSafe}
use sys_rt.Closed.Progress.{IsPlaced, Reach-IsPlaced, inside}

-- The task executes at the end of a history that goes on from one that begins at s₀.
abbrev Executed : SimTime → System → ℕ → Type 0
Executed sc s₀ t = (s : System) × Reach sc s₀ s × (executes s t ≡ true)

module _ (sc : SimTime) (now : ℕ) (s₀ s : System) (r : Reach sc s₀ s) (safe : IsSafe s)
    (placed : IsPlaced s.task) where
  abbrev scheduled : ℕ → Handled
  scheduled t = (
    record (s.task t) {
      cpu_of_sched = 0;
      state = tsk_exec;
      task_exe = true;
      last_sched = now;
      cpu_of_dead = 0;
    },
    event (cancel (desched_evt (s.task t).number)) ∷ instr_schedule (s.task t).act_instr ∷ [],
  )

  schedule_fires : (t : ℕ) → s.scheds t ≡ true → Executed sc s₀ t
  unfolding Task.on_sched call_all call_kernel is_executing
  schedule_fires t on =
      let e : Task.on_sched (some 0) now (s.task t) ≡ ok (scheduled t) =
        rw (inside sc s.task placed t) refl in
      (_, next r (schedules now t (some 0) on e refl), ground arith)

  abbrev descheduled : ℕ → Handled
  descheduled t = (
    record (s.task t) { cpu_of_desched = 0; state = tsk_ready; task_exe = false },
    event (cancel (end_evt (s.task t).number)) ∷ instr_deschedule (s.task t).act_instr ∷ [],
  )

  -- The task that is to stop stops, and no other one is.
  deschedule_fires :
      (u t : ℕ)
      → s.deschs u ≡ true
      → s.kernel.curr_exe ≡ some t
      → (s' : System) × Reach sc s₀ s'
        × (s'.kernel.curr_exe ≡ some t)
        × ((z : ℕ) → s'.deschs z ≡ false)
  unfolding Task.on_desched call_all call_kernel
  deschedule_fires u t on cur =
      let e : Task.on_desched (some 0) (s.task u) ≡ ok (descheduled u) =
        rw (inside sc s.task placed u) refl in
      (
        _,
        next r (deschedules now u (some 0) on e refl),
        cur,
        λ z. ground (arith, safe.turns.one_stops u z on),
      )

  -- The context switch ends.
  switch_ends :
      (t : ℕ)
      → s.kernel.curr_exe ≡ some t
      → s.kernel.is_context_switching ≡ true
      → ((z : ℕ) → s.deschs z ≡ false)
      → (s' : System) × Reach sc s₀ s'
        × (s'.kernel.curr_exe ≡ some t)
        × (s'.kernel.is_context_switching ≡ false)
  switch_ends t cur on still =
      let v = safe.kernel_valid in
      let v₀ : IsValid (reads s.task) (quiet s.kernel) = record {
        queue_valid = v.queue_valid;
        running = v.running;
      } in
      let (k, e, x) = Returns-inv _ _ (
        on_end_dispatch-Runs (reads s.task) (reads-IsNumbered s.task safe.numbered) now
          (quiet s.kernel) t v₀ cur) in
      (
        _,
        next r (switches now ((λ z. safe.turns.switched z on), still) on (safe.switch_ends on) e),
        x.0.1,
        x.1,
      )

module _ (sc : SimTime) (now : ℕ) (s₀ : System) (safe : IsSafe s₀) (placed : IsPlaced s₀.task) where
  -- Without a context switch.
  begun_executes :
      (s : System)
      → Reach sc s₀ s
      → (t : ℕ) → s.kernel.curr_exe ≡ some t
      → s.kernel.is_context_switching ≡ false
      → Executed sc s₀ t
  begun_executes s r t cur off =
      let safe' = Reach-IsSafe sc r safe in
      elim (Bool-cases (executes s t)) [
        | inl on ↦ (s, r, on)
        | inr waits ↦
            schedule_fires sc now s₀ s r safe' (Reach-IsPlaced r placed) t
              (ground (arith, safe'.turns.served t cur))
      ]

  -- Without a deschedule that is pending.
  unstopped_executes :
      (s : System)
      → Reach sc s₀ s
      → (t : ℕ) → s.kernel.curr_exe ≡ some t
      → ((z : ℕ) → s.deschs z ≡ false)
      → Executed sc s₀ t
  unstopped_executes s r t cur still = elim (Bool-cases s.kernel.is_context_switching) [
    | inl on ↦
        let (s', r', cur', off) =
          switch_ends sc now s₀ s r (Reach-IsSafe sc r safe) (Reach-IsPlaced r placed) t cur on
            still in
        begun_executes s' r' t cur' off
    | inr off ↦ begun_executes s r t cur off
  ]

module _ (sc : SimTime) where
  -- From a new RTKernel with tasks that are all idle and at one of their instructions, a valid
  -- ready queue that is empty, and numbers that tell the tasks apart, after any history of
  -- arrivals, buffered arrivals at idle tasks, schedule and deschedule events that fire while
  -- they are pending, ends of instructions of tasks that execute and are not about to stop,
  -- dispatches while no schedule or deschedule is pending, and pending ends of context switches
  -- that are on while none is either, the history can go on so that the current task of the
  -- kernel executes, if the deschedule event of a task is pending or that of none.
  pub current_executes :
      (q : Scheduler) (task : ℕ → Task) (s : System) (now t : ℕ)
      → QueueIsValid (reads task) q
      → ((z : ℕ) → mem z q.queue ≡ false)
      → ((z : ℕ) → (task z).number ≡ z)
      → ((z : ℕ) → (task z).state ≡ tsk_idle)
      → IsPlaced task
      → Reach sc
          (record {
            kernel = new_kernel q;
            task = task;
            scheds = λ z. false;
            deschs = λ z. false;
            ending = false;
          })
          s
      → s.kernel.curr_exe ≡ some t
      → ((u : ℕ) × (s.deschs u ≡ true)) ⊎ ((z : ℕ) → s.deschs z ≡ false)
      → (s' : System) × Reach sc s s' × (executes s' t ≡ true)
  current_executes q task s now t v empty named idle placed r cur pending =
      let safe = Reach-IsSafe sc r (new_kernel-IsSafe sc q task v empty named idle) in
      let at_instr = Reach-IsPlaced r placed in
      elim pending [
        | inl (u, on) ↦
            let (s', r', cur', still) = deschedule_fires sc now s s here safe at_instr u t on cur in
            unstopped_executes sc now s safe at_instr s' r' t cur' still
        | inr still ↦ unstopped_executes sc now s safe at_instr s here t cur still
      ]
