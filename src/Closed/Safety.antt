-- ===== src/Closed/Safety.antt =====
-- On RTKernel, whatever the order of its events, at most one task executes.
use sys_rt.Common.{
  ℕ, ◌≡◌, refl, sym, ◌∙◌, inl, inr, ◌⊎◌, Bool, true, false, some, arith, mem, Bool-cases,
  Option-cases, Returns_ok,
}
use sys_rt.Sim.{SimTime}
use sys_rt.Scheduler.{Scheduler}
use sys_rt.Scheduler.Invariant.{IsValid as QueueIsValid}
use sys_rt.Sim.Outstanding.{outstanding}
use sys_rt.Kernel.{Kernel, new_kernel}
use sys_rt.Kernel.Invariant.{IsValid}
use sys_rt.Kernel.Dispatch.{on_begin_dispatch-Outranks, on_end_dispatch-Runs}
use sys_rt.Kernel.Tracks.{on_begin_dispatch-Kept, on_end_dispatch-Kept}
use sys_rt.Task.{Task, tsk_idle, is_executing}
use sys_rt.Closed.{
  System, Step, Reach, here, next, arrives, buffered, schedules, deschedules, ends, begins,
  switches, reads, quiet, handled, executes, is_sched, is_desched, is_ending,
}
use sys_rt.Closed.Turns
use sys_rt.Closed.Turns.{Turns}
use sys_rt.Closed.Kernels.{on_begin_dispatch-Turns, on_end_dispatch-Turns}
use sys_rt.Closed.Written.{IsSafe, reads-IsNumbered}
use sys_rt.Closed.Arriving.{arrives-IsSafe, buffered-IsSafe}
use sys_rt.Closed.Instances.{schedules-IsSafe, deschedules-IsSafe, ends-IsSafe}

module _ (sc : SimTime) where
  -- A handler of the kernel: the tasks stay.
  kernel-IsSafe :
      (s : System) (ending : Bool) (k : Kernel)
      → IsSafe s
      → IsValid (reads s.task) k
      → ((z : ℕ) → mem z k.sched.queue ≡ mem z s.kernel.sched.queue)
      → Turns k.curr_exe k.is_context_switching
          (executes s)
          (λ p. outstanding (is_sched p) (s.scheds p) k.calls)
          (λ p. outstanding (is_desched p) (s.deschs p) k.calls)
        × (k.is_context_switching ≡ true → outstanding is_ending ending k.calls ≡ true)
      → IsSafe (handled s.task s.scheds s.deschs ending k)
  kernel-IsSafe s ending k safe v members c = record {
    numbered = safe.numbered;
    kernel_valid = record { queue_valid = v.queue_valid; running = v.running };
    active = λ z m. safe.active z (sym (members z) ∙ m);
    turns = c.0;
    switch_ends = c.1;
  }

  Step-IsSafe : {s t : System} → Step sc s t → IsSafe s → IsSafe t
  Step-IsSafe {s} (arrives {k} now iat_sample t known e) safe =
      Returns_ok _ _ (arrives-IsSafe sc s safe t now iat_sample known) e
  Step-IsSafe {s} (buffered {h} {k} now t known off f e) safe =
      Returns_ok _ _ (buffered-IsSafe sc s safe t now h known off f) e
  Step-IsSafe {s} (schedules {h} {k} now t cpu on f e) safe =
      Returns_ok _ _ (schedules-IsSafe sc s safe t now cpu h on f) e
  Step-IsSafe {s} (deschedules {h} {k} now t cpu on f e) safe =
      Returns_ok _ _ (deschedules-IsSafe sc s safe t now cpu h on f) e
  Step-IsSafe {s} (ends {h} {k} now t x p on still f e) safe =
      Returns_ok _ _ (ends-IsSafe sc s safe t now x p h on still f) e
  Step-IsSafe {s} (begins {k} now calm e) safe =
      let env = reads s.task in
      let u = reads-IsNumbered s.task safe.numbered in
      let v = safe.kernel_valid in
      let v₀ : IsValid env (quiet s.kernel) = record {
        queue_valid = v.queue_valid;
        running = v.running;
      } in
      kernel-IsSafe s s.ending k safe
        (Returns_ok _ _ (on_begin_dispatch-Outranks env u now (quiet s.kernel) v₀) e).0
        (Returns_ok _ _ (on_begin_dispatch-Kept env u now (quiet s.kernel) v₀) e).members
        (on_begin_dispatch-Turns env u now s.kernel (executes s) s.scheds s.deschs s.ending
          safe.turns calm.1 v calm.0 safe.switch_ends e)
  Step-IsSafe {s} (switches {k} now calm on due e) safe =
      let env = reads s.task in
      let u = reads-IsNumbered s.task safe.numbered in
      let v = safe.kernel_valid in
      let v₀ : IsValid env (quiet s.kernel) = record {
        queue_valid = v.queue_valid;
        running = v.running;
      } in
      elim (Option-cases s.kernel.curr_exe) [
        | inl none_runs ↦ absurd (safe.turns.target on none_runs)
        | inr (t, cur) ↦
            kernel-IsSafe s false k safe
              (Returns_ok _ _ (on_end_dispatch-Runs env u now (quiet s.kernel) t v₀ cur) e).0.0
              (Returns_ok _ _ (on_end_dispatch-Kept env u now (quiet s.kernel) t v₀ cur) e).members
              (on_end_dispatch-Turns env u now s.kernel (executes s) s.scheds s.deschs false
                safe.turns calm.1 on e)
      ]

  pub Reach-IsSafe : {s t : System} → Reach sc s t → IsSafe s → IsSafe t
  Reach-IsSafe here safe = safe
  Reach-IsSafe (next r st) safe = Step-IsSafe st (Reach-IsSafe r safe)

  -- Before the first event no task executes.
  pub new_kernel-IsSafe :
      (q : Scheduler) (task : ℕ → Task)
      → QueueIsValid (reads task) q
      → ((t : ℕ) → mem t q.queue ≡ false)
      → ((t : ℕ) → (task t).number ≡ t)
      → ((t : ℕ) → (task t).state ≡ tsk_idle)
      → IsSafe (record {
        kernel = new_kernel q;
        task = task;
        scheds = λ t. false;
        deschs = λ t. false;
        ending = false;
      })
  unfolding new_kernel is_executing
  new_kernel-IsSafe q task v empty named idle =
      let off = λ (t : ℕ) (h : is_executing (task t).state ≡ true). clash t h in
      record {
        numbered = named;
        kernel_valid = record { queue_valid = v; running = λ t e. absurd (ground arith) };
        active = λ t m. absurd (ground (arith, empty t, m));
        turns = record {
          held = λ t h. absurd (off t h);
          called = λ t h. absurd (ground arith);
          stopped = λ t h. absurd (ground arith);
          one_stops = λ t u h. absurd (ground arith);
          begun = λ t u h g. refl;
          calling = λ t u h. refl;
          switches = λ t h. absurd (ground arith);
          switched = λ t h. refl;
          target = λ h. absurd (ground arith);
          served = λ t h. absurd (ground arith);
        };
        switch_ends = λ h. absurd (ground arith);
      }
    where
      clash : (t : ℕ) → is_executing (task t).state ≡ true → ⊥
      clash t h = let h' = rw (idle t) at h in ground (arith, h')

  -- From a new RTKernel with tasks that are all idle, a valid ready queue that is empty, and
  -- numbers that tell the tasks apart, after any history of arrivals, buffered arrivals at idle
  -- tasks, schedule and deschedule events that fire while they are pending, ends of instructions
  -- of tasks that execute and are not about to stop, dispatches while no schedule or deschedule
  -- is pending, and pending ends of context switches that are on while none is either, with all
  -- that the handlers call on each other, no two tasks execute, and the one that does is the
  -- current task of the kernel, or its deschedule event is pending.
  pub one_executes :
      (q : Scheduler) (task : ℕ → Task) (s : System)
      → QueueIsValid (reads task) q
      → ((t : ℕ) → mem t q.queue ≡ false)
      → ((t : ℕ) → (task t).number ≡ t)
      → ((t : ℕ) → (task t).state ≡ tsk_idle)
      → Reach sc
          (record {
            kernel = new_kernel q;
            task = task;
            scheds = λ t. false;
            deschs = λ t. false;
            ending = false;
          })
          s
      → (t u : ℕ) → executes s t ≡ true
      → (executes s u ≡ true → t ≡ u) × ((s.kernel.curr_exe ≡ some t) ⊎ (s.deschs t ≡ true))
  one_executes q task s v empty named idle r t u on =
      let c = (Reach-IsSafe r (new_kernel-IsSafe q task v empty named idle)).turns in
      (
        Turns.Turns-exclusive _ _ _ _ _ c t u on,
        elim (Bool-cases (s.deschs t)) [
          | inl stops ↦ inr stops
          | inr stays ↦ inl (c.held t on stays)
        ],
      )
