-- ===== src/Closed/Progress.antt =====
-- On RTKernel no handler goes wrong: whatever event may fire next, the handler returns.
use sys_rt.Common.{
  ℕ, ◌+◌, ◌<◌, ◌≡◌, refl, ◌∙◌, ap, inl, inr, Bool, true, false, some, List, ◌∷◌, Run, ok, ◌>>=◌,
  >>=-eq-ok, arith, ◌==◌, mem, update, Bool-cases, Option-cases, Returns, Returns_ok, Returns-inv,
  deref, ltb,
}
use sys_rt.Sim.{SimTime}
use sys_rt.Kernel.{Kernel, new_kernel, on_begin_dispatch, on_end_dispatch}
use sys_rt.Task
use sys_rt.Task.{
  Task, TaskCall, Handled, kernel_on_arrival, kernel_on_end, instr_schedule, is_active,
  is_executing, handle_arrival, reactivate, next_arrival, current, on_end_instance,
  get_buff_arrival,
}
use sys_rt.Closed.{
  System, Step, Reach, here, next, arrives, buffered, schedules, deschedules, ends, begins,
  switches, reads, quiet, executes, calls_of,
}
use sys_rt.Kernel.Invariant.{IsValid}
use sys_rt.Kernel.Dispatch.{on_begin_dispatch-Outranks, on_end_dispatch-Runs}
use sys_rt.Scheduler.{Scheduler}
use sys_rt.Scheduler.Invariant.{IsValid as QueueIsValid}
use sys_rt.Task.{tsk_idle}
use sys_rt.Closed.Written.{IsSafe, reads-IsNumbered}
use sys_rt.Closed.Instances.{schedules-IsSafe, deschedules-IsSafe, ends-IsSafe}
use sys_rt.Closed.Places.{
  following, following-Returns, on_arrival-Calls, on_fake_arrival-Calls, on_sched-Calls,
  on_desched-Calls, on_instr_end-Calls,
}
use sys_rt.Closed.Safety.{Reach-IsSafe, new_kernel-IsSafe}
use sys_rt.Closed.Arriving.{
  arrives-IsSafe, buffered-IsSafe, buff_arrival-keeps, get_buff_arrival-keeps, counted,
  on_arrival-active, on_arrival-idle,
}

-- Each task is at one of its instructions.
abbrev pub IsPlaced : (ℕ → Task) → Type 0
IsPlaced task = (t : ℕ) → (task t).act_instr < (task t).instr_count

update-IsPlaced :
    (task : ℕ → Task) (t : ℕ) (t' : Task)
    → IsPlaced task
    → t'.act_instr < t'.instr_count
    → IsPlaced (update task t t')
update-IsPlaced task t t' h k p = elim (Bool-cases (t == p)) [
  | inl same ↦ rw same k
  | inr other ↦ rw other (h p)
]

-- Both branches of onArrival.
on_arrival-placed :
    (sc : SimTime) (iat_sample now : ℕ) (t : Task)
    → t.act_instr < t.instr_count
    → (Task.on_arrival sc iat_sample now t).0.act_instr
      < (Task.on_arrival sc iat_sample now t).0.instr_count
unfolding handle_arrival
on_arrival-placed sc iat_sample now t h = elim (Bool-cases (is_active t.state)) [
  | inl on ↦
      let (_, _, _, _, a, b) = buff_arrival-keeps now (counted t) in
      rw (on_arrival-active sc iat_sample now t on, a, b) h
  | inr off ↦ rw (on_arrival-idle sc iat_sample now t off) (omega (arith, h))
]

-- What a handler leaves of the task is at an instruction.
abbrev Placed : Handled → Type 0
Placed h = h.0.act_instr < h.0.instr_count

Step-IsPlaced : {sc : SimTime} {s t : System} → Step sc s t → IsPlaced s.task → IsPlaced t.task
unfolding Task.on_fake_arrival handle_arrival Task.on_sched Task.on_desched Task.on_instr_end
    on_end_instance current
Step-IsPlaced {sc} {s} (arrives {k} now iat_sample t known e) placed =
    update-IsPlaced s.task t _ placed (on_arrival-placed sc iat_sample now (s.task t) (placed t))
Step-IsPlaced {sc} {s} (buffered {h} {k} now t known off f e) placed =
    let ((t₁, a), g, f') = >>=-eq-ok (get_buff_arrival (s.task t)) _ f in
    update-IsPlaced s.task t h.0 placed
      (Returns_ok Placed _ (ground (arith, placed t, (get_buff_arrival-keeps (s.task t) g).1)) f')
Step-IsPlaced {sc} {s} (schedules {h} {k} now t cpu on f e) placed =
    let (p, _, g) = >>=-eq-ok (deref cpu) _ f in
    let (i, _, g') = >>=-eq-ok (current (s.task t)) _ g in
    update-IsPlaced s.task t h.0 placed (Returns_ok Placed _ (placed t) g')
Step-IsPlaced {sc} {s} (deschedules {h} {k} now t cpu on f e) placed =
    let (p, _, g) = >>=-eq-ok (deref cpu) _ f in
    let (i, _, g') = >>=-eq-ok (current (s.task t)) _ g in
    update-IsPlaced s.task t h.0 placed (Returns_ok Placed _ (placed t) g')
Step-IsPlaced {sc} {s} (ends {h} {k} now t x p on still f e) placed =
    let (i, a, g) = >>=-eq-ok (current (s.task t)) _ f in
    let place : i ≡ (s.task t).act_instr = ground arith in
    update-IsPlaced s.task t h.0 placed (elim (Bool-cases (i + 1 == (s.task t).instr_count)) [
      | inl last ↦ Returns_ok Placed _ (ground (arith, placed t)) (rw last at g)
      | inr more ↦ Returns_ok Placed _ (ground (arith, placed t)) (rw more at g)
    ])
Step-IsPlaced (begins now calm e) placed = placed
Step-IsPlaced (switches now calm on due e) placed = placed

pub Reach-IsPlaced :
    {sc : SimTime} {s t : System} → Reach sc s t → IsPlaced s.task → IsPlaced t.task
Reach-IsPlaced here placed = placed
Reach-IsPlaced (next r st) placed = Step-IsPlaced st (Reach-IsPlaced r placed)

-- The handler of an event that may fire next, with all that it calls. The processor is not NULL, and a
-- buffered arrival fires where there is one. `has` says whether a task has an instruction, with its cost, at a place.
pub data Fires (has : ℕ → ℕ → Bool) (sc : SimTime) (s : System) : Run Kernel → Type 0 where
  arrival :
      (now iat_sample t : ℕ)
      → s.kernel.sched.registered t ≡ true
      → Fires has sc s
          (following (has t) (calls_of sc now s t) (Task.on_arrival sc iat_sample now (s.task t)))
  buffered_arrival :
      (now t a : ℕ) (rest : List ℕ)
      → s.kernel.sched.registered t ≡ true
      → is_active (s.task t).state ≡ false
      → (s.task t).arr_queue ≡ a ∷ rest
      → Fires has sc s
          (Task.on_fake_arrival sc now (s.task t) >>= following (has t) (calls_of sc now s t))
  schedule :
      (now t p : ℕ)
      → s.scheds t ≡ true
      → Fires has sc s
          (Task.on_sched (some p) now (s.task t) >>= following (has t) (calls_of sc now s t))
  deschedule :
      (now t p : ℕ)
      → s.deschs t ≡ true
      → Fires has sc s
          (Task.on_desched (some p) (s.task t) >>= following (has t) (calls_of sc now s t))
  instruction_end :
      (now t x p : ℕ)
      → executes s t ≡ true
      → s.deschs t ≡ false
      → Fires has sc s
          (Task.on_instr_end sc (some p) x (s.task t) >>= following (has t) (calls_of sc now s t))
  dispatch_begin :
      (now : ℕ) → Fires has sc s (on_begin_dispatch (reads s.task) now (quiet s.kernel))
  dispatch_end :
      (now : ℕ)
      → s.kernel.is_context_switching ≡ true
      → Fires has sc s (on_end_dispatch (reads s.task) now (quiet s.kernel))

module _ (sc : SimTime) where
  -- A handler whose calls return, if it does.
  calls_return :
      (P : Handled → Kernel → Type 0) (m : Run Handled) (f : Handled → Run Kernel)
      → Returns (λ h. Unit) m
      → ((h : Handled) → m ≡ ok h → Returns (P h) (f h))
      → (k : Kernel) × ((m >>= f) ≡ ok k)
  calls_return P m f back r =
      let (h, e, _) = Returns-inv (λ h. Unit) m back in
      let (k, g, _) = Returns-inv (P h) (f h) (r h e) in (k, ap (λ n. n >>= f) e ∙ g)

  pub inside :
      (task : ℕ → Task) → IsPlaced task → (t : ℕ) → current (task t) ≡ ok (task t).act_instr
  unfolding current
  inside task placed t =
      let place : ltb (task t).act_instr (task t).instr_count ≡ true = ground (arith, placed t) in
      rw place refl

  Fires-returns :
      (has : ℕ → ℕ → Bool) (s : System) (m : Run Kernel)
      → IsSafe s
      → IsPlaced s.task
      → ((t i : ℕ) → i < (s.task t).instr_count → has t i ≡ true)
      → Fires has sc s m
      → (k : Kernel) × (m ≡ ok k)
  unfolding Task.on_fake_arrival get_buff_arrival Task.on_sched Task.on_desched Task.on_instr_end
      on_end_instance
  Fires-returns has s m safe placed all (arrival now iat_sample t known) =
      let h = Task.on_arrival sc iat_sample now (s.task t) in
      let (k, e, _) = Returns-inv _ _ (
        following-Returns _ (has t) (calls_of sc now s t) h
          (on_arrival-Calls (has t) sc now (s.task t) (all t) iat_sample)
          (arrives-IsSafe sc s safe t now iat_sample known)) in
      (k, e)
  Fires-returns has s m safe placed all (buffered_arrival now t a rest known off waits) =
      calls_return _ (Task.on_fake_arrival sc now (s.task t)) _ (rw waits tt) λ h e.
        following-Returns _ (has t) (calls_of sc now s t) h
          (on_fake_arrival-Calls (has t) sc now (s.task t) (all t) e)
          (buffered-IsSafe sc s safe t now h known off e)
  Fires-returns has s m safe placed all (schedule now t p on) =
      calls_return _ (Task.on_sched (some p) now (s.task t)) _ (rw (inside s.task placed t) tt)
        λ h e.
          following-Returns _ (has t) (calls_of sc now s t) h
            (on_sched-Calls (has t) sc now (s.task t) (all t) (placed t) (some p) e)
            (schedules-IsSafe sc s safe t now (some p) h on e)
  Fires-returns has s m safe placed all (deschedule now t p on) =
      calls_return _ (Task.on_desched (some p) (s.task t)) _ (rw (inside s.task placed t) tt) λ h e.
        following-Returns _ (has t) (calls_of sc now s t) h
          (on_desched-Calls (has t) sc now (s.task t) (all t) (placed t) (some p) e)
          (deschedules-IsSafe sc s safe t now (some p) h on e)
  Fires-returns has s m safe placed all (instruction_end now t x p on still) =
      let i = (s.task t).act_instr in
      calls_return _ (Task.on_instr_end sc (some p) x (s.task t)) _
        (elim (Bool-cases (i + 1 == (s.task t).instr_count)) [
          | inl last ↦ rw (inside s.task placed t, last) tt
          | inr more ↦ rw (inside s.task placed t, more) tt
        ])
        λ h e.
          following-Returns _ (has t) (calls_of sc now s t) h
            (on_instr_end-Calls (has t) sc now (s.task t) (all t) (placed t) x p e)
            (ends-IsSafe sc s safe t now x p h on still e)
  Fires-returns has s m safe placed all (dispatch_begin now) =
      let v = safe.kernel_valid in
      let v₀ : IsValid (reads s.task) (quiet s.kernel) = record {
        queue_valid = v.queue_valid;
        running = v.running;
      } in
      let (k, e, _) = Returns-inv _ _ (
        on_begin_dispatch-Outranks (reads s.task) (reads-IsNumbered s.task safe.numbered) now
          (quiet s.kernel) v₀) in
      (k, e)
  Fires-returns has s m safe placed all (dispatch_end now on) =
      let v = safe.kernel_valid in
      let v₀ : IsValid (reads s.task) (quiet s.kernel) = record {
        queue_valid = v.queue_valid;
        running = v.running;
      } in
      elim (Option-cases s.kernel.curr_exe) [
        | inl none_runs ↦ absurd (safe.turns.target on none_runs)
        | inr (t, cur) ↦
            let (k, e, _) = Returns-inv _ _ (
              on_end_dispatch-Runs (reads s.task) (reads-IsNumbered s.task safe.numbered) now
                (quiet s.kernel) t v₀ cur) in
            (k, e)
      ]

  -- From a new RTKernel with tasks that are all idle and at one of their instructions, a valid
  -- ready queue that is empty, and numbers that tell the tasks apart, after any history of
  -- arrivals, buffered arrivals at idle tasks, schedule and deschedule events that fire while
  -- they are pending, ends of instructions of tasks that execute and are not about to stop,
  -- dispatches while no schedule or deschedule is pending, and pending ends of context switches
  -- that are on while none is either, if no task has a NULL instruction in its queue, or one
  -- without a cost, the handler of the next event returns, with what it calls of the kernel, its
  -- scheduler and the events, and follows no NULL pointer to an instruction or a cost: an arrival
  -- or a buffered arrival of a known task, the latter where it is idle and has one, a pending
  -- schedule or deschedule event or the end of an instruction as before, on a processor, a
  -- dispatch, and the end of a context switch that is on.
  pub handlers_return :
      (has : ℕ → ℕ → Bool) (q : Scheduler) (task : ℕ → Task) (s : System) (m : Run Kernel)
      → QueueIsValid (reads task) q
      → ((t : ℕ) → mem t q.queue ≡ false)
      → ((t : ℕ) → (task t).number ≡ t)
      → ((t : ℕ) → (task t).state ≡ tsk_idle)
      → ((t : ℕ) → (task t).act_instr < (task t).instr_count)
      → Reach sc
          (record {
            kernel = new_kernel q;
            task = task;
            scheds = λ t. false;
            deschs = λ t. false;
            ending = false;
          })
          s
      → ((t i : ℕ) → i < (s.task t).instr_count → has t i ≡ true)
      → Fires has sc s m
      → (k : Kernel) × (m ≡ ok k)
  handlers_return has q task s m v empty named idle placed r all fires =
      Fires-returns has s m (Reach-IsSafe sc r (new_kernel-IsSafe sc q task v empty named idle))
        (Reach-IsPlaced r placed) all fires
