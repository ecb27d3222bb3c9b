-- ===== src/Closed/Arriving.antt =====
-- src/task.cpp: the arrivals of a task, at once or from its buffer, keep the system safe.
use sys_rt.Common.{
  ℕ, append_assoc, ==_refl, ◌+◌, ◌%◌, ◌^◌, ◌≡◌, refl, sym, ◌∙◌, ap, subst, inl, inr, true, false,
  List, [], ◌∷◌, ◌++◌, ok, >>=-eq-ok, arith, mem, All, Bool-cases, Returns_ok, if_both, length,
}
use sys_rt.Sim.{SimTime, notify, dead_evt}
use sys_rt.Task
use sys_rt.Task.{
  Task, TaskState, tsk_idle, tsk_ready, tsk_exec, tsk_blocked, TaskCall, Handled, event,
  kernel_on_arrival, kernel_on_end, instr_schedule, instr_deschedule, is_active, is_executing,
  int_le, buff_arrival, get_buff_arrival, handle_arrival, reactivate, next_arrival, current,
  on_end_instance,
}
use sys_rt.Closed.{System}
use sys_rt.Closed.Calls.{IsApart, handle_arrival-IsApart, reactivate-IsApart}
use sys_rt.Closed.Written.{IsSafe}
use sys_rt.Closed.Queueing.{joins}
use sys_rt.Closed.Instances.{same-Turns, Keeps, settled}

pub idle-stands : (x : TaskState) → is_active x ≡ false → is_executing x ≡ false
unfolding is_active is_executing
idle-stands tsk_idle h = refl
idle-stands tsk_ready h = refl
idle-stands tsk_exec h = absurd (ground arith)
idle-stands tsk_blocked h = refl

-- What a buffered arrival leaves of the task.
pub buff_arrival-keeps :
    (now : ℕ) (t : Task)
    → ((buff_arrival now t).number ≡ t.number)
      × ((buff_arrival now t).state ≡ t.state)
      × ((buff_arrival now t).dl ≡ t.dl)
      × ((buff_arrival now t).arrival ≡ t.arrival)
      × ((buff_arrival now t).act_instr ≡ t.act_instr)
      × ((buff_arrival now t).instr_count ≡ t.instr_count)
unfolding buff_arrival
buff_arrival-keeps now t =
    if_both {A = Task}
      (λ q.
        (q.number ≡ t.number)
        × (q.state ≡ t.state)
        × (q.dl ≡ t.dl)
        × (q.arrival ≡ t.arrival)
        × (q.act_instr ≡ t.act_instr)
        × (q.instr_count ≡ t.instr_count))
      (int_le (length t.arr_queue) t.arr_queue_size) (λ _. (refl, refl, refl, refl, refl, refl))
      (λ _. (refl, refl, refl, refl, refl, refl))

pub get_buff_arrival-keeps :
    (t : Task) {r : Task × ℕ}
    → get_buff_arrival t ≡ ok r
    → (r.0.number ≡ t.number) × (r.0.instr_count ≡ t.instr_count)
unfolding get_buff_arrival
get_buff_arrival-keeps t e = ground (arith)

-- The two branches of onArrival.
abbrev pub counted : Task → Task
counted t = record t { num_jobs = (t.num_jobs + 1) % 2 ^ 32 }

pub on_arrival-active :
    (sc : SimTime) (iat_sample now : ℕ) (t : Task)
    → is_active t.state ≡ true
    → Task.on_arrival sc iat_sample now t ≡ (
      buff_arrival now (counted t),
      event (notify (dead_evt t.number)) ∷ reactivate iat_sample (counted t),
    )
unfolding Task.on_arrival
on_arrival-active sc iat_sample now t h = rw h refl

pub on_arrival-idle :
    (sc : SimTime) (iat_sample now : ℕ) (t : Task)
    → is_active t.state ≡ false
    → Task.on_arrival sc iat_sample now t ≡ (
      (handle_arrival sc now now (counted t)).0,
      (handle_arrival sc now now (counted t)).1
          ++ kernel_on_arrival ∷ reactivate iat_sample (counted t),
    )
unfolding Task.on_arrival
on_arrival-idle sc iat_sample now t h = rw h (
    ap (λ cs. ((handle_arrival sc now now (counted t)).0, cs))
      (append_assoc (handle_arrival sc now now (counted t)).1 (kernel_on_arrival ∷ [])
        (reactivate iat_sample (counted t))))

module _ (sc : SimTime) (s : System) (safe : IsSafe s) (t : ℕ) where
  -- A task that is not active is out of the queue and does not execute.
  pub idle-out : is_active (s.task t).state ≡ false → mem t s.kernel.sched.queue ≡ false
  idle-out h = elim (Bool-cases (mem t s.kernel.sched.queue)) [
    | inl m ↦ absurd (ground (arith, safe.active t m))
    | inr m ↦ m
  ]

  -- A task that was idle begins an instance.
  begins_instance :
      (now arr : ℕ) (t₁ : Task) (ys : List TaskCall)
      → s.kernel.sched.registered t ≡ true
      → is_active (s.task t).state ≡ false
      → t₁.number ≡ t
      → All IsApart ys
      → Keeps sc s safe t now s.scheds s.deschs (
        (handle_arrival sc now arr t₁).0,
        (handle_arrival sc now arr t₁).1 ++ kernel_on_arrival ∷ ys,
      )
  unfolding handle_arrival is_active is_executing
  begins_instance now arr t₁ ys known off named apart =
      joins s safe t (handle_arrival sc now arr t₁).0 named sc now (handle_arrival sc now arr t₁).1
        ys known (idle-out off) refl
        (same-Turns sc s safe t (handle_arrival sc now arr t₁).0
          (sym (idle-stands (s.task t).state off)))
        (handle_arrival-IsApart sc now arr t₁) apart

  pub arrives-IsSafe :
      (now iat_sample : ℕ)
      → s.kernel.sched.registered t ≡ true
      → Keeps sc s safe t now s.scheds s.deschs (Task.on_arrival sc iat_sample now (s.task t))
  arrives-IsSafe now iat_sample known = elim (Bool-cases (is_active (s.task t).state)) [
    | inl on ↦
        let (a, b, c, d, _, _) = buff_arrival-keeps now (counted (s.task t)) in
        let t' = buff_arrival now (counted (s.task t)) in
        subst (Keeps sc s safe t now s.scheds s.deschs)
          (sym (on_arrival-active sc iat_sample now (s.task t) on))
          (settled sc s safe t now t' [] s.scheds s.deschs _ (a ∙ safe.numbered t)
            (λ _. (rw (==_refl t) (c, d, a), ap is_active b ∙ on)) (λ v. refl)
            (same-Turns sc s safe t t' (ap is_executing b))
            (((λ p. (refl, refl)), refl), reactivate-IsApart iat_sample (counted (s.task t))))
    | inr off ↦
        subst (Keeps sc s safe t now s.scheds s.deschs)
          (sym (on_arrival-idle sc iat_sample now (s.task t) off))
          (begins_instance now now (counted (s.task t)) (reactivate iat_sample (counted (s.task t)))
            known off (safe.numbered t) (reactivate-IsApart iat_sample (counted (s.task t))))
  ]

  pub buffered-IsSafe :
      (now : ℕ) (h : Handled)
      → s.kernel.sched.registered t ≡ true
      → is_active (s.task t).state ≡ false
      → Task.on_fake_arrival sc now (s.task t) ≡ ok h
      → Keeps sc s safe t now s.scheds s.deschs h
  unfolding Task.on_fake_arrival
  buffered-IsSafe now h known off f =
      let (r, a, g) = >>=-eq-ok (get_buff_arrival (s.task t)) _ f in
      Returns_ok (Keeps sc s safe t now s.scheds s.deschs) _
        (begins_instance now r.1 r.0 [] known off
          ((get_buff_arrival-keeps (s.task t) a).0 ∙ safe.numbered t) tt)
        g
