-- ===== src/Closed/Instances.antt =====
-- src/task.cpp: the schedule and deschedule events of a task, and the ends of its instructions, keep
-- the system safe.
use sys_rt.Common.{
  Bool, List, ℕ, ==_refl, ◌+◌, ◌≡◌, refl, subst, inl, inr, true, false, Option, some, List, [], ◌∷◌,
  ok, >>=-eq-ok, arith, ◌==◌, update, All, Bool-cases, Returns_ok, Returns, Returns-map, mem, deref,
  if_both,
}
use sys_rt.Sim.{EventCall, SimTime, cancel, desched_evt, dead_evt, end_evt}
use sys_rt.Task
use sys_rt.Task.{
  Task, TaskState, tsk_idle, tsk_ready, tsk_exec, tsk_blocked, TaskCall, Handled, event,
  kernel_on_arrival, kernel_on_end, instr_schedule, instr_deschedule, is_active, is_executing,
  int_le, buff_arrival, get_buff_arrival, handle_arrival, reactivate, next_arrival, current,
  on_end_instance,
}
use sys_rt.KernelInstr.{call_all, call_kernel}
use sys_rt.Closed.{is_sched, is_desched, is_ending, System, reads, handled, executes, calls_of}
use sys_rt.Closed.Turns
use sys_rt.Closed.Turns.{Turns}
use sys_rt.Closed.Calls.{Unmoved, IsApart, call_all-Returns, next_arrival-IsApart}
use sys_rt.Sim.Outstanding.{outstanding}
use sys_rt.Closed.Written.{ReadsAlike, IsSafe, executes_update, settles}
use sys_rt.Closed.Queueing.{leaves}

module _ (sc : SimTime) (s : System) (safe : IsSafe s) (t : ℕ) where
  pub same-Turns :
      (t' : Task)
      → is_executing t'.state ≡ executes s t
      → Turns s.kernel.curr_exe s.kernel.is_context_switching
          (λ p. is_executing (update s.task t t' p).state)
          s.scheds
          s.deschs
  same-Turns t' e =
      Turns.Turns-congr _ _ _ _ _ safe.turns _ _ _
        (λ p. elim (Bool-cases (t == p)) [
          | inl same ↦
              let q : t ≡ p = ground arith in
              rw same (subst (λ y. is_executing t'.state ≡ executes s y) q e)
          | inr other ↦ rw other refl
        ])
        (λ p. refl) (λ p. refl)

  -- The calls of a handler return and leave the system safe; a pending event has fired.
  abbrev pub Keeps : ℕ → (ℕ → Bool) → (ℕ → Bool) → Handled → Type 0
  Keeps now scheds deschs h =
      Returns (λ k. IsSafe (handled (update s.task t h.0) scheds deschs s.ending k))
        (calls_of sc now s t h)

  -- The calls reach no kernel, after calls of events.
  pub settled :
      (now : ℕ) (t' : Task) (es : List EventCall) (scheds deschs : ℕ → Bool) (cs : List TaskCall)
      → t'.number ≡ t
      → (mem t s.kernel.sched.queue ≡ true
          → ReadsAlike (reads (update s.task t t') t) (reads s.task t)
            × (is_active t'.state ≡ true))
      → ((b : Bool) → outstanding is_ending b es ≡ b)
      → Turns s.kernel.curr_exe s.kernel.is_context_switching
          (λ p. is_executing (update s.task t t' p).state)
          (λ p. outstanding (is_sched p) (scheds p) es)
          (λ p. outstanding (is_desched p) (deschs p) es)
      → All IsApart cs
      → Returns
          (λ k. IsSafe (handled (update s.task t t') scheds deschs s.ending k))
          (call_all sc (reads (update s.task t t')) now t cs (record s.kernel { calls = es }))
  settled now t' es scheds deschs cs named w keeps c apart =
      Returns-map (Unmoved (record s.kernel { calls = es })) _
        (call_all sc (reads (update s.task t t')) now t cs (record s.kernel { calls = es }))
        (call_all-Returns sc (reads (update s.task t t')) now t cs _ apart)
        λ k m. settles s safe t t' named es scheds deschs k w keeps c m

  -- The schedule event fires: it cancels a deschedule that is pending.
  pub schedules-IsSafe :
      (now : ℕ) (cpu : Option ℕ) (h : Handled)
      → s.scheds t ≡ true
      → Task.on_sched cpu now (s.task t) ≡ ok h
      → Keeps now (update s.scheds t false) s.deschs h
  unfolding Task.on_sched call_all call_kernel is_active is_executing
  schedules-IsSafe now cpu h on f =
      let (p, _, g) = >>=-eq-ok (deref cpu) _ f in
      let (i, _, g') = >>=-eq-ok (current (s.task t)) _ g in
      Returns_ok (Keeps now (update s.scheds t false) s.deschs) _
        (settled now _ (cancel (desched_evt (s.task t).number) ∷ []) (update s.scheds t false)
          s.deschs (instr_schedule i ∷ []) (safe.numbered t)
          (λ _. (rw (==_refl t) (refl, refl, refl), refl)) (λ b. refl)
          (Turns.Turns-congr _ _ _ _ _ (Turns.Turns-sched _ _ _ _ _ safe.turns t on) _ _ _
            (executes_update s.task t _ true refl) (λ p. refl)
            (λ p. rw (safe.numbered t) (ground arith)))
          (tt, tt))
        g'

  pub deschedules-IsSafe :
      (now : ℕ) (cpu : Option ℕ) (h : Handled)
      → s.deschs t ≡ true
      → Task.on_desched cpu (s.task t) ≡ ok h
      → Keeps now s.scheds (update s.deschs t false) h
  unfolding Task.on_desched is_active is_executing
  deschedules-IsSafe now cpu h on f =
      let (p, _, g) = >>=-eq-ok (deref cpu) _ f in
      let (i, _, g') = >>=-eq-ok (current (s.task t)) _ g in
      Returns_ok (Keeps now s.scheds (update s.deschs t false)) _
        (settled now _ [] s.scheds (update s.deschs t false)
          (event (cancel (end_evt (s.task t).number)) ∷ instr_deschedule i ∷ []) (safe.numbered t)
          (λ _. (rw (==_refl t) (refl, refl, refl), refl)) (λ b. refl)
          (Turns.Turns-congr _ _ _ _ _ (Turns.Turns-desched _ _ _ _ _ safe.turns t on) _ _ _
            (executes_update s.task t _ false refl) (λ p. refl) (λ p. refl))
          (((λ p. (refl, refl)), refl), (tt, tt)))
        g'

  pub ends-IsSafe :
      (now x p : ℕ) (h : Handled)
      → executes s t ≡ true
      → s.deschs t ≡ false
      → Task.on_instr_end sc (some p) x (s.task t) ≡ ok h
      → Keeps now s.scheds s.deschs h
  unfolding Task.on_instr_end on_end_instance
  ends-IsSafe now x p h on still f =
      let (i, _, g) = >>=-eq-ok (current (s.task t)) _ f in
      let t₁ = record (s.task t) {
        execd_time = sc.add (s.task t).execd_time x;
        act_instr = i + 1;
      } in
      elim (Bool-cases (i + 1 == (s.task t).instr_count)) [
        | inl last ↦
            Returns_ok (Keeps now s.scheds s.deschs) _
              (leaves s safe t _ (safe.numbered t) sc now
                (event (cancel (dead_evt (s.task t).number)) ∷ []) (next_arrival t₁) on still refl
                (rw (==_refl t) (refl, refl, refl)) (((λ q. (refl, refl)), refl), tt)
                (next_arrival-IsApart t₁))
              (rw last at g)
        | inr more ↦
            Returns_ok (Keeps now s.scheds s.deschs) _
              (settled now t₁ [] s.scheds s.deschs _ (safe.numbered t)
                (λ m. (rw (==_refl t) (refl, refl, refl), safe.active t m)) (λ b. refl)
                (same-Turns t₁ refl)
                (if_both {A = List TaskCall} (All IsApart) (is_executing (s.task t).state)
                  (λ _. (tt, tt)) (λ _. tt)))
              (rw more at g)
      ]
