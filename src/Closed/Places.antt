-- ===== src/Closed/Places.antt =====
-- src/task.cpp: the instructions that the handlers of a task call stand in its queue.
use sys_rt.Common.{
  ℕ, zero, suc, ◌+◌, ◌<◌, ◌≤◌, ◌≡◌, refl, inl, inr, Bool, true, ◌&&◌, Option, some, List, [], ◌∷◌,
  ◌++◌, Run, ok, fault, >>=-eq-ok, arith, ◌==◌, Bool-cases, Returns, Returns_ok, deref, if_both,
  if◌then◌else◌, ltb, leb,
}
use sys_rt.Sim.{SimTime}
use sys_rt.Kernel.{Kernel}
use sys_rt.Task
use sys_rt.Task.{
  Task, TaskCall, Handled, instr_reset, instr_get_duration, instr_schedule, instr_deschedule,
  reset_instrs, handle_arrival, reactivate, next_arrival, chk_buff_arrival, current,
  on_end_instance, get_buff_arrival, is_active, is_executing,
}
use sys_rt.Closed.Arriving.{get_buff_arrival-keeps, counted, on_arrival-active, on_arrival-idle}

-- A call of an instruction follows the pointer at its place in the queue, and the one to its cost.
abbrev pub follows : (ℕ → Bool) → TaskCall → Bool
follows has (instr_reset i) = has i
follows has (instr_get_duration i) = has i
follows has (instr_schedule i) = has i
follows has (instr_deschedule i) = has i
follows has _ = true

abbrev pub present : (ℕ → Bool) → List TaskCall → Bool
present has [] = true
present has (c ∷ cs) = follows has c && present has cs

-- The calls of a handler, whose instructions fault where a pointer is NULL.
abbrev pub following : (ℕ → Bool) → (Handled → Run Kernel) → Handled → Run Kernel
following has f h = if present has h.1 then f h else fault

pub following-Returns :
    (P : Kernel → Type 0) (has : ℕ → Bool) (f : Handled → Run Kernel) (h : Handled)
    → present has h.1 ≡ true
    → Returns P (f h)
    → Returns P (following has f h)
following-Returns P has f h all r = rw all r

module _ (has : ℕ → Bool) where
  present-append :
      (xs ys : List TaskCall)
      → present has xs ≡ true
      → present has ys ≡ true
      → present has (xs ++ ys) ≡ true
  present-append [] ys a b = b
  present-append (x ∷ xs) ys a b =
      let rest : present has (xs ++ ys) ≡ true = present-append xs ys (ground (arith, a)) b in
      ground (arith, a, rest)

  -- What a handler calls of the instructions.
  abbrev pub Calls : Handled → Type 0
  Calls h = present has h.1 ≡ true

  module _ (t : Task) (all : (i : ℕ) → i < t.instr_count → has i ≡ true) where
    present-reset_instrs : (i n : ℕ) → i + n ≤ t.instr_count → present has (reset_instrs i n) ≡ true
    unfolding reset_instrs
    present-reset_instrs i zero h = refl
    present-reset_instrs i (suc n) h =
        rw (all i (omega (arith, h)), present-reset_instrs (i + 1) n (omega (arith, h))) refl

    present-handle_arrival :
        (sc : SimTime) (now arr : ℕ) → present has (handle_arrival sc now arr t).1 ≡ true
    unfolding handle_arrival
    present-handle_arrival sc now arr =
        present-append (reset_instrs 0 t.instr_count) _
          (present-reset_instrs 0 t.instr_count (omega arith))
          (if_both {A = List TaskCall} (λ cs. present has cs ≡ true) (leb now (sc.add arr t.rdl))
            (λ _. refl) (λ _. refl))

    present-reactivate : (iat_sample : ℕ) → present has (reactivate iat_sample t) ≡ true
    unfolding reactivate
    present-reactivate iat_sample =
        if_both {A = List TaskCall} (λ cs. present has cs ≡ true) (t.iat && ltb 0 iat_sample)
          (λ _. refl) (λ _. refl)

    present-next_arrival : present has (next_arrival t) ≡ true
    unfolding next_arrival
    present-next_arrival =
        if_both {A = List TaskCall} (λ cs. present has cs ≡ true) (chk_buff_arrival t) (λ _. refl)
          (λ _. refl)

  module _ (sc : SimTime) (now : ℕ) (t : Task)
      (all : (i : ℕ) → i < t.instr_count → has i ≡ true) where
    pub on_arrival-Calls : (iat_sample : ℕ) → Calls (Task.on_arrival sc iat_sample now t)
    on_arrival-Calls iat_sample = elim (Bool-cases (is_active t.state)) [
      | inl on ↦
          rw (on_arrival-active sc iat_sample now t on)
            (present-reactivate (counted t) all iat_sample)
      | inr off ↦ rw (on_arrival-idle sc iat_sample now t off) (
          present-append (handle_arrival sc now now (counted t)).1 _
            (present-handle_arrival (counted t) all sc now now)
            (present-reactivate (counted t) all iat_sample))
    ]

    pub on_fake_arrival-Calls : {h : Handled} → Task.on_fake_arrival sc now t ≡ ok h → Calls h
    unfolding Task.on_fake_arrival
    on_fake_arrival-Calls f =
        let ((t₁, a), g, f') = >>=-eq-ok (get_buff_arrival t) _ f in
        let kept : t₁.instr_count ≡ t.instr_count = (get_buff_arrival-keeps t g).1 in
        Returns_ok Calls _
          (present-append (handle_arrival sc now a t₁).1 _
            (present-handle_arrival t₁ (λ i h. all i (omega (arith, h, kept))) sc now a) refl)
          f'

    module _ (placed : t.act_instr < t.instr_count) where
      at_current : (i : ℕ) → current t ≡ ok i → has i ≡ true
      unfolding current
      at_current i e =
          let place : i ≡ t.act_instr = ground (arith, placed, e) in
          all i (omega (arith, place, placed))

      pub on_sched-Calls : (cpu : Option ℕ) {h : Handled} → Task.on_sched cpu now t ≡ ok h → Calls h
      unfolding Task.on_sched
      on_sched-Calls cpu f =
          let (p, _, g) = >>=-eq-ok (deref cpu) _ f in
          let (i, c, g') = >>=-eq-ok (current t) _ g in
          Returns_ok Calls _ (rw (at_current i c) refl) g'

      pub on_desched-Calls : (cpu : Option ℕ) {h : Handled} → Task.on_desched cpu t ≡ ok h → Calls h
      unfolding Task.on_desched
      on_desched-Calls cpu f =
          let (p, _, g) = >>=-eq-ok (deref cpu) _ f in
          let (i, c, g') = >>=-eq-ok (current t) _ g in
          Returns_ok Calls _ (rw (at_current i c) refl) g'

      pub on_instr_end-Calls :
          (x p : ℕ) {h : Handled} → Task.on_instr_end sc (some p) x t ≡ ok h → Calls h
      unfolding Task.on_instr_end on_end_instance current
      on_instr_end-Calls x p f =
          let (i, c, g) = >>=-eq-ok (current t) _ f in
          let place : i ≡ t.act_instr = ground (arith, placed, c) in
          let t₁ = record t { execd_time = sc.add t.execd_time x; act_instr = i + 1 } in
          elim (Bool-cases (i + 1 == t.instr_count)) [
            | inl last ↦ Returns_ok Calls _ (present-next_arrival t₁ all) (rw last at g)
            | inr more ↦
                let next : has (i + 1) ≡ true = all (i + 1) (ground (arith, place, placed, more)) in
                Returns_ok Calls _
                  (if_both {A = List TaskCall} (λ cs. present has cs ≡ true) (is_executing t.state)
                    (λ _. rw next refl) (λ _. refl))
                  (rw more at g)
          ]
