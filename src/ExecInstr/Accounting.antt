-- ===== src/ExecInstr/Accounting.antt =====
-- What an instruction executes in all, however often it is preempted.
use sys_rt.Common.{
  ℕ, ◌+◌, ◌-◌, ◌≤◌, ◌<◌, ◌^◌, ◌≡◌, refl, subst, inl, inr, ◌⊎◌, true, false, List, [], ◌∷◌, arith,
  All,
}
use sys_rt.Sim.{SimTime, notify_after, instr_end_evt}
use sys_rt.ExecInstr.{ExecInstr, start, remaining, schedule, deschedule, on_end}

-- Slices of the processor, as start and length.
abbrev pub total : List (ℕ × ℕ) → ℕ
total [] = 0
total (s ∷ ss) = s.1 + total ss

-- The instruction is scheduled and descheduled once for each slice.
abbrev pub preempted : SimTime → ℕ → ℕ → List (ℕ × ℕ) → ExecInstr → ExecInstr
preempted sc i cost [] e = e
preempted sc i cost (s ∷ ss) e =
    preempted sc i cost ss (deschedule sc i (s.0 + s.1) (schedule sc i s.0 cost e).0).0

-- Either the instance has not begun, or it has used `done` of its cost.
abbrev pub HasDone : ℕ → ℕ → ExecInstr → Type 0
HasDone cost done e =
    ((e.flag ≡ true) × (done ≡ 0))
    ⊎ ((e.flag ≡ false) × (e.current_cost ≡ cost) × (e.act_time ≡ done) × (e.execd_time ≡ done))

module _ (sc : SimTime) (i cost : ℕ) where
  start-done :
      (now done : ℕ) (e : ExecInstr)
      → HasDone cost done e
      → let e' = start now cost e in
        (e'.current_cost ≡ cost)
        × (e'.act_time ≡ done)
        × (e'.execd_time ≡ done)
        × (e'.last_time ≡ now)
        × (e'.executing ≡ true)
        × (e'.flag ≡ false)
  unfolding start
  start-done now done e h = ground arith

  slice-HasDone :
      (at long done : ℕ) (e : ExecInstr)
      → HasDone cost done e
      → at + long < 2 ^ 64
      → done + long < 2 ^ 53
      → HasDone cost (done + long) (deschedule sc i (at + long) (schedule sc i at cost e).0).0
  unfolding deschedule schedule
  slice-HasDone at long done e h a b =
      let (c, act, exe, last, runs, fl) = start-done at done e h in
      let used : sc.sub (at + long) at ≡ long =
        ground (arith, sc.sub_exact (at + long) at (omega arith)) in
      let whole : sc.through_double long ≡ long = sc.through_double_exact long (omega arith) in
      let sum : sc.add done long ≡ done + long = sc.add_exact done long (omega arith) in
      inr (ground arith, ground arith, ground arith, ground arith)

  preempted-HasDone :
      (slices : List (ℕ × ℕ)) (done all : ℕ) (e : ExecInstr)
      → HasDone cost done e
      → All (λ s. s.0 + s.1 < 2 ^ 64) slices
      → all ≡ done + total slices
      → all < 2 ^ 53
      → HasDone cost all (preempted sc i cost slices e)
  preempted-HasDone [] done all e h a b f =
      let same : done ≡ all = omega arith in subst (λ n. HasDone cost n e) same h
  preempted-HasDone (s ∷ ss) done all e h a b f =
      preempted-HasDone ss (done + s.1) all _ (slice-HasDone s.0 s.1 done e h a.0 (omega arith)) a.1
        (omega arith) f

  -- An instruction that has not begun, preempted after any number of slices of the processor
  -- whose total is at most its cost, asks for the rest of the cost at its next schedule, and if
  -- it ends after that time its executed time is the cost; the cost is below 2^53 and all times
  -- below 2^64.
  pub on_end-preempted :
      (e : ExecInstr) (slices : List (ℕ × ℕ)) (at : ℕ)
      → e.flag ≡ true
      → All (λ s. s.0 + s.1 < 2 ^ 64) slices
      → total slices ≤ cost
      → cost < 2 ^ 53
      → at + cost < 2 ^ 64
      → let r = schedule sc i at cost (preempted sc i cost slices e) in
        (r.1 ≡ notify_after (instr_end_evt i) (cost - total slices) ∷ [])
        × ((on_end sc i (at + (cost - total slices)) r.0).0.execd_time ≡ cost)
  unfolding schedule remaining on_end
  on_end-preempted e slices at fresh a b d f =
      let done =
        preempted-HasDone slices 0 (total slices) e (inl (fresh, refl)) a (omega arith)
          (omega arith) in
      let (c, act, exe, last, runs, fl) =
        start-done at (total slices) (preempted sc i cost slices e) done in
      let left : sc.sub cost (total slices) ≡ cost - total slices =
        sc.sub_exact cost (total slices) b in
      let whole : sc.through_double (cost - total slices) ≡ cost - total slices =
        sc.through_double_exact (cost - total slices) (omega arith) in
      let used : sc.sub (at + (cost - total slices)) at ≡ cost - total slices =
        ground (arith, sc.sub_exact (at + (cost - total slices)) at (omega arith)) in
      let sum : sc.add (total slices) (cost - total slices) ≡ cost =
        ground (arith, sc.add_exact (total slices) (cost - total slices) (omega arith)) in
      (ground (arith, d), rw (exe, last, used) sum)
