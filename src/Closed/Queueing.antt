-- ===== src/Closed/Queueing.antt =====
-- The two handlers of a task that call its kernel: it joins the ready queue, and it leaves it.
use sys_rt.Common.{
  ℕ, ◌≡◌, refl, sym, ◌∙◌, ap, subst, inl, inr, true, false, List, ◌∷◌, ◌++◌, arith, ◌==◌, mem,
  update, All, Bool-cases, Returns, Returns-inv, Returns-map,
}
use sys_rt.Sim.{SimTime}
use sys_rt.Kernel.{Kernel, on_arrival, on_end}
use sys_rt.Kernel.Tracks.{Activated, on_arrival-Activated}
use sys_rt.Task.{Task, TaskCall, is_active, is_executing, kernel_on_arrival, kernel_on_end}
use sys_rt.KernelInstr.{call_all, call_kernel}
use sys_rt.KernelInstr.Ends.{Ended, on_end-Ended}
use sys_rt.Closed.{System, reads, quiet, handled, executes}
use sys_rt.Closed.Turns
use sys_rt.Closed.Turns.{Turns}
use sys_rt.Closed.Calls.{Unmoved, IsApart, Muted-trans, call_all-then, call_all-Returns}
use sys_rt.Closed.Kernels.{on_arrival-Muted, on_end-Muted}
use sys_rt.Closed.Written.{
  IsSafe, ReadsAlike, reads-IsNumbered, Unmoved-IsValid, executes_update, numbered_update,
  update-IsValid, active_update, Rewrites,
}

module _ (s : System) (safe : IsSafe s) (t : ℕ) (t' : Task) (named : t'.number ≡ t) where
  abbrev task' : ℕ → Task
  task' = update s.task t t'

  -- An arrival of a task that is out of the queue.
  pub joins :
      (sc : SimTime) (now : ℕ) (xs ys : List TaskCall)
      → s.kernel.sched.registered t ≡ true
      → mem t s.kernel.sched.queue ≡ false
      → is_active t'.state ≡ true
      → Turns s.kernel.curr_exe s.kernel.is_context_switching
          (λ p. is_executing (task' p).state)
          s.scheds
          s.deschs
      → All IsApart xs
      → All IsApart ys
      → Returns
          (λ k. IsSafe (handled task' s.scheds s.deschs s.ending k))
          (call_all sc (reads task') now t (xs ++ kernel_on_arrival ∷ ys) (quiet s.kernel))
  unfolding call_all call_kernel
  joins sc now xs ys known out on c apart apart' =
      let env = reads task' in
      let u = reads-IsNumbered task' (numbered_update s safe t t' named) in
      let w : Rewrites s safe t t' named = λ m. absurd (ground (arith, out, m)) in
      let Safe = λ (k : Kernel). IsSafe (handled task' s.scheds s.deschs s.ending k) in
      call_all-then sc env now t Safe xs (kernel_on_arrival ∷ ys) (quiet s.kernel) apart λ k₁ m₁.
        let v₁ =
          Unmoved-IsValid env (quiet s.kernel) k₁ m₁
            (update-IsValid s safe t t' named (λ m. (w m).0)) in
        let (k₂, f, (v₂, x)) = Returns-inv (Activated env u now k₁ t) (on_arrival sc env now k₁ t) (
          on_arrival-Activated env u now sc k₁ t v₁ (rw m₁.sched_kept known)
            (rw m₁.sched_kept out)) in
        let (m₂, cur) = on_arrival-Muted sc env now k₁ t f in
        rw f (
          Returns-map (Unmoved k₂) Safe (call_all sc env now t ys k₂)
            (call_all-Returns sc env now t ys k₂ apart')
            λ k m₃.
              let v₃ = Unmoved-IsValid env k₂ k m₃ v₂ in
              let m = Muted-trans m₁.muted (Muted-trans m₂ m₃.muted) in
              record {
                numbered = numbered_update s safe t t' named;
                kernel_valid = record { queue_valid = v₃.queue_valid; running = v₃.running };
                active = λ z h. elim (Bool-cases (t == z)) [
                  | inl same ↦ rw same on
                  | inr other ↦ active_update s safe t t' named w z (
                      ap (λ q. mem z q.queue) (sym m₁.sched_kept)
                      ∙ sym (x.others z other)
                      ∙ ap (λ q. mem z q.queue) (sym m₃.sched_kept)
                      ∙ h)
                ];
                turns =
                    Turns.Turns-carry _ _ _ _ _ c _ _ _ _ _ (m₃.curr_kept ∙ cur ∙ m₁.curr_kept)
                      m.switching_kept (λ p. refl) (λ p. m.scheds_kept p (s.scheds p))
                      (λ p. m.deschs_kept p (s.deschs p));
                switch_ends =
                    λ on. m.ending_kept s.ending ∙ safe.switch_ends (sym m.switching_kept ∙ on);
              })

  -- The end of the instance of the task that executes.
  pub leaves :
      (sc : SimTime) (now : ℕ) (xs ys : List TaskCall)
      → executes s t ≡ true
      → s.deschs t ≡ false
      → is_executing t'.state ≡ false
      → ReadsAlike (reads task' t) (reads s.task t)
      → All IsApart xs
      → All IsApart ys
      → Returns
          (λ k. IsSafe (handled task' s.scheds s.deschs s.ending k))
          (call_all sc (reads task') now t (xs ++ kernel_on_end ∷ ys) (quiet s.kernel))
  unfolding call_all call_kernel
  leaves sc now xs ys on still off same_reads apart apart' =
      let env = reads task' in
      let u = reads-IsNumbered task' (numbered_update s safe t t' named) in
      let in_queue = safe.kernel_valid.running t (safe.turns.held t on still) in
      let Safe = λ (k : Kernel). IsSafe (handled task' s.scheds s.deschs s.ending k) in
      call_all-then sc env now t Safe xs (kernel_on_end ∷ ys) (quiet s.kernel) apart λ k₁ m₁.
        let v₁ =
          Unmoved-IsValid env (quiet s.kernel) k₁ m₁
            (update-IsValid s safe t t' named (λ m. same_reads)) in
        let (k₂, f, (v₂, x, idle)) =
          Returns-inv (Ended env k₁ t) (on_end k₁ t)
            (on_end-Ended env u k₁ t v₁.queue_valid (rw m₁.sched_kept in_queue)) in
        let m₂ = on_end-Muted k₁ t f in
        rw f (
          Returns-map (Unmoved k₂) Safe (call_all sc env now t ys k₂)
            (call_all-Returns sc env now t ys k₂ apart')
            λ k m₃.
              let v₃ = Unmoved-IsValid env k₂ k m₃ v₂ in
              let m = Muted-trans m₁.muted (Muted-trans m₂ m₃.muted) in
              record {
                numbered = numbered_update s safe t t' named;
                kernel_valid = record { queue_valid = v₃.queue_valid; running = v₃.running };
                active = λ z h. elim (Bool-cases (t == z)) [
                  | inl same ↦
                      let gone : t ≡ z = ground arith in
                      absurd (
                        ground (
                          arith,
                          x.gone,
                          subst (λ y. mem y k₂.sched.queue ≡ true) (sym gone)
                              (ap (λ q. mem z q.queue) (sym m₃.sched_kept) ∙ h),
                        ))
                  | inr other ↦ rw other (
                      safe.active z (
                        ap (λ q. mem z q.queue) (sym m₁.sched_kept)
                        ∙ sym (x.others z other)
                        ∙ ap (λ q. mem z q.queue) (sym m₃.sched_kept)
                        ∙ h))
                ];
                turns =
                    Turns.Turns-carry _ _ _ _ _ (Turns.Turns-end _ _ _ _ _ safe.turns t on still) _
                      _ _ _ _ (m₃.curr_kept ∙ idle) m.switching_kept
                      (executes_update s.task t t' false off) (λ p. m.scheds_kept p (s.scheds p))
                      (λ p. m.deschs_kept p (s.deschs p));
                switch_ends =
                    λ on. m.ending_kept s.ending ∙ safe.switch_ends (sym m.switching_kept ∙ on);
              })
