-- ===== src/MultiKernel/Handlers.antt =====
-- src/mrtkernel.cpp: each handler of MRTKernel keeps the maps and the pending events coherent.
use sys_rt.Common.{
  ℕ, ◌≡◌, refl, subst, inl, inr, Bool, true, false, none, some, [], ◌++◌, ok, >>=-eq-ok, arith,
  update, Option-cases, Returns,
}
use sys_rt.Sim.{SimTime, Event, sched_evt, desched_evt}
use sys_rt.TaskModel.{TaskAttrs}
use sys_rt.Scheduler
use sys_rt.Scheduler.{Scheduler}
use sys_rt.Scheduler.Notify
use sys_rt.MultiKernel.{MultiKernel, emit, get_processor, undispatch, dispatch_cpu}
use sys_rt.MultiKernel.Cpu.{
  vacate, suspend, on_end, clear_cpu, first_new, begin_switch, on_begin_dispatch_multi,
  on_end_dispatch_multi, schedule_if,
}
use sys_rt.MultiKernel.Coherent
use sys_rt.MultiKernel.Coherent.{Coherent}
use sys_rt.MultiKernel.Lookup.{get_processor-runs, first_new-free}
use sys_rt.Sim.Outstanding.{outstanding, outstanding-append}
use sys_rt.MultiKernel.Events.{is_begin, is_end, dispatched-apart}

pub record System : Type 0 where
  pub kernel : MultiKernel
  pub ending : ℕ → Bool
  pub beginning : ℕ → Bool

-- The system after a handler that left the kernel k with the calls that it made.
abbrev pub handled : (ℕ → Bool) → (ℕ → Bool) → MultiKernel → System
handled ending beginning k = record {
  kernel = record k { calls = [] };
  ending = λ p. outstanding (is_end p) (ending p) k.calls;
  beginning = λ p. outstanding (is_begin p) (beginning p) k.calls;
}

abbrev pub IsCoherent : MultiKernel → (ℕ → Bool) → (ℕ → Bool) → Type 0
IsCoherent k ending beginning =
    Coherent k.curr_exe k.dispatched k.end_task k.switching ending beginning

abbrev pub SystemIsCoherent : System → Type 0
SystemIsCoherent s = IsCoherent s.kernel s.ending s.beginning

abbrev pub quiet : MultiKernel → MultiKernel
quiet k = record k { calls = [] }

module _ (k : MultiKernel) (ending beginning : ℕ → Bool) (c : IsCoherent k ending beginning) where
  abbrev AfterIsCoherent : MultiKernel → Type 0
  AfterIsCoherent k' = SystemIsCoherent (handled ending beginning k')

  pub dispatch_cpu-begins :
      (sc : SimTime) (now p : ℕ)
      → k.switching p ≡ false
      → AfterIsCoherent (dispatch_cpu sc now (quiet k) p)
  unfolding dispatch_cpu
  dispatch_cpu-begins sc now p e = rw e (
      Coherent.Coherent-congr _ _ _ _ _ _ (Coherent.Coherent-begin _ _ _ _ _ _ c p e) _ _
        (λ q. ground arith) (λ q. ground arith))

  pub dispatch_cpu-cancels :
      (sc : SimTime) (now p : ℕ)
      → k.switching p ≡ true
      → ending p ≡ true
      → AfterIsCoherent (dispatch_cpu sc now (quiet k) p)
  unfolding dispatch_cpu undispatch
  dispatch_cpu-cancels sc now p e f =
      let (t, d, _, _, _) = c.pending p f in
      rw (e, d)
        (Coherent.Coherent-congr _ _ _ _ _ _ (Coherent.Coherent-cancel _ _ _ _ _ _ c p t f d) _ _
          (λ q. ground arith) (λ q. ground arith))

  pub suspend-AfterIsCoherent :
      (t : ℕ) (s : Scheduler)
      → Scheduler.extract k.sched t ≡ ok s
      → Returns AfterIsCoherent (suspend (quiet k) t)
  unfolding suspend vacate
  suspend-AfterIsCoherent t s h = elim (Option-cases (get_processor (quiet k) t)) [
    | inl out ↦ rw (h, out) c
    | inr (p, runs) ↦
        rw (h, runs)
          (Coherent.Coherent-vacate _ _ _ _ _ _ c p t (get_processor-runs (quiet k) t p runs))
  ]

  clear_cpu-IsCoherent : (p : ℕ) → IsCoherent (clear_cpu (quiet k) p) ending beginning
  unfolding clear_cpu vacate
  clear_cpu-IsCoherent p = elim (Option-cases (k.curr_exe p)) [
    | inl idle ↦ rw (clear_cpu, idle) c
    | inr (t, runs) ↦ rw (clear_cpu, runs) (Coherent.Coherent-vacate _ _ _ _ _ _ c p t runs)
  ]

  clear_cpu-apart :
      (p : ℕ) (is : Event → Bool) (b : Bool)
      → ((t : ℕ) → is (sched_evt t) ≡ false)
      → ((t : ℕ) → is (desched_evt t) ≡ false)
      → outstanding is b (clear_cpu (quiet k) p).calls ≡ b
  unfolding clear_cpu vacate
  clear_cpu-apart p is b f g = elim (Option-cases (k.curr_exe p)) [
    | inl idle ↦ rw (clear_cpu, idle) refl
    | inr (t, runs) ↦ rw (clear_cpu, runs) (rw (f t, g t) refl)
  ]

  clear_cpu-idle : (p : ℕ) → (clear_cpu (quiet k) p).curr_exe p ≡ none
  unfolding clear_cpu vacate
  clear_cpu-idle p = elim (Option-cases (k.curr_exe p)) [
    | inl idle ↦ rw (clear_cpu, idle) idle
    | inr (t, runs) ↦ rw (clear_cpu, runs) (ground arith)
  ]

  -- The end event of the processor fires.
  pub on_end_dispatch_multi-IsCoherent :
      (env : ℕ → TaskAttrs) (now p : ℕ) {k' : MultiKernel}
      → ending p ≡ true
      → on_end_dispatch_multi env now (quiet k) p ≡ ok k'
      → SystemIsCoherent (handled (update ending p false) beginning k')
  unfolding on_end_dispatch_multi
  on_end_dispatch_multi-IsCoherent env now p {k'} f e =
      let (r, h, q) = >>=-eq-ok (Notify.notify env now k.sched (k.end_task p)) _ e in
      let calls = schedule_if (k.end_task p) ++ r.1 in
      let w : emit
            (record k {
              sched = r.0;
              curr_exe = update k.curr_exe p (k.end_task p);
              switching = update k.switching p false;
              calls = schedule_if (k.end_task p);
            })
            r.1
          ≡ k' =
        cc in
      subst (λ y. SystemIsCoherent (handled (update ending p false) beginning y)) w
        (Coherent.Coherent-congr _ _ _ _ _ _ (Coherent.Coherent-finish _ _ _ _ _ _ c p f) _ _
          (λ q.
            dispatched-apart (is_end q) (update ending p false q) refl (k.end_task p) env now
              k.sched (λ t. refl) h)
          (λ q.
            dispatched-apart (is_begin q) (beginning q) refl (k.end_task p) env now k.sched
              (λ t. refl) h))

-- The context switch that a begin event starts, after the calls that emptied the processor.
begin_switch-IsCoherent :
    (k : MultiKernel) (ending beginning : ℕ → Bool) (sc : SimTime) (now p t : ℕ)
    → IsCoherent k ending beginning
    → ((q : ℕ) (b : Bool) → outstanding (is_end q) b k.calls ≡ b)
    → ((q : ℕ) (b : Bool) → outstanding (is_begin q) b k.calls ≡ b)
    → beginning p ≡ true
    → k.curr_exe p ≡ none
    → k.dispatched t ≡ none
    → SystemIsCoherent (handled ending (update beginning p false) (begin_switch sc now k p t))
unfolding begin_switch
begin_switch-IsCoherent k ending beginning sc now p t c f g b idle free =
    Coherent.Coherent-congr _ _ _ _ _ _ (Coherent.Coherent-switch _ _ _ _ _ _ c p t b idle free) _ _
      (λ q. rw (outstanding-append (is_end q) (ending q) k.calls _, f q (ending q)) (ground arith))
      (λ q.
        rw
          (
            outstanding-append (is_begin q) (update beginning p false q) k.calls _,
            g q (update beginning p false q),
          )
          (ground arith))

-- The begin event of the processor fires.
pub on_begin_dispatch_multi-IsCoherent :
    (k : MultiKernel) (ending beginning : ℕ → Bool) (sc : SimTime) (now p : ℕ)
    → IsCoherent k ending beginning
    → beginning p ≡ true
    → SystemIsCoherent
        (handled ending (update beginning p false) (on_begin_dispatch_multi sc now (quiet k) p))
unfolding on_begin_dispatch_multi
on_begin_dispatch_multi-IsCoherent k ending beginning sc now p c b =
    let k₁ = clear_cpu (quiet k) p in
    let c₁ = clear_cpu-IsCoherent k ending beginning c p in
    let f = λ (q : ℕ) (v : Bool).
      clear_cpu-apart k ending beginning c p (is_end q) v (λ t. refl) (λ t. refl) in
    let g = λ (q : ℕ) (v : Bool).
      clear_cpu-apart k ending beginning c p (is_begin q) v (λ t. refl) (λ t. refl) in
    elim (Option-cases (first_new k₁.dispatched k₁.sched.queue)) [
      | inl none_new ↦
          rw (on_begin_dispatch_multi, none_new)
            (Coherent.Coherent-congr _ _ _ _ _ _ (Coherent.Coherent-idle _ _ _ _ _ _ c₁ p) _ _
              (λ q. f q (ending q)) (λ q. g q (update beginning p false q)))
      | inr (t, found) ↦
          rw (on_begin_dispatch_multi, found)
            (begin_switch-IsCoherent k₁ ending beginning sc now p t c₁ f g b
              (clear_cpu-idle k ending beginning c p)
              (first_new-free k₁.dispatched k₁.sched.queue t found))
    ]

module _ (k : MultiKernel) (ending beginning : ℕ → Bool) (c : IsCoherent k ending beginning) where
  pub on_end-AfterIsCoherent :
      (sc : SimTime) (now t p : ℕ) (s : Scheduler)
      → Scheduler.extract k.sched t ≡ ok s
      → get_processor (quiet k) t ≡ some p
      → Returns (λ k'. SystemIsCoherent (handled ending beginning k')) (on_end sc now (quiet k) t)
  unfolding on_end vacate
  on_end-AfterIsCoherent sc now t p s h found =
      let runs = get_processor-runs (quiet k) t p found in
      let k₁ = vacate (record k { sched = s }) t p in
      rw (h, found)
        (dispatch_cpu-begins k₁ ending beginning (Coherent.Coherent-vacate _ _ _ _ _ _ c p t runs)
          sc now p (c.still p t runs))
