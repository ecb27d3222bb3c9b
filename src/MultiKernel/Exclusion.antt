-- ===== src/MultiKernel/Exclusion.antt =====
-- Histories of MRTKernel: no task runs on two processors. A handler runs when its event fires, and
-- an event fires only while it is pending.
use sys_rt.Common.{
  ℕ, ◌≡◌, refl, subst, true, false, none, some, List, [], ok, >>=-eq-ok, arith, update, Bool-cases,
  inl, inr, Returns_ok,
}
use sys_rt.Sim.{SimTime}
use sys_rt.TaskModel.{TaskAttrs}
use sys_rt.Scheduler
use sys_rt.Scheduler.{Scheduler}
use sys_rt.MultiKernel.{MultiKernel, new_multi, get_processor, dispatch_cpu}
use sys_rt.MultiKernel.Cpu.{
  suspend, on_arrival, on_end, terminate, on_begin_dispatch_multi, on_end_dispatch_multi,
}
use sys_rt.MultiKernel.Coherent
use sys_rt.MultiKernel.Dispatch.{NoSwitch}
use sys_rt.MultiKernel.Arrival.{on_arrival-IsCoherent}
use sys_rt.MultiKernel.Handlers.{
  System, handled, quiet, SystemIsCoherent, dispatch_cpu-begins, dispatch_cpu-cancels,
  suspend-AfterIsCoherent, on_end_dispatch_multi-IsCoherent, on_end-AfterIsCoherent,
  on_begin_dispatch_multi-IsCoherent,
}

-- A handler that returns. A task arrives while no processor is in a context switch. A processor in the middle of a context switch is dispatched only while the
-- end of that switch is pending, and only a task that is dispatched nowhere is terminated.
pub data Step (sc : SimTime) (env : ℕ → TaskAttrs) (s : System) : System → Type 0 where
  inserts :
      {q : Scheduler} (now t : ℕ)
      → Scheduler.insert env now s.kernel.sched t ≡ ok q
      → Step sc env s (record s { kernel = record s.kernel { sched = q } })
  arrives :
      {k : MultiKernel} (now t : ℕ)
      → NoSwitch s.kernel
      → on_arrival sc env now (quiet s.kernel) t ≡ ok k
      → Step sc env s (handled s.ending s.beginning k)
  dispatches :
      (now p : ℕ)
      → (s.kernel.switching p ≡ true → s.ending p ≡ true)
      → Step sc env s (handled s.ending s.beginning (dispatch_cpu sc now (quiet s.kernel) p))
  begins :
      (now p : ℕ)
      → s.beginning p ≡ true
      → Step sc env s (
          handled s.ending
            (update s.beginning p false)
            (on_begin_dispatch_multi sc now (quiet s.kernel) p))
  ends :
      {k : MultiKernel} (now p : ℕ)
      → s.ending p ≡ true
      → on_end_dispatch_multi env now (quiet s.kernel) p ≡ ok k
      → Step sc env s (handled (update s.ending p false) s.beginning k)
  suspends :
      {k : MultiKernel} (t : ℕ)
      → suspend (quiet s.kernel) t ≡ ok k
      → Step sc env s (handled s.ending s.beginning k)
  finishes :
      {k : MultiKernel} (now t p : ℕ)
      → get_processor (quiet s.kernel) t ≡ some p
      → on_end sc now (quiet s.kernel) t ≡ ok k
      → Step sc env s (handled s.ending s.beginning k)
  terminates :
      {k : MultiKernel} (t : ℕ)
      → s.kernel.dispatched t ≡ none
      → terminate (quiet s.kernel) t ≡ ok k
      → Step sc env s (handled s.ending s.beginning k)

pub data Reach (sc : SimTime) (env : ℕ → TaskAttrs) (s : System) : System → Type 0 where
  here : Reach sc env s s
  next : {t u : System} → Reach sc env s t → Step sc env t u → Reach sc env s u

module _ (sc : SimTime) (env : ℕ → TaskAttrs) where
  Step-IsCoherent : {s t : System} → Step sc env s t → SystemIsCoherent s → SystemIsCoherent t
  unfolding suspend on_end terminate
  Step-IsCoherent (inserts now t e) c = c
  Step-IsCoherent {s} (arrives now t still e) c =
      on_arrival-IsCoherent sc now env s.kernel t s.ending s.beginning still e c
  Step-IsCoherent {s} (dispatches now p guard) c = elim (Bool-cases (s.kernel.switching p)) [
    | inl on ↦ dispatch_cpu-cancels s.kernel s.ending s.beginning c sc now p on (guard on)
    | inr off ↦ dispatch_cpu-begins s.kernel s.ending s.beginning c sc now p off
  ]
  Step-IsCoherent {s} (begins now p b) c =
      on_begin_dispatch_multi-IsCoherent s.kernel s.ending s.beginning sc now p c b
  Step-IsCoherent {s} (ends now p f e) c =
      on_end_dispatch_multi-IsCoherent s.kernel s.ending s.beginning c env now p f e
  Step-IsCoherent {s} (suspends t e) c =
      let (q, h, _) = >>=-eq-ok (Scheduler.extract s.kernel.sched t) _ e in
      Returns_ok _ (suspend (quiet s.kernel) t)
        (suspend-AfterIsCoherent s.kernel s.ending s.beginning c t q h) e
  Step-IsCoherent {s} (finishes now t p found e) c =
      let (q, h, _) = >>=-eq-ok (Scheduler.extract s.kernel.sched t) _ e in
      Returns_ok _ (on_end sc now (quiet s.kernel) t)
        (on_end-AfterIsCoherent s.kernel s.ending s.beginning c sc now t p q h found) e
  Step-IsCoherent {s} (terminates {k} t free e) c =
      let (q, _, h) = >>=-eq-ok (Scheduler.extract s.kernel.sched t) _ e in
      let w : record s.kernel {
        sched = q;
        dispatched = update s.kernel.dispatched t none;
        calls = [];
      }
          ≡ k =
        cc in
      subst (λ y. SystemIsCoherent (handled s.ending s.beginning y)) w
        (Coherent.Coherent-forget _ _ _ _ _ _ c t free)

  Reach-IsCoherent : {s t : System} → Reach sc env s t → SystemIsCoherent s → SystemIsCoherent t
  Reach-IsCoherent here c = c
  Reach-IsCoherent (next r st) c = Step-IsCoherent st (Reach-IsCoherent r c)

  -- From a kernel that internalConstructor made, after any sequence of insertions, arrivals while
  -- no processor is in a context switch, dispatches of processors, begin and end events that fire
  -- while they are pending, suspensions, ends of running tasks and terminations, no task is
  -- current on two processors. A processor in a context switch is dispatched only while the end
  -- event of that switch is pending, and only a task that is dispatched nowhere is terminated.
  pub one_processor :
      (q : Scheduler) (cpus : List ℕ) (s : System)
      → Reach sc env
          (record { kernel = new_multi q cpus; ending = λ p. false; beginning = λ p. false })
          s
      → (p p' t : ℕ) → s.kernel.curr_exe p ≡ some t
      → s.kernel.curr_exe p' ≡ some t
      → p ≡ p'
  unfolding new_multi
  one_processor q cpus s r p p' t a b =
      Coherent.Coherent-exclusive _ _ _ _ _ _
        (Reach-IsCoherent r (record {
          runs = λ p t h. absurd (ground arith);
          pending = λ p h. absurd (ground arith);
          apart = λ p h. refl;
          still = λ p t h. refl;
        }))
        p p' t a b
