-- ===== src/MultiKernel/Arrival.antt =====
-- src/mrtkernel.cpp: onArrival of MRTKernel keeps the maps and the pending events coherent, when no
-- processor is in a context switch.
use sys_rt.Common.{
  ℕ, zero, suc, ◌≡◌, refl, sym, ◌∙◌, ap, subst, inl, inr, Bool, false, List, [], ◌∷◌, ◌++◌, drop,
  ok, >>=-eq-ok, arith, Bool-cases, Option-cases,
}
use sys_rt.Sim.{SimTime, cancel, begin_evt}
use sys_rt.TaskModel.{TaskAttrs}
use sys_rt.Scheduler
use sys_rt.MultiKernel.{
  MultiKernel, begin_event_notify, get_next_free_proc, dispatch_cpu, next_dispatched, dispatch_loop,
  dispatch_all,
}
use sys_rt.MultiKernel.Cpu.{on_arrival}
use sys_rt.Sim.Outstanding.{outstanding, outstanding-append}
use sys_rt.MultiKernel.Events.{is_end}
use sys_rt.MultiKernel.Handlers.{IsCoherent, SystemIsCoherent, handled, quiet}
use sys_rt.MultiKernel.Dispatch.{NoSwitch, new_tasks}

-- The maps stay, and no end event is notified or cancelled.
record OnlyBegins (k k' : MultiKernel) : Type 0 where
  pub curr_kept : k'.curr_exe ≡ k.curr_exe
  pub dispatched_kept : k'.dispatched ≡ k.dispatched
  pub target_kept : k'.end_task ≡ k.end_task
  pub switching_kept : k'.switching ≡ k.switching
  pub ends_kept :
      (q : ℕ) (b : Bool) → outstanding (is_end q) b k'.calls ≡ outstanding (is_end q) b k.calls

OnlyBegins-refl : (k : MultiKernel) → OnlyBegins k k
OnlyBegins-refl k = record {
  curr_kept = refl;
  dispatched_kept = refl;
  target_kept = refl;
  switching_kept = refl;
  ends_kept = λ q b. refl;
}

OnlyBegins-trans : {k l m : MultiKernel} → OnlyBegins k l → OnlyBegins l m → OnlyBegins k m
OnlyBegins-trans a b = record {
  curr_kept = b.curr_kept ∙ a.curr_kept;
  dispatched_kept = b.dispatched_kept ∙ a.dispatched_kept;
  target_kept = b.target_kept ∙ a.target_kept;
  switching_kept = b.switching_kept ∙ a.switching_kept;
  ends_kept = λ q v. b.ends_kept q v ∙ a.ends_kept q v;
}

module _ (sc : SimTime) (now : ℕ) where
  dispatch_cpu-OnlyBegins :
      (k : MultiKernel) (p : ℕ) → k.switching p ≡ false → OnlyBegins k (dispatch_cpu sc now k p)
  unfolding dispatch_cpu
  dispatch_cpu-OnlyBegins k p e =
      rw (dispatch_cpu, e)
        (record {
          curr_kept = refl;
          dispatched_kept = refl;
          target_kept = refl;
          switching_kept = refl;
          ends_kept = λ q b.
              outstanding-append (is_end q) b (k.calls ++ cancel (begin_evt p) ∷ [])
                (begin_event_notify p 0)
              ∙ outstanding-append (is_end q) b k.calls (cancel (begin_evt p) ∷ []);
        })

  dispatch_loop-OnlyBegins :
      (num : ℕ) (k : MultiKernel) (ps : List ℕ) (i : ℕ) {k' : MultiKernel}
      → NoSwitch k
      → dispatch_loop sc now num k ps i ≡ ok k'
      → OnlyBegins k k'
  unfolding dispatch_loop
  dispatch_loop-OnlyBegins zero k ps i {k'} still e =
      let same : k ≡ k' = cc in subst (OnlyBegins k) same (OnlyBegins-refl k)
  dispatch_loop-OnlyBegins (suc num) k ps i {k'} still e =
      elim (Option-cases (get_next_free_proc k ps)) [
        | inr ((p, rest), found) ↦ OnlyBegins-trans (told p) (
            dispatch_loop-OnlyBegins num (dispatch_cpu sc now k p) rest i (still_after p)
              (rw (dispatch_loop, found) at e))
        | inl none_free ↦
            let (r, _, h) =
              >>=-eq-ok (next_dispatched k.dispatched (drop i k.sched.queue) i) _
                (rw (dispatch_loop, none_free) at e) in
            OnlyBegins-trans (told r.0)
              (dispatch_loop-OnlyBegins num (dispatch_cpu sc now k r.0) [] r.1 (still_after r.0) h)
      ]
    where
      told : (p : ℕ) → OnlyBegins k (dispatch_cpu sc now k p)
      told p = dispatch_cpu-OnlyBegins k p (still p)

      still_after : (p : ℕ) → NoSwitch (dispatch_cpu sc now k p)
      still_after p q = ap (λ f. f q) (told p).switching_kept ∙ still q

  -- Without a context switch no end event is pending, so any begin event may be.
  still-IsCoherent :
      (k k' : MultiKernel) (ending beginning : ℕ → Bool)
      → NoSwitch k
      → OnlyBegins (quiet k) k'
      → IsCoherent k ending beginning
      → SystemIsCoherent (handled ending beginning k')
  still-IsCoherent k k' ending beginning still o c = record {
    runs =
        λ p t h. ap (λ f. f t) o.dispatched_kept ∙ c.runs p t (sym (ap (λ f. f p) o.curr_kept) ∙ h);
    pending = λ p h. absurd (ground (arith, no_end p, o.ends_kept p (ending p)));
    apart = λ p h. o.ends_kept p (ending p) ∙ no_end p;
    still = λ p t h. ap (λ f. f p) o.switching_kept ∙ still p;
  }
    where
      no_end : (p : ℕ) → ending p ≡ false
      no_end p = elim (Bool-cases (ending p)) [
        | inl h ↦ let (_, _, _, s, _) = c.pending p h in absurd (ground (arith, s, still p))
        | inr h ↦ h
      ]

  pub on_arrival-IsCoherent :
      (env : ℕ → TaskAttrs) (k : MultiKernel) (t : ℕ) (ending beginning : ℕ → Bool)
      {k' : MultiKernel}
      → NoSwitch k
      → on_arrival sc env now (quiet k) t ≡ ok k'
      → IsCoherent k ending beginning
      → SystemIsCoherent (handled ending beginning k')
  unfolding on_arrival dispatch_all
  on_arrival-IsCoherent env k t ending beginning {k'} still e c =
      let (s, _, h) = >>=-eq-ok (Scheduler.insert env now k.sched t) _ e in
      let k₁ = record k { sched = s; calls = [] } in
      still-IsCoherent k₁ k' ending beginning still
        (dispatch_loop-OnlyBegins (new_tasks k₁).1 k₁ k₁.cpus (new_tasks k₁).0 still h) c
