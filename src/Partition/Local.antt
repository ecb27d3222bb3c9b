-- ===== src/Partition/Local.antt =====
-- src/parti_mrtkernel.cpp: each handler of the partitioned kernel changes the state of one processor.
use sys_rt.Common.{
  ℕ, ◌≡◌, refl, sym, ◌∙◌, subst, inl, inr, true, false, Option, none, some, Run, ok, ◌>>=◌, ◌==◌,
  ==_refl, mem, IfReturns, IfReturns-bind, IfReturns_ok, List,
}
use sys_rt.Sim.{EventCall}
use sys_rt.TaskModel.{TaskAttrs}
use sys_rt.Scheduler
use sys_rt.Scheduler.{Scheduler}
use sys_rt.Scheduler.Notify
use sys_rt.Scheduler.Members.{Admits, insert-Admits, extract-Admits, notify-Admits}
use sys_rt.Kernel.{task_deschedule}
use sys_rt.Partition.{
  Partitioned, tell, place_of, with_scheduler, partition_insert, partition_extract,
  partition_notify, on_arrival, suspend, on_end, vacate, dispatch_interface1, dispatch_interface2,
}
use sys_rt.Partition.Refinement.{processor}

-- The tasks that a processor has in its queue or runs are its own.
pub record OwnTasks (k : Partitioned) (p : ℕ) : Type 0 where
  pub queued : (z : ℕ) → mem z (k.schedulers p).queue ≡ true → place_of k z ≡ ok p
  pub running : (z : ℕ) → k.multi.curr_exe p ≡ some z → place_of k z ≡ ok p

-- Only processor p changes, it keeps to its own tasks, and no task moves.
pub record Local (k : Partitioned) (p : ℕ) (k' : Partitioned) : Type 0 where
  pub same : (q : ℕ) → (p == q) ≡ false → processor k' q ≡ processor k q
  pub placed : (z : ℕ) → place_of k' z ≡ place_of k z
  pub owns : OwnTasks k p → OwnTasks k' p

pub Local-refl : (k : Partitioned) (p : ℕ) → Local k p k
Local-refl k p = record { same = λ q d. refl; placed = λ z. refl; owns = λ o. o }

pub Local-trans :
    (k : Partitioned) (p : ℕ) (k' k'' : Partitioned) → Local k p k' → Local k' p k'' → Local k p k''
Local-trans k p k' k'' h g = record {
  same = λ q d. g.same q d ∙ h.same q d;
  placed = λ z. g.placed z ∙ h.placed z;
  owns = λ o. g.owns (h.owns o);
}

-- A new state of the scheduler of p, which brings in none but its own task t.
with_scheduler-Local :
    (k : Partitioned) (p t : ℕ) (s : Scheduler)
    → place_of k t ≡ ok p
    → Admits (k.schedulers p) t s
    → Local k p (with_scheduler k p s)
unfolding place_of
with_scheduler-Local k p t s e h = record {
  same = λ q d. simp d;
  placed = λ z. refl;
  owns = λ o. record {
    queued = λ z m. elim (h z (rw (==_refl p) at m)) [
      | inl own ↦ subst (λ x. place_of k x ≡ ok p) own e
      | inr was ↦ o.queued z was
    ];
    running = o.running;
  };
}

pub tell-Local : (k : Partitioned) (p : ℕ) (es : List EventCall) → Local k p (tell k es)
unfolding place_of
tell-Local k p es = record {
  same = λ q d. refl;
  placed = λ z. refl;
  owns = λ o. record { queued = o.queued; running = o.running };
}

nobody : (z : ℕ) → ¬ (◌≡◌ {A = Option ℕ} none (some z))
nobody z e = cc

vacate-Local : (k : Partitioned) (t p : ℕ) → Local k p (vacate k t p)
unfolding place_of vacate
vacate-Local k t p = record {
  same = λ q d. simp d;
  placed = λ z. refl;
  owns =
      λ o. record { queued = o.queued; running = λ z m. absurd (nobody z (rw (==_refl p) at m)) };
}

module _ (k : Partitioned) (t p : ℕ) (e : place_of k t ≡ ok p) where
  partition_insert-Local :
      (env : ℕ → TaskAttrs) (now : ℕ) → IfReturns (Local k p) (partition_insert env now k t)
  unfolding partition_insert
  partition_insert-Local env now =
      rw (partition_insert, e)
        (IfReturns-bind (Local k p) (Scheduler.insert env now (k.schedulers p) t) _ λ s r.
          with_scheduler-Local k p t s e (
            IfReturns_ok (Admits (k.schedulers p) t) _ (insert-Admits env now (k.schedulers p) t)
              r))

  partition_extract-Local : IfReturns (Local k p) (partition_extract k t)
  unfolding partition_extract
  partition_extract-Local =
      rw (partition_extract, e)
        (IfReturns-bind (Local k p) (Scheduler.extract (k.schedulers p) t) _ λ s r.
          with_scheduler-Local k p t s e
            (IfReturns_ok (Admits (k.schedulers p) t) _ (extract-Admits (k.schedulers p) t) r))

  pub partition_notify-Local :
      (env : ℕ → TaskAttrs) (now : ℕ) → IfReturns (Local k p) (partition_notify env now k (some t))
  unfolding partition_notify
  partition_notify-Local env now =
      rw (partition_notify, e)
        (IfReturns-bind (Local k p) (Notify.notify env now (k.schedulers p) (some t)) _ λ r q.
          Local-trans k p (with_scheduler k p r.0) _
            (with_scheduler-Local k p t r.0 e (
              IfReturns_ok (λ x. Admits (k.schedulers p) t x.0) _
                (notify-Admits env now (k.schedulers p) t) q))
            (tell-Local (with_scheduler k p r.0) p r.1))

dispatch_interface1-Local : (k : Partitioned) (p : ℕ) → Local k p (dispatch_interface1 k p)
unfolding dispatch_interface1 place_of
dispatch_interface1-Local k p = record {
  same = λ q d. refl;
  placed = λ z. refl;
  owns = λ o. record { queued = o.queued; running = o.running };
}

pub on_arrival-Local :
    (k : Partitioned) (t p : ℕ)
    → place_of k t ≡ ok p
    → (env : ℕ → TaskAttrs) (now : ℕ) → IfReturns (Local k p) (on_arrival env now k t)
unfolding on_arrival dispatch_interface2
on_arrival-Local k t p e env now =
    IfReturns-bind (Local k p) (partition_insert env now k t) _ λ k₁ r.
      let l = IfReturns_ok (Local k p) _ (partition_insert-Local k t p e env now) r in
      rw (l.placed t ∙ e) (Local-trans k p k₁ _ l (dispatch_interface1-Local k₁ p))

pub suspend-Local :
    (k : Partitioned) (t p : ℕ) → place_of k t ≡ ok p → IfReturns (Local k p) (suspend k t)
unfolding suspend
suspend-Local k t p e = IfReturns-bind (Local k p) (partition_extract k t) _ λ k₁ r.
    let l = IfReturns_ok (Local k p) _ (partition_extract-Local k t p e) r in
    rw (l.placed t ∙ e) (
      Local-trans k p k₁ _ l (
        Local-trans k₁ p (tell k₁ (task_deschedule t)) _ (tell-Local k₁ p (task_deschedule t))
          (vacate-Local (tell k₁ (task_deschedule t)) t p)))

pub on_end-Local :
    (k : Partitioned) (t p : ℕ) → place_of k t ≡ ok p → IfReturns (Local k p) (on_end k t)
unfolding on_end
on_end-Local k t p e = IfReturns-bind (Local k p) (place_of k t) _ λ p' e'.
    let both : ◌≡◌ {A = Run ℕ} (ok p) (ok p') = sym e ∙ e' in
    let own : p ≡ p' = cc in
    subst
      (λ x.
        IfReturns (Local k p)
          (partition_extract k t >>= λ k₁. ok (dispatch_interface1 (vacate k₁ t x) x)))
      own
      (IfReturns-bind (Local k p) (partition_extract k t) _ λ k₁ r.
        Local-trans k p k₁ _ (IfReturns_ok (Local k p) _ (partition_extract-Local k t p e) r) (
          Local-trans k₁ p (vacate k₁ t p) _ (vacate-Local k₁ t p)
            (dispatch_interface1-Local (vacate k₁ t p) p)))
