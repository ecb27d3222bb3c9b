-- ===== src/Partition/Switching.antt =====
-- src/parti_mrtkernel.cpp: the dispatch handlers of the partitioned kernel change the state of one processor.
use sys_rt.Common.{
  ℕ, ◌≡◌, refl, sym, ◌∙◌, subst, ap, Bool, true, false, Option, none, some, ok, arith, ==_refl,
  if◌then◌else◌, mem, update, deref, opt_eq, IfReturns, IfReturns-bind, if_both, IfReturns-map, leb,
  get_elem?, [], ◌∷◌, not, List,
}
use sys_rt.Sim.{SimTime}
use sys_rt.TaskModel.{TaskAttrs}
use sys_rt.PList
use sys_rt.Scheduler
use sys_rt.Scheduler.{Scheduler}
use sys_rt.Kernel.{task_schedule, task_deschedule}
use sys_rt.Partition.{
  Partitioned, tell, place_of, partition_notify, preempt, switch_to, on_begin_dispatch_multi,
  on_end_dispatch_multi, dispatch_processor,
}
use sys_rt.MultiKernel.{MultiKernel, dispatch_cpu, undispatch, end_event_notify}
use sys_rt.Partition.Local.{
  OwnTasks, Local, Local-refl, Local-trans, tell-Local, partition_notify-Local,
}

-- What the processors have of the multiprocessor kernel stays.
abbrev KeepsProcessors : MultiKernel → MultiKernel → Type 0
KeepsProcessors m m' =
    (m'.curr_exe ≡ m.curr_exe)
    × (m'.switching ≡ m.switching)
    × (m'.start_switching ≡ m.start_switching)
    × (m'.context_switch_delay ≡ m.context_switch_delay)

undispatch-KeepsProcessors : (m : MultiKernel) (o : Option ℕ) → KeepsProcessors m (undispatch m o)
unfolding undispatch
undispatch-KeepsProcessors m none = (refl, refl, refl, refl)
undispatch-KeepsProcessors m (some t) = (refl, refl, refl, refl)

dispatch_cpu-KeepsProcessors :
    (sc : SimTime) (now : ℕ) (m : MultiKernel) (p : ℕ) → KeepsProcessors m (dispatch_cpu sc now m p)
unfolding dispatch_cpu
dispatch_cpu-KeepsProcessors sc now m p =
    if_both (KeepsProcessors m) (m.switching p)
      (λ _. undispatch-KeepsProcessors (record m { context_switch = _; calls = _ }) (m.end_task p))
      (λ _. (refl, refl, refl, refl))

multi-Local :
    (k : Partitioned) (p : ℕ) (m : MultiKernel)
    → KeepsProcessors k.multi m
    → Local k p (record k { multi = m })
unfolding place_of
multi-Local k p m (curr, switching, start, delay) = record {
  same = λ q d. rw (curr, switching, start, delay) refl;
  placed = λ z. refl;
  owns = λ o. record {
    queued = o.queued;
    running = λ z r. o.running z (ap (λ f. f p) (sym curr) ∙ r);
  };
}

-- dispatch of a processor changes events, marks and counters, which belong to no processor.
pub dispatch_processor-Local :
    (sc : SimTime) (now : ℕ) (k : Partitioned) (p : ℕ) → Local k p (dispatch_processor sc now k p)
unfolding dispatch_processor
dispatch_processor-Local sc now k p =
    multi-Local k p (dispatch_cpu sc now k.multi p) (dispatch_cpu-KeepsProcessors sc now k.multi p)

pre_exe-Local :
    (k : Partitioned) (p : ℕ) (c : Option ℕ)
    → Local k p (record k { pre_exe = update k.pre_exe p c })
unfolding place_of
pre_exe-Local k p c = record {
  same = λ q d. simp d;
  placed = λ z. refl;
  owns = λ o. record { queued = o.queued; running = o.running };
}

preempt-Local : (k : Partitioned) (p : ℕ) → Local k p (preempt k p)
unfolding preempt
preempt-Local k p = go (k.multi.curr_exe p)
  where
    go :
        (o : Option ℕ)
        → Local k p (elim o [
          | none ↦ k
          | some c ↦ tell (record k { pre_exe = update k.pre_exe p (some c) }) (task_deschedule c)
        ])
    go none = Local-refl k p
    go (some c) =
        let k₁ = record k { pre_exe = update k.pre_exe p (some c) } in
        Local-trans k p k₁ _ (pre_exe-Local k p (some c)) (tell-Local k₁ p (task_deschedule c))

own_task :
    (k : Partitioned) (p t z : ℕ)
    → place_of k t ≡ ok p
    → ◌≡◌ {A = Option ℕ} (some t) (some z)
    → place_of k z ≡ ok p
own_task k p t z e m = let same : t ≡ z = cc in subst (λ x. place_of k x ≡ ok p) same e

-- The processor takes its own task t, with or without a switch.
takes-Local :
    (k : Partitioned) (p t now : ℕ)
    → place_of k t ≡ ok p
    → Local k p
        (record k { multi = record k.multi { curr_exe = update k.multi.curr_exe p (some t) } })
      × Local k p (record k {
        multi = record k.multi {
          curr_exe = update k.multi.curr_exe p (some t);
          switching = update k.multi.switching p true;
          start_switching = update k.multi.start_switching p now;
        };
      })
unfolding place_of
takes-Local k p t now e = (
  record {
    same = λ q d. simp d;
    placed = λ z. refl;
    owns = λ o. record {
      queued = o.queued;
      running = λ z m. own_task k p t z e (rw (==_refl p) at m);
    };
  },
  record {
    same = λ q d. simp d;
    placed = λ z. refl;
    owns = λ o. record {
      queued = o.queued;
      running = λ z m. own_task k p t z e (rw (==_refl p) at m);
    };
  },
)

-- A processor that takes one of its own tasks.
switch_to-Local :
    (env : ℕ → TaskAttrs) (now : ℕ) (k : Partitioned) (p t : ℕ)
    → place_of k t ≡ ok p
    → IfReturns (Local k p) (switch_to env now k p (some t))
unfolding switch_to
switch_to-Local env now k p t e =
    if_both (IfReturns (Local k p)) (not (opt_eq (some t) (k.pre_exe p)))
      (λ _.
        Local-trans k p
          (record k {
            multi = record k.multi {
              curr_exe = update k.multi.curr_exe p (some t);
              switching = update k.multi.switching p true;
              start_switching = update k.multi.start_switching p now;
            };
          })
          _ (takes-Local k p t now e).1
          (tell-Local _ p (end_event_notify p k.multi.context_switch_delay)))
      (λ _.
        let k₁ = record k {
          multi = record k.multi { curr_exe = update k.multi.curr_exe p (some t) };
        } in
        let k₂ = tell k₁ (task_schedule t) in
        let l = (takes-Local k p t now e).0 in
        let l₂ = Local-trans k p k₁ k₂ l (tell-Local k₁ p (task_schedule t)) in
        IfReturns-map (Local k₂ p) (Local k p) (partition_notify env now k₂ (some t))
          (partition_notify-Local k₂ t p (l₂.placed t ∙ e) env now)
          (λ k₃ m. Local-trans k p k₂ k₃ l₂ m))

first-mem :
    (q : List ℕ) (t : ℕ)
    → (if leb (PList.size q) 0 then none else get_elem? q 0) ≡ some t
    → mem t q ≡ true
unfolding PList.size
first-mem [] t h = absurd (ground arith)
first-mem (x ∷ xs) t h = ground arith

pub get_first-mem : (s : Scheduler) (t : ℕ) → Scheduler.get_first s ≡ some t → mem t s.queue ≡ true
unfolding Scheduler.get_first PList.size Scheduler.get_task_n
get_first-mem s t h = first-mem s.queue t h

pub on_begin_dispatch_multi-Local :
    (env : ℕ → TaskAttrs) (now : ℕ) (k : Partitioned) (p : ℕ)
    → OwnTasks k p
    → IfReturns (Local k p) (on_begin_dispatch_multi env now k p)
unfolding on_begin_dispatch_multi
on_begin_dispatch_multi-Local env now k p o =
    if_both (IfReturns (Local k p))
      (not (opt_eq (k.multi.curr_exe p) (Scheduler.get_first (k.schedulers p))))
      (λ _.
        go (Scheduler.get_first (k.schedulers p))
          (λ t h. o.queued t (get_first-mem (k.schedulers p) t h)))
      (λ _. Local-refl k p)
  where
    go :
        (new_exe : Option ℕ)
        → ((t : ℕ) → new_exe ≡ some t → place_of k t ≡ ok p)
        → IfReturns (Local k p) (switch_to env now (preempt k p) p new_exe)
    go none h = tt
    go (some t) h =
        let k₁ = preempt k p in
        let l = preempt-Local k p in
        IfReturns-map (Local k₁ p) (Local k p) (switch_to env now k₁ p (some t))
          (switch_to-Local env now k₁ p t (l.placed t ∙ h t refl))
          (λ k₂ m. Local-trans k p k₁ k₂ l m)

switching-Local :
    (k : Partitioned) (p : ℕ) (b : Bool)
    → Local k p (record k { multi = record k.multi { switching = update k.multi.switching p b } })
unfolding place_of
switching-Local k p b = record {
  same = λ q d. simp d;
  placed = λ z. refl;
  owns = λ o. record { queued = o.queued; running = o.running };
}

deref-some : (o : Option ℕ) (t : ℕ) → deref o ≡ ok t → o ≡ some t
deref-some none t h = cc
deref-some (some z) t h = cc

pub on_end_dispatch_multi-Local :
    (env : ℕ → TaskAttrs) (now : ℕ) (k : Partitioned) (p : ℕ)
    → OwnTasks k p
    → IfReturns (Local k p) (on_end_dispatch_multi env now k p)
unfolding on_end_dispatch_multi
on_end_dispatch_multi-Local env now k p o =
    IfReturns-bind (Local k p) (deref (k.multi.curr_exe p)) _ λ t r.
      let k₁ = record k {
        multi = record k.multi { switching = update k.multi.switching p false };
      } in
      let k₂ = tell k₁ (task_schedule t) in
      let l =
        Local-trans k p k₁ k₂ (switching-Local k p false) (tell-Local k₁ p (task_schedule t)) in
      IfReturns-map (Local k₂ p) (Local k p) (partition_notify env now k₂ (some t))
        (partition_notify-Local k₂ t p
          (l.placed t ∙ o.running t (deref-some (k.multi.curr_exe p) t r)) env now)
        (λ k₃ m. Local-trans k p k₂ k₃ l m)
