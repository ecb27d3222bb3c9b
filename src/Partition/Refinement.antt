-- ===== src/Partition/Refinement.antt =====
-- src/parti_mrtkernel.cpp: each processor of the partitioned kernel is a single-processor kernel.
use sys_rt.Common.{
  ℕ, ◌≡◌, refl, subst, false, Option, some, List, [], ◌++◌, Run, ok, throw, fault, hang, ◌>>=◌,
  deref, opt_eq, update, ==_refl, Bool-cases, Option-cases, inl, inr,
}
use sys_rt.TaskModel.{TaskAttrs}
use sys_rt.Scheduler.{Scheduler}
use sys_rt.Scheduler.Notify
use sys_rt.Kernel
use sys_rt.Kernel.{Kernel}
use sys_rt.Sim.{EventCall}
use sys_rt.Partition.{
  tell, with_scheduler, Partitioned, place_of, partition_notify, partition_get_first, preempt,
  switch_to, on_begin_dispatch_multi, on_end_dispatch_multi,
}

-- What a processor has of the kernel, as a single-processor kernel, calls aside.
abbrev pub processor : Partitioned → ℕ → Kernel
processor k p = record {
  sched = k.schedulers p;
  curr_exe = k.multi.curr_exe p;
  pre_exe = k.pre_exe p;
  handled = [];
  is_context_switching = k.multi.switching p;
  context_switch_delay = k.multi.context_switch_delay;
  start_context_switch = k.multi.start_switching p;
  calls = [];
}

abbrev pub run_map : {A B : Type 0} → (A → B) → Run A → Run B
run_map f m = m >>= λ a. ok (f a)

abbrev pub silent : Kernel → Kernel
silent k = record k { calls = [] }

abbrev with_calls : Kernel → List EventCall → Kernel
with_calls k es = record k { calls = es }

-- What a scheduler answers is taken over alike.
taken-refines :
    (k : Partitioned) (p : ℕ) (cs : List EventCall) (m : Run (Scheduler × List EventCall))
    → run_map (λ k'. processor k' p) (m >>= λ r. ok (tell (with_scheduler k p r.0) r.1))
      ≡ run_map silent
          (m >>= λ r. ok (Kernel.emit (record (with_calls (processor k p) cs) { sched = r.0 }) r.1))
taken-refines k p cs (ok r) = rw (==_refl p) refl
taken-refines k p cs (throw e) = refl
taken-refines k p cs fault = refl
taken-refines k p cs hang = refl

deref-both :
    {A B C : Type 0} (f : A → C) (g : B → C) (o : Option ℕ) (a : ℕ) (m : ℕ → Run A) (n : ℕ → Run B)
    → o ≡ some a
    → run_map f (m a) ≡ run_map g (n a)
    → run_map f (deref o >>= m) ≡ run_map g (deref o >>= n)
deref-both f g o a m n e h = rw e h

update_self : {A : Type 0} (f : ℕ → A) (p : ℕ) (a : A) → update f p a p ≡ a
update_self f p a = rw (==_refl p) refl

module _ (env : ℕ → TaskAttrs) (now : ℕ) where
  notify-refines :
      (k : Partitioned) (p t : ℕ) (cs : List EventCall)
      → place_of k t ≡ ok p
      → run_map (λ k'. processor k' p) (partition_notify env now k (some t))
        ≡ run_map silent (Kernel.notify_sched env now (with_calls (processor k p) cs) (some t))
  unfolding partition_notify Kernel.notify_sched
  notify-refines k p t cs e =
      rw (partition_notify, e)
        (taken-refines k p cs (Notify.notify env now (k.schedulers p) (some t)))

  switch_to-refines :
      (k : Partitioned) (p t : ℕ) (cs : List EventCall)
      → place_of k t ≡ ok p
      → run_map (λ k'. processor k' p) (switch_to env now k p (some t))
        ≡ run_map silent (Kernel.switch_to env now (with_calls (processor k p) cs) (some t))
  unfolding switch_to Kernel.switch_to place_of
  switch_to-refines k p t cs e =
      let k₁ =
        tell (record k { multi = record k.multi { curr_exe = update k.multi.curr_exe p (some t) } })
          (Kernel.task_schedule t) in
      elim (Bool-cases (opt_eq (some t) (k.pre_exe p))) [
        | inl last ↦
            rw (switch_to, Kernel.switch_to, last)
              (subst
                (λ c.
                  run_map (λ k'. processor k' p) (partition_notify env now k₁ (some t))
                  ≡ run_map silent (
                      Kernel.notify_sched env now
                        (record (processor k p) {
                          curr_exe = c;
                          calls = cs ++ Kernel.task_schedule t;
                        })
                        (some t)))
                (update_self k.multi.curr_exe p (some t))
                (notify-refines k₁ p t (cs ++ Kernel.task_schedule t) e))
        | inr other ↦ rw (switch_to, Kernel.switch_to, other, ==_refl p) refl
      ]

  preempted-refines :
      (k : Partitioned) (p t : ℕ)
      → place_of k t ≡ ok p
      → run_map (λ k'. processor k' p) (switch_to env now (preempt k p) p (some t))
        ≡ run_map silent (Kernel.switch_to env now (Kernel.preempt (processor k p)) (some t))
  unfolding preempt Kernel.preempt place_of
  preempted-refines k p t e = elim (Option-cases (k.multi.curr_exe p)) [
    | inl idle ↦ rw (preempt, Kernel.preempt, idle) (switch_to-refines k p t [] e)
    | inr (c, runs) ↦
        rw (preempt, Kernel.preempt, runs)
          (subst
            (λ b.
              run_map (λ k'. processor k' p)
                (switch_to env now
                  (tell (record k { pre_exe = update k.pre_exe p (some c) })
                    (Kernel.task_deschedule c))
                  p (some t))
              ≡ run_map silent (
                  Kernel.switch_to env now
                    (record (processor k p) { pre_exe = b; calls = Kernel.task_deschedule c })
                    (some t)))
            (update_self k.pre_exe p (some c))
            (switch_to-refines
              (tell (record k { pre_exe = update k.pre_exe p (some c) }) (Kernel.task_deschedule c))
              p t (Kernel.task_deschedule c) e))
  ]

  -- When the first task of a processor's scheduler belongs to that processor,
  -- onBeginDispatchMulti of the partitioned kernel does to the processor what
  -- RTKernel::onBeginDispatch does to the single-processor kernel with the same scheduler and
  -- state, up to the calls of events, and it ends in the same way.
  pub on_begin_dispatch_multi-refines :
      (k : Partitioned) (p t : ℕ)
      → partition_get_first k p ≡ some t
      → place_of k t ≡ ok p
      → run_map (λ k'. processor k' p) (on_begin_dispatch_multi env now k p)
        ≡ run_map silent (Kernel.on_begin_dispatch env now (processor k p))
  unfolding on_begin_dispatch_multi Kernel.on_begin_dispatch partition_get_first
  on_begin_dispatch_multi-refines k p t first e =
      elim (Bool-cases (opt_eq (k.multi.curr_exe p) (some t))) [
        | inl same ↦ rw (on_begin_dispatch_multi, Kernel.on_begin_dispatch, first, same) refl
        | inr other ↦
            rw (on_begin_dispatch_multi, Kernel.on_begin_dispatch, first, other)
              (preempted-refines k p t e)
      ]

  ended-refines :
      (k : Partitioned) (p t : ℕ)
      → place_of k t ≡ ok p
      → run_map
          (λ k'. processor k' p)
          (partition_notify env now
            (tell
              (record k { multi = record k.multi { switching = update k.multi.switching p false } })
              (Kernel.task_schedule t))
            (some t))
        ≡ run_map silent (
            Kernel.notify_sched env now
              (record (processor k p) {
                is_context_switching = false;
                calls = Kernel.task_schedule t;
              })
              (some t))
  unfolding place_of
  ended-refines k p t e =
      let k₁ =
        tell (record k { multi = record k.multi { switching = update k.multi.switching p false } })
          (Kernel.task_schedule t) in
      subst
        (λ b.
          run_map (λ k'. processor k' p) (partition_notify env now k₁ (some t))
          ≡ run_map silent (
              Kernel.notify_sched env now
                (record (processor k p) {
                  is_context_switching = b;
                  calls = Kernel.task_schedule t;
                })
                (some t)))
        (update_self k.multi.switching p false) (notify-refines k₁ p t (Kernel.task_schedule t) e)

  -- When the current task of a processor belongs to that processor, onEndDispatchMulti of the
  -- partitioned kernel does to the processor what RTKernel::onEndDispatch does to the
  -- single-processor kernel with the same scheduler and state, up to the calls of events, and it
  -- ends in the same way.
  pub on_end_dispatch_multi-refines :
      (k : Partitioned) (p t : ℕ)
      → k.multi.curr_exe p ≡ some t
      → place_of k t ≡ ok p
      → run_map (λ k'. processor k' p) (on_end_dispatch_multi env now k p)
        ≡ run_map silent (Kernel.on_end_dispatch env now (processor k p))
  unfolding on_end_dispatch_multi Kernel.on_end_dispatch
  on_end_dispatch_multi-refines k p t runs e =
      deref-both (λ k'. processor k' p) silent (k.multi.curr_exe p) t _ _ runs
        (ended-refines k p t e)
