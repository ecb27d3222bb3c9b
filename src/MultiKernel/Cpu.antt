-- ===== src/MultiKernel/Cpu.antt =====
-- src/mrtkernel.cpp: the handlers of MRTKernel.
use sys_rt.Common.{
  ℕ, ◌+◌, Bool, true, false, not, ◌&&◌, Option, none, some, List, [], ◌∷◌, Run, ok, ◌>>=◌, deref,
  if◌then◌else◌, opt_eq, update,
}
use sys_rt.Sim.{SimTime, EventCall}
use sys_rt.TaskModel.{TaskAttrs}
use sys_rt.Scheduler
use sys_rt.Scheduler.{Scheduler}
use sys_rt.Scheduler.Notify
use sys_rt.Kernel.{task_schedule, task_deschedule}
use sys_rt.MultiKernel.{
  MultiKernel, emit, get_processor, dispatch_cpu, dispatch_all, end_event_notify,
}

-- The task leaves the processor that runs it.
unfoldable pub vacate : MultiKernel → ℕ → ℕ → MultiKernel
vacate k t p = record k {
  curr_exe = update k.curr_exe p none;
  old_exe = update k.old_exe t (some p);
  dispatched = update k.dispatched t none;
}

unfoldable pub suspend : MultiKernel → ℕ → Run MultiKernel
unfolding vacate
suspend k t = do
  s ← Scheduler.extract k.sched t
  let k' = record k { sched = s }
  ok (elim (get_processor k t) [ none ↦ k' | some p ↦ vacate (emit k' (task_deschedule t)) t p ])

unfoldable pub on_arrival : SimTime → (ℕ → TaskAttrs) → ℕ → MultiKernel → ℕ → Run MultiKernel
on_arrival sc env now k t = do
  s ← Scheduler.insert env now k.sched t
  dispatch_all sc now (record k { sched = s })

-- dispatch(NULL) follows the pointer.
unfoldable pub on_end : SimTime → ℕ → MultiKernel → ℕ → Run MultiKernel
unfolding vacate
on_end sc now k t = do
  s ← Scheduler.extract k.sched t
  p ← deref (get_processor k t)
  ok (dispatch_cpu sc now (vacate (record k { sched = s }) t p) p)

unfoldable pub terminate : MultiKernel → ℕ → Run MultiKernel
terminate k t = do
  s ← Scheduler.extract k.sched t
  ok (record k { sched = s; dispatched = update k.dispatched t none })

-- The task that the processor runs is descheduled.
unfoldable pub clear_cpu : MultiKernel → ℕ → MultiKernel
unfolding vacate
clear_cpu k p = elim (k.curr_exe p) [ none ↦ k | some d ↦ emit (vacate k d p) (task_deschedule d) ]

-- The first task of the queue that is not dispatched.
unfoldable pub first_new : (ℕ → Option ℕ) → List ℕ → Option ℕ
first_new dispatched [] = none
first_new dispatched (t ∷ ts) =
    let rest = first_new dispatched ts in if opt_eq (dispatched t) none then some t else rest

-- The task ran last on another processor.
unfoldable pub migrates : MultiKernel → ℕ → ℕ → Bool
migrates k t p = not (opt_eq (k.old_exe t) (some p)) && not (opt_eq (k.old_exe t) none)

unfoldable pub begin_switch : SimTime → ℕ → MultiKernel → ℕ → ℕ → MultiKernel
begin_switch sc now k p t =
    let moved = migrates k t p in
    let overhead =
      if moved then sc.add k.context_switch_delay k.migration_delay else k.context_switch_delay in
    emit
      (record k {
        dispatched = update k.dispatched t (some p);
        end_task = update k.end_task p (some t);
        switching = update k.switching p true;
        migration = if moved then k.migration + 1 else k.migration;
        start_switching = update k.start_switching p now;
        switch_overhead = update k.switch_overhead p overhead;
      })
      (end_event_notify p overhead)

unfoldable pub on_begin_dispatch_multi : SimTime → ℕ → MultiKernel → ℕ → MultiKernel
unfolding clear_cpu begin_switch
on_begin_dispatch_multi sc now k p =
    let k₁ = clear_cpu k p in
    elim (first_new k₁.dispatched k₁.sched.queue) [
      | none ↦ k₁
      | some t ↦ begin_switch sc now k₁ p t
    ]

-- `if (st) st->schedule()`
abbrev pub schedule_if : Option ℕ → List EventCall
schedule_if none = []
schedule_if (some t) = task_schedule t

unfoldable pub on_end_dispatch_multi : (ℕ → TaskAttrs) → ℕ → MultiKernel → ℕ → Run MultiKernel
on_end_dispatch_multi env now k p =
    let st = k.end_task p in
    let k₁ =
      emit (record k { curr_exe = update k.curr_exe p st; switching = update k.switching p false })
        (schedule_if st) in
    Notify.notify env now k₁.sched st >>= λ r. ok (emit (record k₁ { sched = r.0 }) r.1)

-- newRun: every running task leaves the queue, and the maps are emptied.
unfoldable pub extract_running : (ℕ → Option ℕ) → List ℕ → Scheduler → Run Scheduler
extract_running curr [] s = ok s
extract_running curr (p ∷ ps) s = elim (curr p) [
  | none ↦ extract_running curr ps s
  | some t ↦ Scheduler.extract s t >>= extract_running curr ps
]

unfoldable pub end_run : MultiKernel → Run MultiKernel
unfolding extract_running
end_run k = do
  s ← extract_running k.curr_exe k.cpus k.sched
  ok (record k { sched = s; curr_exe = λ p. none })

unfoldable pub new_run : MultiKernel → Run MultiKernel
unfolding end_run
new_run k = do k' ← end_run k; ok (record k' { dispatched = λ t. none; old_exe = λ t. none })
