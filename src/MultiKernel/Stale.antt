-- ===== src/MultiKernel/Stale.antt =====
-- src/mrtkernel.cpp: the task that the end event of a processor remembers, after its switch is over or
-- cancelled.
use sys_rt.Common.{ℕ, ◌≡◌, true, none, some, List, ◌∷◌, arith, ==_refl}
use sys_rt.Sim.{SimTime}
use sys_rt.MultiKernel.{MultiKernel, undispatch, dispatch_cpu}
use sys_rt.MultiKernel.Cpu.{clear_cpu, first_new, begin_switch, on_begin_dispatch_multi}

module _ (sc : SimTime) (now : ℕ) (k : MultiKernel) (p q t : ℕ) (rest : List ℕ) where
  -- If a processor is in a context switch whose end event names a task that runs on another
  -- processor and is first in the queue, and nothing runs on the first processor, then a dispatch
  -- of that processor followed by its begin event starts to switch to the task, which still runs
  -- on the other processor.
  pub on_begin_dispatch_multi-dispatch_cpu :
      k.switching p ≡ true
      → k.end_task p ≡ some t
      → k.curr_exe p ≡ none
      → k.curr_exe q ≡ some t
      → k.sched.queue ≡ t ∷ rest
      → let k' = on_begin_dispatch_multi sc now (dispatch_cpu sc now k p) p in
        (k'.curr_exe q ≡ some t) × (k'.end_task p ≡ some t) × (k'.dispatched t ≡ some p)
  unfolding dispatch_cpu undispatch on_begin_dispatch_multi clear_cpu first_new begin_switch
  on_begin_dispatch_multi-dispatch_cpu a b c d e =
      (ground (arith, ==_refl t), ground (arith, ==_refl t), ground (arith, ==_refl t))
