-- ===== src/MultiKernel.antt =====
-- src/mrtkernel.hpp, mrtkernel.cpp: MRTKernel, the multiprocessor kernel with one global queue, and
-- the events of a processor in src/cpu.hpp. Processors and tasks are numbers; the processors stand
-- in the order of the map `_m_currExe`, and `tasks` are the keys of `_m_dispatched`.
pub mod Cpu
pub mod Coherent
pub mod Events
pub mod Handlers
pub mod Lookup
pub mod Stale
pub mod Dispatch
pub mod Enough
pub mod Arrival
pub mod Exclusion
pub mod Accessors
use sys_rt.Common.{
  ℕ, zero, suc, ◌+◌, ◌≡◌, Bool, true, false, not, ◌&&◌, Option, none, some, List, [], ◌∷◌, ◌++◌,
  Run, ok, fault, hang, ◌>>=◌, deref, if◌then◌else◌, opt_eq, update, length, drop, ◌==◌,
}
use sys_rt.Sim.{SimTime, EventCall, notify_after, cancel, begin_evt, multi_end_evt}
use sys_rt.TaskModel.{TaskAttrs}
use sys_rt.Scheduler
use sys_rt.Scheduler.{Scheduler}
use sys_rt.Scheduler.Notify
use sys_rt.Kernel.{task_schedule, task_deschedule}

pub record MultiKernel : Type 0 where
  pub sched : Scheduler
  pub cpus : List ℕ
  pub tasks : List ℕ
  pub curr_exe : ℕ → Option ℕ
  pub old_exe : ℕ → Option ℕ
  pub dispatched : ℕ → Option ℕ
  pub switching : ℕ → Bool
  pub start_switching : ℕ → ℕ
  pub switch_overhead : ℕ → ℕ
  -- `_endEvt.getTask()` of each processor.
  pub end_task : ℕ → Option ℕ
  pub context_switch_delay : ℕ
  pub migration_delay : ℕ
  pub migration : ℕ
  pub context_switch : ℕ
  pub calls : List EventCall

abbrev pub emit : MultiKernel → List EventCall → MultiKernel
emit k es = record k { calls = k.calls ++ es }

-- internalConstructor, for the processors that the factory made.
unfoldable pub new_multi : Scheduler → List ℕ → MultiKernel
new_multi s cpus = record {
  sched = s;
  cpus = cpus;
  tasks = [];
  curr_exe = λ p. none;
  old_exe = λ t. none;
  dispatched = λ t. none;
  switching = λ p. false;
  start_switching = λ p. 0;
  switch_overhead = λ p. 0;
  end_task = λ p. none;
  context_switch_delay = 0;
  migration_delay = 0;
  migration = 0;
  context_switch = 0;
  calls = [];
}

unfoldable pub add_task : MultiKernel → ℕ → Option ℕ → Run MultiKernel
add_task k t param = do
  s ← Scheduler.add_task k.sched t param
  ok (record k {
    sched = s;
    tasks = k.tasks ++ t ∷ [];
    old_exe = update k.old_exe t none;
    dispatched = update k.dispatched t none;
  })

-- begin_event_notify and end_event_notify cancel the event first.
abbrev pub begin_event_notify : ℕ → ℕ → List EventCall
begin_event_notify p t = cancel (begin_evt p) ∷ notify_after (begin_evt p) t ∷ []

abbrev pub end_event_notify : ℕ → ℕ → List EventCall
end_event_notify p t = cancel (multi_end_evt p) ∷ notify_after (multi_end_evt p) t ∷ []

-- The last processor that runs the task.
unfoldable pub find_processor : (ℕ → Option ℕ) → List ℕ → ℕ → Option ℕ → Option ℕ
find_processor curr [] t ret = ret
find_processor curr (p ∷ ps) t ret =
    find_processor curr ps t (if opt_eq (curr p) (some t) then some p else ret)

unfoldable pub get_processor : MultiKernel → ℕ → Option ℕ
unfolding find_processor
get_processor k t = find_processor k.curr_exe k.cpus t none

unfoldable pub get_old_processor : MultiKernel → ℕ → Option ℕ
get_old_processor k t = k.old_exe t

-- Some task is dispatched to the processor.
unfoldable pub is_dispatched : (ℕ → Option ℕ) → List ℕ → ℕ → Bool
is_dispatched dispatched [] p = false
is_dispatched dispatched (t ∷ ts) p =
    let rest = is_dispatched dispatched ts p in
    if opt_eq (dispatched t) (some p) then true else rest

unfoldable pub is_free : MultiKernel → ℕ → Bool
unfolding is_dispatched
is_free k p = opt_eq (k.curr_exe p) none && not (is_dispatched k.dispatched k.tasks p)

-- From the given place in the map: the free processor with what follows it.
unfoldable pub get_next_free_proc : MultiKernel → List ℕ → Option (ℕ × List ℕ)
get_next_free_proc k [] = none
get_next_free_proc k (p ∷ ps) =
    let rest = get_next_free_proc k ps in if is_free k p then some (p, ps) else rest

-- `_m_dispatched[p->_endEvt.getTask()] = NULL`, if there is such a task.
unfoldable pub undispatch : MultiKernel → Option ℕ → MultiKernel
undispatch k none = k
undispatch k (some t) = record k { dispatched = update k.dispatched t none }

-- dispatch(CPU *). A processor in the middle of a context switch begins again when that is over.
unfoldable pub dispatch_cpu : SimTime → ℕ → MultiKernel → ℕ → MultiKernel
unfolding undispatch
dispatch_cpu sc now k p =
    let k₁ =
      emit (record k { context_switch = k.context_switch + 1 }) (cancel (begin_evt p) ∷ []) in
    if k.switching p
    then undispatch
        (emit k₁ (
          begin_event_notify p (sc.sub (k.switch_overhead p) (sc.sub now (k.start_switching p)))
          ++ cancel (multi_end_evt p) ∷ []))
        (k.end_task p)
    else emit k₁ (begin_event_notify p 0)

-- The first loop of dispatch(): where it stops, and how many tasks before that are new.
unfoldable pub count_new : MultiKernel → ℕ → List ℕ → ℕ → ℕ → ℕ × ℕ
count_new k zero ts i num = (i, num)
count_new k (suc n) [] i num = (i, num)
count_new k (suc n) (t ∷ ts) i num =
    count_new k n ts (i + 1)
      (if opt_eq (get_processor k t) none && opt_eq (k.dispatched t) none then num + 1 else num)

-- The inner loop: from the place i of the queue on, the first task that is dispatched. Past the end
-- of the queue getTaskN gives NULL for ever, to which no processor is dispatched.
unfoldable pub next_dispatched : (ℕ → Option ℕ) → List ℕ → ℕ → Run (ℕ × ℕ)
next_dispatched dispatched [] i = hang
next_dispatched dispatched (t ∷ ts) i =
    let rest = next_dispatched dispatched ts (i + 1) in
    elim (dispatched t) [ none ↦ rest | some c ↦ ok (c, i + 1) ]

-- The do-while loop, which ends after one dispatch for each new task.
unfoldable pub dispatch_loop : SimTime → ℕ → ℕ → MultiKernel → List ℕ → ℕ → Run MultiKernel
dispatch_loop sc now zero k ps i = ok k
dispatch_loop sc now (suc num) k ps i = elim (get_next_free_proc k ps) [
  | some (p, rest) ↦ dispatch_loop sc now num (dispatch_cpu sc now k p) rest i
  | none ↦ next_dispatched k.dispatched (drop i k.sched.queue) i >>= λ r.
      dispatch_loop sc now num (dispatch_cpu sc now k r.0) [] r.1
]

-- dispatch(). A processor set that getNextFreeProc has run through stays run through.
unfoldable pub dispatch_all : SimTime → ℕ → MultiKernel → Run MultiKernel
unfolding dispatch_loop count_new next_dispatched
dispatch_all sc now k =
    let r = count_new k (length k.cpus) k.sched.queue 0 0 in dispatch_loop sc now r.1 k k.cpus r.0

-- dispatch(AbsRTTask *).
unfoldable pub dispatch_task : SimTime → ℕ → MultiKernel → ℕ → MultiKernel
dispatch_task sc now k t = elim (get_old_processor k t) [
  | none ↦ k
  | some p ↦ dispatch_cpu sc now k p
]
