-- ===== src/Tests/Samples.antt =====
-- Concrete tasks, queues and kernels for the tests: task 0 before task 1 in the queue, task 2 known
-- and not queued.
use sys_rt.Common.{
  ℕ, Option, some, mem, subst, ◌+◌, ◌-◌, ◌%◌, ◌^◌, ◌≤◌, ◌<◌, ◌≡◌, refl, true, false, none, [], ◌∷◌,
  arith, ltb, leb, if◌then◌else◌,
}
use sys_rt.Sim.{SimTime}
use sys_rt.TaskModel.{
  TaskAttrs, Policy, fp_model, edf_model, rr_model, ngedf_model, get_priority, task_model_cmp,
  precedes,
}
use sys_rt.TaskModel.Order.{IsNumbered}
use sys_rt.Kernel.{Kernel}
use sys_rt.Kernel.Invariant.{IsValid as KernelIsValid}
use sys_rt.Task.{Task, tsk_exec}
use sys_rt.Scheduler.{
  SchedulerClass, fp_scheduler, edf_scheduler, rr_scheduler, ngedf_scheduler, matches, Scheduler,
}
use sys_rt.Scheduler.Invariant.{IsValid}

-- Times that wrap at 64 bits.
unfoldable pub wrap_sub : ℕ → ℕ → ℕ
wrap_sub a b = if leb b a then a - b else (a + 2 ^ 64 - b) % 2 ^ 64

pub wrap_sub_exact : (a b : ℕ) → b ≤ a → wrap_sub a b ≡ a - b
unfolding wrap_sub
wrap_sub_exact a b h = ground arith

pub add_exact : (a b : ℕ) → a + b < 2 ^ 64 → (a + b) % 2 ^ 64 ≡ a + b
add_exact a b h = omega arith

abbrev pub clock : SimTime
clock = record {
  add = λ a b. (a + b) % 2 ^ 64;
  sub = wrap_sub;
  through_double = λ a. a;
  add_exact = add_exact;
  sub_exact = wrap_sub_exact;
  through_double_exact = λ a h. refl;
}

abbrev pub env : ℕ → TaskAttrs
env t = record { deadline = 10 + t; arrival = 0; task_number = t; last_sched = 0 }

pub env-IsNumbered : IsNumbered env
env-IsNumbered = record { distinct = λ a b e. e }

abbrev pub queue_of : SchedulerClass → (ℕ → Policy) → Scheduler
queue_of c policy = record {
  class = c;
  registered = λ t. ltb t 3;
  model = λ t. record { active = ltb t 2; insert_time = t; threshold = 1; policy = policy t };
  queue = 0 ∷ 1 ∷ [];
  curr_exe = none;
  old_priorities = λ t. 0;
}

abbrev pub fp_queue : Scheduler
fp_queue = queue_of fp_scheduler (λ t. fp_model (5 + t))

abbrev pub edf_queue : Scheduler
edf_queue = queue_of edf_scheduler (λ t. edf_model false 0)

abbrev pub rr_queue : Scheduler
rr_queue = queue_of (rr_scheduler 4) (λ t. rr_model 4)

abbrev pub ngedf_queue : Scheduler
ngedf_queue = queue_of ngedf_scheduler (λ t. ngedf_model true false 0)

queue_of-IsValid :
    (c : SchedulerClass) (policy : ℕ → Policy)
    → precedes env (queue_of c policy).model 0 1 ≡ true
    → ((t : ℕ) → matches c (policy t) ≡ true)
    → IsValid env (queue_of c policy)
queue_of-IsValid c policy first fit = record {
  sorted = ((first, tt), (tt, tt));
  queued = λ t p. ground arith;
  listed = λ t p q. ground arith;
  typed = λ t p. fit t;
}

pub fp_queue-IsValid : IsValid env fp_queue
unfolding precedes task_model_cmp get_priority
fp_queue-IsValid = queue_of-IsValid fp_scheduler (λ t. fp_model (5 + t)) refl (λ t. refl)

pub edf_queue-IsValid : IsValid env edf_queue
unfolding precedes task_model_cmp get_priority
edf_queue-IsValid = queue_of-IsValid edf_scheduler (λ t. edf_model false 0) refl (λ t. refl)

pub rr_queue-IsValid : IsValid env rr_queue
unfolding precedes task_model_cmp get_priority
rr_queue-IsValid = queue_of-IsValid (rr_scheduler 4) (λ t. rr_model 4) refl (λ t. refl)

pub ngedf_queue-IsValid : IsValid env ngedf_queue
unfolding precedes task_model_cmp get_priority
ngedf_queue-IsValid =
    queue_of-IsValid ngedf_scheduler (λ t. ngedf_model true false 0) refl (λ t. refl)

-- A task that executes the first of two instructions, with a buffer for one arrival.
abbrev pub running : Task
running = record {
  number = 4;
  deadline_miss = 0;
  num_jobs = 1;
  iat = false;
  last_arrival = 0;
  phase = 0;
  arrival = 0;
  execd_time = 0;
  max_c = 0;
  arr_queue = [];
  arr_queue_size = 1;
  state = tsk_exec;
  task_exe = true;
  instr_count = 2;
  act_instr = 0;
  last_sched = 0;
  dl = 0;
  rdl = 50;
  abort = false;
  kill = false;
  cpu_of_end = 0;
  cpu_of_sched = 0;
  cpu_of_desched = 0;
  cpu_of_dead = 0;
}

-- A kernel that runs the given task.
abbrev pub kernel_of : Option ℕ → Kernel
kernel_of t = record {
  sched = fp_queue;
  curr_exe = t;
  pre_exe = none;
  handled = 0 ∷ 1 ∷ 2 ∷ [];
  is_context_switching = false;
  context_switch_delay = 3;
  start_context_switch = 0;
  calls = [];
}

pub busy-IsValid : KernelIsValid env (kernel_of (some 1))
busy-IsValid = record {
  queue_valid = fp_queue-IsValid;
  running = λ t e. let q : 1 ≡ t = cc in subst (λ y. mem y (0 ∷ 1 ∷ []) ≡ true) q refl;
}
