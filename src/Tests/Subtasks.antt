-- ===== src/Tests/Subtasks.antt =====
-- The theorems of the Pfair scheduler for tasks that need two quanta of every five; a float is a number of
-- halves, and a weight is given by its inverse.
use sys_rt.Common.{
  ℕ, ◌+◌, ◌*◌, ◌/◌, ◌≡◌, refl, true, false, none, some, [], ◌∷◌, fault, arith, ltb, Returns,
}
use sys_rt.Pfair.{
  Floats, PfairModel, PfairScheduler, notify, add_task, prepare_next_job, quantum_expired,
}
use sys_rt.Pfair.Quantum.{First, notify-First}

abbrev halves : Floats ℕ
halves = record {
  zero = 0;
  add_one = λ x. x + 2;
  div = λ x w. x * w / 2;
  floor = λ x. x / 2 * 2;
  ceil = λ x. (x + 1) / 2 * 2;
  to_time = λ n q. n * q / 2;
  to_int = λ x. x / 2;
}

abbrev job : ℕ → PfairModel ℕ
job i = record {
  active = true;
  insert_time = 0;
  model_quantum = 10;
  task_weight = 5;
  job_length = 4;
  job_index = i * 2;
  next_job_activation_time = 0;
  next_job_deadline = 30;
  round_scheduled = false;
  period_end = false;
  end = false;
}

abbrev two_ready : PfairScheduler ℕ
two_ready = record {
  schedule_quantum = 10;
  registered = λ t. ltb t 2;
  model = λ t. job 1;
  queue = 0 ∷ 1 ∷ [];
  calls = [];
}

notify-First_example :
    Returns (First halves (λ t. t) two_ready 1) (notify halves (λ t. t) 20 two_ready (some 1))
notify-First_example =
    notify-First halves (λ t. t) 20 two_ready 1 (λ a b e. e) refl refl (omega arith)

-- An idle processor faults, and a task shorter than a quantum too.
notify_idle : notify halves (λ t. t) 20 two_ready none ≡ fault
unfolding notify
notify_idle = refl

too_short : add_task halves two_ready 2 5 1 ≡ fault
unfolding add_task
too_short = refl

first_jobs :
    (quantum_expired 15 5 (job 0) ≡ true)
    × Returns (λ r. r.1 ≡ some 15) (prepare_next_job halves 5 (job 1))
unfolding quantum_expired prepare_next_job
first_jobs = (refl, refl)
