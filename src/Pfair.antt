-- ===== src/Pfair.antt =====
-- src/pfair_scheduler.hpp, pfair_scheduler.cpp: pfair_model, whose jobs are the subtasks of a periodic task, and
-- pfair_scheduler without schedule_next_quantum, which blocks and unblocks tasks through the kernel.
-- The arithmetic on float and double is a parameter.
pub mod Quantum
use sys_rt.Common.{
  ℕ, ◌+◌, ◌-◌, leb, ◌%◌, Bool, true, false, not, ◌||◌, Option, none, some, List, [], ◌∷◌, Run, ok,
  fault, ◌>>=◌, deref, ltb, ◌==◌, if◌then◌else◌, update,
}
use sys_rt.PList

-- The arithmetic on float: 0 and the next one of job_index, division, floor and ceil; the sc_time for a
-- number of quanta; the conversion to int of a number that is not negative.
pub record Floats (F : Type 0) : Type 0 where
  pub zero : F
  pub add_one : F → F
  pub div : F → F → F
  pub floor : F → F
  pub ceil : F → F
  pub to_time : F → ℕ → ℕ
  pub to_int : F → ℕ

-- With the fields of TaskModel that the queue reads.
pub record PfairModel (F : Type 0) : Type 0 where
  pub active : Bool
  pub insert_time : ℕ
  pub model_quantum : ℕ
  pub task_weight : F
  pub job_length : F
  pub job_index : F
  pub next_job_activation_time : ℕ
  pub next_job_deadline : ℕ
  pub round_scheduled : Bool
  pub period_end : Bool
  pub end : Bool

-- What the scheduler does with events.
pub data PfairCall : Type 0 where
  cancel_quantum : PfairCall
  notify_quantum : ℕ → PfairCall

pub record PfairScheduler (F : Type 0) : Type 0 where
  pub schedule_quantum : ℕ
  pub registered : ℕ → Bool
  pub model : ℕ → PfairModel F
  pub queue : List ℕ
  pub calls : List PfairCall

module _ {F : Type 0} where
  unfoldable pub get_priority : PfairModel F → ℕ
  get_priority m = if m.round_scheduled then 0 else m.next_job_deadline

  -- TaskModelCmp on these models; `number` gives the task numbers.
  unfoldable pub precedes : (ℕ → ℕ) → (ℕ → PfairModel F) → ℕ → ℕ → Bool
  unfolding get_priority
  precedes number model a b =
      let m = model a in
      let n = model b in
      if ltb (get_priority m) (get_priority n)
      then true
      else if get_priority m == get_priority n
      then (if ltb m.insert_time n.insert_time
          then true
          else if m.insert_time == n.insert_time
          then ltb (number a) (number b)
          else false)
      else false

  -- removeTask is empty.
  unfoldable pub remove_task : PfairScheduler F → ℕ → PfairScheduler F
  remove_task s t = s

  unfoldable pub find : PfairScheduler F → ℕ → Option (PfairModel F)
  find s t = if s.registered t then some (s.model t) else none

  -- Scheduler::insert
  unfoldable pub insert : (ℕ → ℕ) → ℕ → PfairScheduler F → ℕ → Run (PfairScheduler F)
  unfolding find precedes
  insert number now s t = do
    m ← deref (find s t)
    let model = update s.model t (record m { insert_time = now; active = true })
    ok (record s { model = model; queue = PList.insert (precedes number model) t s.queue })

  abbrev pub emit : PfairScheduler F → PfairCall → PfairScheduler F
  emit s c = record s { calls = c ∷ s.calls }

  -- Whether a whole quantum has gone since the task was scheduled last.
  unfoldable pub quantum_expired : ℕ → ℕ → PfairModel F → Bool
  quantum_expired now last m = leb m.model_quantum (now - last)

module _ {F : Type 0} (fl : Floats F) where
  -- The remainder by a length of 0 is undefined.
  unfoldable pub compute_next_job_time : PfairModel F → Run (PfairModel F)
  compute_next_job_time m =
      let index = fl.add_one m.job_index in
      if fl.to_int m.job_length == 0
      then fault
      else ok record m {
        next_job_activation_time =
            fl.to_time (fl.floor (fl.div m.job_index m.task_weight)) m.model_quantum;
        next_job_deadline = fl.to_time (fl.ceil (fl.div index m.task_weight)) m.model_quantum;
        job_index = index;
        period_end = fl.to_int index % fl.to_int m.job_length == 0;
      }

  -- The constructor, for the weight of the task and its length in quanta.
  unfoldable pub new_pfair : ℕ → F → F → Run (PfairModel F)
  unfolding compute_next_job_time
  new_pfair quantum weight length = compute_next_job_time record {
    active = false;
    insert_time = 0;
    model_quantum = quantum;
    task_weight = weight;
    job_length = length;
    job_index = fl.zero;
    next_job_activation_time = 0;
    next_job_deadline = 0;
    round_scheduled = false;
    period_end = false;
    end = false;
  }

  unfoldable pub add_task : PfairScheduler F → ℕ → F → F → Run (PfairScheduler F)
  unfolding new_pfair
  add_task s t weight length = do
    m ← new_pfair s.schedule_quantum weight length
    ok (record s { registered = update s.registered t true; model = update s.model t m })

  -- A job that was scheduled in this round, or that ended its period, gives way to the next one.
  unfoldable pub next_job : PfairModel F → Run (PfairModel F)
  unfolding compute_next_job_time
  next_job m =
      if m.round_scheduled || m.end
      then (compute_next_job_time (record m { round_scheduled = false }) >>= λ m'.
          ok (record m' { end = false }))
      else ok m

  unfoldable pub extract : PfairScheduler F → ℕ → Run (PfairScheduler F)
  unfolding next_job find
  extract s t =
      if s.registered t
      then (do
        q ← PList.erase t s.queue
        m ← next_job (record (s.model t) { active = false })
        ok (record s { model = update s.model t m; queue = q }))
      else ok s

  -- The number of the task is printed before the test for NULL.
  unfoldable pub notify : (ℕ → ℕ) → ℕ → PfairScheduler F → Option ℕ → Run (PfairScheduler F)
  unfolding extract find insert
  notify number now s task = do
    t ← deref task
    s₁ ← extract (emit s cancel_quantum) t
    m ← deref (find s₁ t)
    s₂ ←
        insert number now
          (record s₁ { model = update s₁.model t (record m { round_scheduled = true }) }) t
    ok (emit s₂ (notify_quantum s₂.schedule_quantum))

  -- The delay of the activation event, or none where the task is unblocked at once.
  unfoldable pub prepare_next_job : ℕ → PfairModel F → Run (PfairModel F × Option ℕ)
  unfolding compute_next_job_time
  prepare_next_job now m = do
    m₁ ← compute_next_job_time m
    ok (
      m₁,
      if ltb now m₁.next_job_activation_time
          then some (m₁.next_job_activation_time - now)
          else none,
    )
