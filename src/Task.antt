-- ===== src/Task.antt =====
-- src/task.hpp, task.cpp: Task, a cyclic task with a buffer of arrivals and a sequence of instructions,
-- and the flags of DeadEvt of src/taskevt.hpp. What a handler calls on its events, on the kernel
-- and on its instructions are values that it emits, in order; `now` is sc_time_stamp().
pub mod Members
pub mod Kills
pub mod Arrivals
pub mod Instructions
pub mod Index
pub mod Events
use sys_rt.Common.{
  ℕ, zero, suc, ◌+◌, ◌%◌, ◌^◌, Bool, true, false, not, ◌&&◌, Option, none, some, List, [], ◌∷◌,
  ◌++◌, Run, ok, fault, ◌>>=◌, deref, if◌then◌else◌, length, leb, ltb, ◌==◌,
}
use sys_rt.Sim.{
  SimTime, EventCall, notify, notify_after, cancel, arr_evt, end_evt, sched_evt, desched_evt,
  fake_arr_evt, kill_evt, dead_evt,
}

pub data TaskState : Type 0 where
  tsk_idle tsk_ready tsk_exec tsk_blocked : TaskState

pub data TaskCall : Type 0 where
  event : EventCall → TaskCall
  kernel_on_arrival kernel_on_end kernel_terminate kernel_suspend kernel_dispatch : TaskCall
  instr_reset instr_get_duration instr_schedule instr_deschedule : ℕ → TaskCall
  exit_process : TaskCall

-- Instructions are known by their place in `instrQueue`, which has `instr_count` of them; `actInstr`
-- is a place, and the place `instr_count` is end(). `iat` says that int_time is not NULL. The int
-- fields are their 32 bits.
pub record Task : Type 0 where
  pub number : ℕ
  pub deadline_miss : ℕ
  pub num_jobs : ℕ
  pub iat : Bool
  pub last_arrival : ℕ
  pub phase : ℕ
  pub arrival : ℕ
  pub execd_time : ℕ
  pub max_c : ℕ
  pub arr_queue : List ℕ
  pub arr_queue_size : ℕ
  pub state : TaskState
  pub task_exe : Bool
  pub instr_count : ℕ
  pub act_instr : ℕ
  pub last_sched : ℕ
  pub dl : ℕ
  pub rdl : ℕ
  pub abort : Bool
  pub kill : Bool
  pub cpu_of_end : ℕ
  pub cpu_of_sched : ℕ
  pub cpu_of_desched : ℕ
  pub cpu_of_dead : ℕ

abbrev pub Handled : Type 0
Handled = Task × List TaskCall

-- a <= b as signed ints.
unfoldable pub int_le : ℕ → ℕ → Bool
int_le a b = leb ((a + 2 ^ 31) % 2 ^ 32) ((b + 2 ^ 31) % 2 ^ 32)

unfoldable pub is_active : TaskState → Bool
is_active tsk_idle = false
is_active _ = true

unfoldable pub is_executing : TaskState → Bool
is_executing tsk_exec = true
is_executing _ = false

unfoldable pub new_run : Task → Handled
new_run t = (
  record t {
    state = tsk_idle;
    task_exe = false;
    last_arrival = t.phase;
    arrival = t.phase;
    dl = 0;
  },
  if t.iat then event (notify_after (arr_evt t.number) t.phase) ∷ [] else [],
)

unfoldable pub end_run : Task → Handled
end_run t = (
  record t { arr_queue = [] },
  event (cancel (arr_evt t.number))
      ∷ event (cancel (end_evt t.number))
      ∷ event (cancel (sched_evt t.number))
      ∷ event (cancel (desched_evt t.number))
      ∷ event (cancel (fake_arr_evt t.number))
      ∷ event (cancel (dead_evt t.number))
      ∷ [],
)

-- `iat_sample` is the time that int_time->get() gives.
unfoldable pub reactivate : ℕ → Task → List TaskCall
reactivate iat_sample t =
    if t.iat && ltb 0 iat_sample
    then event (notify_after (arr_evt t.number) iat_sample) ∷ []
    else []

-- The loop over n instructions from the place i on.
unfoldable pub reset_instrs : ℕ → ℕ → List TaskCall
reset_instrs i zero = []
reset_instrs i (suc n) = instr_reset i ∷ instr_get_duration i ∷ reset_instrs (i + 1) n

unfoldable pub handle_arrival : SimTime → ℕ → ℕ → Task → Handled
unfolding reset_instrs
handle_arrival sc now arr t =
    let dl = sc.add arr t.rdl in
    (
      record t {
        arrival = arr;
        execd_time = 0;
        act_instr = 0;
        state = tsk_ready;
        task_exe = false;
        dl = dl;
      },
      reset_instrs 0 t.instr_count
          ++ (if leb now dl then event (notify_after (dead_evt t.number) dl) ∷ [] else []),
    )

unfoldable pub block : Task → Handled
block t =
    (record t { state = tsk_blocked; task_exe = false }, kernel_suspend ∷ kernel_dispatch ∷ [])

unfoldable pub unblock : Task → Handled
unblock t = (record t { state = tsk_ready; task_exe = false }, kernel_on_arrival ∷ [])

-- `*actInstr`
unfoldable pub current : Task → Run ℕ
current t = if ltb t.act_instr t.instr_count then ok t.act_instr else fault

-- `instr_time` is what getExecTime of the current instruction gives.
unfoldable pub get_exec_time : SimTime → ℕ → Task → Run ℕ
unfolding current is_active
get_exec_time sc instr_time t =
    if is_active t.state
    then (do i ← current t; ok (sc.add t.execd_time instr_time))
    else ok t.execd_time

unfoldable pub get_buff_arrival : Task → Run (Task × ℕ)
get_buff_arrival t = elim t.arr_queue [
  | [] ↦ fault
  | a ∷ rest ↦ ok (record t { arr_queue = rest }, a)
]

unfoldable pub chk_buff_arrival : Task → Bool
chk_buff_arrival t = elim t.arr_queue [ [] ↦ false | a ∷ rest ↦ true ]

unfoldable pub buff_arrival : ℕ → Task → Task
unfolding int_le
buff_arrival now t =
    if int_le (length t.arr_queue) t.arr_queue_size
    then record t { arr_queue = t.arr_queue ++ now ∷ [] }
    else t

-- pop_back
unfoldable pub without_last : List ℕ → List ℕ
without_last [] = []
without_last (a ∷ []) = []
without_last (a ∷ b ∷ bs) = a ∷ without_last (b ∷ bs)

unfoldable pub unbuff_arrival : Task → Task
unfolding without_last
unbuff_arrival t = record t { arr_queue = without_last t.arr_queue }

unfoldable pub on_arrival : SimTime → ℕ → ℕ → Task → Handled
unfolding is_active handle_arrival buff_arrival reactivate
on_arrival sc iat_sample now t =
    let t₁ = record t { num_jobs = (t.num_jobs + 1) % 2 ^ 32 } in
    if not (is_active t.state)
    then (
      (handle_arrival sc now now t₁).0,
      (handle_arrival sc now now t₁).1 ++ kernel_on_arrival ∷ [] ++ reactivate iat_sample t₁,
    )
    else (buff_arrival now t₁, event (notify (dead_evt t.number)) ∷ [] ++ reactivate iat_sample t₁)

-- `fakeArrEvt.notify()`, if an arrival is buffered.
unfoldable pub next_arrival : Task → List TaskCall
unfolding chk_buff_arrival
next_arrival t = if chk_buff_arrival t then event (notify (fake_arr_evt t.number)) ∷ [] else []

-- `cpu` is what getCPU gives.
unfoldable pub on_end_instance : Option ℕ → Task → Run Handled
unfolding next_arrival
on_end_instance cpu t = do
  p ← deref cpu
  ok (
    record t {
      act_instr = 0;
      last_arrival = t.arrival;
      cpu_of_end = p;
      state = tsk_idle;
      task_exe = false;
    },
    event (cancel (dead_evt t.number)) ∷ kernel_on_end ∷ next_arrival t,
  )

unfoldable pub on_sched : Option ℕ → ℕ → Task → Run Handled
unfolding current
on_sched cpu now t = do
  p ← deref cpu
  i ← current t
  ok (
    record t {
      cpu_of_sched = p;
      state = tsk_exec;
      task_exe = true;
      last_sched = now;
      cpu_of_dead = p;
    },
    event (cancel (desched_evt t.number)) ∷ instr_schedule i ∷ [],
  )

-- `old_cpu` is what getOldCPU gives.
unfoldable pub on_desched : Option ℕ → Task → Run Handled
unfolding current
on_desched old_cpu t = do
  p ← deref old_cpu
  i ← current t
  ok (
    record t { cpu_of_desched = p; state = tsk_ready; task_exe = false },
    event (cancel (end_evt t.number)) ∷ instr_deschedule i ∷ [],
  )

unfoldable pub on_instr_end : SimTime → Option ℕ → ℕ → Task → Run Handled
unfolding current on_end_instance is_executing
on_instr_end sc cpu instr_time t = do
  i ← current t
  let t₁ = record t { execd_time = sc.add t.execd_time instr_time; act_instr = i + 1 }
  (if i + 1 == t.instr_count
      then on_end_instance cpu t₁
      else ok (t₁, if is_executing t.state then instr_schedule (i + 1) ∷ [] else []))

unfoldable pub on_fake_arrival : SimTime → ℕ → Task → Run Handled
unfolding get_buff_arrival handle_arrival
on_fake_arrival sc now t = do
  (t₁, a) ← get_buff_arrival t
  ok ((handle_arrival sc now a t₁).0, (handle_arrival sc now a t₁).1 ++ kernel_on_arrival ∷ [])
