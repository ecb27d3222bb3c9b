-- ===== src/Sim.antt =====
-- What the code uses of SystemC: the values of sc_time with their sum and difference, and sc_event.
-- SystemC itself is not modelled: its time arithmetic is a parameter with its documented laws, and
-- a call of an event is a value that the code emits, in order.
pub mod Outstanding
use sys_rt.Common.{ℕ, ◌+◌, ◌-◌, ◌^◌, ◌≤◌, ◌<◌, ◌≡◌}

-- Times are the 64-bit values of sc_time in units of the resolution.
pub record SimTime : Type 0 where
  pub add : ℕ → ℕ → ℕ
  pub sub : ℕ → ℕ → ℕ
  -- from_value(ceil(t.to_double() / 1))
  pub through_double : ℕ → ℕ
  pub add_exact : (a b : ℕ) → a + b < 2 ^ 64 → add a b ≡ a + b
  pub sub_exact : (a b : ℕ) → b ≤ a → sub a b ≡ a - b
  pub through_double_exact : (a : ℕ) → a < 2 ^ 53 → through_double a ≡ a

-- The events of the program, by the object that owns them: a task, a CPU, an instruction.
pub data Event : Type 0 where
  arr_evt end_evt sched_evt desched_evt fake_arr_evt kill_evt dead_evt : ℕ → Event
  begin_dispatch_evt end_dispatch_evt rr_evt quantum_finish dispatch_ev : Event
  begin_evt multi_end_evt : ℕ → Event
  instr_end_evt wait_evt signal_evt thre_evt susp_evt resume_evt : ℕ → Event
  job_activation model_insertion trigger_evt : ℕ → Event

-- `notify e` is immediate, `notify_after e t` is timed, with t = 0 for SC_ZERO_TIME.
pub data EventCall : Type 0 where
  notify : Event → EventCall
  notify_after : Event → ℕ → EventCall
  cancel : Event → EventCall
