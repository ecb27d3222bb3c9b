-- ===== src/ExecInstr.antt =====
-- src/exeinstr.hpp, exeinstr.cpp: ExecInstr, the instruction that uses the processor for the time that a
-- random variable gives. `cost` is what cost->get() gives at the call, `now` is sc_time_stamp().
pub mod Accounting
use sys_rt.Common.{ℕ, ◌+◌, ◌≡◌, Bool, true, false, List, [], ◌∷◌, ltb, if◌then◌else◌}
use sys_rt.Sim.{SimTime, EventCall, notify_after, cancel, instr_end_evt}

pub record ExecInstr : Type 0 where
  pub flag : Bool
  pub execd_time : ℕ
  pub current_cost : ℕ
  pub act_time : ℕ
  pub last_time : ℕ
  pub executing : Bool

-- newRun. `_endEvt` keeps its state.
unfoldable pub new_run : ExecInstr → ExecInstr
new_run e = record e { act_time = 0; last_time = 0; flag = true; execd_time = 0; executing = false }

unfoldable pub get_exec_time : SimTime → ℕ → ExecInstr → ℕ
get_exec_time sc now e =
    if e.executing then sc.sub (sc.add e.execd_time now) e.last_time else e.execd_time

-- The time to the end, 0 if the cost is used up.
unfoldable pub remaining : SimTime → ExecInstr → ℕ
remaining sc e =
    if ltb e.act_time e.current_cost
    then sc.through_double (sc.sub e.current_cost e.act_time)
    else 0

-- The first schedule of an instance takes the cost.
unfoldable pub start : ℕ → ℕ → ExecInstr → ExecInstr
start now cost e =
    if e.flag
    then record e {
      last_time = now;
      executing = true;
      execd_time = 0;
      act_time = 0;
      flag = false;
      current_cost = cost;
    }
    else record e { last_time = now; executing = true }

unfoldable pub schedule : SimTime → ℕ → ℕ → ℕ → ExecInstr → ExecInstr × List EventCall
unfolding start remaining
schedule sc i now cost e =
    let e' = start now cost e in (e', notify_after (instr_end_evt i) (remaining sc e') ∷ [])

unfoldable pub deschedule : SimTime → ℕ → ℕ → ExecInstr → ExecInstr × List EventCall
deschedule sc i now e = (
  if e.executing
      then record e {
        act_time = sc.add e.act_time (sc.through_double (sc.sub now e.last_time));
        execd_time = sc.add e.execd_time (sc.sub now e.last_time);
        last_time = now;
        executing = false;
      }
      else record e { executing = false },
  cancel (instr_end_evt i) ∷ [],
)

-- onEnd up to its last statement, the call of onInstrEnd on the task.
unfoldable pub on_end : SimTime → ℕ → ℕ → ExecInstr → ExecInstr × List EventCall
on_end sc i now e = (
  record e {
    execd_time = sc.add e.execd_time (sc.sub now e.last_time);
    flag = true;
    executing = false;
    last_time = now;
    act_time = 0;
  },
  cancel (instr_end_evt i) ∷ [],
)

unfoldable pub reset : ℕ → ExecInstr → ExecInstr × List EventCall
reset i e = (
  record e { act_time = 0; last_time = 0; flag = true; execd_time = 0 },
  cancel (instr_end_evt i) ∷ [],
)

-- refreshExec: `by_old` is from_value(t.to_double() * oldSpeed), `by_new` is
-- from_value(ceil(t.to_double() / newSpeed)).
unfoldable pub refresh_exec :
    SimTime → (ℕ → ℕ) → (ℕ → ℕ) → ℕ → ℕ → ExecInstr → ExecInstr × List EventCall
refresh_exec sc by_old by_new i now e =
    let act = sc.add e.act_time (by_old (sc.sub now e.last_time)) in
    (
      record e {
        act_time = act;
        execd_time = sc.add e.execd_time (sc.sub now e.last_time);
        last_time = now;
      },
      cancel (instr_end_evt i)
          ∷ notify_after (instr_end_evt i)
              (if ltb act e.current_cost then by_new (sc.sub e.current_cost act) else 0)
          ∷ [],
    )
