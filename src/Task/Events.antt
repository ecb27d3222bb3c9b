-- ===== src/Task/Events.antt =====
-- src/taskevt.hpp, taskevt.cpp and the constructor in task.hpp: the handlers of the events' classes, and the methods
-- of Task that the simulator runs when an event fires, which are registered in their place.
use sys_rt.Common.{ℕ, ◌+◌, ◌%◌, ◌^◌, ◌≡◌, refl, ◌&&◌, Option, [], ◌∷◌, Run, ok, if◌then◌else◌}
use sys_rt.Sim.{SimTime}
use sys_rt.Task.{
  Task, Handled, exit_process, is_active, on_arrival, on_end_instance, on_sched, on_desched,
  on_fake_arrival,
}
use sys_rt.Task.Kills.{kill_instance, on_kill, on_dead_miss}

pub data TaskEvt : Type 0 where
  arr_evt end_evt kill_evt sched_evt desched_evt fake_arr_evt dead_evt : TaskEvt

-- What a handler reads: the time, a sample of the random variable, the processors that the kernel
-- gives, and the time that the current instruction has run for.
pub record Reads : Type 0 where
  pub sc : SimTime
  pub now : ℕ
  pub iat_sample : ℕ
  pub cpu : Option ℕ
  pub old_cpu : Option ℕ
  pub instr_time : ℕ

unfoldable pub dead_evt_handler : Reads → Task → Run Handled
unfolding kill_instance is_active
dead_evt_handler r t =
    if t.abort
    then ok (t, exit_process ∷ [])
    else if t.kill && is_active t.state
    then kill_instance r.sc r.instr_time t
    else ok (t, [])

unfoldable pub handler : TaskEvt → Reads → Task → Run Handled
unfolding dead_evt_handler on_arrival on_end_instance on_kill on_sched on_desched on_fake_arrival
handler arr_evt r t = ok (on_arrival r.sc r.iat_sample r.now t)
handler end_evt r t = on_end_instance r.cpu t
handler kill_evt r t = ok (on_kill t)
handler sched_evt r t = on_sched r.cpu r.now t
handler desched_evt r t = on_desched r.old_cpu t
handler fake_arr_evt r t = on_fake_arrival r.sc r.now t
handler dead_evt r t = dead_evt_handler r t

-- The method that is sensitive to the event.
unfoldable pub fire : TaskEvt → Reads → Task → Run Handled
unfolding on_dead_miss on_arrival on_end_instance on_kill on_sched on_desched on_fake_arrival
fire arr_evt r t = ok (on_arrival r.sc r.iat_sample r.now t)
fire end_evt r t = on_end_instance r.cpu t
fire kill_evt r t = ok (on_kill t)
fire sched_evt r t = on_sched r.cpu r.now t
fire desched_evt r t = on_desched r.old_cpu t
fire fake_arr_evt r t = on_fake_arrival r.sc r.now t
fire dead_evt r t = on_dead_miss r.sc r.instr_time t

-- One more deadline is missed where the deadline event fires.
abbrev pub miss : TaskEvt → Task → Task
miss dead_evt t = record t { deadline_miss = (t.deadline_miss + 1) % 2 ^ 32 }
miss _ t = t

-- A method does what the handler does with the miss counted before.
pub fire-handler : (e : TaskEvt) (r : Reads) (t : Task) → fire e r t ≡ handler e r (miss e t)
unfolding fire handler on_dead_miss dead_evt_handler
fire-handler arr_evt r t = refl
fire-handler end_evt r t = refl
fire-handler kill_evt r t = refl
fire-handler sched_evt r t = refl
fire-handler desched_evt r t = refl
fire-handler fake_arr_evt r t = refl
fire-handler dead_evt r t = refl
