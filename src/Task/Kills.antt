-- ===== src/Task/Kills.antt =====
-- src/task.cpp: what ends an instance of Task before its time, or the process.
use sys_rt.Common.{ℕ, ◌+◌, ◌%◌, ◌^◌, false, ◌&&◌, [], ◌∷◌, ◌++◌, Run, ok, ◌>>=◌, if◌then◌else◌}
use sys_rt.Sim.{SimTime, notify, notify_after, cancel, end_evt, fake_arr_evt, kill_evt}
use sys_rt.Task.{
  Task, tsk_idle, Handled, event, kernel_on_end, kernel_terminate, instr_deschedule, exit_process,
  current, chk_buff_arrival, is_executing, is_active, next_arrival,
}

unfoldable pub kill_instance : SimTime → ℕ → Task → Run Handled
unfolding current chk_buff_arrival
kill_instance sc instr_time t = do
  i ← current t
  ok (
    record t { execd_time = sc.add t.execd_time instr_time },
    event (cancel (end_evt t.number))
          ∷ instr_deschedule i
          ∷ (if chk_buff_arrival t then event (notify_after (fake_arr_evt t.number) 0) ∷ [] else [])
        ++ event (notify (kill_evt t.number)) ∷ [],
  )

unfoldable pub on_kill : Task → Handled
unfolding is_executing next_arrival
on_kill t = (
  record t { last_arrival = t.arrival; state = tsk_idle; task_exe = false },
  event (cancel (kill_evt t.number))
      ∷ (if is_executing t.state then kernel_on_end else kernel_terminate)
      ∷ next_arrival t,
)

-- `exit(-1)` ends the process.
unfoldable pub on_dead_miss : SimTime → ℕ → Task → Run Handled
unfolding kill_instance is_active
on_dead_miss sc instr_time t =
    let t₁ = record t { deadline_miss = (t.deadline_miss + 1) % 2 ^ 32 } in
    if t.abort
    then ok (t₁, exit_process ∷ [])
    else if t.kill && is_active t.state
    then kill_instance sc instr_time t₁
    else ok (t₁, [])
