-- ===== src/Task/Instructions.antt =====
-- src/task.cpp: one instance of a task from its first instruction to its end.
use sys_rt.Common.{
  ℕ, zero, suc, ◌+◌, ◌^◌, ◌<◌, ◌≡◌, false, Option, some, List, [], ◌∷◌, ◌++◌, Run, ok, ◌>>=◌, arith,
}
use sys_rt.Sim.{SimTime, cancel, dead_evt}
use sys_rt.Task.{
  Task, tsk_idle, tsk_exec, TaskCall, event, kernel_on_end, instr_schedule, Handled, current,
  is_executing, next_arrival, chk_buff_arrival, on_end_instance, on_instr_end,
}

abbrev pub sum : List ℕ → ℕ
sum [] = 0
sum (x ∷ xs) = x + sum xs

-- The instructions end one after the other, after the given execution times.
abbrev pub complete : SimTime → Option ℕ → List ℕ → Task → Run Handled
complete sc cpu [] t = ok (t, [])
complete sc cpu (x ∷ xs) t =
    on_instr_end sc cpu x t >>= λ r. complete sc cpu xs r.0 >>= λ r'. ok (r'.0, r.1 ++ r'.1)

abbrev pub schedules : ℕ → ℕ → List TaskCall
schedules i zero = []
schedules i (suc n) = instr_schedule i ∷ schedules (i + 1) n

module _ (sc : SimTime) (p : ℕ) where
  -- The end of an instruction that is not the last one.
  pub on_instr_end-next :
      (x : ℕ) (t : Task)
      → t.state ≡ tsk_exec
      → t.act_instr + 1 < t.instr_count
      → t.execd_time + x < 2 ^ 64
      → on_instr_end sc (some p) x t
        ≡ ok (
          record t { execd_time = t.execd_time + x; act_instr = t.act_instr + 1 },
          instr_schedule (t.act_instr + 1) ∷ [],
        )
  unfolding on_instr_end current is_executing
  on_instr_end-next x t e h b = let s = sc.add_exact t.execd_time x b in ground (arith, s)

  pub on_instr_end-last :
      (x : ℕ) (t : Task)
      → t.act_instr + 1 ≡ t.instr_count
      → t.execd_time + x < 2 ^ 64
      → on_instr_end sc (some p) x t
        ≡ ok (
          record t {
            execd_time = t.execd_time + x;
            act_instr = 0;
            last_arrival = t.arrival;
            cpu_of_end = p;
            state = tsk_idle;
            task_exe = false;
          },
          event (cancel (dead_evt t.number)) ∷ kernel_on_end ∷ next_arrival t,
        )
  unfolding on_instr_end current on_end_instance next_arrival chk_buff_arrival
  on_instr_end-last x t h b = let s = sc.add_exact t.execd_time x b in ground (arith, s)
