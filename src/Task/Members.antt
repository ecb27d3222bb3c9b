-- ===== src/Task/Members.antt =====
-- src/task.cpp, task.hpp: the members of Task that no event calls.
use sys_rt.Common.{ℕ, ◌+◌, Bool, List, [], ◌∷◌, if◌then◌else◌, ◌==◌}
use sys_rt.Sim.{SimTime, notify, notify_after, cancel, arr_evt}
use sys_rt.Task.{Task, TaskCall, event}

unfoldable pub activate : Task → List TaskCall
activate t = event (cancel (arr_evt t.number)) ∷ event (notify (arr_evt t.number)) ∷ []

unfoldable pub activate_after : ℕ → Task → List TaskCall
activate_after d t =
    event (cancel (arr_evt t.number)) ∷ event (notify_after (arr_evt t.number) d) ∷ []

-- `wcets` are the times that getWCET of each instruction gives.
unfoldable pub sum_wcets : SimTime → List ℕ → ℕ → ℕ
sum_wcets sc [] tt = tt
sum_wcets sc (w ∷ ws) tt = sum_wcets sc ws (sc.add tt w)

unfoldable pub get_wcet : SimTime → List ℕ → Task → ℕ
unfolding sum_wcets
get_wcet sc wcets t = if t.max_c == 0 then sum_wcets sc wcets 0 else t.max_c

unfoldable pub add_instr : Task → Task
add_instr t = record t { instr_count = t.instr_count + 1 }

unfoldable pub discard_instrs : Task → Task
discard_instrs t = record t { instr_count = 0 }

unfoldable pub reset_instr_queue : Task → Task
reset_instr_queue t = record t { act_instr = 0 }

unfoldable pub kill_on_miss : Bool → Task → Task
kill_on_miss kill t = record t { kill = kill }
