-- ===== src/DagNode.antt =====
-- src/dagnode.hpp, dagnode.cpp: DagNode, a task that is a node of a graph and runs once its parents have.
-- Nodes are numbers, and the graph gives the object of each.
pub mod Precedence
use sys_rt.Common.{
  ℕ, ◌+◌, ◌%◌, ◌^◌, ◌≡◌, Bool, true, false, not, ◌&&◌, ◌||◌, Option, none, some, List, [], ◌∷◌,
  ◌++◌, map, Run, ok, throw, empty_task, task_not_active, task_not_executing, ◌>>=◌, deref,
  if◌then◌else◌, update, leb, ltb, ◌==◌,
}
use sys_rt.Sim.{SimTime, EventCall, notify, notify_after, cancel, arr_evt, dead_evt}
use sys_rt.Task.{
  Task, tsk_idle, TaskCall, event, kernel_on_arrival, kernel_on_end, is_active, is_executing,
  handle_arrival, buff_arrival, reactivate, next_arrival,
}

pub record DagNode : Type 0 where
  pub task : Task
  pub parents : List ℕ
  pub children : List ℕ
  pub job_index : ℕ

abbrev pub Graph : Type 0
Graph = ℕ → DagNode

unfoldable pub add_parent_task_only : Graph → ℕ → ℕ → Graph
add_parent_task_only g n parent =
    update g n (record (g n) { parents = (g n).parents ++ parent ∷ [] })

unfoldable pub add_children_task_only : Graph → ℕ → ℕ → Graph
add_children_task_only g n child =
    update g n (record (g n) { children = (g n).children ++ child ∷ [] })

unfoldable pub add_child_task : Graph → ℕ → ℕ → Graph
unfolding add_children_task_only add_parent_task_only
add_child_task g n child = add_parent_task_only (add_children_task_only g n child) child n

unfoldable pub add_parent_task : Graph → ℕ → ℕ → Graph
unfolding add_children_task_only add_parent_task_only
add_parent_task g n parent = add_children_task_only (add_parent_task_only g n parent) parent n

unfoldable pub is_source_task : DagNode → Bool
is_source_task d = elim d.parents [ [] ↦ true | p ∷ ps ↦ false ]

unfoldable pub is_sink_task : DagNode → Bool
is_sink_task d = elim d.children [ [] ↦ true | c ∷ cs ↦ false ]

-- The loop over the parents.
unfoldable pub parents_done : Graph → ℕ → List ℕ → Bool
parents_done g job_index [] = true
parents_done g job_index (p ∷ ps) =
    let rest = parents_done g job_index ps in if leb (g p).job_index job_index then false else rest

unfoldable pub check_parents_job : Graph → ℕ → Bool
unfolding parents_done
check_parents_job g n = parents_done g (g n).job_index (g n).parents

unfoldable pub activate : Graph → ℕ → List TaskCall
unfolding is_source_task check_parents_job
activate g n =
    if is_source_task (g n) || check_parents_job g n
    then event (cancel (arr_evt (g n).task.number))
      ∷ event (notify (arr_evt (g n).task.number))
      ∷ []
    else []

unfoldable pub activate_chilren : Graph → List ℕ → List TaskCall
unfolding activate
activate_chilren g [] = []
activate_chilren g (c ∷ cs) = activate g c ++ activate_chilren g cs

unfoldable pub new_run : DagNode → Run (DagNode × List TaskCall)
unfolding is_source_task
new_run d =
    if d.task.instr_count == 0
    then throw empty_task
    else ok (
      record d {
        task = record d.task {
          act_instr = 0;
          state = tsk_idle;
          task_exe = false;
          last_arrival = d.task.phase;
          arrival = d.task.phase;
          dl = 0;
        };
      },
      if d.task.iat && is_source_task d
          then event (notify_after (arr_evt d.task.number) d.task.phase) ∷ []
          else [],
    )

-- `deadEvt.cancel()` comes before the tests that throw.
unfoldable pub on_end_instance : Option ℕ → Graph → ℕ → Run (Graph × List TaskCall)
unfolding is_active is_executing activate_chilren next_arrival
on_end_instance cpu g n =
    let t = (g n).task in
    if not (is_active t.state)
    then throw task_not_active
    else if not (is_executing t.state)
    then throw task_not_executing
    else (do
      p ← deref cpu
      let t₁ = record t {
        act_instr = 0;
        last_arrival = t.arrival;
        cpu_of_end = p;
        state = tsk_idle;
        task_exe = false;
      }
      let g₁ = update g n (record (g n) { task = t₁; job_index = ((g n).job_index + 1) % 2 ^ 64 })
      ok (
        g₁,
        event (cancel (dead_evt t.number)) ∷ kernel_on_end ∷ activate_chilren g₁ (g n).children
            ++ next_arrival t,
      ))

unfoldable pub on_arrival : SimTime → ℕ → ℕ → DagNode → DagNode × List TaskCall
unfolding is_active handle_arrival buff_arrival reactivate is_source_task
on_arrival sc iat_sample now d =
    let again = if is_source_task d then reactivate iat_sample d.task else [] in
    if not (is_active d.task.state)
    then (
      record d { task = (handle_arrival sc now now d.task).0 },
      (handle_arrival sc now now d.task).1 ++ kernel_on_arrival ∷ [] ++ again,
    )
    else (
      record d { task = buff_arrival now d.task },
      event (notify (dead_evt d.task.number)) ∷ [] ++ again,
    )
