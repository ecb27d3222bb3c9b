-- ===== src/Factory/Code.antt =====
-- src/task.cpp: Task::insertCode.
use sys_rt.Common.{
  ℕ, Option, List, [], ◌∷◌, ◌++◌, Run, ok, throw, fault, hang, ◌>>=◌, or_throw, out_of_range,
}
use sys_rt.StrToken.{split_instr, get_token, get_param}
use sys_rt.Factory.{create}
use sys_rt.Factory.Variables.{Outside, open_par, close_par, split}
use sys_rt.Factory.Instructions.{Instr, instr_registry}

module _ {T D : Type 0} (o : Outside T D) where
  -- One iteration up to addInstr, for the task with the name.
  unfoldable pub make_instr : List ℕ → List ℕ → Run (Option (Instr T D))
  unfolding get_token get_param split create instr_registry
  make_instr name instr = do
    token ← or_throw (get_token open_par instr) out_of_range
    par_list ← split (get_param open_par close_par instr)
    create (instr_registry o) token (par_list ++ name ∷ [])

  -- The instruction queue afterwards, and how the loop ends.
  unfoldable pub insert_instrs :
      List ℕ → List (Option (Instr T D)) → List (List ℕ) → List (Option (Instr T D)) × Run {0} Unit
  unfolding make_instr
  insert_instrs name queue [] = (queue, ok tt)
  insert_instrs name queue (i ∷ is) = elim (make_instr name i) [
    | ok curr ↦ insert_instrs name (queue ++ curr ∷ []) is
    | throw e ↦ (queue, throw e)
    | fault ↦ (queue, fault)
    | hang ↦ (queue, hang)
  ]

  unfoldable pub insert_code :
      List ℕ → List (Option (Instr T D)) → List ℕ → List (Option (Instr T D)) × Run {0} Unit
  unfolding split_instr insert_instrs
  insert_code name queue code = insert_instrs name queue (split_instr code)
