-- ===== src/Tests/Parts.antt =====
-- The theorems of the task, its instructions, the parser and the random variables, at small inputs.
use sys_rt.Common.{
  ℕ, ◌↔◌, take, mem, All, Bool-cases, inl, inr, sym, ◌∙◌, subst, ◌==◌, ◌+◌, ◌-◌, ◌*◌, ◌%◌, ◌<◌, ◌≡◌,
  refl, true, false, none, some, [], ◌∷◌, ◌++◌, ok, arith, Returns,
}
use sys_rt.Sim.{notify_after, instr_end_evt}
use sys_rt.ExecInstr
use sys_rt.ExecInstr.{ExecInstr}
use sys_rt.ExecInstr.Accounting.{preempted, on_end-preempted}
use sys_rt.Task.{is_active}
use sys_rt.Task.Arrivals.{arrivals-take, arrivals, rounds, rounds-arrivals}
use sys_rt.StrToken.{split_param_from}
use sys_rt.StrToken.Open.{split_param_from-unclosed}
use sys_rt.RandomVar.{sample, multiplier, modulus}
use sys_rt.RandomVar.Congruence.{sample-congruence}
use sys_rt.Interrupt.{Interrupt}
use sys_rt.Interrupt.Burst.{triggers, shot, shots, triggers-shots}
use sys_rt.DagNode.{Graph, add_child_task, on_end_instance}
use sys_rt.DagNode.Precedence.{finished, notifies, on_end_instance-IsBehind}
use sys_rt.Tests.Samples.{clock, running}

abbrev idle_instr : ExecInstr
idle_instr = record {
  flag = true;
  execd_time = 0;
  current_cost = 0;
  act_time = 0;
  last_time = 0;
  executing = false;
}

on_end-preempted_example :
    let r =
      ExecInstr.schedule clock 7 20 10 (preempted clock 7 10 ((3, 2) ∷ (8, 4) ∷ []) idle_instr) in
    (r.1 ≡ notify_after (instr_end_evt 7) (10 - 6) ∷ [])
    × ((ExecInstr.on_end clock 7 (20 + (10 - 6)) r.0).0.execd_time ≡ 10)
on_end-preempted_example =
    on_end-preempted clock 7 10 idle_instr ((3, 2) ∷ (8, 4) ∷ []) 20 refl
      (omega arith, (omega arith, tt)) (omega arith) (omega arith) (omega arith)

arrivals-take_example :
    (arrivals clock 0 (9 ∷ 12 ∷ 15 ∷ []) running).arr_queue ≡ take (1 + 1) ([] ++ 9 ∷ 12 ∷ 15 ∷ [])
unfolding is_active
arrivals-take_example =
    arrivals-take clock 0 (9 ∷ 12 ∷ 15 ∷ []) running refl (omega arith) (omega arith)

rounds-arrivals_example :
    rounds clock (some 0) (30 ∷ 40 ∷ []) (arrivals clock 0 (9 ∷ 12 ∷ []) running) ≡ ok (9 ∷ 12 ∷ [])
unfolding is_active
rounds-arrivals_example =
    rounds-arrivals clock 0 0 (30 ∷ 40 ∷ []) (9 ∷ 12 ∷ []) running refl refl (omega arith)
      (omega arith) refl

-- "a(b" never ends.
split_param_from-unclosed_example : split_param_from 1000 44 40 41 (97 ∷ 40 ∷ 98 ∷ []) 0 ≡ none
split_param_from-unclosed_example =
    split_param_from-unclosed 44 40 41 (97 ∷ 40 ∷ 98 ∷ []) 1 refl refl (omega arith)
      (refl, (refl, (refl, tt))) 1000 0 (omega arith)

sample-congruence_example :
    let r = sample (record { seed = 1; xn = 12345 }) in
    (r.1 ≡ (multiplier * 12345) % modulus) × (r.0.xn ≡ r.1) × (0 < r.1) × (r.1 < modulus)
sample-congruence_example =
    sample-congruence (record { seed = 1; xn = 12345 }) (omega arith) (omega arith)

abbrev bursty : Interrupt
bursty = record { id = 3; tasks = 4 ∷ []; bp = 2; count = 0; max_act = 2 }

triggers-shots_example :
    triggers ((7, 7) ∷ (50, 3) ∷ []) bursty
    ≡ (record bursty { count = 0; max_act = 3 }, shots bursty ((7, 7) ∷ []) ++ shot bursty 50)
triggers-shots_example = triggers-shots ((7, 7) ∷ []) 50 3 bursty refl (omega arith)

-- Task 0 has finished three jobs and runs the next one; its child, task 1, has finished two.
abbrev edge : Graph
edge =
    add_child_task
      (λ x. record {
        task = record running { number = x };
        parents = [];
        children = [];
        job_index = 3 - x;
      })
      0 1

edge_number : (a : ℕ) → (edge a).task.number ≡ a
unfolding add_child_task
edge_number a = elim (Bool-cases (1 == a)) [
  | inl one ↦ let e : 1 ≡ a = ground arith in subst (λ y. (edge y).task.number ≡ y) e refl
  | inr other ↦ elim (Bool-cases (0 == a)) [
    | inl nought ↦ let e : 0 ≡ a = ground arith in subst (λ y. (edge y).task.number ≡ y) e refl
    | inr apart ↦ rw (other, apart) refl
  ]
]

on_end_instance-IsBehind_example :
    Returns
      (λ r.
        ((z : ℕ) → (r.0 z).job_index ≡ finished edge 0 z)
        × ((c : ℕ)
            → (0 == c) ≡ false
            → (notifies (edge c).task.number r.1 ≡ true) ↔ (
                (mem c (edge 0).children ≡ true)
                × All (λ z. (edge c).job_index < finished edge 0 z) (edge c).parents)))
      (on_end_instance (some 2) edge 0)
unfolding add_child_task
on_end_instance-IsBehind_example =
    on_end_instance-IsBehind 2 edge 0 refl (omega arith)
      (λ a b h. sym (edge_number a) ∙ h ∙ edge_number b)
