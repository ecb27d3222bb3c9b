-- ===== src/DagNode/Precedence.antt =====
-- src/dagnode.cpp: when the end of a job activates a child.
use sys_rt.Common.{
  All-map, List-cases, ℕ, ◌+◌, ◌%◌, ◌^◌, ◌<◌, ◌≡◌, ◌↔◌, refl, sym, ◌∙◌, ap, subst, inl, inr, true,
  false, some, List, [], ◌∷◌, arith, update, ◌==◌, mem, Bool, ◌||◌, ◌&&◌, ◌++◌, ==_refl, if_both,
  if◌then◌else◌, Bool-cases, All, Returns,
}
use sys_rt.Sim.{notify, arr_evt}
use sys_rt.Task.{
  Task, TaskCall, next_arrival, chk_buff_arrival, tsk_exec, is_active, is_executing, event,
}
use sys_rt.DagNode.{
  is_source_task, activate_chilren, DagNode, Graph, parents_done, check_parents_job, activate,
  on_end_instance,
}

-- The node has finished fewer jobs than each of the given ones.
abbrev pub IsBehind : Graph → ℕ → List ℕ → Type 0
IsBehind g job_index ps = All (λ p. job_index < (g p).job_index) ps

parents_done_iff :
    (g : Graph) (job_index : ℕ) (ps : List ℕ)
    → (parents_done g job_index ps ≡ true) ↔ IsBehind g job_index ps
unfolding parents_done
parents_done_iff g j [] = (λ h. tt, λ h. refl)
parents_done_iff g j (p ∷ ps) = (
  λ h. (ground arith, (parents_done_iff g j ps).0 (ground arith)),
  λ h. let rest = (parents_done_iff g j ps).1 h.1 in ground arith,
)

abbrev pub is_arrival : ℕ → TaskCall → Bool
is_arrival x (event (notify (arr_evt m))) = x == m
is_arrival x _ = false

-- The arrival event with the number x is notified.
abbrev pub notifies : ℕ → List TaskCall → Bool
notifies x [] = false
notifies x (c ∷ cs) = is_arrival x c || notifies x cs

notifies-append :
    (x : ℕ) (xs ys : List TaskCall) → notifies x (xs ++ ys) ≡ (notifies x xs || notifies x ys)
notifies-append x [] ys = refl
notifies-append x (c ∷ cs) ys = ground (arith, notifies-append x cs ys)

-- What activate tests.
abbrev is_ready : Graph → ℕ → Bool
is_ready g c = is_source_task (g c) || check_parents_job g c

is_ready_iff :
    (g : Graph) (c : ℕ) → (is_ready g c ≡ true) ↔ IsBehind g (g c).job_index (g c).parents
unfolding is_source_task check_parents_job
is_ready_iff g c =
    let done = parents_done_iff g (g c).job_index (g c).parents in
    elim (List-cases (g c).parents) [
      | inl none_there ↦ rw none_there ((λ h. tt), (λ h. refl))
      | inr (p, ps, some_there) ↦
          let no_source : is_source_task (g c) ≡ false = rw some_there refl in rw no_source done
    ]

activate-notifies :
    (g : Graph) (x c : ℕ) → notifies x (activate g c) ≡ (is_ready g c && (x == (g c).task.number))
unfolding activate
activate-notifies g x c = elim (Bool-cases (is_ready g c)) [
  | inl on ↦ rw on (ground arith)
  | inr off ↦ rw off refl
]

abbrev pub IsNamed : Graph → Type 0
IsNamed g = (a b : ℕ) → (g a).task.number ≡ (g b).task.number → a ≡ b

activate_chilren-notifies :
    (g : Graph) (c : ℕ) (cs : List ℕ)
    → IsNamed g
    → notifies (g c).task.number (activate_chilren g cs) ≡ (mem c cs && is_ready g c)
unfolding activate_chilren
activate_chilren-notifies g c [] named = refl
activate_chilren-notifies g c (d ∷ ds) named =
    notifies-append (g c).task.number (activate g d) (activate_chilren g ds)
    ∙ elim (Bool-cases (d == c)) [
      | inl same ↦
          let e : d ≡ c = ground arith in
          let head : notifies (g c).task.number (activate g d) ≡ is_ready g c =
            subst (λ y. notifies (g c).task.number (activate g y) ≡ is_ready g c) (sym e)
              (activate-notifies g (g c).task.number c
                ∙ rw (==_refl (g c).task.number) (ground arith)) in
          rw (head, same, activate_chilren-notifies g c ds named) (ground arith)
      | inr other ↦
          let apart : ((g c).task.number == (g d).task.number) ≡ false =
            ground (arith, named c d) in
          rw
            (
              activate-notifies g (g c).task.number d,
              apart,
              other,
              activate_chilren-notifies g c ds named,
            )
            (ground arith)
    ]

-- The jobs that each node has finished, when n has finished one more.
abbrev pub finished : Graph → ℕ → ℕ → ℕ
finished g n z = if n == z then (g n).job_index + 1 else (g z).job_index

finished-update :
    (g : Graph) (n : ℕ) (d : DagNode)
    → d.job_index ≡ (g n).job_index + 1
    → (z : ℕ) → (update g n d z).job_index ≡ finished g n z
finished-update g n d e z = elim (Bool-cases (n == z)) [
  | inl same ↦ rw same e
  | inr other ↦ rw other refl
]

IsNamed-update :
    (g : Graph) (n : ℕ) (d : DagNode)
    → d.task.number ≡ (g n).task.number
    → IsNamed g
    → IsNamed (update g n d)
IsNamed-update g n d e named a b h = named a b (sym (kept a) ∙ h ∙ kept b)
  where
    kept : (z : ℕ) → (update g n d z).task.number ≡ (g z).task.number
    kept z = elim (Bool-cases (n == z)) [
      | inl same ↦ let q : n ≡ z = ground arith in rw same (e ∙ ap (λ y. (g y).task.number) q)
      | inr other ↦ rw other refl
    ]

-- Another node's arrival is notified by the calls of the handler exactly if it is a child that is ready.
children_notified :
    (g : Graph) (n c : ℕ) (d : DagNode) (t : Task)
    → IsNamed g
    → d.task.number ≡ (g n).task.number
    → d.job_index ≡ (g n).job_index + 1
    → (n == c) ≡ false
    → (notifies (g c).task.number (activate_chilren (update g n d) (g n).children ++ next_arrival t)
        ≡ true)
      ↔ ((mem c (g n).children ≡ true) × All (λ z. (g c).job_index < finished g n z) (g c).parents)
unfolding next_arrival
children_notified g n c d t named e j other =
    let g' = update g n d in
    let kept : g' c ≡ g c = rw other refl in
    let no_fake : notifies (g c).task.number (next_arrival t) ≡ false =
      if_both {A = List TaskCall} (λ cs. notifies (g c).task.number cs ≡ false) (chk_buff_arrival t)
        (λ _. refl) (λ _. refl) in
    let told : notifies (g c).task.number (activate_chilren g' (g n).children)
        ≡ (mem c (g n).children && is_ready g' c) =
      subst
        (λ y.
          notifies y.task.number (activate_chilren g' (g n).children)
          ≡ (mem c (g n).children && is_ready g' c))
        kept (activate_chilren-notifies g' c (g n).children (IsNamed-update g n d e named)) in
    let behind : (is_ready g' c ≡ true) ↔ IsBehind g' (g c).job_index (g c).parents =
      subst (λ y. (is_ready g' c ≡ true) ↔ IsBehind g' y.job_index y.parents) kept
        (is_ready_iff g' c) in
    let all : notifies (g c).task.number (activate_chilren g' (g n).children ++ next_arrival t)
        ≡ (mem c (g n).children && is_ready g' c) =
      notifies-append (g c).task.number (activate_chilren g' (g n).children) (next_arrival t)
      ∙ rw (told, no_fake) (ground arith) in
    (
      λ h. (
        ground (arith, all, h),
        All-map (λ z. (g c).job_index < (g' z).job_index) (λ z. (g c).job_index < finished g n z)
            (g c).parents (λ z b. omega (arith, b, finished-update g n d j z))
            (behind.0 (ground (arith, all, h))),
      ),
      λ h.
          let on : is_ready g' c ≡ true = behind.1 (
            All-map (λ z. (g c).job_index < finished g n z)
              (λ z. (g c).job_index < (g' z).job_index) (g c).parents
              (λ z b. omega (arith, b, finished-update g n d j z)) h.1) in
          ground (arith, all, h.0, on),
    )

-- If a node that is executing ends an instance, its job index plus one is below 2^64, and the
-- tasks of the nodes have distinct numbers, then the handler returns with one more job of that
-- node finished and the others as they were, and it notifies the arrival event of another node
-- exactly if that one is a child of the node and each of its parents, the node with its new job,
-- has finished more jobs than it.
pub on_end_instance-IsBehind :
    (p : ℕ) (g : Graph) (n : ℕ)
    → (g n).task.state ≡ tsk_exec
    → (g n).job_index + 1 < 2 ^ 64
    → IsNamed g
    → Returns
        (λ r.
          ((z : ℕ) → (r.0 z).job_index ≡ finished g n z)
          × ((c : ℕ)
              → (n == c) ≡ false
              → (notifies (g c).task.number r.1 ≡ true) ↔ (
                  (mem c (g n).children ≡ true)
                  × All (λ z. (g c).job_index < finished g n z) (g c).parents)))
        (on_end_instance (some p) g n)
unfolding on_end_instance is_active is_executing
on_end_instance-IsBehind p g n runs small named =
    let next : ((g n).job_index + 1) % 2 ^ 64 ≡ (g n).job_index + 1 = omega arith in
    rw runs (
      finished-update g n _ next,
      λ c other. children_notified g n c _ (g n).task named refl next other,
    )
