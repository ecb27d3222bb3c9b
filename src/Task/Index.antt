-- ===== src/Task/Index.antt =====
-- src/task.hpp, task.cpp, rttask.cpp: the constructors of Task and PeriodicTask with the static members task_id
-- and _index, and Task::find. A task is known by its address, and the comparison of the names, which
-- sc_module_name gives by its conversion to a pointer, is a parameter. The random variable of a
-- PeriodicTask is made before its Task and not modelled here.
use sys_rt.Common.{
  ℕ, ◌+◌, ◌-◌, ◌%◌, ◌^◌, ◌<◌, ◌≤◌, ◌≡◌, refl, ◌∙◌, ap, Bool, true, false, not, ◌&&◌, Option, none,
  some, List, [], ◌∷◌, map, arith, ◌==◌, if◌then◌else◌, length, All, All-map, IsDistinct,
  Bool-cases, inl, inr, sym,
}
use sys_rt.Task.{Task, tsk_idle}

-- The arguments of the constructor; `iat` says that the random variable is not NULL.
pub record TaskArgs (K : Type 0) : Type 0 where
  pub iat : Bool
  pub rdl : ℕ
  pub ph : ℕ
  pub max_c : ℕ
  pub name : K
  pub qs : ℕ

pub record TaskClass (K : Type 0) : Type 0 where
  pub task_id : ℕ
  pub index : List (K × ℕ)

-- The flags of deadEvt are false and the processors of the events -1.
unfoldable pub new_task : {K : Type 0} → ℕ → TaskArgs K → Task
new_task id a = record {
  number = id;
  deadline_miss = 0;
  num_jobs = 0;
  iat = a.iat;
  last_arrival = 0;
  phase = a.ph;
  arrival = 0;
  execd_time = 0;
  max_c = a.max_c;
  arr_queue = [];
  arr_queue_size = a.qs % 2 ^ 32;
  state = tsk_idle;
  task_exe = false;
  instr_count = 0;
  act_instr = 0;
  last_sched = 0;
  dl = 0;
  rdl = a.rdl;
  abort = false;
  kill = false;
  cpu_of_end = 2 ^ 32 - 1;
  cpu_of_sched = 2 ^ 32 - 1;
  cpu_of_desched = 2 ^ 32 - 1;
  cpu_of_dead = 2 ^ 32 - 1;
}

-- The arguments that the constructors of PeriodicTask pass on.
unfoldable pub periodic : {K : Type 0} → ℕ → ℕ → K → ℕ → TaskArgs K
periodic rdl ph name qs = record { iat = true; rdl = rdl; ph = ph; max_c = 0; name = name; qs = qs }

unfoldable pub periodic_by_default : {K : Type 0} → K → ℕ → TaskArgs K
unfolding periodic
periodic_by_default no_name iat = periodic iat 0 no_name 1000

All-of_map :
    {A : Type 0} (Q : ℕ → Type 0) (f : A → ℕ) (xs : List A)
    → All (λ x. Q (f x)) xs
    → All Q (map f xs)
All-of_map Q f [] h = tt
All-of_map Q f (x ∷ xs) h = (h.0, All-of_map Q f xs h.1)

module _ {K : Type 0} (less : K → K → Bool) where
  -- Neither comes before the other, which is one key for the map.
  unfoldable pub same_key : K → K → Bool
  same_key a b = not (less a b) && not (less b a)

  unfoldable pub index_find : List (K × ℕ) → K → Option ℕ
  unfolding same_key
  index_find [] name = none
  index_find ((k, t) ∷ entries) name =
      let rest = index_find entries name in if same_key k name then some t else rest

  -- An entry keeps its key when it gets another task.
  unfoldable pub index_put : List (K × ℕ) → K → ℕ → List (K × ℕ)
  unfolding same_key
  index_put [] name t = (name, t) ∷ []
  index_put ((k, t') ∷ entries) name t =
      let rest = index_put entries name t in
      if same_key k name then (k, t) ∷ entries else (k, t') ∷ rest

  unfoldable pub find : TaskClass K → K → Option ℕ
  unfolding index_find
  find c name = index_find c.index name

  -- The counter is an int; `this` is the address of the task.
  unfoldable pub make_task : TaskClass K → ℕ → TaskArgs K → TaskClass K × Task
  unfolding index_put new_task
  make_task c this a = (
    record { task_id = (c.task_id + 1) % 2 ^ 32; index = index_put c.index a.name this },
    new_task c.task_id a,
  )

  -- Tasks made one after the other.
  abbrev pub make_all : TaskClass K → List (ℕ × TaskArgs K) → TaskClass K × List Task
  make_all c [] = (c, [])
  make_all c ((this, a) ∷ others) =
      let (c₁, t) = make_task c this a in let (c₂, ts) = make_all c₁ others in (c₂, t ∷ ts)

  -- The last task that was made with the name, or else the one before them.
  abbrev pub latest : K → List (ℕ × TaskArgs K) → Option ℕ → Option ℕ
  latest name [] before = before
  latest name ((this, a) ∷ others) before =
      latest name others (if same_key a.name name then some this else before)

  -- A task as the kernel wants it at the start.
  abbrev pub IsFresh : Task → Type 0
  IsFresh t = (t.state ≡ tsk_idle) × (t.task_exe ≡ false) × (t.arr_queue ≡ [])

  same_key_comm : (a b : K) → same_key a b ≡ same_key b a
  unfolding same_key
  same_key_comm a b = ground arith

  module _ (one_key : (a b : K) → same_key a b ≡ true → (c : K) → same_key a c ≡ same_key b c) where
    find-put :
        (entries : List (K × ℕ)) (name k : K) (t : ℕ)
        → index_find (index_put entries name t) k
          ≡ (if same_key name k then some t else index_find entries k)
    unfolding index_find index_put
    find-put [] name k t = refl
    find-put ((k', t') ∷ entries) name k t = elim (Bool-cases (same_key k' name)) [
      | inl one ↦ elim (Bool-cases (same_key k' k)) [
        | inl found ↦ simp (one, found, sym (one_key k' name one k))
        | inr other ↦ simp (one, other, sym (one_key k' name one k))
      ]
      | inr two ↦ elim (Bool-cases (same_key k' k)) [
        | inl found ↦
            let apart : same_key name k ≡ false =
              same_key_comm name k ∙ sym (one_key k' k found name) ∙ two in
            simp (two, found, apart)
        | inr other ↦ simp (two, other, find-put entries name k t)
      ]
    ]

    find-make_all :
        (args : List (ℕ × TaskArgs K)) (c : TaskClass K) (name : K)
        → find (make_all c args).0 name ≡ latest name args (find c name)
    unfolding find make_task
    find-make_all [] c name = refl
    find-make_all ((this, a) ∷ others) c name =
        find-make_all others (make_task c this a).0 name
        ∙ ap (latest name others) (find-put c.index a.name name this)

  make_all-numbers :
      (args : List (ℕ × TaskArgs K)) (c : TaskClass K)
      → c.task_id + length args < 2 ^ 31
      → All (λ t. c.task_id ≤ t.number) (make_all c args).1
        × IsDistinct (map (λ t. t.number) (make_all c args).1)
  unfolding make_task new_task
  make_all-numbers [] c b = (tt, tt)
  make_all-numbers ((this, a) ∷ others) c b =
      let c₁ = (make_task c this a).0 in
      let next : c₁.task_id ≡ c.task_id + 1 = omega (arith, b) in
      let (low, apart) = make_all-numbers others c₁ (omega (arith, b, next)) in
      (
        (
          omega arith,
          All-map (λ t. c₁.task_id ≤ t.number) (λ t. c.task_id ≤ t.number) (make_all c₁ others).1
              (λ t h. omega (arith, h, next)) low,
        ),
        (
          All-of_map (λ n. (c.task_id == n) ≡ false) (λ t. t.number) (make_all c₁ others).1
              (All-map (λ t. c₁.task_id ≤ t.number) (λ t. (c.task_id == t.number) ≡ false)
                (make_all c₁ others).1 (λ t h. ground (arith, h, next)) low),
          apart,
        ),
      )

  make_all-IsFresh :
      (args : List (ℕ × TaskArgs K)) (c : TaskClass K) → All IsFresh (make_all c args).1
  unfolding make_task new_task
  make_all-IsFresh [] c = tt
  make_all-IsFresh ((this, a) ∷ others) c =
      ((refl, refl, refl), make_all-IsFresh others (make_task c this a).0)

  -- For names of which those that are one key compare alike with any other, and a counter that
  -- the tasks to be made do not bring to 2^31, the tasks that are made one after the other have
  -- distinct numbers and are idle, without an arrival buffered, and find then gives for each name
  -- the last task made with it, or what it gave before.
  pub make_all-Fresh :
      (args : List (ℕ × TaskArgs K)) (c : TaskClass K)
      → ((a b : K) → same_key a b ≡ true → (z : K) → same_key a z ≡ same_key b z)
      → c.task_id + length args < 2 ^ 31
      → IsDistinct (map (λ t. t.number) (make_all c args).1)
        × All IsFresh (make_all c args).1
        × ((name : K) → find (make_all c args).0 name ≡ latest name args (find c name))
  make_all-Fresh args c one_key b =
      ((make_all-numbers args c b).1, make_all-IsFresh args c, find-make_all one_key args c)
