-- ===== src/Scheduler/Selection.antt =====
-- Which task getFirst and getTaskN give, under each policy.
use sys_rt.Common.{
  List-cases, ℕ, ◌≤◌, ◌≡◌, sym, subst, ◌↔◌, ◌⊎◌, inl, inr, true, false, none, some, List, [], ◌∷◌,
  arith, leb, Bool-cases, mem, get_elem?, get_elem?-ge, length,
}
use sys_rt.PList
use sys_rt.PList.Order.{Sorted-head}
use sys_rt.TaskModel.{TaskAttrs, edf_model, get_priority, precedes}
use sys_rt.TaskModel.Order.{Lexicographic, task_model_cmp_iff}
use sys_rt.Scheduler.{Scheduler, get_task_n, get_first}
use sys_rt.Scheduler.Invariant.{IsValid}

-- A task that can run: it is known and its model is active.
abbrev pub IsReady : Scheduler → ℕ → Type 0
IsReady s t = (s.registered t ≡ true) × ((s.model t).active ≡ true)

get_first-head : (s : Scheduler) (t : ℕ) (rest : List ℕ) → s.queue ≡ t ∷ rest → get_first s ≡ some t
unfolding get_first get_task_n PList.size
get_first-head s t rest e = rw e (ground arith)

get_first-nil : (s : Scheduler) → s.queue ≡ [] → get_first s ≡ none
unfolding get_first get_task_n PList.size
get_first-nil s e = rw e (ground arith)

-- How the order of the queue reads: lower priority value, earlier insertion, lower number.
abbrev pub Outranks : (ℕ → TaskAttrs) → Scheduler → ℕ → ℕ → Type 0
Outranks env s t z =
    Lexicographic (get_priority (env t) (s.model t).policy) (s.model t).insert_time
      (env t).task_number (get_priority (env z) (s.model z).policy) (s.model z).insert_time
      (env z).task_number

Outranks-of :
    (env : ℕ → TaskAttrs) (s : Scheduler) (t z : ℕ)
    → precedes env s.model t z ≡ true
    → Outranks env s t z
unfolding precedes
Outranks-of env s t z h = (task_model_cmp_iff (env t) (env z) (s.model t) (s.model z)).0 h

-- On a valid ready queue, what getFirst gives is a ready task, and it is or outranks every other
-- ready task.
pub get_first-Outranks :
    (env : ℕ → TaskAttrs) (s : Scheduler) (t : ℕ)
    → IsValid env s
    → get_first s ≡ some t
    → IsReady s t × ((z : ℕ) → IsReady s z → (t ≡ z) ⊎ Outranks env s t z)
get_first-Outranks env s t v h = elim (List-cases s.queue) [
  | inl e ↦ absurd (ground (arith, get_first-nil s e))
  | inr (a, r, e) ↦
      let same : a ≡ t = ground (arith, get_first-head s a r e) in
      let shape : s.queue ≡ t ∷ r = rw same at e in
      (
        v.queued t (rw shape (ground arith)),
        λ z ready.
            elim (Sorted-head (precedes env s.model) t z r (rw shape at v.sorted)
              (rw shape at (v.listed z ready.0 ready.1))) [
                | inl p ↦ inl p
                | inr p ↦ inr (Outranks-of env s t z p)
              ],
      )
]

-- On a valid queue, getFirst gives NULL exactly when no task is ready.
pub get_first-none :
    (env : ℕ → TaskAttrs) (s : Scheduler)
    → IsValid env s
    → (get_first s ≡ none) ↔ ((z : ℕ) → ¬ IsReady s z)
get_first-none env s v = (
  λ h z ready. elim (List-cases s.queue) [
    | inl e ↦ clash z (rw e at (v.listed z ready.0 ready.1))
    | inr (a, r, e) ↦ ground (arith, get_first-head s a r e)
  ],
  λ h. elim (List-cases s.queue) [
    | inl e ↦ get_first-nil s e
    | inr (a, r, e) ↦ absurd (h a (v.queued a (rw e (ground arith))))
  ],
)
  where
    clash : (z : ℕ) → mem z [] ≡ true → ⊥
    clash z m = ground arith

-- On a valid queue of EDF models without an imposed priority, the deadline of the first task is
-- at most that of every ready task.
pub edf-least_deadline :
    (env : ℕ → TaskAttrs) (s : Scheduler) (t : ℕ)
    → IsValid env s
    → ((z : ℕ) → (prio : ℕ) × ((s.model z).policy ≡ edf_model false prio))
    → get_first s ≡ some t
    → (z : ℕ) → IsReady s z
    → (env t).deadline ≤ (env z).deadline
unfolding get_priority
edf-least_deadline env s t v edf h z ready = elim ((get_first-Outranks env s t v h).1 z ready) [
  | inl e ↦ subst (λ y. (env t).deadline ≤ (env y).deadline) e (omega arith)
  | inr o ↦ least (rw ((edf t).1, (edf z).1) at o)
]
  where
    least :
        Lexicographic
          (env t).deadline
          (s.model t).insert_time
          (env t).task_number
          (env z).deadline
          (s.model z).insert_time
          (env z).task_number
        → (env t).deadline ≤ (env z).deadline
    least o = ground arith

-- getTaskN is the n-th element of the queue, and NULL from its size on.
pub get_task_n-get_elem? : (s : Scheduler) (n : ℕ) → get_task_n s n ≡ get_elem? s.queue n
unfolding get_task_n PList.size
get_task_n-get_elem? s n = elim (Bool-cases (leb (length s.queue) n)) [
  | inl e ↦ rw e (sym (get_elem?-ge s.queue n (ground arith)))
  | inr e ↦ rw e
]
