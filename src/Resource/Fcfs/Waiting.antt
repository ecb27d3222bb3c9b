-- ===== src/Resource/Fcfs/Waiting.antt =====
-- FCFSResManager with RTKernel: the tasks that wait for a resource are those that it has suspended.
use sys_rt.Common.{
  ℕ, ◌≡◌, refl, ◌⊎◌, inl, inr, true, false, List, [], ◌∷◌, ◌++◌, arith, ◌==◌, Bool-cases, mem,
}
use sys_rt.Scheduler.{Scheduler}
use sys_rt.Resource.Fcfs.{Fcfs}
use sys_rt.Resource.Fcfs.Line.{IsSound}

-- No number twice.
abbrev pub Distinct : List ℕ → Type 0
Distinct [] = Unit {0}
Distinct (x ∷ xs) = (mem x xs ≡ false) × Distinct xs

pub mem-snoc : (a t : ℕ) (xs : List ℕ) → mem a (xs ++ t ∷ []) ≡ true → (mem a xs ≡ true) ⊎ (t ≡ a)
mem-snoc a t [] m = inr (ground arith)
mem-snoc a t (x ∷ xs) m = ground (arith, mem-snoc a t xs)

not_mem-snoc :
    (a t : ℕ) (xs : List ℕ) → mem a xs ≡ false → (t == a) ≡ false → mem a (xs ++ t ∷ []) ≡ false
not_mem-snoc a t [] h e = ground arith
not_mem-snoc a t (x ∷ xs) h e = ground (arith, not_mem-snoc a t xs)

pub Distinct-snoc : (t : ℕ) (xs : List ℕ) → Distinct xs → mem t xs ≡ false → Distinct (xs ++ t ∷ [])
Distinct-snoc t [] d h = (refl, tt)
Distinct-snoc t (x ∷ xs) d h =
    (not_mem-snoc x t xs d.0 (ground arith), Distinct-snoc t xs d.1 (ground arith))

-- Every resource is sound, and a task that waits is known, out of the ready queue, and in one place
-- of one line.
pub record Waits (s : Scheduler) (m : Fcfs) : Type 0 where
  pub sound : (r : ℕ) → IsSound m r
  pub out :
      (r w : ℕ) → mem w (m.blocked r) ≡ true → (s.registered w ≡ true) × (mem w s.queue ≡ false)
  pub once : (r : ℕ) → Distinct (m.blocked r)
  pub apart : (r q w : ℕ) → mem w (m.blocked r) ≡ true → mem w (m.blocked q) ≡ true → r ≡ q

-- A task that is queued waits for nothing.
pub queued-not_waiting :
    (s : Scheduler) (m : Fcfs) (r t : ℕ)
    → Waits s m
    → mem t s.queue ≡ true
    → mem t (m.blocked r) ≡ false
queued-not_waiting s m r t w q = elim (Bool-cases (mem t (m.blocked r))) [
  | inl e ↦ absurd (let h = (w.out r t e).1 in ground arith)
  | inr e ↦ e
]
