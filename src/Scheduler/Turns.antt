-- ===== src/Scheduler/Turns.antt =====
-- src/rrsched.cpp: histories of rounds in which the first task has used up its slice.
use sys_rt.Common.{
  IsDistinct, ℕ, zero, suc, ◌<◌, ◌≡◌, refl, sym, ◌∙◌, ap, subst, true, false, List, [], ◌∷◌, ◌++◌,
  ok, arith, ◌==◌, ==_refl, All, update, length, append_assoc, append_nil, append_snoc, Returns_ok,
}
use sys_rt.Sim.{SimTime, EventCall}
use sys_rt.TaskModel.{TaskAttrs}
use sys_rt.Scheduler.{Scheduler}
use sys_rt.Scheduler.Notify.{expired, round}
use sys_rt.Scheduler.RoundRobin.{IsRoundRobin, Waits, round-rotated}

-- A ready task with a positive slice, inserted before the time.
pub record InTurn (now : ℕ) (s : Scheduler) (z : ℕ) : Type 0 where
  pub active : (s.model z).active ≡ true
  pub earlier : (s.model z).insert_time < now
  pub slice : ℕ
  pub slice_of : IsRoundRobin s z slice
  pub positive : 0 < slice

-- n rounds, the first at the time `now`, each later than the one before.
pub data Turns (sc : SimTime) : ℕ → ℕ → Scheduler → Scheduler → Type 0 where
  no_turn : {now : ℕ} {s : Scheduler} → Turns sc zero now s s
  turn :
      {n now later : ℕ} {s s₁ s' : Scheduler} (env : ℕ → TaskAttrs) (t : ℕ) (rest : List ℕ)
      (calls : List EventCall)
      → s.queue ≡ t ∷ rest
      → expired sc env now s t ≡ true
      → round sc env now s ≡ ok (s₁, calls)
      → now < later
      → Turns sc n later s₁ s'
      → Turns sc (suc n) now s s'

All-append : (P : ℕ → Type 0) (xs : List ℕ) (x : ℕ) → All P xs → P x → All P (xs ++ x ∷ [])
All-append P [] x h p = (p, tt)
All-append P (y ∷ ys) x h p = (h.0, All-append P ys x h.1 p)

IsDistinct-rotate : (x : ℕ) (xs : List ℕ) → IsDistinct (x ∷ xs) → IsDistinct (xs ++ x ∷ [])
IsDistinct-rotate x [] h = (tt, tt)
IsDistinct-rotate x (y ∷ ys) h = (
  All-append (λ z. (y == z) ≡ false) ys x h.1.0 (ground (arith, h.0.0)),
  IsDistinct-rotate x ys (h.0.1, h.1.1),
)

-- A model that is the same, at a later time, and one that was inserted now.
InTurn-later :
    (now later : ℕ) (s s' : Scheduler) (z : ℕ)
    → now < later
    → s'.model z ≡ s.model z
    → InTurn now s z
    → InTurn later s' z
InTurn-later now later s s' z b e i = record {
  active = ap (λ m. m.active) e ∙ i.active;
  earlier = omega (arith, ap (λ m. m.insert_time) e, i.earlier);
  slice = i.slice;
  slice_of = ap (λ m. m.policy) e ∙ i.slice_of;
  positive = i.positive;
}

InTurn-inserted :
    (now later : ℕ) (s s' : Scheduler) (z : ℕ)
    → now < later
    → s'.model z ≡ record (s.model z) { insert_time = now }
    → InTurn now s z
    → InTurn later s' z
InTurn-inserted now later s s' z b e i = record {
  active = ap (λ m. m.active) e ∙ i.active;
  earlier = omega (arith, ap (λ m. m.insert_time) e);
  slice = i.slice;
  slice_of = ap (λ m. m.policy) e ∙ i.slice_of;
  positive = i.positive;
}

module _ (now later : ℕ) (b : now < later) (s : Scheduler) (t : ℕ) where
  abbrev requeued : List ℕ → Scheduler
  requeued q = record s {
    model = update s.model t (record (s.model t) { insert_time = now });
    queue = q;
  }

  others-InTurn :
      (q xs : List ℕ)
      → All (λ z. (t == z) ≡ false) xs
      → All (InTurn now s) xs
      → All (InTurn later (requeued q)) xs
  others-InTurn q [] d h = tt
  others-InTurn q (x ∷ xs) d h =
      (InTurn-later now later s (requeued q) x b (simp d.0) h.0, others-InTurn q xs d.1 h.1)

  others-Waits :
      (xs : List ℕ)
      → All (λ z. (t == z) ≡ false) xs
      → All (InTurn now s) xs
      → All (Waits now s t) xs
  others-Waits [] d h = tt
  others-Waits (x ∷ xs) d h =
      ((d.0, h.0.earlier, (h.0.slice, h.0.slice_of)), others-Waits xs d.1 h.1)

-- The first task of a queue in which all are in turn goes behind the others, and all are in turn later.
round-InTurn :
    (sc : SimTime) (env : ℕ → TaskAttrs) (now later : ℕ) (s s₁ : Scheduler) (calls : List EventCall)
    (t f : ℕ) (rest : List ℕ)
    → s.queue ≡ t ∷ f ∷ rest
    → IsDistinct (t ∷ f ∷ rest)
    → All (InTurn now s) (t ∷ f ∷ rest)
    → expired sc env now s t ≡ true
    → round sc env now s ≡ ok (s₁, calls)
    → now < later
    → (s₁.queue ≡ f ∷ rest ++ t ∷ []) × All (InTurn later s₁) (f ∷ rest ++ t ∷ [])
round-InTurn sc env now later s s₁ calls t f rest shape d h over r b =
    let s₂ = requeued now later b s t (f ∷ rest ++ t ∷ []) in
    let self : InTurn later s₂ t = InTurn-inserted now later s s₂ t b (simp (==_refl t)) h.0 in
    let ring : All (InTurn later s₂) (f ∷ rest ++ t ∷ []) =
      All-append (InTurn later s₂) (f ∷ rest) t
        (others-InTurn now later b s t (f ∷ rest ++ t ∷ []) (f ∷ rest) d.0 h.1) self in
    Returns_ok (λ x. (x.0.queue ≡ f ∷ rest ++ t ∷ []) × All (InTurn later x.0) (f ∷ rest ++ t ∷ []))
      (round sc env now s)
      (rw
        (round-rotated sc env now s t f h.0.slice h.1.0.slice rest shape h.0.active h.0.slice_of
          h.1.0.slice_of h.1.0.positive (others-Waits now later b s t (f ∷ rest) d.0 h.1) over)
        (refl, ring))
      r

-- The queue of the next turn, when those in front are a and others, is again front and back.
head-of : (front back : List ℕ) (t : ℕ) → (f : ℕ) × (rest : List ℕ) × (front ++ t ∷ back ≡ f ∷ rest)
head-of [] back t = (t, back, refl)
head-of (f ∷ front) back t = (f, front ++ t ∷ back, refl)

-- If all tasks of a round-robin queue are distinct, active, inserted before the present and have
-- positive slices, then after as many rounds as there are tasks in front of one of them, each of
-- which returns, is later than the one before and finds the slice of the first task used up, that
-- task is first, followed by those that were behind it and then those that were in front.
pub Turns-queue :
    (sc : SimTime) (now t : ℕ) (s s' : Scheduler) (front back : List ℕ)
    → s.queue ≡ front ++ t ∷ back
    → IsDistinct (front ++ t ∷ back)
    → All (InTurn now s) (front ++ t ∷ back)
    → Turns sc (length front) now s s'
    → s'.queue ≡ t ∷ back ++ front
Turns-queue sc now t s s' [] back shape d h no_turn = shape ∙ sym (append_nil (t ∷ back))
Turns-queue sc now t s s' (x ∷ front) back shape d h
      (turn {later = later} {s₁ = s₁} env y rest calls first over r b more) =
    let (f, rest', split) = head-of front back t in
    let both : y ∷ rest ≡ x ∷ (front ++ t ∷ back) = sym first ∙ shape in
    let same : y ≡ x = ground (arith, both) in
    let apart : IsDistinct (x ∷ f ∷ rest') = subst (λ q. IsDistinct (x ∷ q)) split d in
    let (queue, ring) =
      round-InTurn sc env now later s s₁ calls x f rest' (shape ∙ ap (λ q. x ∷ q) split) apart
        (subst (λ q. All (InTurn now s) (x ∷ q)) split h)
        (subst (λ z. expired sc env now s z ≡ true) same over) r b in
    let moved : f ∷ rest' ++ x ∷ [] ≡ front ++ t ∷ (back ++ x ∷ []) =
      ap (λ q. q ++ x ∷ []) (sym split) ∙ append_assoc front (t ∷ back) (x ∷ []) in
    Turns-queue sc later t s₁ s' front (back ++ x ∷ []) (queue ∙ moved)
      (subst IsDistinct moved (IsDistinct-rotate x (f ∷ rest') apart))
      (subst (All (InTurn later s₁)) moved ring) more
    ∙ ap (λ q. t ∷ q) (append_snoc back x front)
