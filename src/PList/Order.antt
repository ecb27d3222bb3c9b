-- ===== src/PList/Order.antt =====
-- A priority list is sorted: each element precedes all that follow it.
use sys_rt.Common.{
  ℕ, ◌+◌, ◌≡◌, sym, ◌∙◌, ◌⊎◌, inl, inr, Bool, true, false, List, [], ◌∷◌, arith, Bool-cases, ◌==◌,
  All, All-map, mem, mem-cons, All-mem, All-of_mem, length,
}
use sys_rt.PList.{insert, IsStrictOrder}

abbrev pub Sorted : (ℕ → ℕ → Bool) → List ℕ → Type 0
Sorted lt [] = Unit {0}
Sorted lt (x ∷ xs) = All (λ y. lt x y ≡ true) xs × Sorted lt xs

pub mem-insert_self :
    (lt : ℕ → ℕ → Bool) (o : IsStrictOrder lt) (x : ℕ) (xs : List ℕ) → mem x (insert lt x xs) ≡ true
unfolding insert
mem-insert_self lt o x [] = ground arith
mem-insert_self lt o x (y ∷ ys) = ground (arith, mem-insert_self lt o x ys, o.total x y)

pub mem-insert_ne :
    (lt : ℕ → ℕ → Bool) (x z : ℕ) (xs : List ℕ)
    → (x == z) ≡ false
    → mem z (insert lt x xs) ≡ mem z xs
unfolding insert
mem-insert_ne lt x z [] h = ground arith
mem-insert_ne lt x z (y ∷ ys) h = ground (arith, mem-insert_ne lt x z ys)

-- All of an insertion: the new element and the old ones.
pub All-insert {κ} :
    (P : ℕ → Type κ) (lt : ℕ → ℕ → Bool) (x : ℕ) (xs : List ℕ)
    → P x
    → All P xs
    → All P (insert lt x xs)
unfolding insert
All-insert P lt x [] px h = (px, tt)
All-insert P lt x (y ∷ ys) px h = elim (Bool-cases (lt x y)) [
  | inl e ↦ rw e (px, h)
  | inr e ↦ elim (Bool-cases (lt y x)) [
    | inl e' ↦ rw (e, e') (h.0, All-insert P lt x ys px h.1)
    | inr e' ↦ rw (e, e') h
  ]
]

pub insert-Sorted :
    (lt : ℕ → ℕ → Bool) (o : IsStrictOrder lt) (x : ℕ) (xs : List ℕ)
    → Sorted lt xs
    → Sorted lt (insert lt x xs)
unfolding insert
insert-Sorted lt o x [] h = (tt, tt)
insert-Sorted lt o x (y ∷ ys) h = elim (Bool-cases (lt x y)) [
  | inl e ↦
      rw e ((e, All-map (λ z. lt y z ≡ true) (λ z. lt x z ≡ true) ys (λ z. o.trans x y z e) h.0), h)
  | inr e ↦ elim (Bool-cases (lt y x)) [
    | inl e' ↦
        rw (e, e') (All-insert (λ z. lt y z ≡ true) lt x ys e' h.0, insert-Sorted lt o x ys h.1)
    | inr e' ↦ rw (e, e') h
  ]
]

-- An element that was not in the list makes it longer by one.
pub length-insert :
    (lt : ℕ → ℕ → Bool) (o : IsStrictOrder lt) (x : ℕ) (xs : List ℕ)
    → mem x xs ≡ false
    → length (insert lt x xs) ≡ length xs + 1
unfolding insert
length-insert lt o x [] h = omega arith
length-insert lt o x (y ∷ ys) h = ground (arith, length-insert lt o x ys, o.total x y)

-- A sorted list stays sorted under a comparison that agrees on its elements.
pub Sorted-congr :
    (lt lt' : ℕ → ℕ → Bool) (xs : List ℕ)
    → ((a b : ℕ) → mem a xs ≡ true → mem b xs ≡ true → lt a b ≡ lt' a b)
    → Sorted lt xs
    → Sorted lt' xs
Sorted-congr lt lt' [] agree h = tt
Sorted-congr lt lt' (x ∷ xs) agree h = (
  All-of_mem (λ z. lt' x z ≡ true) xs
      λ z m.
        sym (agree x z (ground arith) (ground arith)) ∙ All-mem (λ y. lt x y ≡ true) z xs h.0 m,
  Sorted-congr lt lt' xs (λ a b p q. agree a b (ground arith) (ground arith)) h.1,
)

-- The head is the element that precedes all others.
pub Sorted-head :
    (lt : ℕ → ℕ → Bool) (x z : ℕ) (xs : List ℕ)
    → Sorted lt (x ∷ xs)
    → mem z (x ∷ xs) ≡ true
    → (x ≡ z) ⊎ (lt x z ≡ true)
Sorted-head lt x z xs h m = elim (mem-cons z x xs m) [
  | inl e ↦ inl e
  | inr r ↦ inr (All-mem (λ y. lt x y ≡ true) z xs h.0 r)
]
