-- ===== src/PList/Erase.antt =====
-- Erasing from a priority list: the call succeeds exactly on its elements, and leaves the others.
use sys_rt.Common.{
  ℕ, ◌+◌, ◌≡◌, refl, inl, inr, Bool, true, false, List, [], ◌∷◌, arith, Bool-cases, ◌==◌, ==_refl,
  if◌then◌else◌, subst, All, All-mem, mem, length, ok, fault,
}
use sys_rt.PList.{erase, front, IsStrictOrder}
use sys_rt.PList.Order.{Sorted}

-- The list without its first `x`.
unfoldable pub remove : ℕ → List ℕ → List ℕ
remove x [] = []
remove x (y ∷ ys) = let rest = remove x ys in if y == x then ys else y ∷ rest

pub erase-mem : (x : ℕ) (xs : List ℕ) → mem x xs ≡ true → erase x xs ≡ ok (remove x xs)
unfolding erase remove
erase-mem x [] h = absurd (ground arith)
erase-mem x (y ∷ ys) h = ground (arith, erase-mem x ys)

pub erase-not_mem : (x : ℕ) (xs : List ℕ) → mem x xs ≡ false → erase x xs ≡ fault
unfolding erase
erase-not_mem x [] h = refl
erase-not_mem x (y ∷ ys) h = ground (arith, erase-not_mem x ys)

pub mem-remove_ne : (x z : ℕ) (xs : List ℕ) → (x == z) ≡ false → mem z (remove x xs) ≡ mem z xs
unfolding remove
mem-remove_ne x z [] h = refl
mem-remove_ne x z (y ∷ ys) h = ground (arith, mem-remove_ne x z ys)

pub mem_of_mem-remove : (x z : ℕ) (xs : List ℕ) → mem z (remove x xs) ≡ true → mem z xs ≡ true
unfolding remove
mem_of_mem-remove x z [] h = h
mem_of_mem-remove x z (y ∷ ys) h = ground (arith, mem_of_mem-remove x z ys)

pub All-remove {κ} : (P : ℕ → Type κ) (x : ℕ) (xs : List ℕ) → All P xs → All P (remove x xs)
unfolding remove
All-remove P x [] h = tt
All-remove P x (y ∷ ys) h = elim (Bool-cases (y == x)) [
  | inl e ↦ rw e h.1
  | inr e ↦ rw e (h.0, All-remove P x ys h.1)
]

pub remove-Sorted :
    (lt : ℕ → ℕ → Bool) (x : ℕ) (xs : List ℕ) → Sorted lt xs → Sorted lt (remove x xs)
unfolding remove
remove-Sorted lt x [] h = tt
remove-Sorted lt x (y ∷ ys) h = elim (Bool-cases (y == x)) [
  | inl e ↦ rw e h.1
  | inr e ↦ rw e (All-remove (λ z. lt y z ≡ true) x ys h.0, remove-Sorted lt x ys h.1)
]

-- What a sorted list holds it holds once.
Sorted-not_mem :
    (lt : ℕ → ℕ → Bool) (o : IsStrictOrder lt) (x : ℕ) (xs : List ℕ)
    → All (λ z. lt x z ≡ true) xs
    → mem x xs ≡ false
Sorted-not_mem lt o x xs h = elim (Bool-cases (mem x xs)) [
  | inl m ↦ absurd (ground (arith, o.irrefl x, All-mem (λ z. lt x z ≡ true) x xs h m))
  | inr m ↦ m
]

pub mem-remove_self :
    (lt : ℕ → ℕ → Bool) (o : IsStrictOrder lt) (x : ℕ) (xs : List ℕ)
    → Sorted lt xs
    → mem x (remove x xs) ≡ false
unfolding remove
mem-remove_self lt o x [] h = refl
mem-remove_self lt o x (y ∷ ys) h = elim (Bool-cases (y == x)) [
  | inl e ↦
      let p : y ≡ x = ground arith in
      rw e (subst (λ v. mem v ys ≡ false) p (Sorted-not_mem lt o y ys h.0))
  | inr e ↦ rw (e, mem, e) (mem-remove_self lt o x ys h.1)
]

pub length-remove : (x : ℕ) (xs : List ℕ) → mem x xs ≡ true → length (remove x xs) + 1 ≡ length xs
unfolding remove
length-remove x [] h = absurd (ground arith)
length-remove x (y ∷ ys) h = ground (arith, length-remove x ys)

-- The calls on a list whose head is known.
pub erase-head : (t : ℕ) (rest q : List ℕ) → q ≡ t ∷ rest → erase t q ≡ ok rest
unfolding erase
erase-head t rest q e = rw (e, erase, ==_refl t) refl

pub front-head : (t : ℕ) (rest q : List ℕ) → q ≡ t ∷ rest → front q ≡ ok t
unfolding front
front-head t rest q e = rw e refl
