-- ===== src/PList.antt =====
-- src/plist.hpp: priority_list, a std::set of pointers under a comparison.
-- The set is the sequence that its iterators run through. A new element goes before the first one
-- that it precedes, which is the place that the search tree finds whenever the sequence is sorted.
pub mod Order
pub mod Erase
use sys_rt.Common.{
  ℕ, zero, suc, ◌≡◌, Bool, true, false, Option, none, some, List, [], ◌∷◌, Run, ok, fault, ◌>>=◌,
  ◌==◌, if◌then◌else◌, length, get_elem?,
}

-- std::set::insert: an element that is equivalent to one in the set is not inserted.
unfoldable pub insert : (ℕ → ℕ → Bool) → ℕ → List ℕ → List ℕ
insert lt x [] = x ∷ []
insert lt x (y ∷ ys) =
    let rest = insert lt x ys in if lt x y then x ∷ y ∷ ys else if lt y x then y ∷ rest else y ∷ ys

-- std::find by pointer, then std::set::erase of the iterator: of end() this is undefined.
unfoldable pub erase : ℕ → List ℕ → Run (List ℕ)
erase x [] = fault
erase x (y ∷ ys) = if y == x then ok ys else (erase x ys >>= λ r. ok (y ∷ r))

-- *begin() of an empty list is undefined.
unfoldable pub front : List ℕ → Run ℕ
front [] = fault
front (x ∷ xs) = ok x

unfoldable pub empty : List ℕ → Bool
empty [] = true
empty (x ∷ xs) = false

unfoldable pub size : List ℕ → ℕ
size xs = length xs

-- What the comparison of a std::set must be, on the elements that are in use.
pub record IsStrictOrder (lt : ℕ → ℕ → Bool) : Type 0 where
  pub irrefl : (a : ℕ) → lt a a ≡ false
  pub trans : (a b c : ℕ) → lt a b ≡ true → lt b c ≡ true → lt a c ≡ true
  pub total : (a b : ℕ) → lt a b ≡ false → lt b a ≡ false → a ≡ b
