-- ===== src/StrToken/Find.antt =====
-- Searching a string, and cutting it at what is found.
use sys_rt.Common.{
  ℕ, zero, suc, ◌+◌, ◌-◌, ◌≤◌, ◌≡◌, refl, ap, inl, inr, Bool, true, false, none, some, List, [],
  ◌∷◌, ◌++◌, arith, length, drop, get_elem?, All, Bool-cases,
}
use sys_rt.StrToken.{find_at, find_last_at}

-- No character of the string has the property.
abbrev pub Lacks : (ℕ → Bool) → List ℕ → Type 0
Lacks is s = All (λ c. is c ≡ false) s

pub find_at-Lacks : (is : ℕ → Bool) (i : ℕ) (s : List ℕ) → Lacks is s → find_at is i s ≡ none
find_at-Lacks is i [] h = refl
find_at-Lacks is i (c ∷ cs) h = rw (h.0, find_at-Lacks is (i + 1) cs h.1) refl

pub find_at-append :
    (is : ℕ → Bool) (i c : ℕ) (s rest : List ℕ)
    → Lacks is s
    → is c ≡ true
    → find_at is i (s ++ c ∷ rest) ≡ some (i + length s)
find_at-append is i c [] rest h e = rw e (ap some (omega arith))
find_at-append is i c (x ∷ s) rest h e =
    rw (h.0, find_at-append is (i + 1) c s rest h.1 e) (ap some (omega arith))

pub length-drop : {A : Type 0} (n : ℕ) (s : List A) → length (drop n s) ≡ length s - n
length-drop zero s = omega arith
length-drop (suc n) [] = omega arith
length-drop (suc n) (x ∷ s) = omega (arith, length-drop n s)

pub drop-append : {A : Type 0} (s rest : List A) → drop (length s) (s ++ rest) ≡ rest
drop-append [] rest = refl
drop-append (x ∷ s) rest = drop-append s rest

-- A character with the property bounds the search, which stops at one with the property.
pub find_at-bounded :
    (is : ℕ → Bool) (i k c : ℕ) (s : List ℕ)
    → get_elem? s k ≡ some c
    → is c ≡ true
    → (j : ℕ) × (d : ℕ) × (cs : List ℕ) × (find_at is i s ≡ some (i + j))
      × (j ≤ k)
      × (drop j s ≡ d ∷ cs)
      × (is d ≡ true)
find_at-bounded is i k c [] e h = absurd (ground arith)
find_at-bounded is i zero c (x ∷ s) e h =
    let same : x ≡ c = ground arith in
    (0, x, s, rw (same, h) (ap some (omega arith)), omega arith, refl, rw same h)
find_at-bounded is i (suc k) c (x ∷ s) e h = elim (Bool-cases (is x)) [
  | inl hit ↦ (0, x, s, rw hit (ap some (omega arith)), omega arith, refl, hit)
  | inr miss ↦
      let (j, d, cs, f, b, g, t) = find_at-bounded is (i + 1) k c s e h in
      (suc j, d, cs, rw (miss, f) (ap some (omega arith)), omega arith, g, t)
]

pub drop-Lacks : (is : ℕ → Bool) (n : ℕ) (s : List ℕ) → Lacks is s → Lacks is (drop n s)
drop-Lacks is zero s h = h
drop-Lacks is (suc n) [] h = tt
drop-Lacks is (suc n) (x ∷ s) h = drop-Lacks is n s h.1

pub find_last_at-append :
    (is : ℕ → Bool) (i c : ℕ) (s : List ℕ)
    → is c ≡ true
    → find_last_at is i (s ++ c ∷ []) ≡ some (i + length s)
find_last_at-append is i c [] e = rw e (ap some (omega arith))
find_last_at-append is i c (x ∷ s) e =
    rw (find_last_at-append is (i + 1) c s e) (ap some (omega arith))
