-- ===== src/Common/Lists.antt =====
-- Lists and maps under native numbers: lengths, positions, membership, updates.
use Prim.Native.Nat.{ℕ, zero, suc, ◌+◌, ◌≤◌}
use mathlib.Core.Path.{◌≡◌, refl, sym, ap, ◌∙◌, subst}
use mathlib.Core.Logic.{◌⊎◌, inl, inr}
use mathlib.Core.Bool.{Bool, true, false, ◌||◌}
use mathlib.Core.List.{List, [], ◌∷◌, ◌++◌}
use mathlib.Core.Option.{Option, none, some}
use native.Mathlib.Omega.{arith}
use sys_rt.Common.Tests.{◌==◌, if◌then◌else◌}

module _ {ℓ} {A : Type ℓ} where
  abbrev pub length : List A → ℕ
  length [] = 0
  length (x ∷ xs) = suc (length xs)

  abbrev pub get_elem? : List A → ℕ → Option A
  get_elem? [] i = none
  get_elem? (x ∷ xs) zero = some x
  get_elem? (x ∷ xs) (suc i) = get_elem? xs i

  abbrev pub drop : ℕ → List A → List A
  drop zero xs = xs
  drop (suc n) [] = []
  drop (suc n) (x ∷ xs) = drop n xs

  abbrev pub take : ℕ → List A → List A
  take zero xs = []
  take (suc n) [] = []
  take (suc n) (x ∷ xs) = x ∷ take n xs

  pub length-append : (xs ys : List A) → length (xs ++ ys) ≡ length xs + length ys
  length-append [] ys = omega arith
  length-append (x ∷ xs) ys = omega (arith, length-append xs ys)

  pub take-append : (s rest : List A) → take (length s) (s ++ rest) ≡ s
  take-append [] rest = refl
  take-append (x ∷ s) rest = ap (λ y. x ∷ y) (take-append s rest)

  pub take-all : (s : List A) (n : ℕ) → length s ≤ n → take n s ≡ s
  take-all [] zero h = refl
  take-all [] (suc n) h = refl
  take-all (x ∷ s) zero h = absurd (omega (arith, h))
  take-all (x ∷ s) (suc n) h = ap (λ y. x ∷ y) (take-all s n (omega (arith, h)))

  pub get_elem?-ge : (xs : List A) (i : ℕ) → length xs ≤ i → get_elem? xs i ≡ none
  get_elem?-ge [] i h = refl
  get_elem?-ge (x ∷ xs) zero h = absurd (omega arith)
  get_elem?-ge (x ∷ xs) (suc i) h = get_elem?-ge xs i (omega arith)

  -- Writing one place of a map, as `m[k] = v`.
  abbrev pub update : (ℕ → A) → ℕ → A → ℕ → A
  update f k v j = if k == j then v else f j

false_ne_true : ¬ (false ≡ true)
false_ne_true e = cc

-- A predicate on every element.
abbrev pub All {ℓ κ} : {A : Type ℓ} → (A → Type κ) → List A → Type κ
All P [] = Unit
All P (x ∷ xs) = P x × All P xs

-- Both halves of a list.
pub All-append {ℓ κ} :
    {A : Type ℓ} (Q : A → Type κ) (front back : List A)
    → All Q front
    → All Q back
    → All Q (front ++ back)
All-append Q [] back f g = g
All-append Q (a ∷ front) back f g = (f.0, All-append Q front back f.1 g)

-- No number stands in the list twice.
abbrev pub IsDistinct : List ℕ → Type 0
IsDistinct [] = Unit
IsDistinct (x ∷ xs) = All (λ z. (x == z) ≡ false) xs × IsDistinct xs

pub All-map {ℓ κ κ'} :
    {A : Type ℓ} (P : A → Type κ) (Q : A → Type κ') (xs : List A)
    → ((x : A) → P x → Q x)
    → All P xs
    → All Q xs
All-map P Q [] f h = tt
All-map P Q (x ∷ xs) f h = (f x h.0, All-map P Q xs f h.1)

-- Membership of a number.
abbrev pub mem : ℕ → List ℕ → Bool
mem a [] = false
mem a (x ∷ xs) = (x == a) || mem a xs

pub mem-cons : (a x : ℕ) (xs : List ℕ) → mem a (x ∷ xs) ≡ true → (x ≡ a) ⊎ (mem a xs ≡ true)
mem-cons a x xs m = ground arith

pub All-mem {κ} : (P : ℕ → Type κ) (a : ℕ) (xs : List ℕ) → All P xs → mem a xs ≡ true → P a
All-mem P a [] h m = absurd (false_ne_true m)
All-mem P a (x ∷ xs) h m = elim (mem-cons a x xs m) [
  | inl e ↦ subst P e h.0
  | inr r ↦ All-mem P a xs h.1 r
]

pub All-of_mem {κ} : (P : ℕ → Type κ) (xs : List ℕ) → ((a : ℕ) → mem a xs ≡ true → P a) → All P xs
All-of_mem P [] f = tt
All-of_mem P (x ∷ xs) f = (f x (ground arith), All-of_mem P xs (λ a h. f a (ground arith)))

pub append_nil {ℓ} : {A : Type ℓ} (xs : List A) → xs ++ [] ≡ xs
append_nil [] = refl
append_nil (x ∷ xs) = ap (λ ys. x ∷ ys) (append_nil xs)

-- An element at the end of the first list is one at the head of the second.
pub append_snoc {ℓ} :
    {A : Type ℓ} (xs : List A) (a : A) (ys : List A) → (xs ++ a ∷ []) ++ ys ≡ xs ++ a ∷ ys
append_snoc [] a ys = refl
append_snoc (x ∷ xs) a ys = ap (λ zs. x ∷ zs) (append_snoc xs a ys)

pub append_assoc {ℓ} : {A : Type ℓ} (xs ys zs : List A) → (xs ++ ys) ++ zs ≡ xs ++ (ys ++ zs)
append_assoc [] ys zs = refl
append_assoc (x ∷ xs) ys zs = ap (λ ws. x ∷ ws) (append_assoc xs ys zs)

pub drop_nil {ℓ} : {A : Type ℓ} (n : ℕ) → drop {A = A} n [] ≡ []
drop_nil zero = refl
drop_nil (suc n) = refl

pub drop-drop {ℓ} : {A : Type ℓ} (a b : ℕ) (s : List A) → drop b (drop a s) ≡ drop (a + b) s
drop-drop zero b s = ap (λ n. drop n s) (omega arith)
drop-drop (suc a) b [] = drop_nil b ∙ sym (drop_nil (suc a + b))
drop-drop (suc a) b (x ∷ s) =
    let next : suc (a + b) ≡ suc a + b = omega arith in
    drop-drop a b s ∙ ap (λ n. drop n (x ∷ s)) next

pub get_elem?-drop {ℓ} :
    {A : Type ℓ} (a k : ℕ) (s : List A) → get_elem? (drop a s) k ≡ get_elem? s (a + k)
get_elem?-drop zero k s = ap (λ n. get_elem? s n) (omega arith)
get_elem?-drop (suc a) k [] = refl
get_elem?-drop (suc a) k (x ∷ s) =
    let next : suc (a + k) ≡ suc a + k = omega arith in
    get_elem?-drop a k s ∙ ap (λ n. get_elem? (x ∷ s) n) next

pub drop-head {ℓ} :
    {A : Type ℓ} (n : ℕ) (d : A) (s cs : List A) → drop n s ≡ d ∷ cs → get_elem? s n ≡ some d
drop-head n d s cs e =
    let sum : n + 0 ≡ n = omega arith in
    ap (λ k. get_elem? s k) (sym sum) ∙ sym (get_elem?-drop n 0 s) ∙ rw e refl

pub List-cases {ℓ} : {A : Type ℓ} (l : List A) → (l ≡ []) ⊎ ((a : A) × (r : List A) × (l ≡ a ∷ r))
List-cases [] = inl refl
List-cases (a ∷ r) = inr (a, r, refl)
