-- ===== src/RandomVar/Replay.antt =====
-- src/randomvar.cpp: DetVar replays its array over and over.
use sys_rt.Common.{
  ℕ, zero, suc, ◌+◌, ◌<◌, ◌≡◌, refl, false, List, [], ◌∷◌, Run, ok, ◌>>=◌, arith, leb, length, drop,
  drop-drop, drop-head, sym, ap, ◌∙◌, ◌⊎◌, inl, inr,
}
use sys_rt.RandomVar.{DetVar, get}

-- The values of n calls, with the variable after them.
abbrev pub get_all : {A : Type 0} → ℕ → DetVar A → Run (DetVar A × List A)
get_all zero v = ok (v, [])
get_all (suc n) v = get v >>= λ r. get_all n r.0 >>= λ r'. ok (r'.0, r.1 ∷ r'.1)

module _ {A : Type 0} where
  get-head :
      (xs ys : List A) (i : ℕ) (y : A)
      → i < length xs
      → drop i xs ≡ y ∷ ys
      → get (record { array = xs; count = i }) ≡ ok (record { array = xs; count = i + 1 }, y)
  unfolding get
  get-head xs ys i y b e =
      let inside : leb (length xs) i ≡ false = ground arith in ground (arith, drop-head i y xs ys e)

  get_all-rest :
      (xs ys : List A) (i : ℕ)
      → i + length ys ≡ length xs
      → drop i xs ≡ ys
      → get_all (length ys) (record { array = xs; count = i })
        ≡ ok (record { array = xs; count = length xs }, ys)
  get_all-rest xs [] i b e =
      let done : i ≡ length xs = omega arith in
      ap (λ n. ok (record { array = xs; count = n }, [])) done
  get_all-rest xs (y ∷ ys) i b e =
      let next : drop (i + 1) xs ≡ ys = sym (drop-drop i 1 xs) ∙ rw e refl in
      rw (get-head xs ys i y (omega arith) e, get_all-rest xs ys (i + 1) (omega arith) next) refl

  -- Behind the last value a call goes on as if from the first.
  get-wraps :
      (xs : List A)
      → get (record { array = xs; count = length xs }) ≡ get (record { array = xs; count = 0 })
  unfolding get
  get-wraps [] = refl
  get-wraps (x ∷ xs) = ground arith

  -- From the first place or from behind the last one, as many calls of DetVar::get as the array
  -- is long give the array in order, and end behind the last place.
  pub get_all-array :
      (xs : List A) (c : ℕ)
      → (c ≡ 0) ⊎ (c ≡ length xs)
      → get_all (length xs) (record { array = xs; count = c })
        ≡ ok (record { array = xs; count = length xs }, xs)
  get_all-array [] c (inl e) = rw e refl
  get_all-array [] c (inr e) = rw e refl
  get_all-array (x ∷ xs) c (inl first) =
      rw first (get_all-rest (x ∷ xs) (x ∷ xs) 0 (omega arith) refl)
  get_all-array (x ∷ xs) c (inr past) =
      rw (past, get-wraps (x ∷ xs)) (get_all-rest (x ∷ xs) (x ∷ xs) 0 (omega arith) refl)
