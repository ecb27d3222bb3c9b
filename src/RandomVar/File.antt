-- ===== src/RandomVar/File.antt =====
-- src/randomvar.cpp: the constructor of DetVar that reads its values from a file. An open file is what
-- `>>` finds in it: numbers, `none` where the text is no number, and whether blanks, such as a line end,
-- follow the last one. The stream is at its end once a read has come to the end of the text.
use sys_rt.Common.{
  ◌+◌, ◌≡◌, refl, Bool, true, false, Option, none, some, List, [], ◌∷◌, ◌++◌, map, Run, ok, hang,
  ◌>>=◌, or_throw, deref, file_not_open, length, length-append, arith, subst, inl, if◌then◌else◌,
}
use sys_rt.RandomVar.{DetVar, new_det_var}
use sys_rt.RandomVar.Replay.{get_all, get_all-array}

pub record File (A : Type 0) : Type 0 where
  pub values : List (Option A)
  pub blanks_follow : Bool

-- The loop, before the end of the stream, with the variable v, which is unset at first. A read that
-- finds no more text sets the end and leaves v; one that finds no number fails, and so do all after it,
-- without an end.
unfoldable pub read_values : {A : Type 0} → Option A → List (Option A) → Bool → Run (List A)
read_values v [] blanks = do last ← deref v; ok (last ∷ [])
read_values v (none ∷ values) blanks = hang
read_values v (some x ∷ values) blanks =
    let rest = read_values (some x) values blanks in
    elim values [
      | [] ↦ if blanks then (rest >>= λ xs. ok (x ∷ xs)) else ok (x ∷ [])
      | y ∷ ys ↦ rest >>= λ xs. ok (x ∷ xs)
    ]

unfoldable pub read_det_var : {A : Type 0} → Option (File A) → Run (DetVar A)
unfolding read_values
read_det_var file = do
  f ← or_throw file file_not_open
  a ← read_values none f.values f.blanks_follow
  ok (new_det_var a)

module _ {A : Type 0} where
  read_values-last :
      (v : Option A) (xs : List A) (x : A) (blanks : Bool)
      → read_values v (map (λ y. some y) (xs ++ x ∷ [])) blanks
        ≡ ok (xs ++ x ∷ (if blanks then x ∷ [] else []))
  unfolding read_values
  read_values-last v [] x true = refl
  read_values-last v [] x false = refl
  read_values-last v (y ∷ []) x blanks = rw (read_values-last (some y) [] x blanks) refl
  read_values-last v (y ∷ z ∷ xs) x blanks = rw (read_values-last (some y) (z ∷ xs) x blanks) refl

  -- If blanks follow the last number of a file, the variable that is made of it gives the last
  -- number twice before it begins anew.
  pub read_det_var-replays :
      (xs : List A) (x : A) (f : File A)
      → f.values ≡ map (λ y. some y) (xs ++ x ∷ [])
      → f.blanks_follow ≡ true
      → (read_det_var (some f) >>= get_all (length xs + 2))
        ≡ ok (record { array = xs ++ x ∷ x ∷ []; count = length xs + 2 }, xs ++ x ∷ x ∷ [])
  unfolding read_det_var new_det_var
  read_det_var-replays xs x f e b =
      let n : length (xs ++ x ∷ x ∷ []) ≡ length xs + 2 =
        omega (arith, length-append xs (x ∷ x ∷ [])) in
      rw (e, b, read_values-last none xs x true)
        (subst
          (λ k.
            get_all k (record { array = xs ++ x ∷ x ∷ []; count = 0 })
            ≡ ok (record { array = xs ++ x ∷ x ∷ []; count = k }, xs ++ x ∷ x ∷ []))
          n (get_all-array (xs ++ x ∷ x ∷ []) 0 (inl refl)))
