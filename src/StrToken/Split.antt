-- ===== src/StrToken/Split.antt =====
-- src/strtoken.cpp: split, with a separator of any length, and parse_double.
use sys_rt.Common.{
  take-append, ℕ, zero, suc, ◌+◌, ◌≡◌, refl, ◌∙◌, ap, Bool, true, false, ◌||◌, ◌&&◌, Option, none,
  some, List, [], ◌∷◌, ◌++◌, map, arith, ◌==◌, if◌then◌else◌, length, drop, take, ==_refl, ◌<◌, ◌≤◌,
  All, sym, drop-drop, length-append,
}
use sys_rt.StrToken.{find_at, remove_spaces}
use sys_rt.StrToken.Find.{Lacks, drop-append}

-- The text begins with the other one.
abbrev pub starts : List ℕ → List ℕ → Bool
starts [] cs = true
starts (s ∷ sep) [] = false
starts (s ∷ sep) (c ∷ cs) = (s == c) && starts sep cs

-- find of a text: the first place, counted from i on, where it stands.
abbrev pub find_text : List ℕ → ℕ → List ℕ → Option ℕ
find_text sep i [] = if starts sep [] then some i else none
find_text sep i (c ∷ cs) =
    let rest = find_text sep (i + 1) cs in if starts sep (c ∷ cs) then some i else rest

-- The loop from old_pos on; `none` is that the fuel has run out.
unfoldable pub split_from : ℕ → List ℕ → List ℕ → Option (List (List ℕ))
split_from zero sep rest = none
split_from (suc n) sep rest = elim (find_text sep 0 rest) [
  | none ↦ some (remove_spaces rest ∷ [])
  | some pos ↦ elim (split_from n sep (drop (pos + length sep) rest)) [
    | none ↦ none
    | some pieces ↦ some (remove_spaces (take pos rest) ∷ pieces)
  ]
]

-- Each piece but the last one ends with the separator, so that there are no more than characters
-- and one if that is not empty.
unfoldable pub split : List ℕ → List ℕ → Option (List (List ℕ))
unfolding split_from
split code sep = split_from (length code + 1) sep code

-- The unit is what stands from the first of the letters s, m, n and u on.
abbrev pub is_unit : ℕ → Bool
is_unit c = (c == 115) || ((c == 109) || ((c == 110) || (c == 117)))

-- `atof` of the C library gives the number of a text.
unfoldable pub parse_double : {D : Type 0} → (List ℕ → D) → List ℕ → D × List ℕ
parse_double atof nums =
    let tmp = remove_spaces nums in
    elim (find_at is_unit 0 tmp) [
      | none ↦ (atof tmp, [])
      | some pos ↦ (atof (take pos tmp), drop pos tmp)
    ]

-- An empty separator is found where the search begins, so that the loop never ends.
pub split_from-empty : (n : ℕ) (code : List ℕ) → split_from n [] code ≡ none
unfolding split_from
split_from-empty zero code = refl
split_from-empty (suc n) [] = rw (split_from-empty n []) refl
split_from-empty (suc n) (c ∷ cs) = rw (split_from-empty n (c ∷ cs)) refl

-- The separator found, the loop goes on behind it.
split_from-step :
    (n : ℕ) (sep code rest : List ℕ) (pos : ℕ) {pieces : List (List ℕ)}
    → find_text sep 0 code ≡ some pos
    → drop (pos + length sep) code ≡ rest
    → split_from n sep rest ≡ some pieces
    → split_from (suc n) sep code ≡ some (remove_spaces (take pos code) ∷ pieces)
unfolding split_from
split_from-step n sep code rest pos e d h = rw (split_from, e, d, h) refl

module _ (first : ℕ) (others : List ℕ) where
  abbrev pub sep : List ℕ
  sep = first ∷ others

  -- The pieces with the separator behind each but the last one.
  abbrev pub joined : List (List ℕ) → List ℕ → List ℕ
  joined [] last = last
  joined (x ∷ xs) last = x ++ (sep ++ joined xs last)

  -- The separator does not begin within the text.
  abbrev pub IsPiece : List ℕ → Type 0
  IsPiece = Lacks (λ c. first == c)

  starts-append : (xs rest : List ℕ) → starts xs (xs ++ rest) ≡ true
  starts-append [] rest = refl
  starts-append (x ∷ xs) rest = rw (==_refl x, starts-append xs rest) refl

  find_text-piece :
      (i : ℕ) (x rest : List ℕ)
      → IsPiece x
      → find_text sep i (x ++ (sep ++ rest)) ≡ some (i + length x)
  find_text-piece i [] rest h =
      rw (==_refl first, starts-append others rest) (ap some (omega arith))
  find_text-piece i (c ∷ x) rest h =
      rw (h.0, find_text-piece (i + 1) x rest h.1) (ap some (omega arith))

  find_text-none : (i : ℕ) (x : List ℕ) → IsPiece x → find_text sep i x ≡ none
  find_text-none i [] h = refl
  find_text-none i (c ∷ x) h = rw (h.0, find_text-none (i + 1) x h.1) refl

  split_from-joined :
      (n : ℕ) (xs : List (List ℕ)) (last : List ℕ)
      → length xs < n
      → All IsPiece xs
      → IsPiece last
      → split_from n sep (joined xs last) ≡ some (map remove_spaces (xs ++ last ∷ []))
  unfolding split_from
  split_from-joined zero xs last b h k = absurd (omega (arith, b))
  split_from-joined (suc n) [] last b h k = rw (split_from, find_text-none 0 last k) refl
  split_from-joined (suc n) (x ∷ xs) last b h k =
      let rest = joined xs last in
      let behind : drop (length x + length sep) (x ++ (sep ++ rest)) ≡ rest =
        sym (drop-drop (length x) (length sep) (x ++ (sep ++ rest)))
        ∙ ap (drop (length sep)) (drop-append x (sep ++ rest))
        ∙ drop-append sep rest in
      let found : find_text sep 0 (x ++ (sep ++ rest)) ≡ some (length x) =
        find_text-piece 0 x rest h.0 ∙ ap some (omega arith) in
      split_from-step n sep (x ++ (sep ++ rest)) rest (length x) found behind
        (split_from-joined n xs last (omega (arith, b)) h.1 k)
      ∙ ap (λ t. some (remove_spaces t ∷ map remove_spaces (xs ++ last ∷ [])))
          (take-append x (sep ++ rest))

  length-joined : (xs : List (List ℕ)) (last : List ℕ) → length xs ≤ length (joined xs last)
  length-joined [] last = omega arith
  length-joined (x ∷ xs) last = omega (
    arith,
    length-append x (sep ++ joined xs last),
    length-append others (joined xs last),
    length-joined xs last,
  )

  -- If no piece contains the first character of the separator, split gives the pieces back without
  -- their outer spaces.
  pub split-joined :
      (xs : List (List ℕ)) (last : List ℕ)
      → All IsPiece xs
      → IsPiece last
      → split (joined xs last) sep ≡ some (map remove_spaces (xs ++ last ∷ []))
  unfolding split
  split-joined xs last h k =
      split_from-joined (length (joined xs last) + 1) xs last (omega (arith, length-joined xs last))
        h k
