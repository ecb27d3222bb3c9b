-- ===== src/StrToken/Nested.antt =====
-- src/strtoken.cpp: split_param on parameters some of which have a parameter in parentheses themselves.
use sys_rt.Common.{
  take-append, ℕ, zero, suc, ◌+◌, ◌-◌, ◌≤◌, ◌<◌, ◌≡◌, refl, sym, ◌∙◌, ap, subst, true, false, some,
  List, [], ◌∷◌, ◌++◌, map, arith, leb, ltb, ◌==◌, ==_refl, length, length-append, append_assoc,
  append_snoc, append_nil, drop, take, drop-drop, All,
}
use sys_rt.StrToken.Find.{Lacks, find_at-append, length-drop, drop-append}
use sys_rt.StrToken.{
  is_symbol, behind_symbol, unless_blank, find_at, remove_spaces, param_end, split_param_from,
  split_param,
}
use sys_rt.StrToken.Params.{joined, length-joined, param_end-separator, param_end-none}

-- A parameter without a symbol, or a name with something in parentheses.
pub data Param : Type 0 where
  plain : List ℕ → Param
  nested : List ℕ → List ℕ → Param

module _ (sep open_par close_par : ℕ) where
  abbrev pub text : Param → List ℕ
  text (plain x) = x
  text (nested name inner) = name ++ open_par ∷ (inner ++ close_par ∷ [])

  abbrev pub IsParam : Param → Type 0
  IsParam (plain x) = Lacks (is_symbol sep open_par) x
  IsParam (nested name inner) =
      Lacks (is_symbol sep open_par) name × Lacks (λ c. c == close_par) (open_par ∷ inner)

  -- What the last parameter is split into.
  abbrev pub last_pieces : Param → List (List ℕ)
  last_pieces (plain x) = unless_blank (remove_spaces x)
  last_pieces (nested name inner) = remove_spaces (text (nested name inner)) ∷ []

  length-text :
      (name inner : List ℕ) → length (text (nested name inner)) ≡ length name + length inner + 2
  length-text name inner = omega (
    arith,
    length-append name (open_par ∷ (inner ++ close_par ∷ [])),
    length-append inner (close_par ∷ []),
  )

  -- A parameter in parentheses ends behind them.
  param_end-nested :
      (p name inner rest : List ℕ) (pos : ℕ)
      → IsParam (nested name inner)
      → drop pos p ≡ text (nested name inner) ++ rest
      → param_end sep open_par close_par p pos ≡ some (pos + length (text (nested name inner)))
  unfolding param_end behind_symbol
  param_end-nested p name inner rest pos h e =
      let tail : List ℕ = open_par ∷ (inner ++ close_par ∷ rest) in
      let shape : drop pos p ≡ name ++ tail =
        e
        ∙ append_assoc name (open_par ∷ (inner ++ close_par ∷ [])) rest
        ∙ ap (λ y. name ++ (open_par ∷ y)) (append_snoc inner close_par rest) in
      let found : find_at (is_symbol sep open_par) pos (drop pos p) ≡ some (pos + length name) =
        rw shape (
          find_at-append (is_symbol sep open_par) pos open_par name (inner ++ close_par ∷ rest) h.0
            (ground (arith, ==_refl open_par))) in
      let there : drop (pos + length name) p ≡ tail =
        sym (drop-drop pos (length name) p) ∙ rw shape (drop-append name tail) in
      let closed : find_at (λ c. c == close_par) (pos + length name) tail
          ≡ some (pos + length name + suc (length inner)) =
        find_at-append (λ c. c == close_par) (pos + length name) close_par (open_par ∷ inner) rest
          h.1 (==_refl close_par) in
      rw (param_end, found, there, ==_refl open_par, closed)
        (ap some (omega (arith, length-text name inner)))

  -- The place where a parameter ends, before the separator behind it.
  param_end-text :
      (p rest : List ℕ) (x : Param) (pos : ℕ)
      → (sep == open_par) ≡ false
      → IsParam x
      → drop pos p ≡ text x ++ sep ∷ rest
      → param_end sep open_par close_par p pos ≡ some (pos + length (text x))
  param_end-text p rest (plain x) pos apart h e =
      param_end-separator sep open_par close_par p x rest pos apart h e
  param_end-text p rest (nested name inner) pos apart h e =
      param_end-nested p name inner (sep ∷ rest) pos h e

  abbrev pub texts : List Param → List (List ℕ)
  texts [] = []
  texts (x ∷ xs) = text x ∷ texts xs

  length-texts : (xs : List Param) → length (texts xs) ≡ length xs
  length-texts [] = refl
  length-texts (x ∷ xs) = ap suc (length-texts xs)

  -- One round of the loop takes the piece in front of the place found.
  split_param_from-round :
      (n old_pos : ℕ) (p x rest : List ℕ) (pieces : List (List ℕ))
      → old_pos ≤ length p
      → drop old_pos p ≡ x ++ rest
      → param_end sep open_par close_par p old_pos ≡ some (old_pos + length x)
      → split_param_from n sep open_par close_par p (old_pos + length x + 1) ≡ some pieces
      → split_param_from (suc n) sep open_par close_par p old_pos ≡ some (remove_spaces x ∷ pieces)
  unfolding split_param_from
  split_param_from-round n old_pos p x rest pieces r e end more =
      let inside : ltb (length p) old_pos ≡ false = ground arith in
      let onward : leb old_pos (old_pos + length x) ≡ true = ground arith in
      let piece : take (old_pos + length x - old_pos) (drop old_pos p) ≡ x =
        let long : old_pos + length x - old_pos ≡ length x = omega arith in
        rw (long, e, take-append x rest) refl in
      rw (inside, end, more, onward, piece) refl

  split_param_from-nested :
      (n old_pos : ℕ) (p : List ℕ) (xs : List Param) (last : Param)
      → (sep == open_par) ≡ false
      → All IsParam xs
      → IsParam last
      → length xs + 1 < n
      → old_pos ≤ length p
      → drop old_pos p ≡ joined sep (texts xs) (text last)
      → split_param_from n sep open_par close_par p old_pos
        ≡ some (map remove_spaces (texts xs) ++ last_pieces last)
  unfolding split_param_from
  split_param_from-nested zero old_pos p xs last d h l b r e = absurd (omega arith)
  split_param_from-nested (suc n) old_pos p [] (plain x) d h l b r e =
      let lacks : Lacks (is_symbol sep open_par) (drop old_pos p) =
        subst (Lacks (is_symbol sep open_par)) (sym e) l in
      let inside : ltb (length p) old_pos ≡ false = ground arith in
      rw (inside, param_end-none sep open_par close_par p old_pos lacks, e) refl
  split_param_from-nested (suc zero) old_pos p [] (nested name inner) d h l b r e =
      absurd (omega arith)
  split_param_from-nested (suc (suc n)) old_pos p [] (nested name inner) d h l b r e =
      let whole : drop old_pos p ≡ text (nested name inner) ++ [] =
        e ∙ sym (append_nil (text (nested name inner))) in
      let past : ltb (length p) (old_pos + length (text (nested name inner)) + 1) ≡ true =
        let long = length-drop old_pos p in
        let same = ap (λ s. length s) e in ground (arith, long, same) in
      split_param_from-round (suc n) old_pos p (text (nested name inner)) [] [] r whole
        (param_end-nested p name inner [] old_pos l whole) (rw past refl)
  split_param_from-nested (suc n) old_pos p (x ∷ xs) last d h l b r e =
      let rest : List ℕ = joined sep (texts xs) (text last) in
      let behind : drop (old_pos + length (text x) + 1) p ≡ rest =
        sym (drop-drop (old_pos + length (text x)) 1 p)
        ∙ rw (sym (drop-drop old_pos (length (text x)) p), e, drop-append (text x) (sep ∷ rest))
            refl in
      let room : old_pos + length (text x) + 1 ≤ length p =
        let long = length-drop old_pos p in
        let same = ap (λ s. length s) e in
        let parts = length-append (text x) (sep ∷ rest) in omega (arith, long, same, parts) in
      split_param_from-round n old_pos p (text x) (sep ∷ rest)
        (map remove_spaces (texts xs) ++ last_pieces last) r e
        (param_end-text p rest x old_pos d h.0 e)
        (split_param_from-nested n (old_pos + length (text x) + 1) p xs last d h.1 l (omega arith)
          room behind)

  -- split_param of parameters joined by the separator gives them with their outer spaces removed,
  -- the last one only if it is not blank.
  pub split_param-nested :
      (xs : List Param) (last : Param)
      → (sep == open_par) ≡ false
      → All IsParam xs
      → IsParam last
      → split_param sep open_par close_par (joined sep (texts xs) (text last))
        ≡ some (map remove_spaces (texts xs) ++ last_pieces last)
  unfolding split_param
  split_param-nested xs last d h l =
      split_param_from-nested (length (joined sep (texts xs) (text last)) + 2) 0
        (joined sep (texts xs) (text last)) xs last d h l
        (let short = length-joined sep (texts xs) (text last) in
          omega (arith, short, length-texts xs))
        (omega arith) refl
