-- ===== src/StrToken/Params.antt =====
-- src/strtoken.cpp: where split_param ends a parameter without parentheses.
use sys_rt.Common.{
  ℕ, ◌+◌, ◌≤◌, ◌≡◌, refl, sym, ◌∙◌, false, none, some, List, [], ◌∷◌, ◌++◌, arith, ◌==◌, ==_refl,
  length, length-append, drop, drop-drop,
}
use sys_rt.StrToken.Find.{Lacks, find_at-Lacks, find_at-append, drop-append}
use sys_rt.StrToken.{is_symbol, behind_symbol, find_at, param_end}

-- The pieces, each with the separator behind it, and a last one.
abbrev pub joined : ℕ → List (List ℕ) → List ℕ → List ℕ
joined sep [] last = last
joined sep (p ∷ ps) last = p ++ sep ∷ joined sep ps last

pub length-joined :
    (sep : ℕ) (ps : List (List ℕ)) (last : List ℕ) → length ps ≤ length (joined sep ps last)
length-joined sep [] last = omega arith
length-joined sep (p ∷ ps) last =
    let parts = length-append p (sep ∷ joined sep ps last) in
    omega (arith, parts, length-joined sep ps last)

module _ (sep open_par close_par : ℕ) where
  -- The next symbol is a separator.
  pub param_end-separator :
      (p x rest : List ℕ) (pos : ℕ)
      → (sep == open_par) ≡ false
      → Lacks (is_symbol sep open_par) x
      → drop pos p ≡ x ++ sep ∷ rest
      → param_end sep open_par close_par p pos ≡ some (pos + length x)
  unfolding param_end behind_symbol
  param_end-separator p x rest pos d h e =
      let found : find_at (is_symbol sep open_par) pos (drop pos p) ≡ some (pos + length x) =
        rw e (
          find_at-append (is_symbol sep open_par) pos sep x rest h (ground (arith, ==_refl sep))) in
      let there : drop (pos + length x) p ≡ sep ∷ rest =
        sym (drop-drop pos (length x) p) ∙ rw e (drop-append x (sep ∷ rest)) in
      rw (param_end, found, there, d) refl

  pub param_end-none :
      (p : List ℕ) (pos : ℕ)
      → Lacks (is_symbol sep open_par) (drop pos p)
      → param_end sep open_par close_par p pos ≡ none
  unfolding param_end behind_symbol
  param_end-none p pos h =
      rw (param_end, find_at-Lacks (is_symbol sep open_par) pos (drop pos p) h) refl
