-- ===== src/StrToken/Open.antt =====
-- src/strtoken.cpp: split_param on a parenthesis that stays open.
use sys_rt.Common.{
  ℕ, zero, suc, ◌+◌, ◌-◌, ◌≤◌, ◌≡◌, refl, sym, ◌∙◌, ap, subst, inl, inr, false, none, some, List,
  ◌∷◌, arith, ltb, ◌==◌, ==_refl, length, drop, drop-drop, drop-head, get_elem?-drop, get_elem?,
  get_elem?-ge, Bool-cases,
}
use sys_rt.StrToken.Find.{Lacks, find_at-Lacks, find_at-bounded, drop-Lacks}
use sys_rt.StrToken.{is_symbol, behind_symbol, param_end, split_param_from}

module _ (sep open_par close_par : ℕ) (p : List ℕ) (at : ℕ) (apart : (sep == open_par) ≡ false)
    (opens : get_elem? p at ≡ some open_par) (inner : 1 ≤ at)
    (unclosed : Lacks (λ d. d == close_par) p) where
  strict :
      (k d : ℕ) (cs : List ℕ) → drop k p ≡ d ∷ cs → (d == open_par) ≡ false → k ≤ at → k + 1 ≤ at
  strict k d cs head plain le = elim (Bool-cases (k == at)) [
    | inl same ↦
        let k_at : k ≡ at = ground arith in
        let here = subst (λ n. get_elem? p n ≡ some d) k_at (drop-head k d p cs head) in
        absurd (ground (arith, here, opens, plain))
    | inr other ↦ ground arith
  ]

  -- An iteration that begins at or before the open parenthesis leads to another such place.
  param_end-stays :
      (pos : ℕ)
      → pos ≤ at
      → (next : ℕ) × (param_end sep open_par close_par p pos ≡ some next) × (next + 1 ≤ at)
  unfolding param_end behind_symbol
  param_end-stays pos le =
      let reach : get_elem? (drop pos p) (at - pos) ≡ some open_par =
        let sum : pos + (at - pos) ≡ at = omega arith in
        get_elem?-drop pos (at - pos) p ∙ ap (λ n. get_elem? p n) sum ∙ opens in
      let (j, d, cs, found, b, there, sym_d) =
        find_at-bounded (is_symbol sep open_par) pos (at - pos) open_par (drop pos p) reach
          (ground (arith, ==_refl open_par)) in
      let head : drop (pos + j) p ≡ d ∷ cs = sym (drop-drop pos j p) ∙ there in
      let tail : Lacks (λ e. e == close_par) (d ∷ cs) =
        subst (Lacks (λ e. e == close_par)) head
          (drop-Lacks (λ e. e == close_par) (pos + j) p unclosed) in
      elim (Bool-cases (d == open_par)) [
        | inl par ↦ (
          0,
          rw
              (
                param_end,
                found,
                head,
                par,
                find_at-Lacks (λ e. e == close_par) (pos + j) (d ∷ cs) tail,
              )
              refl,
          inner,
        )
        | inr plain ↦ (
          pos + j,
          rw (param_end, found, head, plain) refl,
          strict (pos + j) d cs head plain (omega arith),
        )
      ]

  -- If a string has an opening parenthesis that is not its first character and no closing one,
  -- the loop of split_param goes round more often than any given number of times, from every
  -- place up to that parenthesis.
  pub split_param_from-unclosed :
      (n pos : ℕ) → pos ≤ at → split_param_from n sep open_par close_par p pos ≡ none
  unfolding split_param_from
  split_param_from-unclosed zero pos le = refl
  split_param_from-unclosed (suc n) pos le =
      let (next, e, b) = param_end-stays pos le in
      let inside : ltb (length p) pos ≡ false = elim (Bool-cases (ltb (length p) pos)) [
        | inl past ↦ absurd (ground (arith, opens, get_elem?-ge p at (ground arith)))
        | inr h ↦ h
      ] in
      rw (split_param_from, inside, e, split_param_from-unclosed n (next + 1) b) refl
