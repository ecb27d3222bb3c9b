-- ===== src/StrToken/Instructions.antt =====
-- src/strtoken.cpp: split_instr, get_token and get_param give back what an instruction is written from.
use sys_rt.Common.{
  take-append, ℕ, zero, suc, ◌+◌, ◌-◌, ◌≤◌, ◌<◌, ◌≡◌, refl, sym, ◌∙◌, ap, subst, Bool, true, false,
  ◌||◌, some, List, [], ◌∷◌, ◌++◌, map, arith, leb, ltb, ◌==◌, ==_refl, length, length-append,
  append_assoc, drop, drop-drop, All,
}
use sys_rt.StrToken.Find.{Lacks, find_at-Lacks, find_at-append, find_last_at-append, drop-append}
use sys_rt.StrToken.{
  space, newline, semicolon, find_at, find_last_at, remove_spaces, split_instr_from, split_instr,
  get_token, get_param,
}

-- Instructions, each with a semicolon behind it, and what follows the last one.
abbrev pub terminated : List (List ℕ) → List ℕ → List ℕ
terminated [] rest = rest
terminated (p ∷ ps) rest = p ++ semicolon ∷ terminated ps rest

abbrev is_end : ℕ → Bool
is_end c = c == semicolon

split_instr_from-terminated :
    (n : ℕ) (ps : List (List ℕ)) (rest : List ℕ)
    → All (Lacks is_end) ps
    → Lacks is_end rest
    → length ps < n
    → split_instr_from n (terminated ps rest) ≡ map remove_spaces ps
unfolding split_instr_from
split_instr_from-terminated zero ps rest h l b = absurd (omega arith)
split_instr_from-terminated (suc n) [] rest h l b =
    rw (split_instr_from, find_at-Lacks is_end 0 rest l) refl
split_instr_from-terminated (suc n) (p ∷ ps) rest h l b =
    let found : find_at is_end 0 (p ++ semicolon ∷ terminated ps rest) ≡ some (length p) =
      find_at-append is_end 0 semicolon p (terminated ps rest) h.0 refl ∙ ap some (omega arith) in
    let behind : drop (length p + 1) (p ++ semicolon ∷ terminated ps rest) ≡ terminated ps rest =
      sym (drop-drop (length p) 1 (p ++ semicolon ∷ terminated ps rest))
      ∙ rw (drop-append p (semicolon ∷ terminated ps rest)) refl in
    rw
      (
        split_instr_from,
        found,
        take-append p (semicolon ∷ terminated ps rest),
        behind,
        split_instr_from-terminated n ps rest h.1 l (omega arith),
      )
      refl

length-terminated : (ps : List (List ℕ)) (rest : List ℕ) → length ps ≤ length (terminated ps rest)
length-terminated [] rest = omega arith
length-terminated (p ∷ ps) rest =
    let parts = length-append p (semicolon ∷ terminated ps rest) in
    omega (arith, parts, length-terminated ps rest)

-- split_instr of instructions without semicolons, each with a semicolon behind it, followed by
-- anything without a semicolon, gives the instructions, their outer spaces removed.
pub split_instr-terminated :
    (ps : List (List ℕ)) (rest : List ℕ)
    → All (Lacks (λ c. c == semicolon)) ps
    → Lacks (λ c. c == semicolon) rest
    → split_instr (terminated ps rest) ≡ map remove_spaces ps
unfolding split_instr
split_instr-terminated ps rest h l =
    split_instr_from-terminated (length (terminated ps rest) + 1) ps rest h l
      (omega (arith, length-terminated ps rest))

-- For a token without an opening parenthesis that does not begin with a blank, get_token and
-- get_param of the token with a parameter in parentheses give the token and the parameter.
pub get_token-get_param :
    (open_par close_par c : ℕ) (token param : List ℕ)
    → ((c == space) || (c == newline)) ≡ false
    → Lacks (λ d. d == open_par) (c ∷ token)
    → let instr = (c ∷ token) ++ (open_par ∷ (param ++ close_par ∷ [])) in
      (get_token open_par instr ≡ some (c ∷ token)) × (get_param open_par close_par instr ≡ param)
unfolding get_token get_param
get_token-get_param open_par close_par c token param first lacks =
    let x = c ∷ token in
    let y = open_par ∷ (param ++ close_par ∷ []) in
    let open_at : find_at (λ d. d == open_par) 0 (x ++ y) ≡ some (length x) =
      find_at-append (λ d. d == open_par) 0 open_par x (param ++ close_par ∷ []) lacks
        (==_refl open_par)
      ∙ ap some (omega arith) in
    let long : length (x ++ open_par ∷ param) ≡ length x + suc (length param) =
      length-append x (open_par ∷ param) in
    let close_at : find_last_at (λ d. d == close_par) 0 (x ++ y)
        ≡ some (length x + suc (length param)) =
      subst (λ z. find_last_at (λ d. d == close_par) 0 z ≡ some (length x + suc (length param)))
        (append_assoc x (open_par ∷ param) (close_par ∷ []))
        (find_last_at-append (λ d. d == close_par) 0 close_par (x ++ open_par ∷ param)
            (==_refl close_par)
          ∙ ap some (omega (arith, long))) in
    let behind : drop (length x + 1) (x ++ y) ≡ param ++ close_par ∷ [] =
      sym (drop-drop (length x) 1 (x ++ y)) ∙ rw (drop-append x y) refl in
    let inside : ltb (length x) (length x + suc (length param)) ≡ true = ground arith in
    let count : length x + suc (length param) - length x - 1 ≡ length param = omega arith in
    let from_start : leb 0 (length x) ≡ true = ground arith in
    let all : length x - 0 ≡ length x = omega arith in
    (
      rw (get_token, first, open_at, from_start, all) (ap some (take-append x y)),
      rw (get_param, open_at, close_at, inside, behind, count, take-append param (close_par ∷ []))
          refl,
    )
