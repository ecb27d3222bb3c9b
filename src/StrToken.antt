-- ===== src/StrToken.antt =====
-- src/strtoken.hpp, strtoken.cpp: the parsing helpers of parse_util. A std::string is the list of its
-- characters' codes, and `none` is npos.
pub mod Instructions
pub mod Params
pub mod Find
pub mod Open
pub mod Nested
pub mod Split
use sys_rt.Common.{
  ℕ, zero, suc, ◌+◌, ◌-◌, ◌≡◌, Bool, true, false, not, ◌||◌, Option, none, some, List, [], ◌∷◌,
  ◌++◌, leb, ltb, ◌==◌, if◌then◌else◌, length, drop, take,
}

abbrev pub space : ℕ
space = 32

abbrev pub newline : ℕ
newline = 10

abbrev pub semicolon : ℕ
semicolon = 59

-- The first place, counted from i on, of a character with the property.
abbrev pub find_at : (ℕ → Bool) → ℕ → List ℕ → Option ℕ
find_at is i [] = none
find_at is i (c ∷ cs) = let rest = find_at is (i + 1) cs in if is c then some i else rest

-- The last such place.
abbrev pub find_last_at : (ℕ → Bool) → ℕ → List ℕ → Option ℕ
find_last_at is i [] = none
find_last_at is i (c ∷ cs) = elim (find_last_at is (i + 1) cs) [
  | some j ↦ some j
  | none ↦ if is c then some i else none
]

-- substr of a start in range, to the end if the count is npos or wraps around.
abbrev pub substr : List ℕ → ℕ → Option ℕ → List ℕ
substr s from none = drop from s
substr s from (some n) = take n (drop from s)

unfoldable pub remove_spaces : List ℕ → List ℕ
remove_spaces tk =
    let temp : List ℕ = elim (find_at (λ c. not (c == space)) 0 tk) [
      | none ↦ []
      | some i ↦ drop i tk
    ] in
    elim (find_last_at (λ c. not (c == space)) 0 temp) [
      | none ↦ []
      | some pos ↦ take (pos + 1) temp
    ]

-- The loop of split_instr from old_pos on, which each `;` that is found makes go round once more.
unfoldable pub split_instr_from : ℕ → List ℕ → List (List ℕ)
unfolding remove_spaces
split_instr_from zero rest = []
split_instr_from (suc n) rest = elim (find_at (λ c. c == semicolon) 0 rest) [
  | none ↦ []
  | some pos ↦ remove_spaces (take pos rest) ∷ split_instr_from n (drop (pos + 1) rest)
]

unfoldable pub split_instr : List ℕ → List (List ℕ)
unfolding split_instr_from
split_instr code = split_instr_from (length code + 1) code

-- substr throws out_of_range if there is no first character, which is `none`.
unfoldable pub get_token : ℕ → List ℕ → Option (List ℕ)
get_token open_par instr = elim (find_at (λ c. not ((c == space) || (c == newline))) 0 instr) [
  | none ↦ none
  | some pos1 ↦ elim (find_at (λ c. c == open_par) 0 instr) [
    | none ↦ some (substr instr pos1 none)
    | some pos ↦ some (substr instr pos1 (if leb pos1 pos then some (pos - pos1) else none))
  ]
]

unfoldable pub get_param : ℕ → ℕ → List ℕ → List ℕ
get_param open_par close_par instr = elim (find_at (λ c. c == open_par) 0 instr) [
  | none ↦ []
  | some pos ↦ elim (find_last_at (λ c. c == close_par) 0 instr) [
    | none ↦ substr instr (pos + 1) none
    | some end ↦ substr instr (pos + 1) (if ltb pos end then some (end - pos - 1) else none)
  ]
]

abbrev pub is_symbol : ℕ → ℕ → ℕ → Bool
is_symbol sep open_par c = (c == sep) || (c == open_par)

-- Where a symbol that is found takes pos: behind the closing parenthesis for an opening one, and to
-- 0, which is npos + 1, if there is none.
unfoldable pub behind_symbol : ℕ → ℕ → ℕ → List ℕ → ℕ
behind_symbol open_par close_par at [] = at
behind_symbol open_par close_par at (c ∷ cs) =
    if c == open_par
    then elim (find_at (λ d. d == close_par) at (c ∷ cs)) [ none ↦ 0 | some end ↦ end + 1 ]
    else at

-- The first half of an iteration of split_param.
unfoldable pub param_end : ℕ → ℕ → ℕ → List ℕ → ℕ → Option ℕ
unfolding behind_symbol
param_end sep open_par close_par p pos = elim (find_at (is_symbol sep open_par) pos (drop pos p)) [
  | none ↦ none
  | some at ↦ some (behind_symbol open_par close_par at (drop at p))
]

-- The last piece counts only if it is not blank.
abbrev pub unless_blank : List ℕ → List (List ℕ)
unless_blank [] = []
unless_blank (c ∷ cs) = (c ∷ cs) ∷ []

-- The loop with the code after it; pos and old_pos are equal whenever it goes round. `none` is that the
-- fuel has run out.
unfoldable pub split_param_from : ℕ → ℕ → ℕ → ℕ → List ℕ → ℕ → Option (List (List ℕ))
unfolding param_end
split_param_from zero sep open_par close_par p old_pos = none
split_param_from (suc n) sep open_par close_par p old_pos =
    if ltb (length p) old_pos then some [] else elim (param_end sep open_par close_par p old_pos) [
      | none ↦ some (unless_blank (remove_spaces (drop old_pos p)))
      | some pos ↦
          let count = if leb old_pos pos then some (pos - old_pos) else none in
          let piece = remove_spaces (substr p old_pos count) in
          elim (split_param_from n sep open_par close_par p (pos + 1)) [
            | none ↦ none
            | some rest ↦ some (piece ∷ rest)
          ]
    ]

-- Without a parenthesis that stays open an iteration moves on by at least one character.
unfoldable pub split_param : ℕ → ℕ → ℕ → List ℕ → Option (List (List ℕ))
unfolding split_param_from
split_param sep open_par close_par p = split_param_from (length p + 2) sep open_par close_par p 0
