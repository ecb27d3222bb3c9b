-- ===== src/Factory/Numbers.antt =====
-- strtoul with base 0 and atoi of the C library, as src/exeinstr.cpp and src/suspend_instr.cpp call them.
use sys_rt.Common.{
  ℕ, ◌+◌, ◌-◌, ◌*◌, ◌^◌, Bool, true, false, ◌&&◌, ◌||◌, Option, none, some, List, [], ◌∷◌, Run, ok,
  fault, leb, ltb, ◌==◌, if◌then◌else◌,
}

-- isdigit
abbrev pub is_digit : ℕ → Bool
is_digit c = leb 48 c && leb c 57

-- isspace
abbrev is_space : ℕ → Bool
is_space c = (c == 32) || leb 9 c && leb c 13

abbrev pub digit : ℕ → ℕ → Option ℕ
digit base c =
    let v =
      if is_digit c
      then c - 48
      else if leb 97 c && leb c 102
      then c - 87
      else if leb 65 c && leb c 70
      then c - 55
      else base in
    if ltb v base then some v else none

-- The digits up to the first character that is none.
abbrev pub read_digits : ℕ → ℕ → List ℕ → ℕ
read_digits base acc [] = acc
read_digits base acc (c ∷ cs) = elim (digit base c) [
  | none ↦ acc
  | some d ↦ read_digits base (acc * base + d) cs
]

abbrev skip_space : List ℕ → List ℕ
skip_space [] = []
skip_space (c ∷ cs) = let rest = skip_space cs in if is_space c then rest else c ∷ cs

-- Whether a minus stands in front, and what is behind the sign.
abbrev sign : List ℕ → Bool × List ℕ
sign [] = (false, [])
sign (c ∷ cs) = if c == 45 then (true, cs) else if c == 43 then (false, cs) else (false, c ∷ cs)

-- Behind a 0: hexadecimal if an x and a digit follow, octal otherwise.
abbrev read_prefixed : List ℕ → ℕ
read_prefixed (x ∷ d ∷ cs) =
    let hex : Bool = elim (digit 16 d) [ none ↦ false | some v ↦ (x == 120) || (x == 88) ] in
    if hex then read_digits 16 0 (d ∷ cs) else read_digits 8 0 (x ∷ d ∷ cs)
read_prefixed cs = read_digits 8 0 cs

abbrev read_number : List ℕ → ℕ
read_number [] = 0
read_number (c ∷ cs) = if c == 48 then read_prefixed cs else read_digits 10 0 (c ∷ cs)

-- An unsigned long has 64 bits; a value that does not fit gives the largest one.
unfoldable pub strtoul : List ℕ → ℕ
strtoul s =
    let (minus, digits) = sign (skip_space s) in
    let n = read_number digits in
    if leb (2 ^ 64) n then 2 ^ 64 - 1 else if minus && ltb 0 n then 2 ^ 64 - n else n

-- The int as sc_time::from_value takes it, a word of 64 bits; one that does not fit is undefined.
unfoldable pub atoi : List ℕ → Run ℕ
atoi s =
    let (minus, digits) = sign (skip_space s) in
    let n = read_digits 10 0 digits in
    if minus
    then (if ltb (2 ^ 31) n then fault else if ltb 0 n then ok (2 ^ 64 - n) else ok n)
    else (if leb (2 ^ 31) n then fault else ok n)
