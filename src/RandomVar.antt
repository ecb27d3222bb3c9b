-- ===== src/RandomVar.antt =====
-- src/randomvar.hpp, randomvar.cpp: RandomGen, the linear congruential generator, and DetVar, the variable
-- that replays an array.
pub mod Congruence
pub mod Replay
pub mod File
pub mod Distribution
pub mod Poisson
pub mod Normal
use sys_rt.Common.{
  ℕ, ◌+◌, ◌-◌, ◌*◌, ◌/◌, ◌%◌, Bool, true, false, Option, none, some, List, [], ◌∷◌, Run, ok, fault,
  leb, if◌then◌else◌, length, get_elem?,
}

-- A, M, Q and R of the code: M is 2^31 - 1, Q is M div A and R is M mod A.
abbrev pub multiplier : ℕ
multiplier = 16807

abbrev pub modulus : ℕ
modulus = 2147483647

abbrev pub quotient : ℕ
quotient = 127773

abbrev pub residue : ℕ
residue = 2836

-- The fields are longs; here they are natural numbers, as the seeds are.
pub record RandomGen : Type 0 where
  pub seed : ℕ
  pub xn : ℕ

unfoldable pub new_generator : ℕ → RandomGen
new_generator s = record { seed = s; xn = s }

unfoldable pub init : ℕ → RandomGen → RandomGen
init s g = record { seed = s; xn = s }

-- A difference below zero gets M added, which for a state below M makes it positive.
unfoldable pub next_state : ℕ → ℕ
next_state x =
    let xq = x / quotient in
    let xr = x % quotient in
    if leb (residue * xq) (multiplier * xr)
    then multiplier * xr - residue * xq
    else multiplier * xr + modulus - residue * xq

unfoldable pub sample : RandomGen → RandomGen × ℕ
unfolding next_state
sample g = (record g { xn = next_state g.xn }, next_state g.xn)

-- DetVar: the array and the place of the next value.
pub record DetVar (A : Type 0) : Type 0 where
  pub array : List A
  pub count : ℕ

unfoldable pub new_det_var : {A : Type 0} → List A → DetVar A
new_det_var a = record { array = a; count = 0 }

-- An empty array is read out of range.
unfoldable pub get : {A : Type 0} → DetVar A → Run (DetVar A × A)
get v =
    let i = if leb (length v.array) v.count then 0 else v.count in
    elim (get_elem? v.array i) [ none ↦ fault | some x ↦ ok (record v { count = i + 1 }, x) ]

-- The loop of getMaximum, and of getMinimum with the other comparison.
unfoldable pub best_of : {A : Type 0} → (A → A → Bool) → A → List A → A
best_of beats m [] = m
best_of beats m (x ∷ xs) = best_of beats (if beats x m then x else m) xs

unfoldable pub get_extreme : {A : Type 0} → (A → A → Bool) → A → DetVar A → A
unfolding best_of
get_extreme beats zero v = elim v.array [ [] ↦ zero | x ∷ xs ↦ best_of beats x xs ]
