-- ===== src/RandomVar/Congruence.antt =====
-- src/randomvar.cpp: the generator computes 16807 x mod 2^31 - 1 without leaving 32 bits.
use sys_rt.Common.{◌*◌, ◌/◌, ◌%◌, ◌≤◌, ◌<◌, ◌≡◌, refl, arith, leb, Bool-cases, inl, inr}
use sys_rt.RandomVar.{multiplier, modulus, quotient, residue, RandomGen, next_state, sample}

-- From a state between 1 and 2^31 - 2, sample gives 16807 times the state modulo 2^31 - 1, and
-- leaves that as the state, again between 1 and 2^31 - 2.
pub sample-congruence :
    (g : RandomGen)
    → 0 < g.xn
    → g.xn < modulus
    → let r = sample g in
      (r.1 ≡ (multiplier * g.xn) % modulus) × (r.0.xn ≡ r.1) × (0 < r.1) × (r.1 < modulus)
unfolding sample next_state
sample-congruence g a b =
    elim (Bool-cases (leb (residue * (g.xn / quotient)) (multiplier * (g.xn % quotient)))) [
      | inl h ↦
          let fits : residue * (g.xn / quotient) ≤ multiplier * (g.xn % quotient) = ground arith in
          rw h (omega arith, refl, omega arith, omega arith)
      | inr h ↦
          let low : multiplier * (g.xn % quotient) < residue * (g.xn / quotient) = ground arith in
          rw h (omega arith, refl, omega arith, omega arith)
    ]
