-- ===== src/RandomVar/Poisson.antt =====
-- src/randomvar.cpp: PoissonVar::get inverts the cumulative sums of the Poisson weights.
use sys_rt.Common.{
  ℕ, zero, suc, ◌+◌, ◌-◌, ◌<◌, ◌≡◌, refl, subst, ◌⊎◌, inl, inr, true, false, ◌==◌, arith,
  Bool-cases,
}
use sys_rt.RandomVar.{RandomGen}
use sys_rt.RandomVar.Distribution.{Reals, cutoff, unit_get, poisson_from, poisson_get}

module _ {D : Type 0} (a : Reals D) (lambda : D) where
  -- The weight of k.
  abbrev pub weight : ℕ → D
  weight zero = a.exp (a.neg lambda)
  weight (suc k) = a.div (a.mul (weight k) lambda) (a.of_int (suc k))

  -- The sum of the weights up to that of k.
  abbrev pub total : ℕ → D
  total zero = weight zero
  total (suc k) = a.add (total k) (weight (suc k))

  -- No sum of the first n is above u.
  abbrev pub Below : D → ℕ → Type 0
  Below u n = (j : ℕ) → j < n → a.less u (total j) ≡ false

  -- The least k whose sum is above u, or the cutoff if none of the n sums is.
  abbrev pub IsLeast : D → ℕ → ℕ → Type 0
  IsLeast u n k = ((k < n) × (a.less u (total k) ≡ true) × Below u k) ⊎ ((k ≡ cutoff) × Below u n)

  Below-suc : (u : D) (m : ℕ) → Below u m → a.less u (total m) ≡ false → Below u (suc m)
  Below-suc u m b h j r = elim (Bool-cases (j == m)) [
    | inl same ↦ let e : m ≡ j = ground arith in subst (λ i. a.less u (total i) ≡ false) e h
    | inr other ↦ b j (ground arith)
  ]

  poisson_from-IsLeast :
      (u : D) (n m : ℕ)
      → Below u m
      → IsLeast u (m + n) (poisson_from a lambda u n (suc m) (weight m) (total m))
  unfolding poisson_from
  poisson_from-IsLeast u zero m b =
      let end : m ≡ m + 0 = omega arith in inr (refl, subst (Below u) end b)
  poisson_from-IsLeast u (suc n) m b = elim (Bool-cases (a.less u (total m))) [
    | inl above ↦
        let place : suc m - 1 ≡ m = omega arith in
        rw (poisson_from, above, place) (inl (omega arith, above, b))
    | inr not_above ↦
        let next : suc m + 1 ≡ suc (suc m) = omega arith in
        let all : suc m + n ≡ m + suc n = omega arith in
        rw (poisson_from, not_above, next)
          (subst
            (λ k.
              IsLeast u k
                (poisson_from a lambda u n (suc (suc m)) (weight (suc m)) (total (suc m))))
            all (poisson_from-IsLeast u n (suc m) (Below-suc u m b not_above)))
  ]

  -- PoissonVar::get gives the least number below 9999 whose cumulative sum of the Poisson weights
  -- is above the uniform sample, and CUTOFF if there is none.
  pub poisson_get-IsLeast :
      (g : RandomGen)
      → let u = (unit_get a g).1 in IsLeast u (cutoff - 1) (poisson_get a lambda g).1
  unfolding poisson_get
  poisson_get-IsLeast g =
      poisson_from-IsLeast (unit_get a g).1 (cutoff - 1) 0 (λ j r. absurd (omega (arith, r)))
