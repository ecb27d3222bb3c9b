-- ===== src/RandomVar/Normal.antt =====
-- src/randomvar.cpp: NormalVar::get makes two values of each pair of samples that it accepts.
use sys_rt.Common.{ℕ, zero, suc, ◌<◌, ◌≡◌, refl, Bool, true, false, some, arith}
use sys_rt.RandomVar.{RandomGen}
use sys_rt.RandomVar.Distribution.{
  Reals, NormalVar, normal_round, normal_loop, normal_get, normal_value,
}

module _ {D : Type 0} (a : Reals D) where
  -- The generator after n rounds.
  abbrev pub after : ℕ → RandomGen → RandomGen
  after zero g = g
  after (suc n) g = after n (normal_round a g).0

  -- The pair of round n, its r, and whether that is refused.
  abbrev pub pair : ℕ → RandomGen → D × D × D
  pair n g = (normal_round a (after n g)).1

  abbrev pub refused : ℕ → RandomGen → Bool
  refused n g = a.geq (pair n g).2 (a.of_int 1)

  normal_loop-accepts :
      (n fuel : ℕ) (g : RandomGen)
      → ((m : ℕ) → m < n → refused m g ≡ true)
      → refused n g ≡ false
      → n < fuel
      → normal_loop a fuel g ≡ some (after (suc n) g, pair n g)
  unfolding normal_loop
  normal_loop-accepts n zero g h k b = absurd (omega arith)
  normal_loop-accepts zero (suc fuel) g h k b = rw (normal_loop, k) refl
  normal_loop-accepts (suc n) (suc fuel) g h k b =
      rw (normal_loop, h 0 (omega arith))
        (normal_loop-accepts n fuel (normal_round a g).0 (λ m r. h (suc m) (omega (arith, r))) k
          (omega arith))

  -- If the first pair of samples whose r is below 1 comes after some rounds, and the fuel is more
  -- than their number, NormalVar::get without a stored value gives the value of the second of the
  -- pair, and the next call gives that of the first, from any generator, which it leaves alone,
  -- and stores nothing.
  pub normal_get-pair :
      (v : NormalVar D) (n fuel fuel' : ℕ) (g g' : RandomGen)
      → v.yes ≡ false
      → ((m : ℕ) → m < n → refused m g ≡ true)
      → refused n g ≡ false
      → n < fuel
      → let (t₁, t₂, r) = pair n g in
        (w : NormalVar D) × (normal_get a fuel v g
          ≡ some (w, after (suc n) g, normal_value a v t₂ r))
        × (normal_get a fuel' w g' ≡ some (record w { yes = false }, g', normal_value a v t₁ r))
        × (w.mu ≡ v.mu)
        × (w.sigma ≡ v.sigma)
  unfolding normal_get
  normal_get-pair v n fuel fuel' g g' fresh h k b =
      let loop = normal_loop-accepts n fuel g h k b in
      (
        record v { oldv = normal_value a v (pair n g).0 (pair n g).2; yes = true },
        simp (normal_get, fresh, loop),
        refl,
        refl,
        refl,
      )
