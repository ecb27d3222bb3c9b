-- ===== src/Tests/Random.antt =====
-- The theorems of the distributions, with thousandths as the doubles; a logarithm is 1 and a root is its argument.
use sys_rt.Common.{
  ℕ, zero, suc, ◌+◌, ◌-◌, ◌*◌, ◌/◌, ◌<◌, ◌≡◌, refl, true, false, some, leb, ltb, arith, ok, hang,
  ◌>>=◌, none, [], ◌∷◌,
}
use sys_rt.RandomVar.Distribution.{
  Reals, NormalVar, cutoff, normal_round, normal_get, normal_value, poisson_get, unit_get,
}
use sys_rt.RandomVar.{RandomGen}
use sys_rt.RandomVar.Replay.{get_all}
use sys_rt.RandomVar.File.{File, read_det_var, read_det_var-replays}
use sys_rt.RandomVar.Poisson.{IsLeast, poisson_get-IsLeast}
use sys_rt.RandomVar.Normal.{after, pair, refused, normal_get-pair}

abbrev thousandths : Reals ℕ
thousandths = record {
  of_int = λ n. n * 1000;
  neg = λ x. x;
  exp = λ x. 300;
  log = λ x. 1000;
  sqrt = λ x. x;
  add = λ x y. x + y;
  sub = λ x y. x - y;
  mul = λ x y. x * y / 1000;
  div = λ x y. x * 1000 / y;
  pow = λ x y. x;
  less = ltb;
  geq = λ x y. leb y x;
}

abbrev standard : NormalVar ℕ
standard = record { mu = 5000; sigma = 1000; oldv = 0; yes = false }

abbrev seeded : RandomGen
seeded = record { seed = 100252; xn = 100252 }

sampled_weights :
    IsLeast thousandths 1500
      (unit_get thousandths seeded).1
      (cutoff - 1)
      (poisson_get thousandths 1500 seeded).1
sampled_weights = poisson_get-IsLeast thousandths 1500 seeded

first_refused : (m : ℕ) → m < 1 → refused thousandths m seeded ≡ true
unfolding normal_round
first_refused zero r = refl
first_refused (suc m) r = absurd (omega (arith, r))

-- The first pair is refused, the second gives two values.
normal_get-pair_example :
    let (t₁, t₂, r) = pair thousandths 1 seeded in
    (w : NormalVar ℕ) × (normal_get thousandths 2 standard seeded
      ≡ some (w, after thousandths 2 seeded, normal_value thousandths standard t₂ r))
    × (normal_get thousandths 0 w seeded
        ≡ some (record w { yes = false }, seeded, normal_value thousandths standard t₁ r))
    × (w.mu ≡ standard.mu)
    × (w.sigma ≡ standard.sigma)
unfolding normal_round
normal_get-pair_example =
    normal_get-pair thousandths standard 1 2 0 seeded seeded refl first_refused refl (omega arith)

poisson_runs : (poisson_get thousandths 1500 seeded).1 ≡ 2
unfolding poisson_get
poisson_runs = refl

-- A file with the numbers 4 and 7 and a line end.
abbrev two_numbers : File ℕ
two_numbers = record { values = some 4 ∷ some 7 ∷ []; blanks_follow = true }

read_det_var-replays_example :
    (read_det_var (some two_numbers) >>= get_all 3)
    ≡ ok (record { array = 4 ∷ 7 ∷ 7 ∷ []; count = 3 }, 4 ∷ 7 ∷ 7 ∷ [])
read_det_var-replays_example = read_det_var-replays (4 ∷ []) 7 two_numbers refl refl

no_number :
    read_det_var {A = ℕ} (some (record { values = some 4 ∷ none ∷ []; blanks_follow = true }))
    ≡ hang
unfolding read_det_var
no_number = refl
