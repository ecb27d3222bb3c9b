-- ===== src/RandomVar/Distribution.antt =====
-- src/randomvar.hpp, src/randomvar.cpp: the distributions, which compute with doubles. A double is an element of
-- a type with the operations that the code uses; the generator that the variables share is passed on.
use sys_rt.Common.{ℕ, zero, suc, ◌+◌, ◌-◌, Bool, true, false, Option, none, some, if◌then◌else◌}
use sys_rt.RandomVar.{RandomGen, modulus, sample}

pub record Reals (D : Type 0) : Type 0 where
  pub of_int : ℕ → D
  pub neg : D → D
  pub exp : D → D
  pub log : D → D
  pub sqrt : D → D
  pub add : D → D → D
  pub sub : D → D → D
  pub mul : D → D → D
  pub div : D → D → D
  pub pow : D → D → D
  -- < and >=
  pub less : D → D → Bool
  pub geq : D → D → Bool

abbrev pub cutoff : ℕ
cutoff = 10000

-- NormalVar, whose generator is passed on; `oldv` counts while `yes` is set.
pub record NormalVar (D : Type 0) : Type 0 where
  pub mu : D
  pub sigma : D
  pub oldv : D
  pub yes : Bool

module _ {D : Type 0} (a : Reals D) where
  unfoldable pub uniform_get : D → D → RandomGen → RandomGen × D
  unfolding sample
  uniform_get min max g =
      let (h, tmp) = sample g in
      (h, a.add (a.div (a.mul (a.of_int tmp) (a.sub max min)) (a.of_int modulus)) min)

  -- UniformVar::get of the variables between 0 and 1
  unfoldable pub unit_get : RandomGen → RandomGen × D
  unfolding uniform_get
  unit_get g = uniform_get (a.of_int 0) (a.of_int 1) g

  unfoldable pub exponential_get : D → RandomGen → RandomGen × D
  unfolding unit_get
  exponential_get lambda g = let (h, u) = unit_get g in (h, a.mul (a.neg (a.log u)) lambda)

  unfoldable pub pareto_get : D → D → RandomGen → RandomGen × D
  unfolding unit_get
  pareto_get mu order g =
      let (h, u) = unit_get g in (h, a.mul mu (a.pow u (a.div (a.neg (a.of_int 1)) order)))

  -- The loop of PoissonVar::get from i on, with as many rounds as are left.
  unfoldable pub poisson_from : D → D → ℕ → ℕ → D → D → ℕ
  poisson_from lambda u zero i f s = cutoff
  poisson_from lambda u (suc n) i f s = elim (a.less u s) [
    | true ↦ i - 1
    | false ↦
        let f' = a.div (a.mul f lambda) (a.of_int i) in
        poisson_from lambda u n (i + 1) f' (a.add s f')
  ]

  unfoldable pub poisson_get : D → RandomGen → RandomGen × ℕ
  unfolding unit_get poisson_from
  poisson_get lambda g =
      let (h, u) = unit_get g in
      let f = a.exp (a.neg lambda) in (h, poisson_from lambda u (cutoff - 1) 1 f f)

  -- One round of the loop of NormalVar::get: t1, t2 and r.
  unfoldable pub normal_round : RandomGen → RandomGen × (D × D × D)
  unfolding unit_get
  normal_round g =
      let (g₁, u₁) = unit_get g in
      let (g₂, u₂) = unit_get g₁ in
      let t₁ = a.sub (a.mul (a.of_int 2) u₁) (a.of_int 1) in
      let t₂ = a.sub (a.mul (a.of_int 2) u₂) (a.of_int 1) in
      (g₂, (t₁, t₂, a.add (a.mul t₁ t₁) (a.mul t₂ t₂)))

  -- The rounds up to the first whose r is below 1; `none` is that the fuel has run out.
  unfoldable pub normal_loop : ℕ → RandomGen → Option (RandomGen × (D × D × D))
  unfolding normal_round
  normal_loop zero g = none
  normal_loop (suc n) g =
      let (h, t) = normal_round g in
      elim (a.geq t.2 (a.of_int 1)) [ true ↦ normal_loop n h | false ↦ some (h, t) ]

  -- The value for t, where r is the square sum.
  abbrev pub normal_value : NormalVar D → D → D → D
  normal_value v t r =
      let scale = a.mul (a.sqrt (a.div (a.mul (a.neg (a.of_int 2)) (a.log r)) r)) v.sigma in
      a.add v.mu (a.mul t scale)

  unfoldable pub normal_get : ℕ → NormalVar D → RandomGen → Option (NormalVar D × RandomGen × D)
  unfolding normal_loop
  normal_get n v g =
      if v.yes then some (record v { yes = false }, g, v.oldv) else elim (normal_loop n g) [
        | none ↦ none
        | some (h, t) ↦
            some (record v { oldv = normal_value v t.0 t.2; yes = true }, h, normal_value v t.1 t.2)
      ]
