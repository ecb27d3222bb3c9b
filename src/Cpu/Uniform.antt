-- ===== src/Cpu/Uniform.antt =====
-- src/cpu.hpp, src/cpu.cpp: uniformCPUFactory.
use sys_rt.Common.{
  ℕ, zero, suc, true, false, inl, inr, ◌∙◌, Bool-cases, Returns-bind, ◌+◌, ◌≤◌, ◌≡◌, refl, sym, ap,
  some, List, [], ◌∷◌, Run, ok, deref, ◌>>=◌, Returns, drop, arith, ◌==◌, if◌then◌else◌, length,
  get_elem?,
}
use sys_rt.Cpu.{Doubles, Cpu, new_cpu, new_cpu_levels, set_index}

-- _n is the length of the names.
pub record UniformCpuFactory : Type 0 where
  pub names : List (List ℕ)
  pub curr : ℕ
  pub index : ℕ

unfoldable pub new_factory : List (List ℕ) → UniformCpuFactory
new_factory names = record { names = names; curr = 0; index = 0 }

-- The arguments of createCPU: the levels below the last one, which are num_levels - 1, the last one, and the name.
pub record Request (D : Type 0) : Type 0 where
  pub below : List (D × ℕ)
  pub top : D × ℕ
  pub name : List ℕ

module _ {D : Type 0} (d : Doubles D) where
  -- One level means a processor without PowerSaving.
  unfoldable pub make_cpu : Request D → List ℕ → Cpu D
  unfolding new_cpu new_cpu_levels
  make_cpu r name = elim r.below [
    | [] ↦ new_cpu name
    | l ∷ ls ↦ new_cpu_levels d r.below r.top name
  ]

  -- The name of the next processor, which a name that is left goes before.
  unfoldable pub next_name : UniformCpuFactory → Request D → Run (UniformCpuFactory × List ℕ)
  next_name f r =
      if f.curr == length f.names
      then ok (f, r.name)
      else (deref (get_elem? f.names f.curr) >>= λ n. ok (record f { curr = f.curr + 1 }, n))

  unfoldable pub create_cpu : UniformCpuFactory → Request D → Run (UniformCpuFactory × Cpu D)
  unfolding next_name make_cpu set_index
  create_cpu f r = do
    (g, name) ← next_name f r
    ok (record g { index = g.index + 1 }, set_index g.index (make_cpu r name))

  -- Several calls in order.
  abbrev pub create_cpus :
      UniformCpuFactory → List (Request D) → Run (UniformCpuFactory × List (Cpu D))
  create_cpus f [] = ok (f, [])
  create_cpus f (r ∷ rs) = do (g, c) ← create_cpu f r; (h, cs) ← create_cpus g rs; ok (h, c ∷ cs)

  -- What the calls give for the names that are left and an index to begin with.
  abbrev pub expected : List (List ℕ) → ℕ → List (Request D) → List (Cpu D)
  expected names i [] = []
  expected [] i (r ∷ rs) = set_index i (make_cpu r r.name) ∷ expected [] (i + 1) rs
  expected (n ∷ ns) i (r ∷ rs) = set_index i (make_cpu r n) ∷ expected ns (i + 1) rs

  -- A name that is left, and what is left behind it.
  drop-get_elem? :
      (s : List (List ℕ)) (k : ℕ)
      → suc k ≤ length s
      → (n : List ℕ) × (get_elem? s k ≡ some n) × (drop k s ≡ n ∷ drop (suc k) s)
  drop-get_elem? [] k h = absurd (omega arith)
  drop-get_elem? (n ∷ s) zero h = (n, refl, refl)
  drop-get_elem? (n ∷ s) (suc k) h = drop-get_elem? s k (omega arith)

  create_cpu-left :
      (f : UniformCpuFactory) (r : Request D)
      → suc f.curr ≤ length f.names
      → (n : List ℕ) × (drop f.curr f.names ≡ n ∷ drop (suc f.curr) f.names)
        × (create_cpu f r
            ≡ ok (
              record f { curr = suc f.curr; index = f.index + 1 },
              set_index f.index (make_cpu r n),
            ))
  unfolding create_cpu
  create_cpu-left f r h =
      let (n, e, l) = drop-get_elem? f.names f.curr h in
      let left : (f.curr == length f.names) ≡ false = ground arith in
      let next : f.curr + 1 ≡ suc f.curr = omega arith in
      (n, l, simp (create_cpu, next_name, left, e, next))

  create_cpu-used :
      (f : UniformCpuFactory) (r : Request D)
      → f.curr ≡ length f.names
      → create_cpu f r
        ≡ ok (record f { index = f.index + 1 }, set_index f.index (make_cpu r r.name))
  unfolding create_cpu
  create_cpu-used f r h =
      let used : (f.curr == length f.names) ≡ true = ground arith in
      simp (create_cpu, next_name, used)

  drop-length : (s : List (List ℕ)) → drop (length s) s ≡ []
  drop-length [] = refl
  drop-length (x ∷ s) = drop-length s

  -- One call, and what is expected of those behind it.
  create_cpu-step :
      (f : UniformCpuFactory) (r : Request D)
      → f.curr ≤ length f.names
      → (g : UniformCpuFactory) × (c : Cpu D) × (create_cpu f r ≡ ok (g, c))
        × (g.curr ≤ length g.names)
        × ((rs : List (Request D))
            → expected (drop f.curr f.names) f.index (r ∷ rs)
              ≡ c ∷ expected (drop g.curr g.names) g.index rs)
  create_cpu-step f r h = elim (Bool-cases (f.curr == length f.names)) [
    | inl used ↦
        let all : f.curr ≡ length f.names = ground arith in
        let nothing : drop f.curr f.names ≡ [] =
          ap (λ k. drop k f.names) all ∙ drop-length f.names in
        (
          record f { index = f.index + 1 },
          set_index f.index (make_cpu r r.name),
          create_cpu-used f r all,
          h,
          λ rs. simp nothing,
        )
    | inr left ↦
        let room : suc f.curr ≤ length f.names = ground arith in
        let (n, l, e) = create_cpu-left f r room in
        (
          record f { curr = suc f.curr; index = f.index + 1 },
          set_index f.index (make_cpu r n),
          e,
          room,
          λ rs. simp l,
        )
  ]

  -- The calls return processors with consecutive indices, and with the names that are left before
  -- those that are asked for.
  pub create_cpus-expected :
      (rs : List (Request D)) (f : UniformCpuFactory)
      → f.curr ≤ length f.names
      → Returns (λ r. r.1 ≡ expected (drop f.curr f.names) f.index rs) (create_cpus f rs)
  create_cpus-expected [] f h = refl
  create_cpus-expected (r ∷ rs) f h =
      let (g, c, e, b, x) = create_cpu-step f r h in
      rw e (
        Returns-bind (λ q. q.1 ≡ expected (drop g.curr g.names) g.index rs)
          (λ q. q.1 ≡ expected (drop f.curr f.names) f.index (r ∷ rs)) (create_cpus g rs)
          (λ q. ok (q.0, c ∷ q.1)) (create_cpus-expected rs g b)
          (λ q p. ap (λ cs. c ∷ cs) p ∙ sym (x rs)))
