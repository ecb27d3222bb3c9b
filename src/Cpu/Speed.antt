-- ===== src/Cpu/Speed.antt =====
-- src/cpu.cpp: which level CPU::setSpeed chooses.
use sys_rt.Common.{
  ℕ, zero, suc, ◌+◌, ◌%◌, ◌^◌, ◌<◌, ◌≡◌, refl, sym, ◌∙◌, ap, subst, ◌⊎◌, inl, inr, true, false, not,
  ◌&&◌, Option, none, some, List, [], ◌∷◌, ok, arith, ◌==◌, get_elem?, Bool-cases, Option-cases,
}
use sys_rt.Cpu.{Doubles, CpuLevel, Cpu, find_level, set_speed, get_speed}

module _ {D : Type 0} (d : Doubles D) where
  -- Level i of the list is fast enough for the load.
  abbrev pub Suffices : D → List (CpuLevel D) → ℕ → Type 0
  Suffices load ls i = (l : CpuLevel D) × (get_elem? ls i ≡ some l) × (d.geq l.speed load ≡ true)

  -- A level that is passed over, and one behind it.
  skipped :
      (load : D) (current i : ℕ) (x : CpuLevel D) (ls : List (CpuLevel D))
      → (d.geq x.speed load && not (i == current)) ≡ false
      → (m : ℕ) → Suffices load (x ∷ ls) m
      → ((m' : ℕ) → suc m' ≡ m → Suffices load ls m' → i + 1 + m' ≡ current)
      → i + m ≡ current
  skipped load current i x ls miss zero (l, g, s) f =
      let same : x ≡ l = ground (arith, g) in
      let enough : d.geq x.speed load ≡ true = rw same s in ground (arith, miss, enough)
  skipped load current i x ls miss (suc m) s f = omega (arith, f m refl s)

  -- Of the levels other than the current one, counted from i on, the first that suffices.
  find_level-first :
      (load : D) (current i : ℕ) (ls : List (CpuLevel D)) (j : ℕ) (l : CpuLevel D)
      → find_level d load current i ls ≡ some (j, l)
      → (k : ℕ) × (j ≡ i + k)
        × (get_elem? ls k ≡ some l)
        × (d.geq l.speed load ≡ true)
        × ((j == current) ≡ false)
        × ((m : ℕ) → m < k → Suffices load ls m → i + m ≡ current)
  unfolding find_level
  find_level-first load current i [] j l e = cc
  find_level-first load current i (x ∷ ls) j l e =
      elim (Bool-cases (d.geq x.speed load && not (i == current))) [
        | inl hit ↦
            let found : ◌≡◌ {A = Option (ℕ × CpuLevel D)} (some (i, x)) (some (j, l)) =
              sym (rw (find_level, hit) refl) ∙ e in
            let place : i ≡ j = ground (arith, found) in
            let level : x ≡ l = ground (arith, found) in
            (
              0,
              omega (arith, place),
              ap some level,
              subst (λ y. d.geq y.speed load ≡ true) level (ground (arith, hit)),
              subst (λ n. (n == current) ≡ false) place (ground (arith, hit)),
              λ m r. absurd (omega (arith, r)),
            )
        | inr miss ↦
            let (k, p, g, s, o, b) =
              find_level-first load current (i + 1) ls j l (sym (rw (find_level, miss) refl) ∙ e) in
            (
              suc k,
              omega (arith, p),
              g,
              s,
              o,
              λ m r h. skipped load current i x ls miss m h (λ m' q. b m' (omega (arith, q, r))),
            )
      ]

  find_level-none :
      (load : D) (current i : ℕ) (ls : List (CpuLevel D))
      → find_level d load current i ls ≡ none
      → (m : ℕ) → Suffices load ls m
      → i + m ≡ current
  unfolding find_level
  find_level-none load current i [] e m (l, g, s) = cc
  find_level-none load current i (x ∷ ls) e m s =
      elim (Bool-cases (d.geq x.speed load && not (i == current))) [
        | inl hit ↦ cc (rw (find_level, hit) at e)
        | inr miss ↦
            skipped load current i x ls miss m s (λ m' r s'.
              find_level-none load current (i + 1) ls (rw (find_level, miss) at e) m' s')
      ]

  zero_add : (m : ℕ) → 0 + m ≡ m
  zero_add m = omega arith

  -- What setSpeed returns: it goes to a level other than the current one that suffices and below which none
  -- but the current one does.
  pub record Raised (c : Cpu D) (load : D) (r : Cpu D × D) : Type 0 where
    pub level : ℕ
    pub suffices : Suffices load c.steps level
    pub other : (level == c.current_level) ≡ false
    pub least : (m : ℕ) → m < level → Suffices load c.steps m → m ≡ c.current_level
    pub result : r ≡ (
      record c {
        frequency_switching = (c.frequency_switching + 1) % 2 ^ 64;
        current_level = level;
      },
      suffices.0.speed,
    )

  -- No level other than the current one suffices, and nothing changes.
  pub record Refused (c : Cpu D) (load : D) (r : Cpu D × D) : Type 0 where
    pub none_other : (m : ℕ) → Suffices load c.steps m → m ≡ c.current_level
    pub unchanged : r ≡ (c, d.of_int 1)

  -- With PowerSaving setSpeed does one or the other.
  pub set_speed-cases :
      (c : Cpu D) (load : D)
      → c.power_saving ≡ true
      → Raised c load (set_speed d c load) ⊎ Refused c load (set_speed d c load)
  unfolding set_speed
  set_speed-cases c load on = elim (Option-cases (find_level d load c.current_level 0 c.steps)) [
    | inl none_found ↦ inr record {
      none_other =
          λ m h. sym (zero_add m) ∙ find_level-none load c.current_level 0 c.steps none_found m h;
      unchanged = simp (set_speed, on, none_found);
    }
    | inr ((i, l), found) ↦
        let (k, p, g, s, o, b) = find_level-first load c.current_level 0 c.steps i l found in
        inl record {
          level = i;
          suffices = (l, subst (λ n. get_elem? c.steps n ≡ some l) (omega (arith, p)) g, s);
          other = o;
          least = λ m r h. sym (zero_add m) ∙ b m (omega (arith, r, p)) h;
          result = simp (set_speed, on, found);
        }
  ]

  -- The processor after a change of level, and what getSpeed gives then.
  get_speed-Raised :
      (c : Cpu D) (load : D) (r : Cpu D × D)
      → c.power_saving ≡ true
      → Raised c load r
      → get_speed d r.0 ≡ ok r.1
  unfolding get_speed
  get_speed-Raised c load r on h =
      subst (λ x. get_speed d x.0 ≡ ok x.1) (sym h.result) (simp (get_speed, on, h.suffices.1))

  -- If the level a of a processor suffices and none below it does, a call from another level that suffices goes to a.
  set_speed-back :
      (c : Cpu D) (load : D) (a : ℕ)
      → c.power_saving ≡ true
      → Suffices load c.steps a
      → ((m : ℕ) → m < a → ¬ Suffices load c.steps m)
      → (a == c.current_level) ≡ false
      → (Raised c load (set_speed d c load)) × ((set_speed d c load).0.current_level ≡ a)
  set_speed-back c load a on here low apart = elim (set_speed-cases c load on) [
    | inr refused ↦ let same = refused.none_other a here in absurd (ground arith)
    | inl r ↦
        let not_below : ¬ (r.level < a) = λ b. low r.level b r.suffices in
        let not_above : ¬ (a < r.level) =
          λ b. let same = r.least a b here in absurd (ground arith) in
        let goes : (set_speed d c load).0.current_level ≡ r.level =
          ap (λ x. x.0.current_level) r.result in
        (r, goes ∙ ground (arith, not_below, not_above))
  ]

  -- A level that suffices is one that getSpeed can read.
  get_speed-Suffices :
      (b c : Cpu D) (l : CpuLevel D)
      → b.power_saving ≡ true
      → c.power_saving ≡ true
      → get_elem? b.steps b.current_level ≡ some l
      → get_elem? c.steps c.current_level ≡ some l
      → get_speed d b ≡ get_speed d c
  unfolding get_speed
  get_speed-Suffices b c l onb onc g h = simp (get_speed, onb, onc, g, h)

  -- If the level of a processor with PowerSaving suffices for a load, none below it does and
  -- another one does, two calls of setSpeed with that load go to another level and back, where
  -- getSpeed gives what it gave at first.
  pub set_speed-alternates :
      (c : Cpu D) (load : D) (j : ℕ)
      → c.power_saving ≡ true
      → Suffices load c.steps c.current_level
      → ((m : ℕ) → m < c.current_level → ¬ Suffices load c.steps m)
      → Suffices load c.steps j
      → (j == c.current_level) ≡ false
      → let once = (set_speed d c load).0 in
        let twice = (set_speed d once load).0 in
        ((once.current_level == c.current_level) ≡ false)
        × (twice.current_level ≡ c.current_level)
        × (get_speed d twice ≡ get_speed d c)
  set_speed-alternates c load j on here low there apart = elim (set_speed-cases c load on) [
    | inr refused ↦ let same = refused.none_other j there in absurd (ground arith)
    | inl r ↦
        let once : Cpu D = (set_speed d c load).0 in
        let goes : once.current_level ≡ r.level = ap (λ x. x.0.current_level) r.result in
        let steps : once.steps ≡ c.steps = ap (λ x. x.0.steps) r.result in
        let on' : once.power_saving ≡ true = ap (λ x. x.0.power_saving) r.result ∙ on in
        let (r', back) =
          set_speed-back once load c.current_level on'
            (subst (λ ls. Suffices load ls c.current_level) (sym steps) here)
            (λ m b h. low m b (subst (λ ls. Suffices load ls m) steps h))
            (ground (arith, goes, r.other)) in
        let twice : Cpu D = (set_speed d once load).0 in
        let steps' : twice.steps ≡ c.steps = ap (λ x. x.0.steps) r'.result ∙ steps in
        let on'' : twice.power_saving ≡ true = ap (λ x. x.0.power_saving) r'.result ∙ on' in
        let read : get_elem? twice.steps twice.current_level ≡ some here.0 =
          rw (steps', back) (here.1) in
        (ground (arith, goes, r.other), back, get_speed-Suffices twice c here.0 on'' on read here.1)
  ]
