-- ===== src/Closed/Turns.antt =====
-- Who executes on one processor, as lemmas on what counts for it: the kernel's current task, whether
-- a context switch is on, which tasks execute, and of which a schedule or deschedule is pending.
use sys_rt.Common.{
  ℕ, ◌≡◌, sym, ◌∙◌, Bool, true, ◌||◌, false, Option, none, some, arith, update, Bool-cases, inl,
  inr,
}

pub record Turns (curr : Option ℕ) (switching : Bool) (executes scheds deschs : ℕ → Bool)
    : Type 0 where
  -- A task that executes is the current one, or is about to stop.
  pub held : (t : ℕ) → executes t ≡ true → deschs t ≡ false → curr ≡ some t
  pub called : (t : ℕ) → scheds t ≡ true → (curr ≡ some t) × (executes t ≡ false)
  pub stopped : (t : ℕ) → deschs t ≡ true → curr ≡ some t → ⊥
  pub one_stops : (t u : ℕ) → deschs t ≡ true → deschs u ≡ true → t ≡ u
  -- The current task does not begin before the last one has stopped.
  pub begun : (t u : ℕ) → curr ≡ some t → executes t ≡ true → deschs u ≡ false
  pub calling : (t u : ℕ) → scheds t ≡ true → deschs u ≡ false
  pub switches : (t : ℕ) → switching ≡ true → executes t ≡ true → curr ≡ some t → ⊥
  pub switched : (t : ℕ) → switching ≡ true → scheds t ≡ false
  pub target : switching ≡ true → curr ≡ none → ⊥
  -- The current task executes, or will.
  pub served : (t : ℕ) → curr ≡ some t → executes t || (scheds t || switching) ≡ true

module _ (curr : Option ℕ) (switching : Bool) (executes scheds deschs : ℕ → Bool)
    (c : Turns curr switching executes scheds deschs) where
  pub Turns-congr :
      (executes' scheds' deschs' : ℕ → Bool)
      → ((t : ℕ) → executes' t ≡ executes t)
      → ((t : ℕ) → scheds' t ≡ scheds t)
      → ((t : ℕ) → deschs' t ≡ deschs t)
      → Turns curr switching executes' scheds' deschs'
  Turns-congr executes' scheds' deschs' e s d = record {
    held = λ t h g. c.held t (sym (e t) ∙ h) (sym (d t) ∙ g);
    called = λ t h. let (a, b) = c.called t (sym (s t) ∙ h) in (a, e t ∙ b);
    stopped = λ t h. c.stopped t (sym (d t) ∙ h);
    one_stops = λ t u h g. c.one_stops t u (sym (d t) ∙ h) (sym (d u) ∙ g);
    begun = λ t u h g. d u ∙ c.begun t u h (sym (e t) ∙ g);
    calling = λ t u h. d u ∙ c.calling t u (sym (s t) ∙ h);
    switches = λ t h g. c.switches t h (sym (e t) ∙ g);
    switched = λ t h. s t ∙ c.switched t h;
    target = c.target;
    served = λ t h. ground (arith, e t, s t, c.served t h);
  }

  -- The same, for a kernel that has the same current task and context switch.
  pub Turns-carry :
      (curr' : Option ℕ) (switching' : Bool) (executes' scheds' deschs' : ℕ → Bool)
      → curr' ≡ curr
      → switching' ≡ switching
      → ((t : ℕ) → executes' t ≡ executes t)
      → ((t : ℕ) → scheds' t ≡ scheds t)
      → ((t : ℕ) → deschs' t ≡ deschs t)
      → Turns curr' switching' executes' scheds' deschs'
  Turns-carry curr' switching' executes' scheds' deschs' a b e s d =
      rw (a, b) (Turns-congr executes' scheds' deschs' e s d)

  -- No two tasks execute.
  pub Turns-exclusive : (t u : ℕ) → executes t ≡ true → executes u ≡ true → t ≡ u
  Turns-exclusive t u a b = elim (Bool-cases (deschs t)) [
    | inl d ↦ elim (Bool-cases (deschs u)) [
      | inl e ↦ c.one_stops t u d e
      | inr e ↦ absurd (ground (arith, c.begun u t (c.held u b e) b))
    ]
    | inr d ↦ elim (Bool-cases (deschs u)) [
      | inl e ↦ absurd (ground (arith, c.begun t u (c.held t a d) a))
      | inr e ↦ ground (arith, c.held t a d, c.held u b e)
    ]
  ]

  -- The schedule event of a task fires.
  pub Turns-sched :
      (t : ℕ)
      → scheds t ≡ true
      → Turns curr switching
          (update executes t true)
          (update scheds t false)
          (update deschs t false)
  Turns-sched t a =
      let (cur, off) = c.called t a in
      record {
        held = λ z h g. ground (arith, cur, c.held z, c.calling t z a);
        called = λ z h. ground (arith, cur, c.called z);
        stopped = λ z h. absurd (ground (arith, c.calling t z a));
        one_stops = λ z u h. absurd (ground (arith, c.calling t z a));
        begun = λ z u h g. ground (arith, c.calling t u a);
        calling = λ z u h. ground (arith, c.calling t u a);
        switches = λ z h. absurd (ground (arith, c.switched t h));
        switched = λ z h. absurd (ground (arith, c.switched t h));
        target = c.target;
        served = λ z h. ground (arith, cur);
      }

  -- The deschedule event of a task fires.
  pub Turns-desched :
      (t : ℕ)
      → deschs t ≡ true
      → Turns curr switching (update executes t false) scheds (update deschs t false)
  Turns-desched t a = record {
    held = λ z h g. elim (Bool-cases (deschs z)) [
      | inl d ↦ absurd (ground (arith, c.one_stops t z a d))
      | inr d ↦ ground (arith, c.held z)
    ];
    called = λ z h. let (cur, off) = c.called z h in (cur, ground arith);
    stopped = λ z h. c.stopped z (ground arith);
    one_stops = λ z u h g. c.one_stops z u (ground arith) (ground arith);
    begun = λ z u h g. absurd (ground (arith, c.begun z t h));
    calling = λ z u h. absurd (ground (arith, c.calling z t h));
    switches = λ z h g. c.switches z h (ground arith);
    switched = c.switched;
    target = c.target;
    served = λ z h. ground (arith, c.stopped t a, c.served z h);
  }

  -- The instance of the current task ends.
  pub Turns-end :
      (t : ℕ)
      → executes t ≡ true
      → deschs t ≡ false
      → Turns none switching (update executes t false) scheds deschs
  Turns-end t a d =
      let cur = c.held t a d in
      record {
        held = λ z h g. absurd (ground (arith, cur, c.held z));
        called = λ z h. absurd (ground (arith, cur, c.called z h));
        stopped = λ z h g. ground (arith, c.begun t z cur a);
        one_stops = λ z u h g. absurd (ground (arith, c.begun t z cur a));
        begun = λ z u h g. ground (arith, c.begun t u cur a);
        calling = λ z u h. c.calling z u h;
        switches = λ z h g r. c.switches t h a cur;
        switched = c.switched;
        target = λ h r. c.switches t h a cur;
        served = λ z h. absurd (ground arith);
      }

  -- While no schedule or deschedule is pending, the kernel sends the current task away, if there is
  -- one, and switches to another one.
  pub Turns-switch :
      (o : Option ℕ) (t : ℕ)
      → curr ≡ o
      → (o ≡ some t → ⊥)
      → ((z : ℕ) → scheds z ≡ false)
      → ((z : ℕ) → deschs z ≡ false)
      → Turns
          (some t)
          true
          executes
          scheds
          (elim o [ none ↦ deschs | some x ↦ update deschs x true ])
  Turns-switch none t cur other quiet still = record {
    held = λ z h g. absurd (ground (arith, cur, c.held z h (still z)));
    called = λ z h. absurd (ground (arith, quiet z));
    stopped = λ z h. absurd (ground (arith, still z));
    one_stops = λ z u h. absurd (ground (arith, still z));
    begun = λ z u h g. still u;
    calling = λ z u h. still u;
    switches = λ z h g r. ground (arith, cur, c.held z g (still z));
    switched = λ z h. quiet z;
    target = λ h r. ground arith;
    served = λ z h. ground arith;
  }
  Turns-switch (some x) t cur other quiet still = record {
    held = λ z h g. absurd (ground (arith, cur, c.held z h (still z)));
    called = λ z h. absurd (ground (arith, quiet z));
    stopped = λ z h g. ground (arith, still z, other);
    one_stops = λ z u h g. ground (arith, still z, still u);
    begun = λ z u h g. absurd (ground (arith, cur, c.held z g (still z), other));
    calling = λ z u h. absurd (ground (arith, quiet z));
    switches = λ z h g r. ground (arith, cur, c.held z g (still z), other);
    switched = λ z h. quiet z;
    target = λ h r. ground arith;
    served = λ z h. ground arith;
  }

  -- The kernel goes on with a task at once.
  pub Turns-resume :
      (t : ℕ)
      → curr ≡ none
      → ((z : ℕ) → deschs z ≡ false)
      → Turns (some t) switching executes (update scheds t true) deschs
  Turns-resume t cur still = record {
    held = λ z h g. absurd (ground (arith, cur, c.held z h (still z)));
    called = λ z h. ground (arith, cur, c.held z, still z, c.called z);
    stopped = λ z h. absurd (ground (arith, still z));
    one_stops = λ z u h. absurd (ground (arith, still z));
    begun = λ z u h g. still u;
    calling = λ z u h. still u;
    switches = λ z h. absurd (c.target h cur);
    switched = λ z h. absurd (c.target h cur);
    target = λ h r. ground arith;
    served = λ z h. ground arith;
  }

  -- The context switch is over.
  pub Turns-begin :
      (t : ℕ)
      → curr ≡ some t
      → switching ≡ true
      → ((z : ℕ) → deschs z ≡ false)
      → Turns curr false executes (update scheds t true) deschs
  Turns-begin t cur on still = record {
    held = c.held;
    called = λ z h. ground (arith, cur, c.switches t on, c.called z);
    stopped = c.stopped;
    one_stops = c.one_stops;
    begun = c.begun;
    calling = λ z u h. still u;
    switches = λ z h. absurd (ground arith);
    switched = λ z h. absurd (ground arith);
    target = λ h. absurd (ground arith);
    served = λ z h. ground (arith, cur);
  }
