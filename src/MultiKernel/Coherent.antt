-- ===== src/MultiKernel/Coherent.antt =====
-- What ties the maps of MRTKernel together, as lemmas on the maps alone: `curr` is _m_currExe,
-- `disp` _m_dispatched, `target` the task of each end event, `switching` _isContextSwitching, and
-- `ending`, `beginning` say which end and begin events are pending.
use sys_rt.Common.{
  ℕ, ◌≡◌, sym, ◌∙◌, Bool, true, false, Option, none, some, arith, ◌==◌, update, Bool-cases, inl,
  inr,
}

pub record Coherent (curr disp target : ℕ → Option ℕ) (switching ending beginning : ℕ → Bool)
    : Type 0 where
  -- A task that runs is dispatched to its processor.
  pub runs : (p t : ℕ) → curr p ≡ some t → disp t ≡ some p
  -- A pending end event has a task, dispatched to the processor, which is idle meanwhile.
  pub pending :
      (p : ℕ)
      → ending p ≡ true
      → (t : ℕ) × (target p ≡ some t) × (disp t ≡ some p) × (switching p ≡ true) × (curr p ≡ none)
  pub apart : (p : ℕ) → beginning p ≡ true → ending p ≡ false
  pub still : (p t : ℕ) → curr p ≡ some t → switching p ≡ false

module _ (curr disp target : ℕ → Option ℕ) (switching ending beginning : ℕ → Bool)
    (c : Coherent curr disp target switching ending beginning) where
  -- The pending events are what counts, not how they are written.
  pub Coherent-congr :
      (ending' beginning' : ℕ → Bool)
      → ((p : ℕ) → ending' p ≡ ending p)
      → ((p : ℕ) → beginning' p ≡ beginning p)
      → Coherent curr disp target switching ending' beginning'
  Coherent-congr ending' beginning' f g = record {
    runs = c.runs;
    pending = λ p h. c.pending p (sym (f p) ∙ h);
    apart = λ p h. f p ∙ c.apart p (sym (g p) ∙ h);
    still = c.still;
  }

  -- No task runs on two processors.
  pub Coherent-exclusive : (p q t : ℕ) → curr p ≡ some t → curr q ≡ some t → p ≡ q
  Coherent-exclusive p q t a b = ground (arith, c.runs p t a, c.runs q t b)

  -- A processor that runs a task waits for no end event.
  pub ending-idle : (p t : ℕ) → curr p ≡ some t → ending p ≡ false
  ending-idle p t a = elim (Bool-cases (ending p)) [
    | inl h ↦ let (z, d, e, s, i) = c.pending p h in absurd (ground (arith, a, i))
    | inr h ↦ h
  ]

  pub Coherent-vacate :
      (p t : ℕ)
      → curr p ≡ some t
      → Coherent (update curr p none) (update disp t none) target switching ending beginning
  Coherent-vacate p t a = record {
    runs = λ q z h. ground (arith, c.runs p t a, c.runs q z);
    pending = λ q h.
        let (z, d, e, s, i) = c.pending q h in
        (z, d, ground (arith, c.runs p t a, ending-idle p t a), s, ground (arith, i));
    apart = c.apart;
    still = λ q z h. ground (arith, c.still q z);
  }

  -- A processor that is not switching is told to begin.
  pub Coherent-begin :
      (p : ℕ)
      → switching p ≡ false
      → Coherent curr disp target switching ending (update beginning p true)
  Coherent-begin p a = record {
    runs = c.runs;
    pending = c.pending;
    apart = λ q h. elim (Bool-cases (ending q)) [
      | inl e ↦ let (z, _, _, s, _) = c.pending q e in ground (arith, c.apart q)
      | inr e ↦ e
    ];
    still = c.still;
  }

  -- A switch is cancelled: its task is not dispatched any more.
  pub Coherent-cancel :
      (p t : ℕ)
      → ending p ≡ true
      → target p ≡ some t
      → Coherent curr
          (update disp t none)
          target
          switching
          (update ending p false)
          (update beginning p true)
  Coherent-cancel p t a b =
      let (z, d, e, s, i) = c.pending p a in
      record {
        runs = λ q y h. ground (arith, c.runs q y h);
        pending = λ q h.
            let old : ending q ≡ true = ground arith in
            let (y, d', e', s', i') = c.pending q old in (y, d', ground arith, s', i');
        apart = λ q h. ground (arith, c.apart q);
        still = c.still;
      }

  -- The begin event fires, and finds a task for the processor.
  pub Coherent-switch :
      (p t : ℕ)
      → beginning p ≡ true
      → curr p ≡ none
      → disp t ≡ none
      → Coherent curr
          (update disp t (some p))
          (update target p (some t))
          (update switching p true)
          (update ending p true)
          (update beginning p false)
  Coherent-switch p t a b f = record {
    runs = λ q z h. ground (arith, c.runs q z h);
    pending = λ q h. elim (Bool-cases (p == q)) [
      | inl same ↦ (t, ground arith, ground arith, ground arith, ground arith)
      | inr other ↦
          let old : ending q ≡ true = ground arith in
          let (y, d', e', s', i') = c.pending q old in
          (y, ground arith, ground arith, ground arith, i')
    ];
    apart = λ q h. ground (arith, c.apart q);
    still = λ q z h. ground (arith, c.still q z h);
  }

  -- It fires and finds none.
  pub Coherent-idle :
      (p : ℕ) → Coherent curr disp target switching ending (update beginning p false)
  Coherent-idle p = record {
    runs = c.runs;
    pending = c.pending;
    apart = λ q h. ground (arith, c.apart q);
    still = c.still;
  }

  -- The end event fires.
  pub Coherent-finish :
      (p : ℕ)
      → ending p ≡ true
      → Coherent
          (update curr p (target p))
          disp
          target
          (update switching p false)
          (update ending p false)
          beginning
  Coherent-finish p a =
      let (z, d, e, s, i) = c.pending p a in
      record {
        runs = λ q y h. ground (arith, c.runs q y);
        pending = λ q h.
            let old : ending q ≡ true = ground arith in
            let (y, d', e', s', i') = c.pending q old in (y, d', e', ground arith, ground arith);
        apart = λ q h. ground (arith, c.apart q);
        still = λ q y h. ground (arith, c.still q y);
      }

  -- A task that is dispatched nowhere is forgotten.
  pub Coherent-forget :
      (t : ℕ) → disp t ≡ none → Coherent curr (update disp t none) target switching ending beginning
  Coherent-forget t a = record {
    runs = λ q y h. ground (arith, c.runs q y h);
    pending = λ q h. let (y, d', e', s', i') = c.pending q h in (y, d', ground arith, s', i');
    apart = c.apart;
    still = c.still;
  }
