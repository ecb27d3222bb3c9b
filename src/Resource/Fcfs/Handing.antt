-- ===== src/Resource/Fcfs/Handing.antt =====
-- FCFSResManager::release with RTKernel: the task that gets the resource is activated.
use sys_rt.Common.{
  ℕ, ◌≡◌, refl, sym, ap, ◌∙◌, subst, inl, inr, true, false, none, some, List, [], ◌∷◌, arith, ◌==◌,
  ==_refl, Bool-cases, mem, update, Returns, Returns-bind,
}
use sys_rt.TaskModel.{TaskAttrs}
use sys_rt.TaskModel.Order.{IsNumbered}
use sys_rt.Kernel.{Kernel, activate}
use sys_rt.Kernel.Invariant.{IsValid}
use sys_rt.Kernel.Tracks.{Activated, activate-Activated}
use sys_rt.Resource.{rt_kernel, lock, unlock}
use sys_rt.Resource.Fcfs.{Fcfs, hand_over, release}
use sys_rt.Resource.Fcfs.Line.{line}
use sys_rt.Resource.Fcfs.Waiting.{Waits, Distinct}

module _ (env : ℕ → TaskAttrs) (u : IsNumbered env) (now : ℕ) (k : Kernel) (m : Fcfs) (r : ℕ)
    (v : IsValid env k) (w : Waits k.sched m) where
  -- The line of r after a release, with the other lines as they were.
  abbrev pub Left : ℕ → Fcfs → Type 0
  Left t m' = (line m r ≡ t ∷ line m' r) × ((q : ℕ) → (r == q) ≡ false → line m' q ≡ line m q)

  -- Whoever holds r is ready.
  abbrev pub Woken : Kernel → Fcfs → Type 0
  Woken k' m' = (h : ℕ) → (m'.res r).owner ≡ some h → mem h k'.sched.queue ≡ true

  -- The resource without a holder, for which nobody waits.
  abbrev idle : Fcfs
  idle = record m {
    res = update m.res r (unlock (m.res r) 1);
    curr_users = update m.curr_users r none;
  }

  module _ (h : ℕ) (ws : List ℕ) (k' : Kernel) (shape : m.blocked r ≡ h ∷ ws)
      (taken : (m.res r).available ≡ 0) (woken : Activated env u now k h k') where
    abbrev shorter : Fcfs
    shorter = record m {
      res = update idle.res r (lock (idle.res r) h 1);
      curr_users = update idle.curr_users r (some h);
      blocked = update m.blocked r ws;
    }

    waits_first : mem h (m.blocked r) ≡ true
    waits_first = rw shape (ground (arith, ==_refl h))

    remains :
        (q z : ℕ)
        → mem z (shorter.blocked q) ≡ true
        → (mem z (m.blocked q) ≡ true) × ((h == z) ≡ false)
    remains q z e = elim (Bool-cases (r == q)) [
      | inl p ↦
          let same : r ≡ q = ground arith in
          let behind : mem z ws ≡ true = rw p at e in
          let old : mem z (m.blocked r) ≡ true = rw shape (ground arith) in
          (
            subst (λ y. mem z (m.blocked y) ≡ true) same old,
            elim (Bool-cases (h == z)) [
              | inl first ↦
                  let e' : h ≡ z = ground arith in
                  let d : Distinct (h ∷ ws) = subst Distinct shape (w.once r) in
                  let d' : mem z ws ≡ false = subst (λ y. mem y ws ≡ false) e' d.0 in
                  absurd (ground arith)
              | inr other ↦ other
            ],
          )
      | inr p ↦
          let old : mem z (m.blocked q) ≡ true = rw p at e in
          (
            old,
            elim (Bool-cases (h == z)) [
              | inl first ↦
                  let e' : h ≡ z = ground arith in
                  let same : r ≡ q =
                    w.apart r q z (subst (λ y. mem y (m.blocked r) ≡ true) e' waits_first) old in
                  absurd (ground arith)
              | inr other ↦ other
            ],
          )
    ]

    handed-Waits : Waits k'.sched shorter
    unfolding lock unlock
    handed-Waits = record {
      sound = λ q. elim (Bool-cases (r == q)) [
        | inl p ↦ inl (h, rw (p, ==_refl r, taken) refl, rw p refl, rw p refl)
        | inr p ↦ rw p (w.sound q)
      ];
      out = λ q z e.
          let (old, other) = remains q z e in
          let (known, out) = w.out q z old in
          (rw woken.1.known_kept known, woken.1.others z other ∙ out);
      once = λ q. elim (Bool-cases (r == q)) [
        | inl p ↦ let d : Distinct (h ∷ ws) = subst Distinct shape (w.once r) in rw p d.1
        | inr p ↦ rw p (w.once q)
      ];
      apart = λ q q' z e e'. w.apart q q' z (remains q z e).0 (remains q' z e').0;
    }

  idle-Waits : (m.res r).available ≡ 0 → m.blocked r ≡ [] → Waits k.sched idle
  unfolding unlock
  idle-Waits taken nobody = record {
    sound = λ q. elim (Bool-cases (r == q)) [
      | inl p ↦
          let same : r ≡ q = ground arith in
          inr (rw (p, taken) refl, rw p refl, rw p refl, ap (λ y. m.blocked y) (sym same) ∙ nobody)
      | inr p ↦ rw p (w.sound q)
    ];
    out = w.out;
    once = w.once;
    apart = w.apart;
  }

  -- A release by the holder returns, with the holder out of the line, and the new holder ready.
  pub release-Waits :
      (t n : ℕ)
      → (m.res r).owner ≡ some t
      → Returns
          (λ a. IsValid env a.0 × Waits a.0.sched a.1 × Left t a.1 × Woken a.0 a.1)
          (release (rt_kernel env) now k m t r n)
  unfolding release lock unlock
  release-Waits t n own = elim (w.sound r) [
    | inl (h, e, o, c) ↦ go (m.blocked r) refl e
    | inr (e, o, c, b) ↦ absurd (ground arith)
  ]
    where
      go :
          (ws : List ℕ)
          → m.blocked r ≡ ws
          → (m.res r).available ≡ 0
          → Returns
              (λ a. IsValid env a.0 × Waits a.0.sched a.1 × Left t a.1 × Woken a.0 a.1)
              (hand_over (rt_kernel env) now k idle r ws)
      go [] shape e = (
        v,
        idle-Waits e shape,
        (rw (own, shape, ==_refl r) refl, λ q p. rw p refl),
        λ z f. absurd (ground (arith, ==_refl r)),
      )
      go (h ∷ ws) shape e =
          let known = w.out r h (rw shape (ground (arith, ==_refl h))) in
          Returns-bind (Activated env u now k h) _ (activate env now k h) _
            (activate-Activated env u now k h v known.0 known.1)
            λ k' x. (
              x.0,
              handed-Waits h ws k' shape e x,
              (rw (own, shape, ==_refl r) refl, λ q p. rw p refl),
              λ z f.
                  let q : h ≡ z = ground (arith, ==_refl r) in
                  subst (λ y. mem y k'.sched.queue ≡ true) q x.1.member,
            )
