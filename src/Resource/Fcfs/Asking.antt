-- ===== src/Resource/Fcfs/Asking.antt =====
-- FCFSResManager::request with RTKernel: the task that has to wait is suspended.
use sys_rt.Common.{
  ℕ, ◌≡◌, refl, sym, ap, ◌∙◌, subst, ◌⊎◌, inl, inr, true, false, some, [], ◌∷◌, ◌++◌, arith, ◌==◌,
  ==_refl, Bool-cases, mem, update, Returns, Returns-bind,
}
use sys_rt.TaskModel.{TaskAttrs}
use sys_rt.TaskModel.Order.{IsNumbered}
use sys_rt.Kernel.{Kernel, suspend}
use sys_rt.Kernel.Invariant.{IsValid}
use sys_rt.Kernel.Tracks.{Suspended, suspend-Suspended}
use sys_rt.Resource.{Resource, rt_kernel, lock, is_locked}
use sys_rt.Resource.Fcfs.{Fcfs, request}
use sys_rt.Resource.Fcfs.Line.{line_of, line}
use sys_rt.Resource.Fcfs.Waiting.{Waits, Distinct-snoc, mem-snoc, queued-not_waiting}

is_locked_taken : (x : Resource) → x.available ≡ 0 → is_locked x ≡ true
unfolding is_locked
is_locked_taken x e = rw e refl

is_locked_free : (x : Resource) → x.available ≡ 1 → is_locked x ≡ false
unfolding is_locked
is_locked_free x e = rw e refl

lock-owner : (x : Resource) (t : ℕ) → (lock x t 1).owner ≡ some t
unfolding lock
lock-owner x t = refl

module _ (env : ℕ → TaskAttrs) (u : IsNumbered env) (now : ℕ) (k : Kernel) (m : Fcfs) (r : ℕ)
    (v : IsValid env k) (w : Waits k.sched m) where
  -- The line of r after a request, with the other lines as they were.
  abbrev pub Joined : ℕ → Fcfs → Type 0
  Joined t m' =
      (line m' r ≡ line m r ++ t ∷ []) × ((q : ℕ) → (r == q) ≡ false → line m' q ≡ line m q)

  module _ (t : ℕ) (k' : Kernel) (in_queue : mem t k.sched.queue ≡ true)
      (gone : Suspended env u now k t k') (taken : (m.res r).available ≡ 0) where
    abbrev longer : Fcfs
    longer = record m { blocked = update m.blocked r (m.blocked r ++ t ∷ []) }

    member_cases :
        (q z : ℕ)
        → mem z (longer.blocked q) ≡ true
        → (mem z (m.blocked q) ≡ true) ⊎ ((r ≡ q) × (t ≡ z))
    member_cases q z h = elim (Bool-cases (r == q)) [
      | inl e ↦
          let same : r ≡ q = ground arith in
          elim (mem-snoc z t (m.blocked r) (rw e at h)) [
            | inl old ↦ inl (subst (λ y. mem z (m.blocked y) ≡ true) same old)
            | inr p ↦ inr (same, p)
          ]
      | inr e ↦ inl (rw e at h)
    ]

    still_out :
        (z : ℕ)
        → k.sched.registered z ≡ true
        → mem z k.sched.queue ≡ false
        → (k'.sched.registered z ≡ true) × (mem z k'.sched.queue ≡ false)
    still_out z known out = (
      rw gone.1.known_kept known,
      elim (Bool-cases (t == z)) [
        | inl e ↦
            let p : t ≡ z = ground arith in subst (λ y. mem y k'.sched.queue ≡ false) p gone.1.gone
        | inr e ↦ gone.1.others z e ∙ out
      ],
    )

    fresh : (q : ℕ) → mem t (m.blocked q) ≡ false
    fresh q = queued-not_waiting k.sched m q t w in_queue

    waiting-Waits : Waits k'.sched longer
    waiting-Waits = record {
      sound = λ q. elim (w.sound q) [
        | inl x ↦ inl x
        | inr (e, o, c, b) ↦ elim (Bool-cases (r == q)) [
          | inl p ↦
              let same : r ≡ q = ground arith in
              absurd (
                let h : (m.res q).available ≡ 0 = subst (λ y. (m.res y).available ≡ 0) same taken in
                omega arith)
          | inr p ↦ inr (e, o, c, rw p b)
        ]
      ];
      out = λ q z h. elim (member_cases q z h) [
        | inl old ↦ let (known, out) = w.out q z old in still_out z known out
        | inr (p, e) ↦
            let known = (v.queue_valid.queued t in_queue).0 in
            subst (λ y. (k'.sched.registered y ≡ true) × (mem y k'.sched.queue ≡ false)) e
              (rw gone.1.known_kept known, gone.1.gone)
      ];
      once = λ q. elim (Bool-cases (r == q)) [
        | inl p ↦ rw p (Distinct-snoc t (m.blocked r) (w.once r) (fresh r))
        | inr p ↦ rw p (w.once q)
      ];
      apart = λ q q' z h h'. elim (member_cases q z h) [
        | inl old ↦ elim (member_cases q' z h') [
          | inl old' ↦ w.apart q q' z old old'
          | inr (p, e) ↦ absurd (
              let f : mem z (m.blocked q) ≡ false =
                subst (λ y. mem y (m.blocked q) ≡ false) e (fresh q) in
              ground arith)
        ]
        | inr (p, e) ↦ elim (member_cases q' z h') [
          | inl old' ↦ absurd (
              let f : mem z (m.blocked q') ≡ false =
                subst (λ y. mem y (m.blocked q') ≡ false) e (fresh q') in
              ground arith)
          | inr (p', e') ↦ sym p ∙ p'
        ]
      ];
    }

  granted-Waits :
      (t : ℕ)
      → (m.res r).available ≡ 1
      → Waits k.sched (record m {
        res = update m.res r (lock (m.res r) t 1);
        curr_users = update m.curr_users r (some t);
      })
  unfolding lock
  granted-Waits t free = record {
    sound = λ q. elim (Bool-cases (r == q)) [
      | inl p ↦ inl (t, rw (p, free) refl, rw p refl, rw p refl)
      | inr p ↦ rw p (w.sound q)
    ];
    out = w.out;
    once = w.once;
    apart = w.apart;
  }

  -- A request by a queued task returns, with the task at the end of the line.
  pub request-Waits :
      (t n : ℕ)
      → mem t k.sched.queue ≡ true
      → Returns
          (λ a. IsValid env a.0 × Waits a.0.sched a.1 × Joined t a.1)
          (request (rt_kernel env) now k m t r n)
  unfolding request
  request-Waits t n in_queue = elim (w.sound r) [
    | inl (h, e, o, c) ↦ rw (is_locked_taken (m.res r) e) (
        Returns-bind (Suspended env u now k t) _ (suspend k t) _
          (suspend-Suspended env u now k t v in_queue)
          λ k' x.
            (x.0, waiting-Waits t k' in_queue x e, (rw (o, ==_refl r) refl, λ q p. rw p refl)))
    | inr (e, o, c, b) ↦ rw (is_locked_free (m.res r) e) (
      v,
      granted-Waits t e,
      (
        rw (==_refl r)
            (ap (λ y. line_of y (m.blocked r)) (lock-owner (m.res r) t) ∙ rw (o, b) refl),
        λ q p. rw p refl,
      ),
    )
  ]
