-- ===== src/Resource/Fcfs/Line.antt =====
-- FCFSResManager against its specification, one line of tasks for each resource: the holder first,
-- then those that wait, in the order in which they asked.
use sys_rt.Common.{
  ℕ, ◌≡◌, refl, ap, ◌⊎◌, inl, inr, ◌↔◌, true, false, Option, none, some, List, [], ◌∷◌, ◌++◌, arith,
  ==_refl, update, All, Returns, Returns-bind, Returns-map,
}
use sys_rt.Resource.{Resource, lock, unlock, is_locked, AbsKernel}
use sys_rt.Resource.Fcfs.{Fcfs, request, hand_over, release}

abbrev pub line_of : Option ℕ → List ℕ → List ℕ
line_of none ws = ws
line_of (some h) ws = h ∷ ws

abbrev pub line : Fcfs → ℕ → List ℕ
line m r = line_of (m.res r).owner (m.blocked r)

-- A resource of one unit: held, with its holder as the current user, or free with nobody waiting.
abbrev pub Sound : Resource → Option ℕ → List ℕ → Type 0
Sound res user ws =
    ((h : ℕ) × (res.available ≡ 0) × (res.owner ≡ some h) × (user ≡ some h))
    ⊎ ((res.available ≡ 1) × (res.owner ≡ none) × (user ≡ none) × (ws ≡ []))

abbrev pub IsSound : Fcfs → ℕ → Type 0
IsSound m r = Sound (m.res r) (m.curr_users r) (m.blocked r)

module _ {K : Type 0} (abs : AbsKernel K) (now : ℕ) (k : K) (m : Fcfs) (r : ℕ) where
  -- A request to the first-come-first-served manager, for a resource in a sound state and a task
  -- whose suspension returns, returns a sound state in which the task has joined the end of the
  -- line of holder and waiting tasks, and it is granted exactly when the line was empty.
  pub request-line :
      (t n : ℕ)
      → IsSound m r
      → Returns (λ k'. Unit {0}) (abs.suspend k t)
      → Returns
          (λ a.
            IsSound a.1 r × (line a.1 r ≡ line m r ++ t ∷ []) × ((a.2 ≡ true) ↔ (line m r ≡ [])))
          (request abs now k m t r n)
  unfolding request is_locked lock
  request-line t n (inl (h, e, o, u)) suspends = rw e (
      Returns-bind (λ k'. Unit {0}) _ (abs.suspend k t) _ suspends
        λ k' _. (
          inl (h, e, o, u),
          rw (o, line_of, ==_refl r) refl,
          (λ q. absurd (false_ne_true q), λ q. absurd (held (m.res r).owner o q)),
        ))
    where
      false_ne_true : ¬ (false ≡ true)
      false_ne_true q = cc

      held : (o' : Option ℕ) → o' ≡ some h → line_of o' (m.blocked r) ≡ [] → ⊥
      held none q l = cc
      held (some x) q l = cc
  request-line t n (inr (e, o, u, b)) suspends = rw e (
    inl (t, rw (==_refl r) refl, rw (==_refl r) refl, rw (==_refl r) refl),
    rw (==_refl r, o, b) refl,
    (λ q. rw (o, b) refl, λ q. refl),
  )

  -- A free resource goes to the first of those that wait.
  hand_over-line :
      (m' : Fcfs) (ws : List ℕ)
      → (m'.res r).available ≡ 1
      → (m'.res r).owner ≡ none
      → m'.curr_users r ≡ none
      → m'.blocked r ≡ ws
      → All (λ w. Returns (λ k'. Unit {0}) (abs.activate now k w)) ws
      → Returns (λ a. IsSound a.1 r × (line a.1 r ≡ ws)) (hand_over abs now k m' r ws)
  unfolding hand_over lock
  hand_over-line m' [] e o u b activates = (inr (e, o, u, b), rw (o, b) refl)
  hand_over-line m' (w ∷ ws) e o u b activates =
      Returns-bind (λ k'. Unit {0}) _ (abs.activate now k w) _ activates.0
        λ k' _. (
          inl (w, rw (==_refl r, e) refl, rw (==_refl r) refl, rw (==_refl r) refl),
          rw (==_refl r) refl,
        )

  -- A release by the holder of a resource in a sound state, when the activations of the waiting
  -- tasks return, returns a sound state whose line is the old one without its head, so that the
  -- longest waiting task holds the resource.
  pub release-line :
      (t n : ℕ)
      → IsSound m r
      → (m.res r).owner ≡ some t
      → All (λ w. Returns (λ k'. Unit {0}) (abs.activate now k w)) (m.blocked r)
      → Returns (λ a. IsSound a.1 r × (t ∷ line a.1 r ≡ line m r)) (release abs now k m t r n)
  unfolding release unlock
  release-line t n (inl (h, e, o, u)) own activates =
      let m' = record m {
        res = update m.res r (unlock (m.res r) 1);
        curr_users = update m.curr_users r none;
      } in
      Returns-map _ _ (hand_over abs now k m' r (m.blocked r))
        (hand_over-line m' (m.blocked r) (rw (==_refl r, e) refl) (rw (==_refl r) refl)
          (rw (==_refl r) refl) refl activates)
        λ a (sound, shape). (sound, rw own (ap (◌∷◌ t) shape))
  release-line t n (inr (e, o, u, b)) own activates = absurd (clash (m.res r).owner o own)
    where
      clash : (o' : Option ℕ) → o' ≡ none → o' ≡ some t → ⊥
      clash o' p q = ground arith
