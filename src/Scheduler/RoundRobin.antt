-- ===== src/Scheduler/RoundRobin.antt =====
-- RRScheduler: a round moves the task whose slice is used up behind all the others.
use sys_rt.Common.{
  ℕ, ◌<◌, ◌≡◌, refl, Bool, true, false, List, [], ◌∷◌, ◌++◌, ok, arith, ◌==◌, ==_refl, All, All-map,
  update, Returns,
}
use sys_rt.Sim.{SimTime, notify_after, cancel, rr_evt}
use sys_rt.PList
use sys_rt.PList.Erase.{front-head, erase-head}
use sys_rt.TaskModel.{TaskAttrs, rr_model, get_priority, task_model_cmp, precedes}
use sys_rt.Scheduler.{Scheduler}
use sys_rt.Scheduler.Notify.{expired, requeue, rearm, round, rr_slice_of}

-- An element that comes after all others is inserted at the end.
insert-last :
    (lt : ℕ → ℕ → Bool) (x : ℕ) (xs : List ℕ)
    → All (λ y. (lt x y ≡ false) × (lt y x ≡ true)) xs
    → PList.insert lt x xs ≡ xs ++ x ∷ []
unfolding PList.insert
insert-last lt x [] h = refl
insert-last lt x (y ∷ ys) h = rw (h.0.0, h.0.1, insert-last lt x ys h.1)

abbrev pub IsRoundRobin : Scheduler → ℕ → ℕ → Type 0
IsRoundRobin s t slice = (s.model t).policy ≡ rr_model slice

-- Waiting since before `now`, under a round-robin model of its own.
abbrev pub Waits : ℕ → Scheduler → ℕ → ℕ → Type 0
Waits now s t z =
    ((t == z) ≡ false) × ((s.model z).insert_time < now) × ((slice : ℕ) × IsRoundRobin s z slice)

behind :
    (env : ℕ → TaskAttrs) (now : ℕ) (s : Scheduler) (t z slice : ℕ)
    → IsRoundRobin s t slice
    → Waits now s t z
    → let model = update s.model t (record (s.model t) { insert_time = now }) in
      (precedes env model t z ≡ false) × (precedes env model z t ≡ true)
unfolding precedes task_model_cmp get_priority
behind env now s t z slice rr (d, earlier, (slice', rr')) =
    rw (d, ==_refl t, rr, rr') (ground arith, ground arith)

module _ (sc : SimTime) (env : ℕ → TaskAttrs) (now : ℕ) (s : Scheduler) (t : ℕ) where
  requeue-last :
      (slice : ℕ) (rest : List ℕ)
      → s.queue ≡ t ∷ rest
      → (s.model t).active ≡ true
      → IsRoundRobin s t slice
      → All (Waits now s t) rest
      → let model = update s.model t (record (s.model t) { insert_time = now }) in
        requeue env now s t ≡ ok (record s { model = model; queue = rest ++ t ∷ [] })
  unfolding requeue
  requeue-last slice rest shape on rr waits =
      let model = update s.model t (record (s.model t) { insert_time = now }) in
      ground (
        arith,
        erase-head t rest s.queue shape,
        insert-last (precedes env model) t rest (
            All-map (Waits now s t)
              (λ y. (precedes env model t y ≡ false) × (precedes env model y t ≡ true)) rest
              (λ z w. behind env now s t z slice rr w) waits),
      )

  pub round-rotated :
      (f slice slice' : ℕ) (rest : List ℕ)
      → s.queue ≡ t ∷ f ∷ rest
      → (s.model t).active ≡ true
      → IsRoundRobin s t slice
      → IsRoundRobin s f slice'
      → 0 < slice'
      → All (Waits now s t) (f ∷ rest)
      → expired sc env now s t ≡ true
      → round sc env now s
        ≡ ok (
          record s {
            model = update s.model t (record (s.model t) { insert_time = now });
            queue = f ∷ rest ++ t ∷ [];
          },
          cancel rr_evt ∷ notify_after rr_evt slice' ∷ [],
        )
  unfolding round rearm rr_slice_of
  round-rotated f slice slice' rest shape on rr rr' pos waits over =
      rw
        (
          front-head t (f ∷ rest) s.queue shape,
          over,
          requeue-last slice (f ∷ rest) shape on rr waits,
          front-head f (rest ++ t ∷ []) (f ∷ rest ++ t ∷ []) refl,
          waits.0.0,
          rr',
        )
        (ground arith)

  -- When the slice of the first of several round-robin tasks is used up, and the others were
  -- inserted before the present, round moves it behind all the others with the present as its
  -- insertion time, and restarts the timer with the positive slice of the task that is first now.
  pub round-rotates :
      (f slice slice' : ℕ) (rest : List ℕ)
      → s.queue ≡ t ∷ f ∷ rest
      → (s.model t).active ≡ true
      → IsRoundRobin s t slice
      → IsRoundRobin s f slice'
      → 0 < slice'
      → All (Waits now s t) (f ∷ rest)
      → expired sc env now s t ≡ true
      → Returns
          (λ r.
            (r.0.queue ≡ f ∷ rest ++ t ∷ [])
            × ((r.0.model t).insert_time ≡ now)
            × (r.1 ≡ cancel rr_evt ∷ notify_after rr_evt slice' ∷ []))
          (round sc env now s)
  round-rotates f slice slice' rest shape on rr rr' pos waits over =
      rw (round-rotated f slice slice' rest shape on rr rr' pos waits over)
        (refl, rw (==_refl t) refl, refl)
