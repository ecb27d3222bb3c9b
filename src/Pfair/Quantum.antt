-- ===== src/Pfair/Quantum.antt =====
-- src/pfair_scheduler.cpp: notify puts the job that begins its quantum before those that have none.
use sys_rt.Common.{
  ℕ, ◌<◌, ◌≡◌, refl, ◌∙◌, ap, inl, inr, true, false, some, ok, arith, ◌||◌, ◌==◌, ==_refl, mem,
  update, Returns, Returns-inv, Returns-bind_ok, deref, Bool-cases,
}
use sys_rt.PList
use sys_rt.PList.{IsStrictOrder}
use sys_rt.PList.Order.{mem-insert_self, mem-insert_ne}
use sys_rt.PList.Erase.{remove, erase-mem, mem-remove_ne}
use sys_rt.Pfair.{
  Floats, PfairModel, PfairScheduler, compute_next_job_time, get_priority, precedes, find, insert,
  next_job, extract, notify, emit, cancel_quantum, notify_quantum,
}

module _ {F : Type 0} (fl : Floats F) where
  precedes-IsStrictOrder :
      (number : ℕ → ℕ) (model : ℕ → PfairModel F)
      → ((a b : ℕ) → number a ≡ number b → a ≡ b)
      → IsStrictOrder (precedes number model)
  unfolding precedes
  precedes-IsStrictOrder number model distinct = record {
    irrefl = λ a. ground arith;
    trans = λ a b c h k. ground arith;
    total = λ a b h k. distinct a b (ground arith);
  }

  next_job-returns :
      (m : PfairModel F)
      → 0 < fl.to_int m.job_length
      → (m' : PfairModel F) × (next_job fl m ≡ ok m')
  unfolding next_job compute_next_job_time
  next_job-returns m pos =
      let some_length : (fl.to_int m.job_length == 0) ≡ false = ground arith in
      let (m', e, _) =
        Returns-inv (λ m'. Unit {0}) (next_job fl m)
          (elim (Bool-cases (m.round_scheduled || m.end)) [
            | inl goes ↦ simp (next_job, goes, some_length) tt
            | inr stays ↦ simp (next_job, stays) tt
          ]) in
      (m', e)

  -- A positive deadline does not rank before a quantum that runs.
  precedes-scheduled :
      (number : ℕ → ℕ) (model : ℕ → PfairModel F) (z t : ℕ)
      → (model t).round_scheduled ≡ true
      → (model z).round_scheduled ≡ false
      → 0 < (model z).next_job_deadline
      → precedes number model z t ≡ false
  unfolding precedes get_priority
  precedes-scheduled number model z t on off late = ground (arith, on, off)

  -- The queue and the models behind the insertion of a scheduled job.
  abbrev pub First : (ℕ → ℕ) → PfairScheduler F → ℕ → PfairScheduler F → Type 0
  First number s t s' =
      (mem t s'.queue ≡ true)
      × ((s'.model t).round_scheduled ≡ true)
      × ((z : ℕ) → (t == z) ≡ false → (mem z s'.queue ≡ mem z s.queue) × (s'.model z ≡ s.model z))
      × ((z : ℕ)
          → (t == z) ≡ false
          → (s.model z).round_scheduled ≡ false
          → 0 < (s.model z).next_job_deadline
          → precedes number s'.model z t ≡ false)

  insert-First :
      (number : ℕ → ℕ) (s s' : PfairScheduler F) (t : ℕ)
      → ((a b : ℕ) → number a ≡ number b → a ≡ b)
      → s'.queue ≡ PList.insert (precedes number s'.model) t (remove t s.queue)
      → (s'.model t).round_scheduled ≡ true
      → ((z : ℕ) → (t == z) ≡ false → s'.model z ≡ s.model z)
      → First number s t s'
  insert-First number s s' t distinct queue on others =
      let lt = precedes number s'.model in
      (
        ap (mem t) queue
            ∙ mem-insert_self lt (precedes-IsStrictOrder number s'.model distinct) t
                (remove t s.queue),
        on,
        λ z d. (
          ap (mem z) queue
              ∙ mem-insert_ne lt t z (remove t s.queue) d
              ∙ mem-remove_ne t z s.queue d,
          others z d,
        ),
        λ z d off late.
            precedes-scheduled number s'.model z t on (rw (others z d) off) (rw (others z d) late),
      )

  find-registered :
      (s : PfairScheduler F) (t : ℕ) → s.registered t ≡ true → find s t ≡ some (s.model t)
  unfolding find
  find-registered s t known = rw known refl

  find-known :
      (s : PfairScheduler F) (t : ℕ) → s.registered t ≡ true → deref (find s t) ≡ ok (s.model t)
  find-known s t known = ap (λ o. deref o) (find-registered s t known)

  -- What insert makes of a scheduler that knows the task.
  abbrev inserted : (ℕ → ℕ) → ℕ → PfairScheduler F → ℕ → PfairScheduler F
  inserted number now s t =
      let model = update s.model t (record (s.model t) { insert_time = now; active = true }) in
      record s { model = model; queue = PList.insert (precedes number model) t s.queue }

  insert-shape :
      (number : ℕ → ℕ) (now : ℕ) (s : PfairScheduler F) (t : ℕ)
      → s.registered t ≡ true
      → insert number now s t ≡ ok (inserted number now s t)
  unfolding insert
  insert-shape number now s t known =
      let found : find s t ≡ some (s.model t) = find-registered s t known in simp (insert, found)

  extract-shape :
      (s : PfairScheduler F) (t : ℕ)
      → s.registered t ≡ true
      → mem t s.queue ≡ true
      → 0 < fl.to_int (s.model t).job_length
      → (m : PfairModel F) × (extract fl s t
          ≡ ok (record s { model = update s.model t m; queue = remove t s.queue }))
  unfolding extract
  extract-shape s t known queued pos =
      let (m, e) = next_job-returns (record (s.model t) { active = false }) pos in
      (m, simp (extract, known, erase-mem t s.queue queued, e))

  -- For tasks with distinct numbers, notify of a known task in the queue, whose job is at least
  -- one quantum long, returns with the task in the queue and scheduled, the other tasks and their
  -- models as they were, and no other task that is not scheduled and has a positive deadline is
  -- ranked before it.
  pub notify-First :
      (number : ℕ → ℕ) (now : ℕ) (s : PfairScheduler F) (t : ℕ)
      → ((a b : ℕ) → number a ≡ number b → a ≡ b)
      → s.registered t ≡ true
      → mem t s.queue ≡ true
      → 0 < fl.to_int (s.model t).job_length
      → Returns (First number s t) (notify fl number now s (some t))
  unfolding notify
  notify-First number now s t distinct known queued pos =
      let s₀ = emit s cancel_quantum in
      let (m, e) = extract-shape s₀ t known queued pos in
      let s₁ = record s₀ { model = update s.model t m; queue = remove t s.queue } in
      let s₂ = record s₁ {
        model = update s₁.model t (record (s₁.model t) { round_scheduled = true });
      } in
      let s₃ = inserted number now s₂ t in
      Returns-bind_ok (First number s t) (extract fl s₀ t) _ s₁ e (
        Returns-bind_ok (First number s t) (deref (find s₁ t)) _ (s₁.model t)
          (find-known s₁ t known)
          (Returns-bind_ok (First number s t) (insert number now s₂ t) _ s₃
            (insert-shape number now s₂ t known)
            (insert-First number s (emit s₃ (notify_quantum s.schedule_quantum)) t distinct refl
              (simp (==_refl t)) (λ z d. simp d))))
