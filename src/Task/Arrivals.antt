-- ===== src/Task/Arrivals.antt =====
-- src/task.cpp: the buffer of arrivals, how much it holds and in which order it is served.
use sys_rt.Common.{
  ap, Bool-cases, inl, inr, take, take-all, take-append, ℕ, ◌+◌, ◌^◌, ◌≤◌, ◌<◌, ◌≡◌, refl, sym, ◌∙◌,
  true, false, Option, some, List, [], ◌∷◌, ◌++◌, Run, ok, ◌>>=◌, arith, length, length-append,
  append_nil, append_snoc, leb,
}
use sys_rt.Sim.{SimTime}
use sys_rt.Task.{
  Task, kernel_on_arrival, tsk_idle, int_le, is_active, handle_arrival, buff_arrival, on_arrival,
  get_buff_arrival, on_end_instance, on_fake_arrival,
}

int_le-leb : (a b : ℕ) → a < 2 ^ 31 → b < 2 ^ 31 → int_le a b ≡ leb a b
unfolding int_le
int_le-leb a b p q = ground arith

module _ (sc : SimTime) where
  -- The arrivals at the given times, one after the other.
  abbrev pub arrivals : ℕ → List ℕ → Task → Task
  arrivals iat_sample [] t = t
  arrivals iat_sample (a ∷ rest) t = arrivals iat_sample rest (on_arrival sc iat_sample a t).0

  -- At each of the given times an instance ends and a buffered arrival begins the next; the result
  -- is the arrivals of the new instances.
  abbrev pub rounds : Option ℕ → List ℕ → Task → Run (List ℕ)
  rounds cpu [] t = ok []
  rounds cpu (now ∷ rest) t = on_end_instance cpu t >>= λ r.
      on_fake_arrival sc now r.0 >>= λ r'. rounds cpu rest r'.0 >>= λ rest. ok (r'.0.arrival ∷ rest)

  on_arrival-active :
      (iat_sample a : ℕ) (t : Task)
      → is_active t.state ≡ true
      → t.arr_queue_size < 2 ^ 31
      → length t.arr_queue ≤ t.arr_queue_size
      → let t' = (on_arrival sc iat_sample a t).0 in
        (t'.arr_queue ≡ t.arr_queue ++ a ∷ [])
        × (t'.state ≡ t.state)
        × (t'.arr_queue_size ≡ t.arr_queue_size)
  unfolding on_arrival buff_arrival
  on_arrival-active iat_sample a t active small room =
      ground (arith, int_le-leb (length t.arr_queue) t.arr_queue_size (omega arith) small)

  arrivals-buffer :
      (iat_sample : ℕ) (bs : List ℕ) (t : Task)
      → is_active t.state ≡ true
      → t.arr_queue_size < 2 ^ 31
      → length t.arr_queue + length bs ≤ t.arr_queue_size + 1
      → (arrivals iat_sample bs t).arr_queue ≡ t.arr_queue ++ bs
  arrivals-buffer iat_sample [] t active small room = sym (append_nil t.arr_queue)
  arrivals-buffer iat_sample (a ∷ bs) t active small room =
      let (q, st, size) = on_arrival-active iat_sample a t active small (omega arith) in
      arrivals-buffer iat_sample bs (on_arrival sc iat_sample a t).0 (rw st active) (rw size small)
        (rw (q, size, length-append t.arr_queue (a ∷ [])) (omega (arith, room)))
      ∙ rw q (append_snoc t.arr_queue a bs)

  on_arrival-full :
      (iat_sample a : ℕ) (t : Task)
      → is_active t.state ≡ true
      → t.arr_queue_size + 1 < 2 ^ 31
      → length t.arr_queue ≡ t.arr_queue_size + 1
      → let t' = (on_arrival sc iat_sample a t).0 in
        (t'.arr_queue ≡ t.arr_queue) × (t'.state ≡ t.state) × (t'.arr_queue_size ≡ t.arr_queue_size)
  unfolding on_arrival buff_arrival
  on_arrival-full iat_sample a t active small full =
      ground (arith, int_le-leb (length t.arr_queue) t.arr_queue_size (omega arith) (omega arith))

  -- For an active task whose buffer size plus one is below 2^31 and whose buffer holds no more
  -- than that, any number of arrivals leaves in the buffer the first of those that it held and
  -- those that came, one more than its size at most, and drops the others.
  pub arrivals-take :
      (iat_sample : ℕ) (bs : List ℕ) (t : Task)
      → is_active t.state ≡ true
      → t.arr_queue_size + 1 < 2 ^ 31
      → length t.arr_queue ≤ t.arr_queue_size + 1
      → (arrivals iat_sample bs t).arr_queue ≡ take (t.arr_queue_size + 1) (t.arr_queue ++ bs)
  arrivals-take iat_sample [] t active small room =
      sym (rw (append_nil t.arr_queue) (take-all t.arr_queue (t.arr_queue_size + 1) room))
  arrivals-take iat_sample (a ∷ bs) t active small room =
      let t' = (on_arrival sc iat_sample a t).0 in
      elim (Bool-cases (leb (length t.arr_queue) t.arr_queue_size)) [
        | inl fits ↦
            let (q, st, size) =
              on_arrival-active iat_sample a t active (omega (arith, small))
                (ground (arith, fits)) in
            arrivals-take iat_sample bs t' (rw st active) (rw size small)
              (rw (q, size, length-append t.arr_queue (a ∷ [])) (ground (arith, fits)))
            ∙ rw (q, size) (ap (take (t.arr_queue_size + 1)) (append_snoc t.arr_queue a bs))
        | inr full ↦
            let whole : length t.arr_queue ≡ t.arr_queue_size + 1 = ground (arith, full, room) in
            let (q, st, size) = on_arrival-full iat_sample a t active small whole in
            arrivals-take iat_sample bs t' (rw st active) (rw size small) (rw (q, size) room)
            ∙ rw (q, size, sym whole)
                (take-append t.arr_queue bs ∙ sym (take-append t.arr_queue (a ∷ bs)))
      ]

  on_fake_arrival-head :
      (now : ℕ) (t : Task) (a : ℕ) (rest : List ℕ)
      → t.arr_queue ≡ a ∷ rest
      → on_fake_arrival sc now t
        ≡ ok (
          (handle_arrival sc now a (record t { arr_queue = rest })).0,
          (handle_arrival sc now a (record t { arr_queue = rest })).1 ++ kernel_on_arrival ∷ [],
        )
  unfolding on_fake_arrival get_buff_arrival handle_arrival
  on_fake_arrival-head now t a rest e = ground (arith)

  rounds-queue :
      (p : ℕ) (times bs : List ℕ) (t : Task)
      → t.arr_queue ≡ bs
      → length times ≡ length bs
      → rounds (some p) times t ≡ ok bs
  unfolding on_end_instance on_fake_arrival get_buff_arrival handle_arrival
  rounds-queue p [] [] t e l = refl
  rounds-queue p [] (a ∷ bs) t e l = absurd (omega arith)
  rounds-queue p (n ∷ times) [] t e l = absurd (omega arith)
  rounds-queue p (n ∷ times) (a ∷ bs) t e l =
      let t₁ = record t {
        act_instr = 0;
        last_arrival = t.arrival;
        cpu_of_end = p;
        state = tsk_idle;
        task_exe = false;
      } in
      rw (on_fake_arrival-head n t₁ a bs e) (
        rw
          (rounds-queue p times bs (handle_arrival sc n a (record t₁ { arr_queue = bs })).0 refl
            (omega arith))
          refl)

  -- Arrivals at an active task with an empty buffer, one more than the size of the buffer at
  -- most, begin their instances in the order in which they came, each with its own arrival time,
  -- as instances end one after the other.
  pub rounds-arrivals :
      (iat_sample p : ℕ) (times bs : List ℕ) (t : Task)
      → is_active t.state ≡ true
      → t.arr_queue ≡ []
      → t.arr_queue_size < 2 ^ 31
      → length bs ≤ t.arr_queue_size + 1
      → length times ≡ length bs
      → rounds (some p) times (arrivals iat_sample bs t) ≡ ok bs
  rounds-arrivals iat_sample p times bs t active fresh small room same =
      rounds-queue p times bs (arrivals iat_sample bs t)
        (arrivals-buffer iat_sample bs t active small (rw fresh (omega arith)) ∙ rw fresh refl) same
