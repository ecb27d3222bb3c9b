-- ===== src/Closed/Calls.antt =====
-- What the calls of a task's handler do to its kernel, and to the pending schedules and deschedules.
use sys_rt.Common.{
  ℕ, zero, suc, ◌+◌, ◌≡◌, refl, ◌∙◌, Bool, false, List, [], ◌∷◌, ◌++◌, All, All-append, if_both,
  Returns, Returns-bind, Returns-map, ltb, ◌&&◌, leb,
}
use sys_rt.Sim.{SimTime, EventCall, notify, notify_after, cancel, Event}
use sys_rt.Sim.Outstanding.{outstanding, outstanding-append}
use sys_rt.TaskModel.{TaskAttrs}
use sys_rt.Kernel.{Kernel, emit}
use sys_rt.Task.{
  Task, TaskCall, event, kernel_on_arrival, kernel_on_end, kernel_terminate, kernel_suspend,
  kernel_dispatch, instr_reset, instr_get_duration, instr_schedule, instr_deschedule, exit_process,
  reset_instrs, handle_arrival, reactivate, next_arrival, chk_buff_arrival,
}
use sys_rt.KernelInstr.{call_kernel, call_all}
use sys_rt.Closed.{is_sched, is_desched, is_ending}

abbrev event_of : EventCall → Event
event_of (notify e) = e
event_of (notify_after e t) = e
event_of (cancel e) = e

-- A call that reaches neither the kernel nor the schedule and deschedule events.
abbrev pub IsApart : TaskCall → Type 0
IsApart (event c) =
    ((p : ℕ) → (is_sched p (event_of c) ≡ false) × (is_desched p (event_of c) ≡ false))
    × (is_ending (event_of c) ≡ false)
IsApart kernel_on_arrival = ⊥
IsApart kernel_on_end = ⊥
IsApart kernel_terminate = ⊥
IsApart kernel_suspend = ⊥
IsApart kernel_dispatch = ⊥
IsApart _ = Unit

-- Neither a context switch nor a schedule or deschedule event is touched.
pub record Muted (k k' : Kernel) : Type 0 where
  pub switching_kept : k'.is_context_switching ≡ k.is_context_switching
  pub scheds_kept :
      (p : ℕ) (b : Bool) → outstanding (is_sched p) b k'.calls ≡ outstanding (is_sched p) b k.calls
  pub deschs_kept :
      (p : ℕ) (b : Bool)
      → outstanding (is_desched p) b k'.calls ≡ outstanding (is_desched p) b k.calls
  pub ending_kept : (b : Bool) → outstanding is_ending b k'.calls ≡ outstanding is_ending b k.calls

-- Nor the current task and the queue.
pub record Unmoved (k k' : Kernel) : Type 0 where
  pub muted : Muted k k'
  pub sched_kept : k'.sched ≡ k.sched
  pub curr_kept : k'.curr_exe ≡ k.curr_exe

pub Muted-refl : (k : Kernel) → Muted k k
Muted-refl k = record {
  switching_kept = refl;
  scheds_kept = λ p b. refl;
  deschs_kept = λ p b. refl;
  ending_kept = λ b. refl;
}

pub Muted-trans : {k l m : Kernel} → Muted k l → Muted l m → Muted k m
Muted-trans a b = record {
  switching_kept = b.switching_kept ∙ a.switching_kept;
  scheds_kept = λ p v. b.scheds_kept p v ∙ a.scheds_kept p v;
  deschs_kept = λ p v. b.deschs_kept p v ∙ a.deschs_kept p v;
  ending_kept = λ v. b.ending_kept v ∙ a.ending_kept v;
}

pub Unmoved-refl : (k : Kernel) → Unmoved k k
Unmoved-refl k = record { muted = Muted-refl k; sched_kept = refl; curr_kept = refl }

Unmoved-trans : {k l m : Kernel} → Unmoved k l → Unmoved l m → Unmoved k m
Unmoved-trans a b = record {
  muted = Muted-trans a.muted b.muted;
  sched_kept = b.sched_kept ∙ a.sched_kept;
  curr_kept = b.curr_kept ∙ a.curr_kept;
}

-- Another event is not the one that counts.
marks-apart :
    (is : Event → Bool) (c : EventCall) (b : Bool)
    → is (event_of c) ≡ false
    → outstanding is b (c ∷ []) ≡ b
marks-apart is (notify e) b h = rw h refl
marks-apart is (notify_after e t) b h = rw h refl
marks-apart is (cancel e) b h = rw h refl

-- Calls of other events only.
pub emit-Muted :
    (k : Kernel) (es : List EventCall)
    → ((p : ℕ) (b : Bool) → outstanding (is_sched p) b es ≡ b)
    → ((p : ℕ) (b : Bool) → outstanding (is_desched p) b es ≡ b)
    → ((b : Bool) → outstanding is_ending b es ≡ b)
    → Muted k (emit k es)
emit-Muted k es f g h = record {
  switching_kept = refl;
  scheds_kept = λ p b. outstanding-append (is_sched p) b k.calls es ∙ f p _;
  deschs_kept = λ p b. outstanding-append (is_desched p) b k.calls es ∙ g p _;
  ending_kept = λ b. outstanding-append is_ending b k.calls es ∙ h _;
}

emit-Unmoved : (k : Kernel) (c : EventCall) → IsApart (event c) → Unmoved k (emit k (c ∷ []))
emit-Unmoved k c h = record {
  muted =
      emit-Muted k (c ∷ []) (λ p b. marks-apart (is_sched p) c b (h.0 p).0)
        (λ p b. marks-apart (is_desched p) c b (h.0 p).1) (λ b. marks-apart is_ending c b h.1);
  sched_kept = refl;
  curr_kept = refl;
}

module _ (sc : SimTime) (env : ℕ → TaskAttrs) (now t : ℕ) where
  call_kernel-Returns :
      (c : TaskCall) (k : Kernel) → IsApart c → Returns (Unmoved k) (call_kernel sc env now t c k)
  unfolding call_kernel
  call_kernel-Returns (event c) k h = emit-Unmoved k c h
  call_kernel-Returns kernel_on_arrival k h = absurd h
  call_kernel-Returns kernel_on_end k h = absurd h
  call_kernel-Returns kernel_terminate k h = absurd h
  call_kernel-Returns kernel_suspend k h = absurd h
  call_kernel-Returns kernel_dispatch k h = absurd h
  call_kernel-Returns (instr_reset i) k h = Unmoved-refl k
  call_kernel-Returns (instr_get_duration i) k h = Unmoved-refl k
  call_kernel-Returns (instr_schedule i) k h = Unmoved-refl k
  call_kernel-Returns (instr_deschedule i) k h = Unmoved-refl k
  call_kernel-Returns exit_process k h = Unmoved-refl k

  pub call_all-Returns :
      (cs : List TaskCall) (k : Kernel)
      → All IsApart cs
      → Returns (Unmoved k) (call_all sc env now t cs k)
  unfolding call_all
  call_all-Returns [] k h = Unmoved-refl k
  call_all-Returns (c ∷ cs) k h =
      Returns-bind (Unmoved k) (Unmoved k) (call_kernel sc env now t c k) _
        (call_kernel-Returns c k h.0)
        λ k₁ m.
          Returns-map (Unmoved k₁) (Unmoved k) (call_all sc env now t cs k₁)
            (call_all-Returns cs k₁ h.1) λ k₂ n. Unmoved-trans m n

  -- Calls that leave the kernel alone, and what is called after them.
  pub call_all-then :
      (P : Kernel → Type 0) (xs ys : List TaskCall) (k : Kernel)
      → All IsApart xs
      → ((k₁ : Kernel) → Unmoved k k₁ → Returns P (call_all sc env now t ys k₁))
      → Returns P (call_all sc env now t (xs ++ ys) k)
  unfolding call_all
  call_all-then P [] ys k h f = f k (Unmoved-refl k)
  call_all-then P (x ∷ xs) ys k h f =
      Returns-bind (Unmoved k) P (call_kernel sc env now t x k) _ (call_kernel-Returns x k h.0)
        λ k₁ m. call_all-then P xs ys k₁ h.1 λ k₂ n. f k₂ (Unmoved-trans m n)

pub reset_instrs-IsApart : (i n : ℕ) → All IsApart (reset_instrs i n)
unfolding reset_instrs
reset_instrs-IsApart i zero = tt
reset_instrs-IsApart i (suc n) = (tt, (tt, reset_instrs-IsApart (i + 1) n))

pub handle_arrival-IsApart :
    (sc : SimTime) (now arr : ℕ) (t : Task) → All IsApart (handle_arrival sc now arr t).1
unfolding handle_arrival
handle_arrival-IsApart sc now arr t =
    All-append IsApart (reset_instrs 0 t.instr_count) _ (reset_instrs-IsApart 0 t.instr_count) (
      if_both {A = List TaskCall} (All IsApart) (leb now (sc.add arr t.rdl))
        (λ h. (((λ p. (refl, refl)), refl), tt)) (λ h. tt))

pub reactivate-IsApart : (iat_sample : ℕ) (t : Task) → All IsApart (reactivate iat_sample t)
unfolding reactivate
reactivate-IsApart iat_sample t =
    if_both {A = List TaskCall} (All IsApart) (t.iat && ltb 0 iat_sample)
      (λ h. (((λ p. (refl, refl)), refl), tt)) (λ h. tt)

pub next_arrival-IsApart : (t : Task) → All IsApart (next_arrival t)
unfolding next_arrival
next_arrival-IsApart t =
    if_both {A = List TaskCall} (All IsApart) (chk_buff_arrival t)
      (λ h. (((λ p. (refl, refl)), refl), tt)) (λ h. tt)
