-- ===== src/Closed/Written.antt =====
-- The system after a handler of a task: the task is written, and its calls are made.
use sys_rt.Common.{
  ℕ, ◌≡◌, refl, sym, ◌∙◌, subst, inl, inr, Bool, true, false, List, arith, ◌==◌, mem, update,
  Bool-cases,
}
use sys_rt.Sim.{EventCall}
use sys_rt.Sim.Outstanding.{outstanding}
use sys_rt.PList.Order.{Sorted-congr}
use sys_rt.TaskModel.{
  TaskAttrs, TaskModel, Policy, fp_model, edf_model, fifo_model, rr_model, ngedf_model, precedes,
  task_model_cmp, get_priority,
}
use sys_rt.TaskModel.Order.{IsNumbered}
use sys_rt.Kernel.{Kernel}
use sys_rt.Kernel.Invariant.{IsValid}
use sys_rt.Task.{Task, is_active, is_executing}
use sys_rt.Closed.{System, reads, quiet, handled, executes, is_sched, is_desched, is_ending}
use sys_rt.Closed.Turns
use sys_rt.Closed.Turns.{Turns}
use sys_rt.Closed.Calls.{Unmoved}

pub record IsSafe (s : System) : Type 0 where
  pub numbered : (t : ℕ) → (s.task t).number ≡ t
  pub kernel_valid : IsValid (reads s.task) s.kernel
  pub active : (t : ℕ) → mem t s.kernel.sched.queue ≡ true → is_active (s.task t).state ≡ true
  pub turns : Turns s.kernel.curr_exe s.kernel.is_context_switching (executes s) s.scheds s.deschs
  -- A context switch that is on will end.
  pub switch_ends : s.kernel.is_context_switching ≡ true → s.ending ≡ true

pub reads-IsNumbered : (task : ℕ → Task) → ((t : ℕ) → (task t).number ≡ t) → IsNumbered (reads task)
reads-IsNumbered task h = record { distinct = λ a b e. sym (h a) ∙ e ∙ h b }

-- The order of the queue reads a task's deadline, arrival and number.
abbrev pub ReadsAlike : TaskAttrs → TaskAttrs → Type 0
ReadsAlike a b =
    (a.deadline ≡ b.deadline) × (a.arrival ≡ b.arrival) × (a.task_number ≡ b.task_number)

get_priority-reads :
    (a b : TaskAttrs) (m : Policy) → ReadsAlike a b → get_priority a m ≡ get_priority b m
unfolding get_priority
get_priority-reads a b (fp_model prio) r = refl
get_priority-reads a b (edf_model true prio) r = refl
get_priority-reads a b (edf_model false prio) r = r.0
get_priority-reads a b fifo_model r = r.1
get_priority-reads a b (rr_model slice) r = refl
get_priority-reads a b (ngedf_model true ext_p prio) r = r.0
get_priority-reads a b (ngedf_model false ext_p prio) r = refl

precedes-reads :
    (env env' : ℕ → TaskAttrs) (model : ℕ → TaskModel) (a b : ℕ)
    → ReadsAlike (env' a) (env a)
    → ReadsAlike (env' b) (env b)
    → precedes env model a b ≡ precedes env' model a b
unfolding precedes task_model_cmp
precedes-reads env env' model a b p q =
    rw
      (
        get_priority-reads (env' a) (env a) (model a).policy p,
        get_priority-reads (env' b) (env b) (model b).policy q,
        p.2,
        q.2,
      )
      refl

pub reads-IsValid :
    (env env' : ℕ → TaskAttrs) (k : Kernel)
    → ((t : ℕ) → mem t k.sched.queue ≡ true → ReadsAlike (env' t) (env t))
    → IsValid env k
    → IsValid env' k
reads-IsValid env env' k same v = record {
  queue_valid = record {
    sorted =
        Sorted-congr (precedes env k.sched.model) (precedes env' k.sched.model) k.sched.queue
          (λ a b p q. precedes-reads env env' k.sched.model a b (same a p) (same b q))
          v.queue_valid.sorted;
    queued = v.queue_valid.queued;
    listed = v.queue_valid.listed;
    typed = v.queue_valid.typed;
  };
  running = v.running;
}

pub Unmoved-IsValid :
    (env : ℕ → TaskAttrs) (k k' : Kernel) → Unmoved k k' → IsValid env k → IsValid env k'
Unmoved-IsValid env k k' m v = record {
  queue_valid = rw m.sched_kept v.queue_valid;
  running = λ t e. rw m.sched_kept (v.running t (sym m.curr_kept ∙ e));
}

-- Who executes after one task is written.
pub executes_update :
    (task : ℕ → Task) (t : ℕ) (t' : Task) (b : Bool)
    → is_executing t'.state ≡ b
    → (p : ℕ)
    → is_executing (update task t t' p).state ≡ update (λ z. is_executing (task z).state) t b p
executes_update task t t' b e p = elim (Bool-cases (t == p)) [
  | inl same ↦ rw same e
  | inr other ↦ rw other refl
]

module _ (s : System) (safe : IsSafe s) (t : ℕ) (t' : Task) (named : t'.number ≡ t) where
  abbrev pub task' : ℕ → Task
  task' = update s.task t t'

  pub numbered_update : (z : ℕ) → (task' z).number ≡ z
  numbered_update z = elim (Bool-cases (t == z)) [
    | inl same ↦ let e : t ≡ z = ground arith in rw same (named ∙ e)
    | inr other ↦ rw other (safe.numbered z)
  ]

  -- A task that is out of the queue may be written as one likes.
  abbrev pub Rewrites : Type 0
  Rewrites =
      mem t s.kernel.sched.queue ≡ true
      → ReadsAlike (reads task' t) (reads s.task t) × (is_active t'.state ≡ true)

  pub update-IsValid :
      (mem t s.kernel.sched.queue ≡ true → ReadsAlike (reads task' t) (reads s.task t))
      → IsValid (reads task') (quiet s.kernel)
  update-IsValid r =
      let v = safe.kernel_valid in
      reads-IsValid (reads s.task) (reads task') (quiet s.kernel)
        (λ z m. elim (Bool-cases (t == z)) [
          | inl same ↦
              let e : t ≡ z = ground arith in
              subst (λ y. ReadsAlike (reads task' y) (reads s.task y)) e
                (r (subst (λ y. mem y s.kernel.sched.queue ≡ true) (sym e) m))
          | inr other ↦ rw other (refl, refl, refl)
        ])
        (record { queue_valid = v.queue_valid; running = v.running })

  pub active_update :
      Rewrites → (z : ℕ) → mem z s.kernel.sched.queue ≡ true → is_active (task' z).state ≡ true
  active_update w z m = elim (Bool-cases (t == z)) [
    | inl same ↦
        let e : t ≡ z = ground arith in
        rw same (w (subst (λ y. mem y s.kernel.sched.queue ≡ true) (sym e) m)).1
    | inr other ↦ rw other (safe.active z m)
  ]

  -- A handler that leaves the kernel alone, after calls of events.
  pub settles :
      (es : List EventCall) (scheds deschs : ℕ → Bool) (k : Kernel)
      → Rewrites
      → ((b : Bool) → outstanding is_ending b es ≡ b)
      → Turns s.kernel.curr_exe s.kernel.is_context_switching
          (λ p. is_executing (task' p).state)
          (λ p. outstanding (is_sched p) (scheds p) es)
          (λ p. outstanding (is_desched p) (deschs p) es)
      → Unmoved (record s.kernel { calls = es }) k
      → IsSafe (handled task' scheds deschs s.ending k)
  settles es scheds deschs k w keeps c m =
      let v₀ = update-IsValid (λ q. (w q).0) in
      let v =
        Unmoved-IsValid (reads task') (record s.kernel { calls = es }) k m
          (record { queue_valid = v₀.queue_valid; running = v₀.running }) in
      record {
        numbered = numbered_update;
        kernel_valid = record { queue_valid = v.queue_valid; running = v.running };
        active = λ z h. active_update w z (rw m.sched_kept at h);
        turns =
            Turns.Turns-carry _ _ _ _ _ c _ _ _ _ _ m.curr_kept m.muted.switching_kept (λ p. refl)
              (λ p. m.muted.scheds_kept p (scheds p)) (λ p. m.muted.deschs_kept p (deschs p));
        switch_ends = λ on.
            m.muted.ending_kept s.ending
            ∙ keeps s.ending
            ∙ safe.switch_ends (sym m.muted.switching_kept ∙ on);
      }
