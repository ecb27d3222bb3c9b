-- ===== src/Kernel/Cycle.antt =====
-- Histories of RTKernel: the handlers in any order. A task that is queued does not arrive, and the current
-- task is not terminated.
use sys_rt.Common.{
  ℕ, ◌≡◌, subst, ◌⊎◌, inl, inr, true, false, not, some, ok, arith, opt_eq, opt_eq→eq, mem,
  Bool-cases, >>=-eq-ok, if_both, Returns_ok,
}
use sys_rt.PList
use sys_rt.PList.Erase.{erase-not_mem}
use sys_rt.Sim.{SimTime}
use sys_rt.PList.Order.{Sorted-congr}
use sys_rt.TaskModel.{TaskAttrs, precedes}
use sys_rt.TaskModel.Order.{IsNumbered}
use sys_rt.Scheduler.{Scheduler, find, insert, extract}
use sys_rt.Scheduler.Invariant.{IsValid as QueueIsValid}
use sys_rt.Kernel.{
  Kernel, dispatch, terminate, activate, suspend, on_arrival, on_end, on_begin_dispatch,
  on_end_dispatch,
}
use sys_rt.Kernel.Invariant.{
  IsValid, Holds, Lacks, on_arrival-Holds, activate-Holds, suspend-Lacks, terminate-Lacks,
  on_end-Lacks,
}
use sys_rt.Kernel.Dispatch.{on_begin_dispatch-Outranks, on_end_dispatch-Runs}

-- The kernel with what its scheduler reads of the tasks.
pub record System : Type 0 where
  pub env : ℕ → TaskAttrs
  pub kernel : Kernel

-- A handler that returns. Only a task outside the queue changes what the queue is ordered by.
pub data Step (sc : SimTime) (s : System) : System → Type 0 where
  arrives :
      {k : Kernel} (now t : ℕ)
      → mem t s.kernel.sched.queue ≡ false
      → on_arrival sc s.env now s.kernel t ≡ ok k
      → Step sc s (record s { kernel = k })
  activates :
      {k : Kernel} (now t : ℕ)
      → mem t s.kernel.sched.queue ≡ false
      → activate s.env now s.kernel t ≡ ok k
      → Step sc s (record s { kernel = k })
  begins :
      {k : Kernel} (now : ℕ)
      → on_begin_dispatch s.env now s.kernel ≡ ok k
      → Step sc s (record s { kernel = k })
  ends :
      {k : Kernel} (now t : ℕ)
      → s.kernel.curr_exe ≡ some t
      → on_end_dispatch s.env now s.kernel ≡ ok k
      → Step sc s (record s { kernel = k })
  suspends : {k : Kernel} (t : ℕ) → suspend s.kernel t ≡ ok k → Step sc s (record s { kernel = k })
  terminates :
      {k : Kernel} (t : ℕ)
      → opt_eq s.kernel.curr_exe (some t) ≡ false
      → terminate s.kernel t ≡ ok k
      → Step sc s (record s { kernel = k })
  finishes : {k : Kernel} (t : ℕ) → on_end s.kernel t ≡ ok k → Step sc s (record s { kernel = k })
  retimes :
      {env : ℕ → TaskAttrs}
      → IsNumbered env
      → ((t : ℕ) → mem t s.kernel.sched.queue ≡ true → env t ≡ s.env t)
      → Step sc s (record s { env = env })

pub data Reach (sc : SimTime) (s : System) : System → Type 0 where
  here : Reach sc s s
  next : {t u : System} → Reach sc s t → Step sc t u → Reach sc s u

pub record SystemIsValid (s : System) : Type 0 where
  pub numbered : IsNumbered s.env
  pub kernel_valid : IsValid s.env s.kernel

precedes-env :
    (env env' : ℕ → TaskAttrs) (s : Scheduler) (a b : ℕ)
    → env' a ≡ env a
    → env' b ≡ env b
    → precedes env s.model a b ≡ precedes env' s.model a b
unfolding precedes
precedes-env env env' s a b p q = rw (p, q)

pub retimed-IsValid :
    (env env' : ℕ → TaskAttrs) (k : Kernel)
    → ((t : ℕ) → mem t k.sched.queue ≡ true → env' t ≡ env t)
    → IsValid env k
    → IsValid env' k
retimed-IsValid env env' k same v = record {
  queue_valid = record {
    sorted =
        Sorted-congr (precedes env k.sched.model) (precedes env' k.sched.model) k.sched.queue
          (λ a b p q. precedes-env env env' k.sched a b (same a p) (same b q)) v.queue_valid.sorted;
    queued = v.queue_valid.queued;
    listed = v.queue_valid.listed;
    typed = v.queue_valid.typed;
  };
  running = v.running;
}

-- What the scheduler inserts it knows.
insert-registered :
    (env : ℕ → TaskAttrs) (now : ℕ) (s : Scheduler) (t : ℕ) {s' : Scheduler}
    → insert env now s t ≡ ok s'
    → s.registered t ≡ true
unfolding insert find
insert-registered env now s t e = elim (Bool-cases (s.registered t)) [
  | inl known ↦ known
  | inr unknown ↦ let bad = rw unknown at e in cc
]

-- What it extracts is queued, or unknown and nothing happens.
extract-queued :
    (s : Scheduler) (t : ℕ) {s' : Scheduler}
    → extract s t ≡ ok s'
    → (mem t s.queue ≡ true) ⊎ (s ≡ s')
unfolding extract
extract-queued s t e = elim (Bool-cases (mem t s.queue)) [
  | inl queued ↦ inl queued
  | inr out ↦ elim (Bool-cases (s.registered t)) [
    | inl known ↦ let bad = rw (known, erase-not_mem t s.queue out) at e in cc
    | inr unknown ↦ let same = rw unknown at e in inr cc
  ]
]

module _ (env : ℕ → TaskAttrs) (u : IsNumbered env) (k : Kernel) (t : ℕ) (v : IsValid env k) where
  terminate-IsValid :
      {k' : Kernel} → opt_eq k.curr_exe (some t) ≡ false → terminate k t ≡ ok k' → IsValid env k'
  unfolding terminate
  terminate-IsValid {k'} idle e =
      let (q, a, h) = >>=-eq-ok (extract k.sched t) _ e in
      elim (extract-queued k.sched t a) [
        | inl queued ↦ (Returns_ok (Lacks env t) _ (terminate-Lacks env u 0 k v t queued idle) e).0
        | inr same ↦
            Returns_ok (IsValid env) _
              (subst (λ y. IsValid env (record k { sched = y })) same
                (record { queue_valid = v.queue_valid; running = v.running }))
              h
      ]

  suspend-IsValid : {k' : Kernel} → suspend k t ≡ ok k' → IsValid env k'
  unfolding suspend
  suspend-IsValid {k'} e = elim (Bool-cases (opt_eq k.curr_exe (some t))) [
    | inl runs ↦
        (Returns_ok (Lacks env t) _
          (suspend-Lacks env u 0 k v t (v.running t (opt_eq→eq k.curr_exe (some t) runs))) e).0
    | inr waits ↦
        let (q, a, h) = >>=-eq-ok (extract k.sched t) _ e in
        elim (extract-queued k.sched t a) [
          | inl queued ↦ (Returns_ok (Lacks env t) _ (suspend-Lacks env u 0 k v t queued) e).0
          | inr same ↦
              Returns_ok (IsValid env) _
                (subst (λ y. IsValid env (record k { sched = y })) same
                  (record { queue_valid = v.queue_valid; running = v.running }))
                (rw waits at h)
        ]
  ]

  on_end-IsValid : {k' : Kernel} → on_end k t ≡ ok k' → IsValid env k'
  unfolding on_end dispatch
  on_end-IsValid {k'} e =
      let (q, a, h) = >>=-eq-ok (extract k.sched t) _ e in
      elim (extract-queued k.sched t a) [
        | inl queued ↦ (Returns_ok (Lacks env t) _ (on_end-Lacks env u 0 k v t queued) e).0
        | inr same ↦
            let valid : QueueIsValid env q = subst (QueueIsValid env) same v.queue_valid in
            Returns_ok (IsValid env) _
              (if_both {A = Kernel} (IsValid env) (not (PList.empty q.queue))
                (λ _. record { queue_valid = valid; running = λ z p. absurd (ground arith) })
                (λ _. record { queue_valid = valid; running = λ z p. absurd (ground arith) }))
              h
      ]

Step-IsValid : {sc : SimTime} {s t : System} → Step sc s t → SystemIsValid s → SystemIsValid t
unfolding on_arrival activate
Step-IsValid {sc} {s} (arrives {k} now t out e) v =
    let (q, a, _) = >>=-eq-ok (insert s.env now s.kernel.sched t) _ e in
    record {
      numbered = v.numbered;
      kernel_valid =
          (Returns_ok (Holds s.env t) _
            (on_arrival-Holds s.env v.numbered now s.kernel v.kernel_valid sc t
              (insert-registered s.env now s.kernel.sched t a) out)
            e).0;
    }
Step-IsValid {sc} {s} (activates {k} now t out e) v =
    let (q, a, _) = >>=-eq-ok (insert s.env now s.kernel.sched t) _ e in
    record {
      numbered = v.numbered;
      kernel_valid =
          (Returns_ok (Holds s.env t) _
            (activate-Holds s.env v.numbered now s.kernel v.kernel_valid t
              (insert-registered s.env now s.kernel.sched t a) out)
            e).0;
    }
Step-IsValid {sc} {s} (begins now e) v = record {
  numbered = v.numbered;
  kernel_valid =
      (Returns_ok _ _ (on_begin_dispatch-Outranks s.env v.numbered now s.kernel v.kernel_valid)
        e).0;
}
Step-IsValid {sc} {s} (ends now t runs e) v = record {
  numbered = v.numbered;
  kernel_valid =
      (Returns_ok _ _ (on_end_dispatch-Runs s.env v.numbered now s.kernel t v.kernel_valid runs)
        e).0.0;
}
Step-IsValid {sc} {s} (suspends {k} t e) v = record {
  numbered = v.numbered;
  kernel_valid = suspend-IsValid s.env v.numbered s.kernel t v.kernel_valid e;
}
Step-IsValid {sc} {s} (terminates {k} t idle e) v = record {
  numbered = v.numbered;
  kernel_valid = terminate-IsValid s.env v.numbered s.kernel t v.kernel_valid idle e;
}
Step-IsValid {sc} {s} (finishes {k} t e) v = record {
  numbered = v.numbered;
  kernel_valid = on_end-IsValid s.env v.numbered s.kernel t v.kernel_valid e;
}
Step-IsValid {sc} {s} (retimes {env = env} n same) v = record {
  numbered = n;
  kernel_valid = retimed-IsValid s.env env s.kernel same v.kernel_valid;
}

-- Any sequence of handlers of RTKernel that return, which are arrivals and activations of tasks
-- that are not queued, dispatches, ends of switches with a current task, suspensions,
-- terminations of tasks other than the current one, and ends of instances, keeps the system
-- valid: distinct task numbers, the queue sorted, its tasks exactly the active ones, and the
-- current task among them. Between handlers only tasks outside the queue may change their
-- parameters.
pub Reach-IsValid : {sc : SimTime} {s t : System} → Reach sc s t → SystemIsValid s → SystemIsValid t
Reach-IsValid here v = v
Reach-IsValid (next r st) v = Step-IsValid st (Reach-IsValid r v)
