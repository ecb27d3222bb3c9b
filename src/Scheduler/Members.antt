-- ===== src/Scheduler/Members.antt =====
-- src/scheduler.cpp, npedf.cpp, rrsched.cpp: which tasks the operations can bring into the ready queue.
use sys_rt.Common.{
  ℕ, ◌≡◌, sym, ◌∙◌, deref, subst, ◌⊎◌, inl, inr, true, some, List, Run, ok, arith, ◌==◌, mem,
  IfReturns, IfReturns-bind, IfReturns_ok, IfReturns-map, Bool-cases,
}
use sys_rt.PList
use sys_rt.PList.Order.{mem-insert_ne}
use sys_rt.PList.Erase.{remove, erase-mem, erase-not_mem, mem_of_mem-remove}
use sys_rt.TaskModel.{TaskAttrs, set_nonpreemtive}
use sys_rt.Scheduler.{
  SchedulerClass, fp_scheduler, edf_scheduler, fifo_scheduler, ngedf_scheduler, rr_scheduler,
  Scheduler, find, insert, extract, released, set_model,
}
use sys_rt.Scheduler.Notify.{notify, notify_as, notify_base, rr_notify, enable_nonpreemt}

-- No task is new in the queue but t.
abbrev pub Admits : Scheduler → ℕ → Scheduler → Type 0
Admits s t s' = (z : ℕ) → mem z s'.queue ≡ true → (t ≡ z) ⊎ (mem z s.queue ≡ true)

Admits-trans : (s s' s'' : Scheduler) (t : ℕ) → Admits s t s' → Admits s' t s'' → Admits s t s''
Admits-trans s s' s'' t h g z m = elim (g z m) [ inl e ↦ inl e | inr q ↦ h z q ]

mem_of_mem-erase :
    (x : ℕ) (xs ys : List ℕ) (z : ℕ) → PList.erase x xs ≡ ok ys → mem z ys ≡ true → mem z xs ≡ true
mem_of_mem-erase x xs ys z e h = elim (Bool-cases (mem x xs)) [
  | inl here ↦
      let both : ◌≡◌ {A = Run (List ℕ)} (ok (remove x xs)) (ok ys) =
        sym (erase-mem x xs here) ∙ e in
      let same : remove x xs ≡ ys = cc in
      mem_of_mem-remove x z xs (subst (λ q. mem z q ≡ true) (sym same) h)
  | inr gone ↦ let bad = erase-not_mem x xs gone in cc
]

pub insert-Admits :
    (env : ℕ → TaskAttrs) (now : ℕ) (s : Scheduler) (t : ℕ)
    → IfReturns (Admits s t) (insert env now s t)
unfolding insert
insert-Admits env now s t = IfReturns-bind (Admits s t) (deref (find s t)) _ λ m e z h.
    elim (Bool-cases (t == z)) [
      | inl same ↦ inl (ground arith)
      | inr apart ↦ inr (sym (mem-insert_ne _ t z s.queue apart) ∙ h)
    ]

pub extract-Admits : (s : Scheduler) (t : ℕ) → IfReturns (Admits s t) (extract s t)
unfolding extract
extract-Admits s t = elim (Bool-cases (s.registered t)) [
  | inl known ↦
      rw (extract, known)
        (IfReturns-bind (Admits s t) (PList.erase t s.queue) _ λ q e.
          IfReturns-bind (Admits s t) (released s.class (s.model t)) _
            λ m r z h. inr (mem_of_mem-erase t s.queue q z e h))
  | inr unknown ↦ rw (extract, unknown) (λ z h. inr h)
]

enable_nonpreemt-Admits :
    (env : ℕ → TaskAttrs) (now : ℕ) (s : Scheduler) (t : ℕ)
    → IfReturns (Admits s t) (enable_nonpreemt env now s (some t))
unfolding enable_nonpreemt set_model
enable_nonpreemt-Admits env now s t = elim (Bool-cases (s.registered t)) [
  | inl known ↦
      rw (enable_nonpreemt, known)
        (IfReturns-bind (Admits s t) (extract s t) _ λ s₁ e.
          IfReturns-bind (Admits s t) (set_nonpreemtive (s₁.model t).policy) _ λ p r.
            IfReturns-map (Admits s₁ t) (Admits s t) _ (insert-Admits env now _ t)
              λ s₂ h. Admits-trans s s₁ s₂ t (IfReturns_ok (Admits s t) _ (extract-Admits s t) e) h)
  | inr unknown ↦ rw (enable_nonpreemt, unknown) tt
]

notify_as-Admits :
    (env : ℕ → TaskAttrs) (now : ℕ) (s : Scheduler) (t : ℕ) (c : SchedulerClass)
    → IfReturns (λ r. Admits s t r.0) (notify_as c env now s (some t))
unfolding notify_as notify_base
notify_as-Admits env now s t fp_scheduler = λ z h. inr h
notify_as-Admits env now s t edf_scheduler = λ z h. inr h
notify_as-Admits env now s t fifo_scheduler = λ z h. inr h
notify_as-Admits env now s t ngedf_scheduler =
    IfReturns-bind (λ r. Admits s t r.0)
      (enable_nonpreemt env now (notify_base s (some t)) (some t)) _
      λ s₁ e.
        IfReturns_ok (Admits s t) _ (enable_nonpreemt-Admits env now (notify_base s (some t)) t) e
notify_as-Admits env now s t (rr_scheduler slice) =
    IfReturns-bind (λ r. Admits s t r.0) (rr_notify s (some t)) _ λ es e z h. inr h

pub notify-Admits :
    (env : ℕ → TaskAttrs) (now : ℕ) (s : Scheduler) (t : ℕ)
    → IfReturns (λ r. Admits s t r.0) (notify env now s (some t))
unfolding notify
notify-Admits env now s t = notify_as-Admits env now s t s.class
