-- ===== src/SyncInstr/Progress.antt =====
-- A task that waits for a resource gets it after one release for each task in front of it.
use sys_rt.Common.{
  ℕ, zero, suc, ◌+◌, ◌≤◌, ◌≡◌, refl, sym, ap, ◌∙◌, subst, inl, inr, some, List, [], ◌∷◌, ◌++◌,
  arith, ◌==◌, Bool-cases, length, drop, append_nil, append_assoc, if◌then◌else◌,
}
use sys_rt.Sim.{SimTime}
use sys_rt.Resource.Fcfs.{Fcfs}
use sys_rt.Resource.Fcfs.Line.{line, line_of, IsSound}
use sys_rt.SyncInstr.History.{
  LockSystem, Step, waits, signals, arrives, finishes, begins, ends, retimes, Reach, here, next,
  IsSafe, waited, signalled, Reach-IsSafe,
}

-- The releases of r in a history.
abbrev pub releases : {sc : SimTime} {s t : LockSystem} → ℕ → Step sc s t → ℕ
releases q (waits now p x r n t c more e) = 0
releases q (signals now p x r n t c own e) = if r == q then 1 else 0
releases q (arrives now t known out free e) = 0
releases q (finishes t c e) = 0
releases q (begins now e) = 0
releases q (ends now t c e) = 0
releases q (retimes u same) = 0

abbrev pub all_releases : {sc : SimTime} {s t : LockSystem} → ℕ → Reach sc s t → ℕ
all_releases q here = 0
all_releases q (next r st) = all_releases q r + releases q st

-- A line loses its head at a release, and grows at its end otherwise.
abbrev pub Moves : ℕ → List ℕ → List ℕ → Type 0
Moves zero l l' = (more : List ℕ) × (l' ≡ l ++ more)
Moves (suc c) l l' = (h : ℕ) × (c ≡ 0) × (l ≡ h ∷ l')

stays : (l l' : List ℕ) → l' ≡ l → Moves 0 l l'
stays l l' e = ([], e ∙ sym (append_nil l))

Step-Moves :
    {sc : SimTime} {s t : LockSystem} (q : ℕ) (st : Step sc s t)
    → IsSafe s
    → Moves (releases q st) (line s.mgr q) (line t.mgr q)
Step-Moves {sc} {s} q (waits {m = m} now p x r n t c more e) v =
    let (_, _, joined) = waited sc s v now p x r n t c more e in
    elim (Bool-cases (r == q)) [
      | inl p ↦
          let same : r ≡ q = ground arith in
          subst (λ y. Moves 0 (line s.mgr y) (line m y)) same (t.number ∷ [], joined.0)
      | inr p ↦ stays (line s.mgr q) (line m q) (joined.1 q p)
    ]
Step-Moves {sc} {s} q (signals {m = m} now p x r n t c own e) v =
    let (_, _, left, _) = signalled sc s v now p x r n t c own e in
    elim (Bool-cases (r == q)) [
      | inl p ↦
          let same : r ≡ q = ground arith in
          rw p (subst (λ y. Moves 1 (line s.mgr y) (line m y)) same (t.number, refl, left.0))
      | inr p ↦ rw p (stays (line s.mgr q) (line m q) (left.1 q p))
    ]
Step-Moves {s = s} q (arrives now t known out free e) v = stays (line s.mgr q) (line s.mgr q) refl
Step-Moves {s = s} q (finishes t c e) v = stays (line s.mgr q) (line s.mgr q) refl
Step-Moves {s = s} q (begins now e) v = stays (line s.mgr q) (line s.mgr q) refl
Step-Moves {s = s} q (ends now t c e) v = stays (line s.mgr q) (line s.mgr q) refl
Step-Moves {s = s} q (retimes u same) v = stays (line s.mgr q) (line s.mgr q) refl

-- A task keeps its place behind those in front of it.
abbrev Behind : ℕ → List ℕ → ℕ → List ℕ → List ℕ → Type 0
Behind c pre w post l = (more : List ℕ) × (l ≡ drop c pre ++ w ∷ (post ++ more))

drop-cons :
    (c : ℕ) (pre : List ℕ) → c + 1 ≤ length pre → (h : ℕ) × (drop c pre ≡ h ∷ drop (c + 1) pre)
drop-cons c [] h = absurd (omega arith)
drop-cons zero (x ∷ pre) h = (x, refl)
drop-cons (suc c) (x ∷ pre) h =
    let (y, e) = drop-cons c pre (omega arith) in
    let next : suc c + 1 ≡ suc (c + 1) = omega arith in (y, rw next e)

Moves-Behind :
    (c d w : ℕ) (pre post l l' : List ℕ)
    → c + d ≤ length pre
    → Behind c pre w post l
    → Moves d l l'
    → Behind (c + d) pre w post l'
Moves-Behind c zero w pre post l l' le (more, e) (more', e') =
    let same : c + 0 ≡ c = omega arith in
    (
      more ++ more',
      rw same (
          e'
          ∙ rw e (
              append_assoc (drop c pre) (w ∷ (post ++ more)) more'
              ∙ ap (λ y. drop c pre ++ w ∷ y) (append_assoc post more more'))),
    )
Moves-Behind c (suc d) w pre post l l' le (more, e) (h, z, e') =
    let one : c + suc d ≡ c + 1 = omega arith in
    let (y, f) = drop-cons c pre (omega arith) in
    let whole : h ∷ l' ≡ y ∷ (drop (c + 1) pre ++ w ∷ (post ++ more)) = sym e' ∙ e ∙ rw f refl in
    (more, rw one (cc))

Reach-Behind :
    {sc : SimTime} {s t : LockSystem} (q w : ℕ) (pre post : List ℕ) (r : Reach sc s t)
    → IsSafe s
    → line s.mgr q ≡ pre ++ w ∷ post
    → all_releases q r ≤ length pre
    → Behind (all_releases q r) pre w post (line t.mgr q)
Reach-Behind q w pre post here v e le = ([], e ∙ ap (λ y. pre ++ w ∷ y) (sym (append_nil post)))
Reach-Behind q w pre post (next {t = t} {u = u} r st) v e le =
    Moves-Behind (all_releases q r) (releases q st) w pre post (line t.mgr q) (line u.mgr q) le
      (Reach-Behind q w pre post r v e (omega arith)) (Step-Moves q st (Reach-IsSafe r v))

line-owner :
    (m : Fcfs) (q w : ℕ) (ws : List ℕ) → IsSound m q → line m q ≡ w ∷ ws → (m.res q).owner ≡ some w
line-owner m q w ws (inl (h, a, o, c)) e =
    let shape : h ∷ m.blocked q ≡ w ∷ ws = ap (λ y. line_of y (m.blocked q)) (sym o) ∙ e in o ∙ cc
line-owner m q w ws (inr (a, o, c, b)) e =
    let shape : [] ≡ w ∷ ws = sym b ∙ ap (λ y. line_of y (m.blocked q)) (sym o) ∙ e in
    absurd (ground arith)

drop-length : (pre : List ℕ) → drop (length pre) pre ≡ []
drop-length [] = refl
drop-length (x ∷ pre) = drop-length pre

-- On RTKernel with the first-come-first-served manager, from a safe state in which a task stands
-- in the line of a resource behind some others, any history of handlers that return, with as many
-- releases of the resource by its holders as there were tasks in front, ends with the task as the
-- holder, followed by those that were behind it and then those that asked later.
pub Reach-owner :
    {sc : SimTime} {s t : LockSystem} (q w : ℕ) (pre post : List ℕ) (r : Reach sc s t)
    → IsSafe s
    → line s.mgr q ≡ pre ++ w ∷ post
    → all_releases q r ≡ length pre
    → ((t.mgr.res q).owner ≡ some w) × ((more : List ℕ) × (line t.mgr q ≡ w ∷ (post ++ more)))
Reach-owner {t = t} q w pre post r v e all =
    let (more, f) = Reach-Behind q w pre post r v e (omega arith) in
    let front : line t.mgr q ≡ w ∷ (post ++ more) = f ∙ rw (all, drop-length pre) refl in
    (line-owner t.mgr q w (post ++ more) ((Reach-IsSafe r v).waiting.sound q) front, (more, front))
