-- ===== src/Tests/Locks.antt =====
-- The theorems of the wait and signal instructions at a sample kernel: task 1 runs and holds resource 3,
-- for which task 2 waits.
use sys_rt.Common.{
  ℕ, ◌≡◌, refl, subst, inl, inr, true, false, none, some, List, [], ◌∷◌, ◌++◌, ok, arith, mem, ◌==◌,
  Bool-cases, Returns, Returns-inv, if◌then◌else◌,
}
use sys_rt.Kernel.{Kernel}
use sys_rt.Task.{Task, TaskCall}
use sys_rt.Resource.{Resource}
use sys_rt.Resource.Fcfs.{Fcfs}
use sys_rt.Resource.Fcfs.Line.{line}
use sys_rt.Resource.Fcfs.Waiting.{Waits}
use sys_rt.Resource.Managed.{fcfs_manager}
use sys_rt.SyncInstr.{signal_on_end}
use sys_rt.SyncInstr.Steps.{Released, signal_on_end-Released}
use sys_rt.SyncInstr.History.{LockSystem, signals, Reach, here, next, IsSafe, Reach-IsSafe}
use sys_rt.SyncInstr.Progress.{Reach-owner}
use sys_rt.Tests.Samples.{running, clock, env, env-IsNumbered, fp_queue, kernel_of, busy-IsValid}

abbrev held_or_free : ℕ → Resource
held_or_free r =
    if r == 3
    then record { total = 1; available = 0; owner = some 1 }
    else record { total = 1; available = 1; owner = none }

abbrev one_waits : Fcfs
one_waits = record {
  res = held_or_free;
  curr_users = λ r. if r == 3 then some 1 else none;
  blocked = λ r. if r == 3 then 2 ∷ [] else [];
}

only_2 : (r w : ℕ) → mem w (one_waits.blocked r) ≡ true → (r ≡ 3) × (2 ≡ w)
only_2 r w e = elim (Bool-cases (r == 3)) [
  | inl p ↦ (ground arith, let e' : mem w (2 ∷ []) ≡ true = rw p at e in ground arith)
  | inr p ↦ absurd (let e' : mem w [] ≡ true = rw p at e in ground arith)
]

one_waits-Waits : Waits fp_queue one_waits
one_waits-Waits = record {
  sound = λ r. elim (Bool-cases (r == 3)) [
    | inl p ↦ inl (1, rw p refl, rw p refl, rw p refl)
    | inr p ↦ inr (rw p refl, rw p refl, rw p refl, rw p refl)
  ];
  out = λ r w e.
      subst (λ z. (fp_queue.registered z ≡ true) × (mem z fp_queue.queue ≡ false)) (only_2 r w e).1
        (refl, refl);
  once = λ r. elim (Bool-cases (r == 3)) [ inl p ↦ rw p (refl, tt) | inr p ↦ rw p tt ];
  apart = λ r q w e f. (let a = only_2 r w e in let b = only_2 q w f in omega arith);
}

abbrev before : LockSystem
before = record { env = env; kernel = kernel_of (some 1); mgr = one_waits }

before-IsSafe : IsSafe before
before-IsSafe = record {
  numbered = env-IsNumbered;
  kernel_valid = busy-IsValid;
  waiting = one_waits-Waits;
}

abbrev holder : Task
holder = record running { number = 1 }

signal_releases :
    Returns
      (λ a.
        Released env env-IsNumbered 9 3 1
          (kernel_of (some 1))
          one_waits
          busy-IsValid
          one_waits-Waits
          1
          a.0
          a.1)
      (signal_on_end
        (fcfs_manager env 9)
        clock
        env
        9
        (some 0)
        7
        3
        1
        (kernel_of (some 1))
        (some one_waits)
        holder)
signal_releases =
    signal_on_end-Released clock env env-IsNumbered 9 0 7 3 1 (kernel_of (some 1)) one_waits
      busy-IsValid one_waits-Waits holder (omega arith) refl (omega arith) refl refl

-- What the signal of the holder returns.
signalled_run :
    (a : Kernel × Fcfs × Task × List TaskCall) × (signal_on_end
        (fcfs_manager env 9)
        clock
        env
        9
        (some 0)
        7
        3
        1
        (kernel_of (some 1))
        (some one_waits)
        holder
      ≡ ok (a.0, a.1, (a.2, a.3)))
signalled_run = let (a, e, h) = Returns-inv _ _ signal_releases in ((a.0, a.1, a.2.0, a.2.1), e)

abbrev after : LockSystem
after = record before { kernel = signalled_run.0.0; mgr = signalled_run.0.1 }

hands_over : Reach clock before after
hands_over = next here (
    signals 9 0 7 3 1 holder
      (record { current = refl; executing = refl; instruction = omega arith; fits = omega arith })
      refl signalled_run.1)

Reach-IsSafe_example : IsSafe after
Reach-IsSafe_example = Reach-IsSafe hands_over before-IsSafe

Reach-owner_example :
    ((after.mgr.res 3).owner ≡ some 2) × ((more : List ℕ) × (line after.mgr 3 ≡ 2 ∷ ([] ++ more)))
unfolding hands_over
Reach-owner_example = Reach-owner 3 2 (1 ∷ []) [] hands_over before-IsSafe refl refl
