-- ===== src/Resource/Fcfs.antt =====
-- src/fcfsresmanager.hpp, fcfsresmanager.cpp: FCFSResManager. The units asked for are ignored: each
-- lock takes one and each unlock gives one back.
pub mod Line
pub mod Waiting
pub mod Asking
pub mod Handing
use sys_rt.Common.{
  ℕ, Bool, true, false, Option, none, some, List, [], ◌∷◌, ◌++◌, Run, ok, ◌>>=◌, if◌then◌else◌,
  update,
}
use sys_rt.Resource.{Resource, lock, unlock, is_locked, AbsKernel}

pub record Fcfs : Type 0 where
  pub res : ℕ → Resource
  pub curr_users : ℕ → Option ℕ
  pub blocked : ℕ → List ℕ

module _ {K : Type 0} (abs : AbsKernel K) (now : ℕ) where
  -- The answer is true if the resource was granted.
  unfoldable pub request : K → Fcfs → ℕ → ℕ → ℕ → Run (K × Fcfs × Bool)
  request k m t r n =
      if is_locked (m.res r)
      then (do
        k' ← abs.suspend k t
        ok (k', record m { blocked = update m.blocked r (m.blocked r ++ t ∷ []) }, false))
      else ok (
        k,
        record m {
          res = update m.res r (lock (m.res r) t 1);
          curr_users = update m.curr_users r (some t);
        },
        true,
      )

  -- The first task in the queue gets the resource and is activated.
  unfoldable pub hand_over : K → Fcfs → ℕ → List ℕ → Run (K × Fcfs)
  hand_over k m r [] = ok (k, m)
  hand_over k m r (w ∷ ws) = do
    k' ← abs.activate now k w
    ok (
      k',
      record m {
        res = update m.res r (lock (m.res r) w 1);
        curr_users = update m.curr_users r (some w);
        blocked = update m.blocked r ws;
      },
    )

  unfoldable pub release : K → Fcfs → ℕ → ℕ → ℕ → Run (K × Fcfs)
  unfolding hand_over
  release k m t r n =
      hand_over k
        (record m {
          res = update m.res r (unlock (m.res r) 1);
          curr_users = update m.curr_users r none;
        })
        r (m.blocked r)
