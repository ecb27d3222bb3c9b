-- ===== src/Tests/Queues.antt =====
-- The theorems of the ready queue and its schedulers, applied to the sample queues.
use sys_rt.Common.{
  ℕ, ◌≤◌, ◌≡◌, ◌⊎◌, refl, true, false, some, [], ◌∷◌, ◌>>=◌, arith, mem, List, ok, Returns, ◌++◌,
  to_int, from_int,
}
use sys_rt.Sim.{EventCall, cancel, notify_after, rr_evt}
use sys_rt.PList
use sys_rt.PList.{IsStrictOrder}
use sys_rt.TaskModel.{fp_model, precedes, is_round_expired, task_model_cmp, get_priority}
use sys_rt.TaskModel.Order.{precedes-IsStrictOrder}
use sys_rt.Scheduler.{
  Scheduler, insert, extract, get_first, get_task_n, enable_threshold, disable_threshold,
}
use sys_rt.Scheduler.Invariant.{IsValid, Inserted, Extracted, insert-Inserted, extract-Extracted}
use sys_rt.Scheduler.Selection.{IsReady, Outranks, get_first-Outranks, edf-least_deadline}
use sys_rt.Scheduler.Threshold.{disable_threshold-enable_threshold}
use sys_rt.Scheduler.Notify.{notify, round, expired, rr_slice_of, requeue, rearm}
use sys_rt.Scheduler.Notified.{Kept, notify-Kept}
use sys_rt.Scheduler.Turns.{turn, no_turn, Turns-queue}
use sys_rt.Scheduler.RoundRobin.{round-rotates}
use sys_rt.Scheduler.NonPreemptive.{ngedf-notify-first}
use sys_rt.Tests.Samples.{
  clock, env, env-IsNumbered, fp_queue, fp_queue-IsValid, edf_queue, edf_queue-IsValid, rr_queue,
  rr_queue-IsValid, ngedf_queue, ngedf_queue-IsValid, wrap_sub,
}

insert-Inserted_example : Returns (Inserted env 7 fp_queue 2) (insert env 7 fp_queue 2)
insert-Inserted_example = insert-Inserted env env-IsNumbered 7 fp_queue 2 fp_queue-IsValid refl refl

extract-Extracted_example : Returns (Extracted env fp_queue 1) (extract fp_queue 1)
extract-Extracted_example = extract-Extracted env env-IsNumbered fp_queue 1 fp_queue-IsValid refl

precedes-IsStrictOrder_example : IsStrictOrder (precedes env edf_queue.model)
precedes-IsStrictOrder_example = precedes-IsStrictOrder env edf_queue.model env-IsNumbered

first_of_fp : get_first fp_queue ≡ some 0
unfolding get_first get_task_n PList.size
first_of_fp = refl

first_of_edf : get_first edf_queue ≡ some 0
unfolding get_first get_task_n PList.size
first_of_edf = refl

get_first-Outranks_example :
    IsReady fp_queue 0 × ((z : ℕ) → IsReady fp_queue z → (0 ≡ z) ⊎ Outranks env fp_queue 0 z)
get_first-Outranks_example = get_first-Outranks env fp_queue 0 fp_queue-IsValid first_of_fp

earlier_of_two : 10 ≤ 11
earlier_of_two =
    edf-least_deadline env edf_queue 0 edf_queue-IsValid (λ z. (0, refl)) first_of_edf 1
      (refl, refl)

rotated_once :
    Returns
      (λ r.
        (r.0.queue ≡ 1 ∷ [] ++ 0 ∷ [])
        × ((r.0.model 0).insert_time ≡ 9)
        × (r.1 ≡ cancel rr_evt ∷ notify_after rr_evt 4 ∷ []))
      (round clock env 9 rr_queue)
unfolding expired rr_slice_of is_round_expired wrap_sub
rotated_once =
    round-rotates clock env 9 rr_queue 0 1 4 4 [] refl refl refl refl (omega arith)
      ((refl, omega arith, (4, refl)), tt) refl

rounded : (r : Scheduler × List EventCall) × (round clock env 9 rr_queue ≡ ok r)
unfolding round expired rr_slice_of is_round_expired wrap_sub PList.front requeue rearm PList.erase
    PList.insert precedes task_model_cmp get_priority
rounded = (_, refl)

Turns-queue_example : rounded.0.0.queue ≡ 1 ∷ [] ++ 0 ∷ []
unfolding expired rr_slice_of is_round_expired wrap_sub
Turns-queue_example =
    Turns-queue clock 9 1 rr_queue rounded.0.0 (0 ∷ []) [] refl ((refl, tt), (tt, tt))
      (
        record {
          active = refl;
          earlier = omega arith;
          slice = 4;
          slice_of = refl;
          positive = omega arith;
        },
        (
          record {
            active = refl;
            earlier = omega arith;
            slice = 4;
            slice_of = refl;
            positive = omega arith;
          },
          tt,
        ),
      )
      (turn env 0 (1 ∷ []) rounded.0.1 refl refl rounded.1 (omega arith) (no_turn {now = 10}))

ngedf-notify-first_example :
    Returns (λ r. IsValid env r.0 × (get_first r.0 ≡ some 1)) (notify env 9 ngedf_queue (some 1))
ngedf-notify-first_example =
    ngedf-notify-first env env-IsNumbered 9 1 ngedf_queue ngedf_queue-IsValid refl refl
      (λ z d m. (false, 0, refl, omega arith))

disable_threshold-enable_threshold_example :
    Returns
      (λ s'.
        IsValid env s'
        × (mem 1 s'.queue ≡ true)
        × ((s'.model 1).policy ≡ fp_model (from_int 1))
        × (s'.old_priorities 1 ≡ to_int 6))
      (enable_threshold env 9 fp_queue 1 >>= λ r. disable_threshold env 9 r.0 1)
disable_threshold-enable_threshold_example =
    disable_threshold-enable_threshold env env-IsNumbered 1 9 fp_queue 6 fp_queue-IsValid refl refl
      refl

notified_by_rr : Returns (λ r. Kept env rr_queue r.0) (notify env 9 rr_queue (some 1))
notified_by_rr = notify-Kept env env-IsNumbered 9 rr_queue rr_queue-IsValid 1 refl
