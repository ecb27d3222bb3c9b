-- ===== src/Interrupt.antt =====
-- src/interrupt.hpp, interrupt.cpp: Interrupt, which activates its tasks in bursts. `id` is the interrupt
-- itself; the int fields are their 32 bits.
pub mod Burst
use sys_rt.Common.{ℕ, ◌+◌, ◌%◌, ◌^◌, List, [], ◌∷◌, ◌++◌, ◌==◌, if◌then◌else◌}
use sys_rt.Sim.{EventCall, notify, notify_after, cancel, arr_evt, trigger_evt}

pub record Interrupt : Type 0 where
  pub id : ℕ
  pub tasks : List ℕ
  pub bp : ℕ
  pub count : ℕ
  pub max_act : ℕ

unfoldable pub add_task : ℕ → Interrupt → Interrupt
add_task t i = record i { tasks = i.tasks ++ t ∷ [] }

-- `iat` and `burst` are what int_time->get() and burst_lenght->get() give, as ints.
unfoldable pub new_run : ℕ → ℕ → Interrupt → Interrupt × List EventCall
new_run iat burst i =
    (record i { max_act = burst; count = 0 }, notify_after (trigger_evt i.id) iat ∷ [])

-- Task::activate of each task.
unfoldable pub activations : List ℕ → List EventCall
activations [] = []
activations (t ∷ ts) = cancel (arr_evt t) ∷ notify (arr_evt t) ∷ activations ts

unfoldable pub on_trigger : ℕ → ℕ → Interrupt → Interrupt × List EventCall
unfolding activations
on_trigger iat burst i =
    let count = (i.count + 1) % 2 ^ 32 in
    if count == i.max_act
    then (
      record i { count = 0; max_act = burst },
      activations i.tasks ++ notify_after (trigger_evt i.id) iat ∷ [],
    )
    else (
      record i { count = count },
      activations i.tasks ++ notify_after (trigger_evt i.id) i.bp ∷ [],
    )
