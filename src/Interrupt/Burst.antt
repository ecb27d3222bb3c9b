-- ===== src/Interrupt/Burst.antt =====
-- src/interrupt.cpp: how often an interrupt fires in a burst, and at which distances.
use sys_rt.Common.{
  ℕ, ◌+◌, ◌^◌, ◌<◌, ◌≡◌, refl, List, [], ◌∷◌, ◌++◌, append_assoc, append_nil, arith,
}
use sys_rt.Sim.{EventCall, notify_after, trigger_evt}
use sys_rt.Interrupt.{Interrupt, activations, on_trigger}

-- One trigger after the other, each with what the two variables would give.
abbrev pub triggers : List (ℕ × ℕ) → Interrupt → Interrupt × List EventCall
triggers [] i = (i, [])
triggers (s ∷ ss) i =
    let r = on_trigger s.0 s.1 i in ((triggers ss r.0).0, r.1 ++ (triggers ss r.0).1)

-- The calls of one trigger, the next being due after d.
abbrev pub shot : Interrupt → ℕ → List EventCall
shot i d = activations i.tasks ++ notify_after (trigger_evt i.id) d ∷ []

abbrev pub shots : Interrupt → List (ℕ × ℕ) → List EventCall
shots i [] = []
shots i (s ∷ ss) = shot i i.bp ++ shots i ss

abbrev pub length_of : List (ℕ × ℕ) → ℕ
length_of [] = 0
length_of (s ∷ ss) = length_of ss + 1

on_trigger-last :
    (iat burst : ℕ) (i : Interrupt)
    → i.count + 1 ≡ i.max_act
    → i.max_act < 2 ^ 32
    → on_trigger iat burst i ≡ (record i { count = 0; max_act = burst }, shot i iat)
unfolding on_trigger
on_trigger-last iat burst i e b = ground arith

on_trigger-next :
    (iat burst : ℕ) (i : Interrupt)
    → i.count + 1 < i.max_act
    → i.max_act < 2 ^ 32
    → on_trigger iat burst i ≡ (record i { count = i.count + 1 }, shot i i.bp)
unfolding on_trigger
on_trigger-next iat burst i e b = ground arith

shots-count :
    (i : Interrupt) (c : ℕ) (ss : List (ℕ × ℕ)) → shots (record i { count = c }) ss ≡ shots i ss
shots-count i c [] = refl
shots-count i c (s ∷ ss) = rw (shots-count i c ss) refl

-- If an interrupt has as many triggers left in a burst below 2^32 as are given, each of them
-- activates all tasks, the next trigger is due after the bursty period each time but the last and
-- then after the new interarrival time, and a new burst begins with the new length and the count
-- 0.
pub triggers-shots :
    (samples : List (ℕ × ℕ)) (iat burst : ℕ) (i : Interrupt)
    → i.count + length_of samples + 1 ≡ i.max_act
    → i.max_act < 2 ^ 32
    → triggers (samples ++ (iat, burst) ∷ []) i
      ≡ (record i { count = 0; max_act = burst }, shots i samples ++ shot i iat)
triggers-shots [] iat burst i e b =
    rw (on_trigger-last iat burst i (omega arith) b, append_nil (shot i iat)) refl
triggers-shots (s ∷ ss) iat burst i e b =
    rw
      (
        on_trigger-next s.0 s.1 i (omega arith) b,
        triggers-shots ss iat burst (record i { count = i.count + 1 }) (omega arith) b,
        shots-count i (i.count + 1) ss,
        append_assoc (shot i i.bp) (shots i ss) (shot i iat),
      )
      refl
