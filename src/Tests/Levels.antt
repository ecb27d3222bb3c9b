-- ===== src/Tests/Levels.antt =====
-- The theorems of the processors' speed levels, with hundredths as the doubles.
use sys_rt.Common.{
  ℕ, ◌-◌, ◌*◌, ◌/◌, ◌≡◌, refl, true, false, List, [], ◌∷◌, ok, Returns, arith, leb, ◌==◌, map,
}
use sys_rt.Factory.{codes}
use sys_rt.Cpu.{
  Doubles, Cpu, new_cpu_levels, set_speed, get_speed, get_speed_at, get_current_power_saving, check,
  get_max_power_consumption, get_current_level, get_frequency_switching,
}
use sys_rt.Cpu.Speed.{set_speed-alternates}
use sys_rt.Cpu.Uniform.{new_factory, create_cpus, create_cpu}

abbrev hundredths : Doubles ℕ
hundredths = record {
  of_int = λ n. n * 100;
  mul = λ a b. a * b / 100;
  sub = λ a b. a - b;
  div = λ a b. a * 100 / b;
  geq = λ a b. leb b a;
}

-- Speeds 0.25, 0.5 and 1, at the first level.
abbrev slow : Cpu ℕ
slow = record {
  name = codes "cpu";
  steps =
      record { voltage = 100; frequency = 1; speed = 25 }
      ∷ record { voltage = 100; frequency = 2; speed = 50 }
      ∷ record { voltage = 200; frequency = 4; speed = 100 }
      ∷ [];
  current_level = 0;
  power_saving = true;
  frequency_switching = 0;
  index = 0;
}

-- A load of 0.2 moves the processor from the first level to the second and back.
set_speed-alternates_example :
    let once = (set_speed hundredths slow 20).0 in
    let twice = (set_speed hundredths once 20).0 in
    ((once.current_level == 0) ≡ false)
    × (twice.current_level ≡ 0)
    × (get_speed hundredths twice ≡ get_speed hundredths slow)
set_speed-alternates_example =
    set_speed-alternates hundredths slow 20 1 refl
      (record { voltage = 100; frequency = 1; speed = 25 }, refl, refl)
      (λ m b. absurd (omega arith))
      (record { voltage = 100; frequency = 2; speed = 50 }, refl, refl) refl

abbrev levels : List (ℕ × ℕ)
levels = (100, 1) ∷ (100, 2) ∷ []

-- The names of the factory are used up first.
names_used_up :
    Returns
      (λ r.
        map {B = List ℕ × ℕ} (λ c. (c.name, c.index)) r.1 ≡ (codes "a", 0) ∷ (codes "y", 1) ∷ [])
      (create_cpus hundredths (new_factory (codes "a" ∷ [])) (
        record { below = []; top = (100, 1); name = codes "x" }
        ∷ record { below = levels; top = (200, 4); name = codes "y" }
        ∷ []))
unfolding new_factory create_cpu
names_used_up = refl

-- A new processor with levels is at the last one, where it saves nothing.
new_levels :
    let c = new_cpu_levels hundredths levels (200, 4) (codes "y") in
    (c.steps ≡ slow.steps)
    × (get_current_level c ≡ 2)
    × (get_max_power_consumption hundredths c ≡ ok 1600)
    × (get_current_power_saving hundredths c ≡ ok 0)
    × (get_current_power_saving hundredths slow ≡ ok 93)
unfolding new_cpu_levels get_current_level get_max_power_consumption get_current_power_saving
new_levels = (refl, refl, refl, refl, refl)

-- Asking for what only the current level gives is refused.
refused_at_top :
    set_speed hundredths (record slow { current_level = 2 }) 80
    ≡ (record slow { current_level = 2 }, 100)
unfolding set_speed
refused_at_top = refl

-- check moves a processor: the loads 0.25 and 0.5 take it up a level each, and 1 is refused.
loads_up :
    (get_frequency_switching (check hundredths slow) ≡ 2)
    × (get_speed_at hundredths (check hundredths slow) 3 ≡ ok 100)
    × ((check hundredths slow).current_level ≡ 2)
unfolding get_frequency_switching check get_speed_at
loads_up = (refl, refl, refl)
