-- ===== src/Cpu.antt =====
-- src/cpu.hpp, src/cpu.cpp: the speed levels of a processor and uniformCPUFactory. A double is an element of a
-- type with the operations that the code uses. The events of a processor are in MultiKernel.
pub mod Speed
pub mod Uniform
use sys_rt.Common.{
  ℕ, zero, suc, ◌+◌, ◌-◌, ◌*◌, ◌%◌, ◌^◌, Bool, true, false, not, ◌&&◌, ◌||◌, Option, none, some,
  List, [], ◌∷◌, ◌++◌, map, Run, ok, fault, deref, ◌>>=◌, leb, ltb, ◌==◌, if◌then◌else◌, length,
  get_elem?,
}

pub record Doubles (D : Type 0) : Type 0 where
  pub of_int : ℕ → D
  pub mul : D → D → D
  pub sub : D → D → D
  pub div : D → D → D
  -- >=
  pub geq : D → D → Bool

pub record CpuLevel (D : Type 0) : Type 0 where
  pub voltage : D
  pub frequency : ℕ
  pub speed : D

-- Without PowerSaving `current_level` is not initialised, and nothing reads it.
pub record Cpu (D : Type 0) : Type 0 where
  pub name : List ℕ
  pub steps : List (CpuLevel D)
  pub current_level : ℕ
  pub power_saving : Bool
  pub frequency_switching : ℕ
  pub index : ℕ

module _ {D : Type 0} where
  -- CPU(name)
  unfoldable pub new_cpu : List ℕ → Cpu D
  new_cpu name = record {
    name = name;
    steps = [];
    current_level = 0;
    power_saving = false;
    frequency_switching = 0;
    index = 0;
  }

  unfoldable pub set_index : ℕ → Cpu D → Cpu D
  set_index i c = record c { index = i }

  unfoldable pub get_current_level : Cpu D → ℕ
  get_current_level c = if c.power_saving then c.current_level else 0

  unfoldable pub get_frequency_switching : Cpu D → ℕ
  get_frequency_switching c = c.frequency_switching

module _ {D : Type 0} (d : Doubles D) where
  -- CPU(num_levels, V, F, name), for the voltages and frequencies of the levels below the last one and of
  -- the last one.
  unfoldable pub new_cpu_levels : List (D × ℕ) → D × ℕ → List ℕ → Cpu D
  new_cpu_levels below top name =
      let level : D × ℕ → CpuLevel D = λ l. record {
        voltage = l.0;
        frequency = l.1;
        speed = d.div (d.of_int l.1) (d.of_int top.1);
      } in
      record {
        name = name;
        steps = map level (below ++ top ∷ []);
        current_level = length below;
        power_saving = true;
        frequency_switching = 0;
        index = 0;
      }

  abbrev pub power : CpuLevel D → D
  power l = d.mul (d.mul (d.of_int l.frequency) l.voltage) l.voltage

  unfoldable pub get_max_power_consumption : Cpu D → Run D
  get_max_power_consumption c =
      if c.power_saving
      then (deref (get_elem? c.steps (length c.steps - 1)) >>= λ l. ok (power l))
      else ok (d.of_int 0)

  unfoldable pub get_current_power_consumption : Cpu D → Run D
  get_current_power_consumption c =
      if c.power_saving
      then (deref (get_elem? c.steps c.current_level) >>= λ l. ok (power l))
      else ok (d.of_int 0)

  unfoldable pub get_current_power_saving : Cpu D → Run D
  unfolding get_max_power_consumption get_current_power_consumption
  get_current_power_saving c =
      if c.power_saving
      then (do
        max ← get_max_power_consumption c
        current ← get_current_power_consumption c
        ok (d.div (d.sub max current) max))
      else ok (d.of_int 0)

  -- The loop of setSpeed, from level i on.
  unfoldable pub find_level : D → ℕ → ℕ → List (CpuLevel D) → Option (ℕ × CpuLevel D)
  find_level new_load current i [] = none
  find_level new_load current i (l ∷ ls) =
      let rest = find_level new_load current (i + 1) ls in
      if d.geq l.speed new_load && not (i == current) then some (i, l) else rest

  -- The processor afterwards, and the new speed or 1.
  unfoldable pub set_speed : Cpu D → D → Cpu D × D
  unfolding find_level
  set_speed c new_load =
      if c.power_saving
      then elim (find_level new_load c.current_level 0 c.steps) [
        | none ↦ (c, d.of_int 1)
        | some (i, l) ↦ (
          record c {
            frequency_switching = (c.frequency_switching + 1) % 2 ^ 64;
            current_level = i;
          },
          l.speed,
        )
      ]
      else (c, d.of_int 1)

  unfoldable pub get_speed : Cpu D → Run D
  get_speed c =
      if c.power_saving
      then (deref (get_elem? c.steps c.current_level) >>= λ l. ok l.speed)
      else ok (d.of_int 1)

  -- For a level from 0 on.
  unfoldable pub get_speed_at : Cpu D → ℕ → Run D
  get_speed_at c level =
      if not c.power_saving || leb (length c.steps) level
      then ok (d.of_int 1)
      else deref (get_elem? c.steps level) >>= λ l. ok l.speed

  -- check prints, and sets the speed of each level.
  abbrev pub check_levels : List (CpuLevel D) → Cpu D → Cpu D
  check_levels [] c = c
  check_levels (l ∷ ls) c = check_levels ls (set_speed c l.speed).0

  unfoldable pub check : Cpu D → Cpu D
  unfolding set_speed
  check c = check_levels c.steps c
