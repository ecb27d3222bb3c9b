-- ===== src/Common/Words.antt =====
-- The 32-bit `int` of C++, kept as its bit pattern, and the 64-bit value of a time.
use Prim.Native.Nat.{ℕ, ◌+◌, ◌-◌, ◌%◌, ◌^◌, ◌<◌}
use mathlib.Core.Path.{◌≡◌}
use native.Mathlib.Omega.{arith}
use sys_rt.Common.Tests.{ltb, if◌then◌else◌}

-- A 64-bit value cut to an `int`.
unfoldable pub to_int : ℕ → ℕ
to_int v = v % 2 ^ 32

-- An `int` widened to 64 bits: a negative one has its upper half set.
unfoldable pub from_int : ℕ → ℕ
from_int v = if ltb v (2 ^ 31) then v else v + (2 ^ 64 - 2 ^ 32)

abbrev pub int_max : ℕ
int_max = 2 ^ 31 - 1

pub from_int-to_int : (v : ℕ) → v < 2 ^ 31 → from_int (to_int v) ≡ v
unfolding from_int to_int
from_int-to_int v h = ground arith
