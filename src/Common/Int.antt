-- ===== src/Common/Int.antt =====
-- Go's int64 values, for `int` and `time.Duration`: an integer with its wrap-around, and times.
use Prim.Native.Nat.{ℕ, zero, suc, ◌+◌, ◌-◌, ◌^◌}
use mathlib.Core.Bool.{Bool, false}
use go_infra_lab.Common.Tests.{ltb, leb, eqb, if◌then◌else◌}

-- `negsuc n` is -(n + 1).
pub data ℤ : Type 0 where
  pos : ℕ → ℤ
  negsuc : ℕ → ℤ

abbrev pub max_int64 : ℕ
max_int64 = 2 ^ 63 - 1

-- The int64 with a given bit pattern.
abbrev pub of_bits : ℕ → ℤ
of_bits b = if ltb b (2 ^ 63) then pos b else negsuc (2 ^ 64 - 1 - b)

-- `i++`, which wraps from the largest int64 to the smallest.
abbrev pub increment : ℤ → ℤ
increment (pos n) = if eqb n max_int64 then negsuc max_int64 else pos (suc n)
increment (negsuc zero) = pos 0
increment (negsuc (suc n)) = negsuc n

-- `-i`; the smallest int64 is its own negation.
abbrev pub negate : ℤ → ℤ
negate (pos zero) = pos 0
negate (pos (suc n)) = negsuc n
negate (negsuc n) = if eqb n max_int64 then negsuc max_int64 else pos (suc n)

-- `i >= k` for a constant `k`.
abbrev pub at_least : ℕ → ℤ → Bool
at_least k (pos n) = leb k n
at_least k (negsuc n) = false

-- A `time.Time` is the number of nanoseconds since the zero time, `t.Add(d)` stops at it.
abbrev pub Time : Type 0
Time = ℕ

abbrev pub zero_time : Time
zero_time = 0

abbrev pub is_zero : Time → Bool
is_zero t = eqb t 0

abbrev pub add_duration : Time → ℤ → Time
add_duration t (pos n) = t + n
add_duration t (negsuc n) = t - suc n

-- `a.Before(b)`; `a.After(b)` is `before b a`.
abbrev pub before : Time → Time → Bool
before a b = ltb a b

abbrev pub second : ℕ
second = 1_000_000_000
