-- ===== src/Prelude/Numbers.antt =====
-- Go's `int` as a sign and a magnitude, `%d` of a number, and `time.Time`.
use Prim.Native.Nat.{ℕ, zero, suc, ◌+◌, ◌*◌, ◌/◌, ◌%◌, ◌≤◌, ◌<◌}
use mathlib.Core.Bool.{Bool, false}
use mathlib.Core.List.{[], ◌∷◌, ◌++◌}
use package.netprobe_ir.Prelude.Tests.{ltb, lt→ltb, if◌then◌else◌, Bytes}
use package.netprobe_ir.Prelude.Lists.{length, length-append}
use native.Mathlib.Omega.{arith}

-- `negsuc n` is -(n + 1).
pub data ℤ : Type 0 where
  pos : ℕ → ℤ
  negsuc : ℕ → ℤ

-- `n > 0` and `n <= 0`
abbrev pub is_pos : ℤ → Bool
is_pos (pos n) = ltb 0 n
is_pos (negsuc n) = false

-- the number of an int that is not negative
abbrev pub pos_part : ℤ → ℕ
pos_part (pos n) = n
pos_part (negsuc n) = 0

decimal_loop : ℕ → ℕ → Bytes
decimal_loop zero n = []
decimal_loop (suc fuel) n =
    let rest = decimal_loop fuel (n / 10) in
    if ltb n 10 then (48 + n) ∷ [] else rest ++ (48 + n % 10) ∷ []

-- `%d`; a number has at most as many digits as its value and one more
unfoldable pub decimal : ℕ → Bytes
unfolding decimal_loop
decimal n = decimal_loop (suc n) n

-- the powers of ten
abbrev pub pow10 : ℕ → ℕ
pow10 zero = 1
pow10 (suc k) = 10 * pow10 k

length-decimal_loop : (fuel n k : ℕ) → n < pow10 (suc k) → length (decimal_loop fuel n) ≤ suc k
unfolding decimal_loop
length-decimal_loop zero n k h = omega arith
length-decimal_loop (suc fuel) n zero h = rw (lt→ltb n 10 (omega arith)) (omega arith)
length-decimal_loop (suc fuel) n (suc k) h = ground (
  arith,
  length-decimal_loop fuel (n / 10) k (omega arith),
  length-append (decimal_loop fuel (n / 10)) ((48 + n % 10) ∷ []),
)

pub length-decimal : (n k : ℕ) → n < pow10 (suc k) → length (decimal n) ≤ suc k
unfolding decimal
length-decimal n k h = length-decimal_loop (suc n) n k h

-- A `time.Time` counts nanoseconds from the zero `Time` (year 1), so `IsZero` is a test for 0.
abbrev pub Time : Type 0
Time = ℕ

-- A positive `time.Duration`, in nanoseconds.
abbrev pub Duration : Type 0
Duration = ℕ

abbrev pub second : Duration
second = 1_000_000_000

abbrev pub minute : Duration
minute = 60 * second

abbrev pub hour : Duration
hour = 60 * minute
