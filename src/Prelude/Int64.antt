-- ===== src/Prelude/Int64.antt =====
-- A Go `int64`, `int` or `time.Duration` is its 64-bit pattern, a number below 2 ^ 64; the patterns
-- from 2 ^ 63 on stand for the negative values.
use Prim.Native.Nat.{ℕ, ◌+◌, ◌-◌, ◌*◌, ◌%◌}
use mathlib.Core.Bool.{Bool, ◌&&◌}
use go_order_management_syst.Prelude.Tests.{ltb, leb, if◌then◌else◌}

abbrev pub Int64 : Type 0
Int64 = ℕ

abbrev pub max_int64 : ℕ
max_int64 = 9223372036854775807

-- `0 < w`, as signed numbers.
abbrev pub is_positive : Int64 → Bool
is_positive w = ltb 0 w && ltb w 9223372036854775808

-- `w < 0`.
abbrev pub is_negative : Int64 → Bool
is_negative w = ltb 9223372036854775807 w

-- `a + b`, `a * b` and `-a`, wrapping around.
abbrev pub wrapping_add : Int64 → Int64 → Int64
wrapping_add a b = (a + b) % 18446744073709551616

abbrev pub wrapping_mul : Int64 → Int64 → Int64
wrapping_mul a b = a * b % 18446744073709551616

abbrev pub wrapping_neg : Int64 → Int64
wrapping_neg a = (18446744073709551616 - a) % 18446744073709551616

-- `if w <= 0 { w = fallback }`.
abbrev pub positive_or : Int64 → Int64 → Int64
positive_or w fallback = if is_positive w then w else fallback

-- `a <= b` and `a < b`, as signed numbers.
abbrev pub signed_leb : Int64 → Int64 → Bool
signed_leb a b =
    leb ((a + 9223372036854775808) % 18446744073709551616)
      ((b + 9223372036854775808) % 18446744073709551616)

abbrev pub signed_ltb : Int64 → Int64 → Bool
signed_ltb a b =
    ltb ((a + 9223372036854775808) % 18446744073709551616)
      ((b + 9223372036854775808) % 18446744073709551616)
