-- ===== src/Prelude/Text.antt =====
-- Go's `strings.TrimSpace`, `len` and `strconv.ParseInt` on texts of code points, and the readings of
-- numbers that the handlers of the services share.
use Prim.Native.Char.{code}
use Prim.Native.String.{String}
use mathlib.Core.Bool.{Bool, true, false, ◌&&◌, ◌||◌}
use mathlib.Core.Option.{Option, none, some}
use Prim.Native.Nat.{ℕ, ◌+◌, ◌-◌, ◌*◌, ◌%◌}
use go_order_management_syst.Prelude.Tests.{leb, ltb, ◌==◌, if◌then◌else◌}

-- `unicode.IsSpace`
unfoldable pub is_space : ℕ → Bool
is_space c =
    c == 32
    || leb 9 c && leb c 13
    || c == 133
    || c == 160
    || c == 5760
    || leb 8192 c && leb c 8202
    || c == 8232
    || c == 8233
    || c == 8239
    || c == 8287
    || c == 12288

unfoldable pub trim_left : String → String
unfolding is_space
trim_left String.[] = String.[]
trim_left (String.◌∷◌ c s) = if is_space (code c) then trim_left s else String.◌∷◌ c s

abbrev pub is_empty : String → Bool
is_empty String.[] = true
is_empty (String.◌∷◌ c s) = false

unfoldable pub trim_right : String → String
unfolding is_space
trim_right String.[] = String.[]
trim_right (String.◌∷◌ c s) =
    let rest = trim_right s in
    if is_space (code c) && is_empty rest then String.[] else String.◌∷◌ c rest

unfoldable pub trim_space : String → String
unfolding trim_left trim_right
trim_space s = trim_right (trim_left s)

-- `len(s)`: the bytes of the UTF-8 encoding.
unfoldable pub byte_length : String → ℕ
byte_length String.[] = 0
byte_length (String.◌∷◌ c s) =
    let rest = byte_length s in
    if ltb (code c) 128
    then 1 + rest
    else if ltb (code c) 2048
    then 2 + rest
    else if ltb (code c) 65536
    then 3 + rest
    else 4 + rest

-- The value of a text of decimal digits, after those that were read.
unfoldable pub read_digits : ℕ → String → Option ℕ
read_digits value String.[] = some value
read_digits value (String.◌∷◌ c s) =
    let rest = read_digits (value * 10 + (code c - 48)) s in
    if leb 48 (code c) && leb (code c) 57 then rest else none

unfoldable pub read_number : String → Option ℕ
unfolding read_digits
read_number String.[] = none
read_number (String.◌∷◌ c s) = read_digits 0 (String.◌∷◌ c s)

abbrev pub up_to : ℕ → Option ℕ → Option ℕ
up_to limit none = none
up_to limit (some n) = if leb n limit then some n else none

abbrev pub negated : Option ℕ → Option ℕ
negated none = none
negated (some n) = some ((18446744073709551616 - n) % 18446744073709551616)

-- `strconv.ParseInt(s, 10, bits)` for the greatest value of so many bits, and `strconv.Atoi`.
unfoldable pub parse_int : ℕ → String → Option ℕ
unfolding read_number
parse_int greatest String.[] = none
parse_int greatest (String.◌∷◌ c s) =
    if code c == 45
    then negated (up_to (greatest + 1) (read_number s))
    else if code c == 43
    then up_to greatest (read_number s)
    else up_to greatest (read_number (String.◌∷◌ c s))

-- `parsePositiveInt`
unfoldable pub parse_positive_int : String → ℕ → ℕ
unfolding parse_int
parse_positive_int raw fallback = elim (parse_int 9223372036854775807 raw) [
  | none ↦ fallback
  | some n ↦ if ltb 0 n && ltb n 9223372036854775808 then n else fallback
]

-- `parseID`
unfoldable pub parse_id : String → Option ℕ
unfolding parse_int
parse_id raw = elim (parse_int 9223372036854775807 raw) [
  | none ↦ none
  | some n ↦ if ltb 0 n && ltb n 9223372036854775808 then some n else none
]
