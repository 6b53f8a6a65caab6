-- ===== src/Prelude/ParseInt.antt =====
-- `str::parse::<i64>`, with which the forms' ids are read.
use turnkey_triumph_326606_m.Prelude.{
  ℕ, zero, suc, ◌+◌, ◌*◌, ◌-◌, ◌&&◌, Option, none, some, [], ◌∷◌, Text, leb, ltb, ◌==◌,
  if◌then◌else◌,
}
use turnkey_triumph_326606_m.Prelude.Int.{ℤ, pos, negsuc}
use turnkey_triumph_326606_m.Prelude.OptionMonad.{◌>>=◌}

-- The value of the digits, after those that were read.
unfoldable pub digits_value : ℕ → Text → Option ℕ
digits_value n [] = some n
digits_value n (c ∷ s) =
    let rest = digits_value (n * 10 + (c - b'0')) s in
    if leb b'0' c && leb c b'9' then rest else none

abbrev pub some_digits : Text → Option ℕ
some_digits [] = none
some_digits (c ∷ s) = digits_value 0 (c ∷ s)

abbrev pub below : ℕ → ℕ → Option ℕ
below bound n = if ltb n bound then some n else none

abbrev pub negate : ℕ → ℤ
negate zero = pos zero
negate (suc n) = negsuc n

-- A sign, digits, and no overflow.
unfoldable pub parse_i64 : Text → Option ℤ
parse_i64 [] = none
parse_i64 (c ∷ s) =
    if c == b'-'
    then (do n ← some_digits s; m ← below 9223372036854775809 n; some (negate m))
    else if c == b'+'
    then (do n ← some_digits s; m ← below 9223372036854775808 n; some (pos m))
    else (do n ← some_digits (c ∷ s); m ← below 9223372036854775808 n; some (pos m))
