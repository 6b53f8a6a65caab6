-- ===== src/Prelude/Decimal.antt =====
-- `format!("{}", n)` of a non-negative integer: its decimal digits, the most significant first.
use Prim.Native.Nat.{ℕ, ◌+◌, ◌/◌, ◌%◌, ◌<◌}
use mathlib.Core.Logic.{dite}
use mathlib.Core.List.{[], ◌∷◌}
use mathlib.Core.WellFounded.{Acc}
use native.Mathlib.Decide.{dec_lt}
use native.Mathlib.Omega.{arith}
use turnkey_triumph_326606_m.Prelude.Bytes.{Text}
use turnkey_triumph_326606_m.Prelude.Order.{lt_wf}

div10_lt : (n : ℕ) → 9 < n → n / 10 < n
div10_lt n h = omega arith

decimal_acc : (n : ℕ) → Acc ◌<◌ n → Text → Text
unfolding dec_lt
decimal_acc n (Acc.intro _ smaller) rest =
    dite (dec_lt 9 n)
      (λ h. decimal_acc (n / 10) (smaller (n / 10) (div10_lt n h)) ((n % 10 + b'0') ∷ rest))
      (λ _. (n + b'0') ∷ rest)

unfoldable pub decimal : ℕ → Text
unfolding decimal_acc lt_wf div10_lt
decimal n = decimal_acc n (lt_wf.apply n) []
