-- ===== src/Prelude/OptionMonad.antt =====
-- The `do` blocks of `Option`: a chain of joins, each of which may have no row.
use mathlib.Core.Option.{Option, none, some}

infixl 5 ◌>>=◌
abbrev pub ◌>>=◌ {ℓ κ} : {A : Type ℓ} {B : Type κ} → Option A → (A → Option B) → Option B
none >>= f = none
some a >>= f = f a
