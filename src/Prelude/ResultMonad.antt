-- ===== src/Prelude/ResultMonad.antt =====
-- The `do` blocks of `Result`: the `?` operator.
use mathlib.Core.Path.{◌≡◌, refl, ap, ◌∙◌}
use native.Mathlib.Omega.{arith}
use turnkey_triumph_326606_m.Prelude.Outcome.{Result, ok, err, map_err}

infixl 5 ◌>>=◌
abbrev pub ◌>>=◌ {ℓ κ μ} :
    {E : Type ℓ} {A : Type κ} {B : Type μ} → Result E A → (A → Result E B) → Result E B
err reason >>= next = err reason
ok value >>= next = next value

-- If a chain succeeds, so does its first step, and the rest from what that step answers.
pub >>=-eq-ok {ℓ κ μ} :
    {E : Type ℓ} {A : Type κ} {B : Type μ} (step : Result E A) (next : A → Result E B) {end : B}
    (done : (step >>= next) ≡ ok end)
    → (value : A) × (step ≡ ok value) × (next value ≡ ok end)
>>=-eq-ok (err reason) next done = cc
>>=-eq-ok (ok value) next done = (value, refl, done)

-- Two continuations of the same computation, the one's result read off the other's.
pub >>=-map-ok {ℓ κ μ ν} :
    {E : Type ℓ} {A : Type κ} {B : Type μ} {C : Type ν} (m : Result E A) (f : A → Result E B)
    (g : A → Result E C) {b : B} {c : C}
    → (m >>= f) ≡ ok b
    → ((a : A) → f a ≡ ok b → g a ≡ ok c)
    → (m >>= g) ≡ ok c
>>=-map-ok (ok a) f g h k = k a h
>>=-map-ok (err e) f g h k = cc

-- What holds whenever the last step of a chain succeeds.
pub >>=-elim-ok {ℓ κ μ ν} :
    {E : Type ℓ} {A : Type κ} {B : Type μ} {P : Type ν} (m : Result E A) (f : A → Result E B)
    {b : B}
    → (m >>= f) ≡ ok b
    → ((a : A) → f a ≡ ok b → P)
    → P
>>=-elim-ok (ok a) f h k = k a h
>>=-elim-ok (err e) f h k = cc

-- One step of a chain.
pub >>=-ok {ℓ κ μ} :
    {E : Type ℓ} {A : Type κ} {B : Type μ} (m : Result E A) (f : A → Result E B) {a : A}
    {r : Result E B}
    → m ≡ ok a
    → f a ≡ r
    → (m >>= f) ≡ r
>>=-ok m f e h = ap (λ z. z >>= f) e ∙ h

pub map_err_ok {ℓ κ μ} :
    {E : Type ℓ} {F : Type κ} {A : Type μ} (f : E → F) (r : Result E A) {x : A}
    → map_err f r ≡ ok x
    → r ≡ ok x
map_err_ok f (ok a) h = ground arith
map_err_ok f (err e) h = cc
