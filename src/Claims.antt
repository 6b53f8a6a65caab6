-- ===== src/Claims.antt =====
-- Claims of a JSON web token, crates/jose/src/claims.rs: a map from names to JSON values, typed
-- claims that are inserted and extracted, and validators of times.
pub mod Laws
pub mod Windows
pub mod Standard
use turnkey_triumph_326606_m.Prelude.{
  ℕ, ◌+◌, ◌-◌, ◌*◌, ◌/◌, Bool, true, false, Option, none, some, List, [], ◌∷◌, Result, ok, err,
  ok_or, Text, codes, text_eq, if◌then◌else◌, leb,
}
use turnkey_triumph_326606_m.Prelude.ResultMonad.{◌>>=◌}
use turnkey_triumph_326606_m.Time.{Timestamp, seconds, minutes}

-- A `serde_json::Value`, as far as the standard claims read it; a number is a non-negative integer.
pub data Value : Type 0 where
  number : ℕ → Value
  string : Text → Value
  array : List Text → Value
  other : Value

-- The hash map, each name at most once.
abbrev pub Claims : Type 0
Claims = List (Text × Value)

unfoldable pub get : Text → Claims → Option Value
unfolding text_eq
get k [] = none
get k ((j, v) ∷ m) = if text_eq j k then some v else get k m

unfoldable pub remove : Text → Claims → Claims
unfolding text_eq
remove k [] = []
remove k ((j, v) ∷ m) = let rest = remove k m in if text_eq j k then rest else (j, v) ∷ rest

unfoldable pub insert_value : Text → Value → Claims → Claims
unfolding remove
insert_value k v m = (k, v) ∷ remove k m

pub data ClaimError : Type 0 where
  missing_claim invalid_claim validation_error : Text → ClaimError

-- `Serialize` and `DeserializeOwned` of a claim's type.
pub record Codec (T : Type 0) : Type 0 where
  pub to_value : T → Option Value
  pub from_value : Value → Option T

-- `Validator<T>`, at a given current time.
abbrev pub Validator : Type 0 → Type 0
Validator T = Timestamp → T → Bool

-- `impl Validator<T> for ()`
abbrev pub no_validator : {T : Type 0} → Validator T
no_validator now value = true

pub record Claim (T : Type 0) : Type 0 where
  pub name : Text
  pub codec : Codec T

module _ {T : Type 0} (c : Claim T) where
  unfoldable pub insert : Claims → T → Result ClaimError Claims
  unfolding insert_value
  insert claims value = do
    v ← ok_or (c.codec.to_value value) (invalid_claim c.name)
    ok (insert_value c.name v claims)

  -- The result comes with the map that is left: a claim is removed whether or not it is accepted.
  unfoldable pub extract_required_with_options :
      Timestamp → Claims → Validator T → Result ClaimError T × Claims
  unfolding get remove
  extract_required_with_options now claims validate = elim (get c.name claims) [
    | none ↦ (err (missing_claim c.name), claims)
    | some v ↦ (
      elim (c.codec.from_value v) [
        | none ↦ err (invalid_claim c.name)
        | some t ↦ if validate now t then ok t else err (validation_error c.name)
      ],
      remove c.name claims,
    )
  ]

  -- With the claim's own validator by default.
  unfoldable pub extract_required : Timestamp → Claims → Validator T → Result ClaimError T × Claims
  unfolding extract_required_with_options
  extract_required now claims default = extract_required_with_options now claims default

  abbrev pub optional : Result ClaimError T → Result ClaimError (Option T)
  optional (ok t) = ok (some t)
  optional (err (missing_claim n)) = ok none
  optional (err (invalid_claim n)) = err (invalid_claim n)
  optional (err (validation_error n)) = err (validation_error n)

  unfoldable pub extract_optional_with_options :
      Timestamp → Claims → Validator T → Result ClaimError (Option T) × Claims
  unfolding extract_required_with_options
  extract_optional_with_options now claims validate =
      let (r, rest) = extract_required_with_options now claims validate in (optional r, rest)

-- `TimeOptions`
pub record TimeOptions : Type 0 where
  pub when : Option Timestamp
  pub leeway : ℕ

abbrev pub default_options : TimeOptions
default_options = record { when = none; leeway = minutes 5 }

unfoldable pub new_options : Timestamp → TimeOptions
new_options when = record default_options { when = some when }

unfoldable pub freeze : Timestamp → TimeOptions → TimeOptions
freeze now o = record o { when = some now }

unfoldable pub with_leeway : ℕ → TimeOptions → TimeOptions
with_leeway leeway o = record o { leeway = leeway }

abbrev pub when_of : Timestamp → Option Timestamp → Timestamp
when_of now none = now
when_of now (some t) = t

-- `TimeNotAfter`
unfoldable pub time_not_after : TimeOptions → Validator Timestamp
time_not_after o now value = leb (when_of now o.when) (value + o.leeway)

-- `TimeNotBefore`: where the leeway reaches past the epoch, the test passes, as 0 is not later.
unfoldable pub time_not_before : TimeOptions → Validator Timestamp
time_not_before o now value = leb (value - o.leeway) (when_of now o.when)
