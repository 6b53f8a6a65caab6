-- ===== src/Tests/Formats.antt =====
-- Runs of the token format, the scopes and the claims.
use turnkey_triumph_326606_m.Prelude.{
  ℕ, ◌+◌, ◌*◌, ◌≤◌, ◌≡◌, ◌≢◌, ◌↔◌, refl, true, none, some, [], ◌∷◌, length, All, ok, Text, codes,
  arith,
}
use turnkey_triumph_326606_m.Prelude.Split.{split, NoByte}
use turnkey_triumph_326606_m.Time.{seconds, minutes}
use turnkey_triumph_326606_m.Token.{access_token, generate, check, base62_encode}
use turnkey_triumph_326606_m.Token.Collision.{base62_encode-mul62}
use turnkey_triumph_326606_m.Token.RoundTrip.{token_of, check_iff, check-generate}
use turnkey_triumph_326606_m.Scope.{Scope, nqchar, from_str, to_string}
use turnkey_triumph_326606_m.Scope.Tokens.{IsNqchar, IsToken, nqchar_iff}
use turnkey_triumph_326606_m.Scope.Parse.{IsScope, from_str_sound, from_str_iff, from_str-to_string}
use turnkey_triumph_326606_m.Claims.{
  Value, number, string, Claims, get, insert, extract_required_with_options, no_validator,
  TimeOptions, time_not_after, when_of,
}
use turnkey_triumph_326606_m.Claims.Standard.{nonce, exp}
use turnkey_triumph_326606_m.Claims.Laws.{extract-insert}
use turnkey_triumph_326606_m.Claims.Windows.{exp_iff}
use turnkey_triumph_326606_m.Tests.Data.{whole_seconds}

abbrev seven : Text → ℕ
seven s = 7

check_iff_example : (check seven (codes "mat_x_1") ≡ ok access_token) ↔ (
    (r : Text) × (length r ≡ 30)
    × NoByte b'_' r
    × (codes "mat_x_1" ≡ token_of seven (λ s. omega arith) access_token r))
check_iff_example = check_iff seven (λ s. omega arith) (codes "mat_x_1") access_token

check-generate_example : check seven (generate seven access_token (λ i. b'a')).0 ≡ ok access_token
check-generate_example =
    check-generate seven (λ s. omega arith) access_token (λ i. b'a') (λ i. ground arith)

base62_encode-mul62_example : base62_encode (62 * 7) ≡ base62_encode 7
base62_encode-mul62_example = base62_encode-mul62 7 (omega arith)

parsed : from_str (codes "openid a") ≡ ok (codes "openid" ∷ codes "a" ∷ [])
unfolding from_str nqchar
parsed = refl

from_str_iff_example :
    ((sc : Scope) × (from_str (codes "openid  a") ≡ ok sc))
    ↔ All IsToken (split b' ' (codes "openid  a"))
from_str_iff_example = from_str_iff (codes "openid  a")

openid_a-IsScope : IsScope (codes "openid" ∷ codes "a" ∷ [])
openid_a-IsScope = (from_str_sound (codes "openid a") (codes "openid" ∷ codes "a" ∷ []) parsed).0

from_str-to_string_example :
    from_str (to_string (codes "openid" ∷ codes "a" ∷ [])) ≡ ok (codes "openid" ∷ codes "a" ∷ [])
from_str-to_string_example =
    from_str-to_string (codes "openid" ∷ codes "a" ∷ []) (λ e. cc) openid_a-IsScope

abbrev bracket : ℕ
bracket = b'['

nqchar_iff_example :
    (nqchar bracket ≡ true) ↔ (IsNqchar bracket × ((bracket ≢ bracket) × (bracket ≢ b'~')))
nqchar_iff_example = nqchar_iff bracket

abbrev times : Claims
times = (codes "exp", number 100) ∷ (codes "nbf", number 50) ∷ []

abbrev with_nonce : Claims
with_nonce = (codes "nonce", string (codes "n")) ∷ times

inserted : insert nonce times (codes "n") ≡ ok with_nonce
unfolding insert
inserted = refl

extract-insert_example :
    ((extract_required_with_options nonce 0 with_nonce no_validator).0 ≡ ok (codes "n"))
    × ((j : Text)
        → j ≢ codes "nonce"
        → get j (extract_required_with_options nonce 0 with_nonce no_validator).1 ≡ get j times)
extract-insert_example =
    extract-insert nonce 0 times with_nonce (codes "n") (codes "n") (string (codes "n"))
      no_validator refl refl refl inserted

abbrev lenient : TimeOptions
lenient = record { when = none; leeway = minutes 5 }

exp_iff_example :
    ((extract_required_with_options (exp whole_seconds) 0 times (time_not_after lenient)).0
      ≡ ok (seconds 100))
    ↔ ((v : Value) × (get (codes "exp") times ≡ some v)
        × (whole_seconds.from_value v ≡ some (seconds 100))
        × (when_of 0 lenient.when ≤ seconds 100 + lenient.leeway))
exp_iff_example = exp_iff whole_seconds 0 times lenient (seconds 100)
