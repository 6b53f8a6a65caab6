-- ===== src/Cookies/Csrf.antt =====
-- The CSRF token, crates/axum-utils/src/csrf.rs. `now` is the clock, and `random` the 32 bytes that
-- `rand::random` would draw.
use turnkey_triumph_326606_m.Prelude.{
  ℕ, ◌+◌, ◌/◌, Option, none, some, Result, ok, err, ok_or, ensure, Nothing, Text, text_eq, ltb,
  if◌then◌else◌,
}
use turnkey_triumph_326606_m.Prelude.ResultMonad.{◌>>=◌}
use turnkey_triumph_326606_m.Time.{Timestamp, seconds, hours}
use turnkey_triumph_326606_m.Cookies.{CsrfToken, Jar, CookieEnv, or_default, and_then}

pub data CsrfError : Type 0 where
  mismatch missing decode_cookie expired decode : CsrfError

unfoldable pub new_token : Timestamp → Text → ℕ → CsrfToken
new_token now token ttl = record { expiration = now + ttl; token = token }

unfoldable pub generate_token : Timestamp → Text → ℕ → CsrfToken
unfolding new_token
generate_token now random ttl = new_token now random ttl

unfoldable pub refresh_token : Timestamp → CsrfToken → ℕ → CsrfToken
unfolding new_token
refresh_token now t ttl = new_token now t.token ttl

unfoldable pub verify_expiration : Timestamp → CsrfToken → Result CsrfError CsrfToken
verify_expiration now t = if ltb now t.expiration then ok t else err expired

-- `.ok()`
abbrev pub to_option {ℓ} : {E : Type 0} {A : Type ℓ} → Result E A → Option A
to_option (ok a) = some a
to_option (err e) = none

-- `TimestampSeconds<i64>`: the nearest second, the later one of two.
abbrev pub nearest_second : Timestamp → ℕ
nearest_second t = (t + 500000) / 1000000

-- What a decoded cookie holds of a token.
abbrev pub stored : CsrfToken → CsrfToken
stored t = record t { expiration = seconds (nearest_second t.expiration) }

module _ (env : CookieEnv) where
  unfoldable pub form_value : CsrfToken → Text
  form_value t = env.base64url t.token

  unfoldable pub verify_form_value : CsrfToken → Text → Result CsrfError Nothing
  unfolding text_eq
  verify_form_value t value = do
    bytes ← ok_or (env.base64url_decode value) decode
    ensure (text_eq t.token bytes) mismatch

  -- The token of the cookie while it has not expired, or a new one, is valid for another hour.
  unfoldable pub csrf_token : Timestamp → Text → Jar → CsrfToken × Jar
  unfolding generate_token refresh_token verify_expiration
  csrf_token now random jar =
      let current =
        and_then (and_then jar.csrf env.decode_csrf) (λ t. to_option (verify_expiration now t)) in
      let renewed =
        refresh_token now (or_default current (generate_token now random (hours 1))) (hours 1) in
      (renewed, record jar { csrf = some (env.encode_csrf renewed) })

  unfoldable pub verify_form : Timestamp → Jar → Text → Result CsrfError Nothing
  unfolding verify_expiration verify_form_value
  verify_form now jar csrf = do
    cookie ← ok_or jar.csrf missing
    decoded ← ok_or (env.decode_csrf cookie) decode_cookie
    token ← verify_expiration now decoded
    verify_form_value token csrf
