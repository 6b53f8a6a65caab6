-- ===== src/Cookies/Form.antt =====
-- A form that carries the token of the cookie is accepted, crates/axum-utils/src/csrf.rs.
use turnkey_triumph_326606_m.Prelude.{
  ◌+◌, ◌<◌, ◌≤◌, ◌≡◌, ◌≢◌, refl, sym, ap, ◌∙◌, true, false, some, ok, err, ensure, nothing, Text,
  text_eq, text_eq_iff, text_eq_refl, ltb, inl, inr, Bool-cases, arith,
}
use turnkey_triumph_326606_m.Time.{Timestamp, seconds, hours}
use turnkey_triumph_326606_m.Cookies.{CsrfToken, Jar, CookieEnv}
use turnkey_triumph_326606_m.Cookies.Csrf.{
  mismatch, expired, nearest_second, stored, form_value, csrf_token, verify_form, verify_form_value,
  verify_expiration, new_token,
}

verify_of_token :
    (env : CookieEnv) (t : Timestamp) (jar : Jar) (cookie : Text) (token : CsrfToken)
    (value bytes : Text)
    → jar.csrf ≡ some cookie
    → env.decode_csrf cookie ≡ some token
    → env.base64url_decode value ≡ some bytes
    → ltb t token.expiration ≡ true
    → verify_form env t jar value ≡ ensure (text_eq token.token bytes) mismatch
unfolding verify_form verify_expiration verify_form_value
verify_of_token env t jar cookie token value bytes c d e f = rw (c, d, f, e) refl

verify_expired :
    (env : CookieEnv) (t : Timestamp) (jar : Jar) (cookie : Text) (token : CsrfToken) (value : Text)
    → jar.csrf ≡ some cookie
    → env.decode_csrf cookie ≡ some token
    → ltb t token.expiration ≡ false
    → verify_form env t jar value ≡ err expired
unfolding verify_form verify_expiration
verify_expired env t jar cookie token value c d f = rw (c, d, f) refl

served :
    (env : CookieEnv) (now : Timestamp) (random : Text) (jar : Jar)
    → ((csrf_token env now random jar).1.csrf
        ≡ some (env.encode_csrf (csrf_token env now random jar).0))
      × ((csrf_token env now random jar).0.expiration ≡ now + hours 1)
unfolding csrf_token new_token
served env now random jar = (refl, refl)

renewed :
    (env : CookieEnv) (now : Timestamp) (random : Text) (jar : Jar) (cookie : Text)
    (token : CsrfToken)
    → jar.csrf ≡ some cookie
    → env.decode_csrf cookie ≡ some token
    → ltb now token.expiration ≡ true
    → (csrf_token env now random jar).0.token ≡ token.token
unfolding csrf_token verify_expiration new_token
renewed env now random jar cookie token c d f = rw (c, d, f) refl

-- If a cookie's decoding undoes its encoding but for the rounding of the expiry to the nearest second,
-- and that of base64url its encoding, then before the second that is nearest to the end of the hour a
-- form with the value that was served is accepted, one with the value of other bytes is a mismatch, and
-- a page that is served then serves the same token; from that second on every form has expired.
pub verify_form-csrf_token :
    (env : CookieEnv) (now t u : Timestamp) (random random' : Text) (jar : Jar) (other value : Text)
    → ((x : CsrfToken) → env.decode_csrf (env.encode_csrf x) ≡ some (stored x))
    → ((b : Text) → env.base64url_decode (env.base64url b) ≡ some b)
    → t < seconds (nearest_second (now + hours 1))
    → seconds (nearest_second (now + hours 1)) ≤ u
    → other ≢ (csrf_token env now random jar).0.token
    → (verify_form env t
          (csrf_token env now random jar).1
          (form_value env (csrf_token env now random jar).0)
        ≡ ok nothing)
      × (verify_form env t (csrf_token env now random jar).1 (env.base64url other) ≡ err mismatch)
      × ((csrf_token env t random' (csrf_token env now random jar).1).0.token
          ≡ (csrf_token env now random jar).0.token)
      × (verify_form env u (csrf_token env now random jar).1 value ≡ err expired)
unfolding form_value
verify_form-csrf_token env now t u random random' jar other value decodes unpads early late
      differs =
    let token : CsrfToken = (csrf_token env now random jar).0 in
    let (cookie, expiry) = served env now random jar in
    let read = decodes token in
    let live : ltb t (stored token).expiration ≡ true = rw expiry (ground arith) in
    let no : text_eq token.token other ≡ false = elim (Bool-cases (text_eq token.token other)) [
      | inl e ↦ absurd (differs (sym ((text_eq_iff token.token other).0 e)))
      | inr e ↦ e
    ] in
    let over : ltb u (stored token).expiration ≡ false = rw expiry (ground arith) in
    (
      verify_of_token env t _ _ (stored token) _ token.token cookie read (unpads token.token) live
          ∙ rw (text_eq_refl token.token) refl,
      verify_of_token env t _ _ (stored token) _ other cookie read (unpads other) live
          ∙ ap (λ b. ensure b mismatch) no,
      renewed env t random' _ _ (stored token) cookie read live,
      verify_expired env u _ _ (stored token) value cookie read over,
    )
