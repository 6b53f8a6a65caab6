-- ===== src/Introspection/Active.antt =====
-- When the introspection endpoint answers that a token is active,
-- crates/handlers/src/oauth2/introspection.rs.
use turnkey_triumph_326606_m.Prelude.{
  ℕ, ◌≡◌, ◌≢◌, refl, ◌∙◌, true, Option, none, some, Result, ok, err, ok_or, map_err, Nothing,
  nothing, Text, arith,
}
use turnkey_triumph_326606_m.Prelude.ResultMonad.{>>=-eq-ok, map_err_ok}
use turnkey_triumph_326606_m.Time.{Timestamp}
use turnkey_triumph_326606_m.Token.{
  TokenType, access_token, refresh_token, compat_access_token, compat_refresh_token, check,
}
use turnkey_triumph_326606_m.Model.Client.{
  AuthMethod, no_auth, Client, client_secret_post, client_secret_basic, client_secret_jwt,
  private_key_jwt, tls_client_auth, self_signed_tls_client_auth,
}
use turnkey_triumph_326606_m.Model.Session.{AccessToken, RefreshToken, Session}
use turnkey_triumph_326606_m.ClientAuth.{
  Crypto, Credentials, CredentialsVerificationError, fetch, verify,
}
use turnkey_triumph_326606_m.Storage.Rows.{database, row_not_found, panicked}
use turnkey_triumph_326606_m.Storage.AccessToken.{lookup_active_access_token}
use turnkey_triumph_326606_m.Storage.RefreshToken.{lookup_active_refresh_token}
use turnkey_triumph_326606_m.Compat.Device.{to_scope_token}
use turnkey_triumph_326606_m.Compat.Session.{CompatAccessToken, CompatRefreshToken, CompatSession}
use turnkey_triumph_326606_m.Compat.Rows.{CompatDb}
use turnkey_triumph_326606_m.Compat.Lookup.{
  lookup_active_compat_access_token, lookup_active_compat_refresh_token,
}
use turnkey_triumph_326606_m.Compat.Endpoint.{CompatEnv, CompatMoment}
use turnkey_triumph_326606_m.Compat.RefreshPost.{RefreshResponse, post_refresh}
use turnkey_triumph_326606_m.Compat.Rotation.{CompatTokensValid}
use turnkey_triumph_326606_m.Compat.Refreshed.{checked_type, exchanged_gone}
use turnkey_triumph_326606_m.Introspection.{
  OAuthTokenTypeHint, matches_hint, access_token_hint, refresh_token_hint, unknown_token, internal,
  of_lookup, of_client_fetch, client_credentials_verification, bad_request, IntrospectionRequest,
  IntrospectionResponse, confidential_method, check_hint, reply_of, introspect, post,
}

module _ (db : CompatDb) (now : Timestamp) (token : Text) (r : IntrospectionResponse) where
  -- A token of this type is accepted by the lookup of its table, and the reply is about its user.
  abbrev pub IsAccepted : TokenType → Type 0
  IsAccepted access_token =
      (a : AccessToken) × (s : Session) × (lookup_active_access_token db.main now token ≡ ok (a, s))
      × (r.sub ≡ some s.browser_session.user.sub)
      × (r.scope ≡ some s.scope)
  IsAccepted refresh_token =
      (a : RefreshToken) × (s : Session) × (lookup_active_refresh_token db.main token ≡ ok (a, s))
      × (r.sub ≡ some s.browser_session.user.sub)
      × (r.scope ≡ some s.scope)
  IsAccepted compat_access_token =
      (a : CompatAccessToken) × (s : CompatSession) × (lookup_active_compat_access_token db now
          token
        ≡ ok (a, s))
      × (r.sub ≡ some s.user.sub)
      × (r.exp ≡ a.expires_at)
  IsAccepted compat_refresh_token =
      (c : CompatRefreshToken) × (a : CompatAccessToken) × (s : CompatSession)
      × (lookup_active_compat_refresh_token db token ≡ ok (c, a, s))
      × (r.sub ≡ some s.user.sub)
      × (r.exp ≡ none)

  reply_accepted :
      (t : TokenType) → reply_of db now token t ≡ ok r → (r.active ≡ true) × IsAccepted t
  unfolding reply_of
  reply_accepted access_token h =
      let ((a, s), e, k) =
        >>=-eq-ok (map_err of_lookup (lookup_active_access_token db.main now token)) _ h in
      (ground arith, (a, s, map_err_ok of_lookup _ e, ground arith, ground arith))
  reply_accepted refresh_token h =
      let ((a, s), e, k) =
        >>=-eq-ok (map_err of_lookup (lookup_active_refresh_token db.main token)) _ h in
      (ground arith, (a, s, map_err_ok of_lookup _ e, ground arith, ground arith))
  reply_accepted compat_access_token h =
      let ((a, s), e, k) =
        >>=-eq-ok (map_err of_lookup (lookup_active_compat_access_token db now token)) _ h in
      let (d, f, l) = >>=-eq-ok (map_err (λ _. internal panicked) (to_scope_token s.device)) _ k in
      (ground arith, (a, s, map_err_ok of_lookup _ e, ground arith, ground arith))
  reply_accepted compat_refresh_token h =
      let ((c, a, s), e, k) =
        >>=-eq-ok (map_err of_lookup (lookup_active_compat_refresh_token db token)) _ h in
      let (d, f, l) = >>=-eq-ok (map_err (λ _. internal panicked) (to_scope_token s.device)) _ k in
      (ground arith, (c, a, s, map_err_ok of_lookup _ e, ground arith, ground arith))

confidential_ok :
    (o : Option AuthMethod) (m : AuthMethod)
    → confidential_method o ≡ ok m
    → (o ≡ some m) × (m ≢ no_auth)
confidential_ok none m h = cc
confidential_ok (some no_auth) m h = cc
confidential_ok (some client_secret_post) m h =
    let same : client_secret_post ≡ m = ground arith in rw⁻¹ same (refl, λ e. cc)
confidential_ok (some client_secret_basic) m h =
    let same : client_secret_basic ≡ m = ground arith in rw⁻¹ same (refl, λ e. cc)
confidential_ok (some client_secret_jwt) m h =
    let same : client_secret_jwt ≡ m = ground arith in rw⁻¹ same (refl, λ e. cc)
confidential_ok (some private_key_jwt) m h =
    let same : private_key_jwt ≡ m = ground arith in rw⁻¹ same (refl, λ e. cc)
confidential_ok (some tls_client_auth) m h =
    let same : tls_client_auth ≡ m = ground arith in rw⁻¹ same (refl, λ e. cc)
confidential_ok (some self_signed_tls_client_auth) m h =
    let same : self_signed_tls_client_auth ≡ m = ground arith in rw⁻¹ same (refl, λ e. cc)

-- A reply that the endpoint gives says that the token is active; then the client has authenticated with
-- a method other than `none`, the token's format is right, and the lookup of its type accepts it.
pub post-accepted :
    (crc32 : Text → ℕ) (crypto : Crypto) (db : CompatDb) (now : Timestamp)
    (credentials : Credentials) (maybe_form : Option IntrospectionRequest)
    (r : IntrospectionResponse)
    → post crc32 crypto db now credentials maybe_form ≡ ok r
    → (r.active ≡ true)
      × (client : Client) × (method : AuthMethod) × (form : IntrospectionRequest) × (t : TokenType)
      × (fetch db.main credentials ≡ ok client)
      × (client.token_endpoint_auth_method ≡ some method)
      × (method ≢ no_auth)
      × (verify crypto credentials method client ≡ ok nothing)
      × (maybe_form ≡ some form)
      × (check crc32 form.token ≡ ok t)
      × IsAccepted db now form.token r t
unfolding post introspect
post-accepted crc32 crypto db now credentials maybe_form r h =
    let (client, e1, h1) = >>=-eq-ok (map_err of_client_fetch (fetch db.main credentials)) _ h in
    let (method, e2, h2) = >>=-eq-ok (confidential_method client.token_endpoint_auth_method) _ h1 in
    let (nothing', e3, h3) =
      >>=-eq-ok (map_err client_credentials_verification (verify crypto credentials method client))
        _ h2 in
    let (form, e4, h4) = >>=-eq-ok (ok_or maybe_form bad_request) _ h3 in
    let (t, e5, h5) = >>=-eq-ok (map_err (λ _. unknown_token) (check crc32 form.token)) _ h4 in
    let (x, e6, h6) = >>=-eq-ok (check_hint t form.token_type_hint) _ h5 in
    let (named, other) = confidential_ok client.token_endpoint_auth_method method e2 in
    let (active, accepted) = reply_accepted db now form.token r t h6 in
    (
      active,
      client,
      method,
      form,
      t,
      map_err_ok of_client_fetch _ e1,
      named,
      other,
      map_err_ok client_credentials_verification _ e3 ∙ only nothing',
      given maybe_form form e4,
      map_err_ok (λ _. unknown_token) _ e5,
      accepted,
    )
  where
    only : (x : Nothing) → ◌≡◌ {A = Result CredentialsVerificationError Nothing} (ok x) (ok nothing)
    only nothing = refl

    given :
        (o : Option IntrospectionRequest) (f : IntrospectionRequest)
        → ok_or o bad_request ≡ ok f
        → o ≡ some f
    given none f k = cc
    given (some g) f k = ground arith

no_reply :
    (crc32 : Text → ℕ) (db : CompatDb) (t : Timestamp) (token : Text)
    (hint : Option OAuthTokenTypeHint)
    → check crc32 token ≡ ok compat_refresh_token
    → lookup_active_compat_refresh_token db token ≡ err (database row_not_found)
    → introspect crc32 db t (record { token = token; token_type_hint = hint }) ≡ err unknown_token
unfolding introspect reply_of of_lookup matches_hint
no_reply crc32 db t token none c e = rw (c, e) refl
no_reply crc32 db t token (some access_token_hint) c e = rw c refl
no_reply crc32 db t token (some refresh_token_hint) c e = rw (c, e) refl

-- In tables that meet their constraints, a refresh token that the compatibility API has exchanged is
-- answered as an unknown one from then on, whatever the hint.
pub introspect-refreshed :
    (env : CompatEnv) (moment : CompatMoment) (db : CompatDb) (input : Text) (r : RefreshResponse)
    (db' : CompatDb) (t : Timestamp) (hint : Option OAuthTokenTypeHint)
    → CompatTokensValid db
    → post_refresh env moment db input ≡ (ok r, db')
    → introspect env.crc32 db' t (record { token = input; token_type_hint = hint })
      ≡ err unknown_token
introspect-refreshed env moment db input r db' t hint v h =
    no_reply env.crc32 db' t input hint (checked_type env moment db input r db' h)
      (exchanged_gone env moment db input r db' v h)
