-- ===== src/Introspection.antt =====
-- The introspection endpoint, crates/handlers/src/oauth2/introspection.rs, on the tokens of OAuth 2.0
-- and of the compatibility API.
pub mod Active
use turnkey_triumph_326606_m.Prelude.{
  ℕ, Bool, true, false, Option, none, some, List, [], ◌∷◌, Result, ok, err, ok_or, map_err, ensure,
  Nothing, nothing, Text, codes,
}
use turnkey_triumph_326606_m.Prelude.ResultMonad.{◌>>=◌}
use turnkey_triumph_326606_m.Time.{Timestamp}
use turnkey_triumph_326606_m.Token.{
  TokenType, access_token, refresh_token, compat_access_token, compat_refresh_token, check,
}
use turnkey_triumph_326606_m.Scope.{Scope, from_iter}
use turnkey_triumph_326606_m.Model.Client.{AuthMethod, no_auth, Client}
use turnkey_triumph_326606_m.Model.Session.{exp}
use turnkey_triumph_326606_m.ClientAuth.{
  Crypto, Credentials, CredentialsVerificationError, fetch, verify,
}
use turnkey_triumph_326606_m.Storage.Rows.{
  StorageError, client_fetch, database, panicked, row_not_found,
}
use turnkey_triumph_326606_m.Storage.AccessToken.{lookup_active_access_token}
use turnkey_triumph_326606_m.Storage.RefreshToken.{lookup_active_refresh_token}
use turnkey_triumph_326606_m.Compat.Device.{to_scope_token}
use turnkey_triumph_326606_m.Compat.Rows.{CompatDb}
use turnkey_triumph_326606_m.Compat.Lookup.{
  lookup_active_compat_access_token, lookup_active_compat_refresh_token,
}

pub data OAuthTokenTypeHint : Type 0 where
  access_token_hint refresh_token_hint : OAuthTokenTypeHint

-- `PartialEq<OAuthTokenTypeHint> for TokenType`, crates/data-model/src/tokens.rs.
unfoldable pub matches_hint : TokenType → OAuthTokenTypeHint → Bool
matches_hint access_token access_token_hint = true
matches_hint compat_access_token access_token_hint = true
matches_hint refresh_token refresh_token_hint = true
matches_hint compat_refresh_token refresh_token_hint = true
matches_hint _ _ = false

pub data RouteError : Type 0 where
  internal : StorageError → RouteError
  client_not_found not_allowed unknown_token bad_request : RouteError
  client_credentials_verification : CredentialsVerificationError → RouteError

-- `From<ClientFetchError>`
unfoldable pub of_client_fetch : StorageError → RouteError
of_client_fetch (client_fetch row_not_found) = client_not_found
of_client_fetch e = internal e

-- `From` of the four lookups' errors.
unfoldable pub of_lookup : StorageError → RouteError
of_lookup (database row_not_found) = unknown_token
of_lookup e = internal e

pub record IntrospectionRequest : Type 0 where
  pub token : Text
  pub token_type_hint : Option OAuthTokenTypeHint

-- `aud`, `iss` and `jti` are never set.
pub record IntrospectionResponse : Type 0 where
  pub active : Bool
  pub scope : Option Scope
  pub client_id : Option Text
  pub username : Option Text
  pub token_type : Option OAuthTokenTypeHint
  pub exp : Option Timestamp
  pub iat : Option Timestamp
  pub nbf : Option Timestamp
  pub sub : Option Text

abbrev pub inactive : IntrospectionResponse
inactive = record {
  active = false;
  scope = none;
  client_id = none;
  username = none;
  token_type = none;
  exp = none;
  iat = none;
  nbf = none;
  sub = none;
}

-- `IntoResponse`: the status, and the body where it is one of the introspection.
unfoldable pub into_response : RouteError → ℕ × Option IntrospectionResponse
into_response (internal _) = (500, none)
into_response client_not_found = (401, none)
into_response unknown_token = (200, some inactive)
into_response not_allowed = (401, none)
into_response bad_request = (400, none)
into_response (client_credentials_verification _) = (401, none)

-- `match client.token_endpoint_auth_method`
abbrev pub confidential_method : Option AuthMethod → Result RouteError AuthMethod
confidential_method none = err not_allowed
confidential_method (some no_auth) = err not_allowed
confidential_method (some m) = ok m

abbrev pub check_hint : TokenType → Option OAuthTokenTypeHint → Result RouteError Nothing
check_hint t none = ok nothing
check_hint t (some hint) = ensure (matches_hint t hint) unknown_token

-- The reply for a token of each type; `to_scope_token` has an `unwrap`.
unfoldable pub reply_of :
    CompatDb → Timestamp → Text → TokenType → Result RouteError IntrospectionResponse
unfolding lookup_active_access_token lookup_active_refresh_token lookup_active_compat_access_token
    lookup_active_compat_refresh_token to_scope_token from_iter
reply_of db now token access_token = do
  (found, session) ← map_err of_lookup (lookup_active_access_token db.main now token)
  ok (record {
    active = true;
    scope = some session.scope;
    client_id = some session.client.client_id;
    username = some session.browser_session.user.username;
    token_type = some access_token_hint;
    exp = some (exp found);
    iat = some found.created_at;
    nbf = some found.created_at;
    sub = some session.browser_session.user.sub;
  })
reply_of db now token refresh_token = do
  (found, session) ← map_err of_lookup (lookup_active_refresh_token db.main token)
  ok (record {
    active = true;
    scope = some session.scope;
    client_id = some session.client.client_id;
    username = some session.browser_session.user.username;
    token_type = some refresh_token_hint;
    exp = none;
    iat = some found.created_at;
    nbf = some found.created_at;
    sub = some session.browser_session.user.sub;
  })
reply_of db now token compat_access_token = do
  (found, session) ← map_err of_lookup (lookup_active_compat_access_token db now token)
  device_scope ← map_err (λ _. internal panicked) (to_scope_token session.device)
  ok (record {
    active = true;
    scope = some (from_iter (device_scope ∷ []));
    client_id = some (codes "legacy");
    username = some session.user.username;
    token_type = some access_token_hint;
    exp = found.expires_at;
    iat = some found.created_at;
    nbf = some found.created_at;
    sub = some session.user.sub;
  })
reply_of db now token compat_refresh_token = do
  (found, _, session) ← map_err of_lookup (lookup_active_compat_refresh_token db token)
  device_scope ← map_err (λ _. internal panicked) (to_scope_token session.device)
  ok (record {
    active = true;
    scope = some (from_iter (device_scope ∷ []));
    client_id = some (codes "legacy");
    username = some session.user.username;
    token_type = some refresh_token_hint;
    exp = none;
    iat = some found.created_at;
    nbf = some found.created_at;
    sub = some session.user.sub;
  })

-- The reply to an authenticated request; `now` is the database's clock.
unfoldable pub introspect :
    (Text → ℕ)
    → CompatDb
    → Timestamp
    → IntrospectionRequest
    → Result RouteError IntrospectionResponse
unfolding check matches_hint reply_of
introspect crc32 db now form = do
  token_type ← map_err (λ _. unknown_token) (check crc32 form.token)
  _ ← check_hint token_type form.token_type_hint
  reply_of db now form.token token_type

unfoldable pub post :
    (Text → ℕ)
    → Crypto
    → CompatDb
    → Timestamp
    → Credentials
    → Option IntrospectionRequest
    → Result RouteError IntrospectionResponse
unfolding fetch verify introspect
post crc32 crypto db now credentials maybe_form = do
  client ← map_err of_client_fetch (fetch db.main credentials)
  method ← confidential_method client.token_endpoint_auth_method
  _ ← map_err client_credentials_verification (verify crypto credentials method client)
  form ← ok_or maybe_form bad_request
  introspect crc32 db now form
