-- ===== src/Model/Client.antt =====
-- OAuth 2.0 clients, crates/data-model/src/oauth2/client.rs, with the fields that the endpoints read;
-- a `Url` is its serialisation.
pub mod Redirect
use turnkey_triumph_326606_m.Prelude.{
  ℕ, Bool, false, ◌||◌, Option, none, some, List, [], ◌∷◌, Result, ok, err, Text, text_eq,
  if◌then◌else◌,
}

-- The registered methods, crates/iana/src/oauth.rs.
pub data AuthMethod : Type 0 where
  no_auth client_secret_post client_secret_basic client_secret_jwt : AuthMethod
  private_key_jwt tls_client_auth self_signed_tls_client_auth : AuthMethod

-- `GrantType`, crates/oauth2-types/src/requests.rs.
pub data GrantType : Type 0 where
  authorization_code refresh_token implicit client_credentials : GrantType

pub record Client : Type 0 where
  pub id : ℕ
  pub client_id : Text
  pub encrypted_client_secret : Option Text
  pub redirect_uris : List Text
  pub grant_types : List GrantType
  -- The key set or its URL, serialised.
  pub jwks : Option Text
  pub id_token_signed_response_alg : Option Text
  pub token_endpoint_auth_method : Option AuthMethod

pub data InvalidRedirectUriError : Type 0 where
  not_allowed multiple_registered none_registered : InvalidRedirectUriError

unfoldable pub has_uri : List Text → Text → Bool
unfolding text_eq
has_uri [] uri = false
has_uri (u ∷ us) uri = text_eq u uri || has_uri us uri

unfoldable pub resolve : List Text → Option Text → Result InvalidRedirectUriError Text
unfolding has_uri
resolve [] uri = err none_registered
resolve (one ∷ []) none = ok one
resolve (one ∷ two ∷ more) none = err multiple_registered
resolve (one ∷ more) (some uri) = if has_uri (one ∷ more) uri then ok uri else err not_allowed

unfoldable pub resolve_redirect_uri : Client → Option Text → Result InvalidRedirectUriError Text
unfolding resolve
resolve_redirect_uri c uri = resolve c.redirect_uris uri
