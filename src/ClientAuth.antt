-- ===== src/ClientAuth.antt =====
-- The authentication of a client, crates/axum-utils/src/client_authorization.rs: the credentials of a
-- request, read from its header and its form, and their check against the stored client. What reads
-- and verifies a JSON web token or decrypts a stored secret is a record of parameters.
pub mod Laws
use turnkey_triumph_326606_m.Prelude.{
  Bool, true, false, find, Option, none, some, List, Result, ok, err, ok_or, ensure, Nothing,
  nothing, Text, codes, text_eq, if◌then◌else◌,
}
use turnkey_triumph_326606_m.Prelude.ResultMonad.{◌>>=◌}
use turnkey_triumph_326606_m.Claims.{Value, number, string, array, other, Claims, get}
use turnkey_triumph_326606_m.Model.Client.{
  AuthMethod, no_auth, client_secret_post, client_secret_basic, client_secret_jwt, private_key_jwt,
  Client,
}
use turnkey_triumph_326606_m.Storage.Rows.{Db, StorageError, client_fetch, row_not_found}

abbrev pub jwt_bearer_client_assertion : Text
jwt_bearer_client_assertion = codes "urn:ietf:params:oauth:client-assertion-type:jwt-bearer"

-- An assertion is kept as its compact serialisation, which holds the token's header.
pub data Credentials : Type 0 where
  no_credentials : Text → Credentials
  secret_basic secret_post : Text → Text → Credentials
  assertion_jwt_bearer : Text → Text → Claims → Credentials

pub data CredentialsVerificationError : Type 0 where
  decryption_error invalid_client_config client_secret_mismatch : CredentialsVerificationError
  authentication_method_mismatch invalid_assertion_signature : CredentialsVerificationError

pub data ClientAuthorizationError : Type 0 where
  invalid_header bad_form missing_credentials invalid_request : ClientAuthorizationError
  invalid_assertion internal_error : ClientAuthorizationError
  client_id_mismatch : Text → Text → ClientAuthorizationError
  unsupported_client_assertion : Text → ClientAuthorizationError

-- `decode` parses a token and returns its claims; `verify_jwks` and `verify_secret` check its signature
-- with a client's key set and with a shared secret; `decrypt_string` decrypts a stored secret.
pub record Crypto : Type 0 where
  pub decode : Text → Option Claims
  pub verify_jwks : Text → Text → Bool
  pub verify_secret : Text → Text → Bool
  pub decrypt_string : Text → Option Text

abbrev pub credentials_client_id : Credentials → Text
credentials_client_id (no_credentials client_id) = client_id
credentials_client_id (secret_basic client_id _) = client_id
credentials_client_id (secret_post client_id _) = client_id
credentials_client_id (assertion_jwt_bearer client_id _ _) = client_id

-- `Credentials::fetch`, with `lookup_client_by_client_id`.
unfoldable pub fetch : Db → Credentials → Result StorageError Client
unfolding text_eq
fetch db c =
    ok_or (find (λ (r : Client). text_eq r.client_id (credentials_client_id c)) db.clients)
      (client_fetch row_not_found)

-- A client id in the form must be that of the credentials.
abbrev pub same_client_id : Text → Option Text → Result ClientAuthorizationError Nothing
same_client_id client_id none = ok nothing
same_client_id client_id (some form) =
    ensure (text_eq client_id form) (client_id_mismatch client_id form)

-- The claim `sub`, a string.
unfoldable pub subject_of : Claims → Result ClientAuthorizationError Text
unfolding get
subject_of claims = elim (get (codes "sub") claims) [
  | some (string client_id) ↦ ok client_id
  | _ ↦ err invalid_assertion
]

module _ (crypto : Crypto) where
  unfoldable pub from_assertion : Option Text → Text → Result ClientAuthorizationError Credentials
  unfolding subject_of
  from_assertion form_id client_assertion = do
    claims ← ok_or (crypto.decode client_assertion) invalid_assertion
    client_id ← subject_of claims
    _ ← same_client_id client_id form_id
    ok (assertion_jwt_bearer client_id client_assertion claims)

  -- The `match` of `from_request` on the header's credentials and the form's fields; its guard falls
  -- through to the arms below it.
  unfoldable pub credentials_of :
      Option (Text × Text)
      → Option Text
      → Option Text
      → Option Text
      → Option Text
      → Result ClientAuthorizationError Credentials
  unfolding from_assertion text_eq
  credentials_of (some (client_id, client_secret)) form_id none none none = do
    _ ← same_client_id client_id form_id
    ok (secret_basic client_id client_secret)
  credentials_of none (some client_id) (some client_secret) none none =
      ok (secret_post client_id client_secret)
  credentials_of none (some client_id) none none none = ok (no_credentials client_id)
  credentials_of none none none (some ty) (some client_assertion) =
      if text_eq ty jwt_bearer_client_assertion
      then from_assertion none client_assertion
      else err (unsupported_client_assertion ty)
  credentials_of none (some form_id) none (some ty) (some client_assertion) =
      if text_eq ty jwt_bearer_client_assertion
      then from_assertion (some form_id) client_assertion
      else err invalid_request
  credentials_of none none none none none = err missing_credentials
  credentials_of _ _ _ _ _ = err invalid_request

  abbrev pub decrypted_secret : Client → Result CredentialsVerificationError Text
  decrypted_secret client = do
    encrypted ← ok_or client.encrypted_client_secret invalid_client_config
    ok_or (crypto.decrypt_string encrypted) decryption_error

  unfoldable pub verify_client_secret : Text → Client → Result CredentialsVerificationError Nothing
  unfolding text_eq
  verify_client_secret client_secret client = do
    decrypted ← decrypted_secret client
    ensure (text_eq client_secret decrypted) client_secret_mismatch

  -- `Credentials::verify`
  unfoldable pub verify :
      Credentials → AuthMethod → Client → Result CredentialsVerificationError Nothing
  unfolding verify_client_secret
  verify (no_credentials _) no_auth client = ok nothing
  verify (secret_post _ client_secret) client_secret_post client =
      verify_client_secret client_secret client
  verify (secret_basic _ client_secret) client_secret_basic client =
      verify_client_secret client_secret client
  verify (assertion_jwt_bearer _ jwt _) private_key_jwt client = do
    jwks ← ok_or client.jwks invalid_client_config
    ensure (crypto.verify_jwks jwks jwt) invalid_assertion_signature
  verify (assertion_jwt_bearer _ jwt _) client_secret_jwt client = do
    decrypted ← decrypted_secret client
    ensure (crypto.verify_secret decrypted jwt) invalid_assertion_signature
  verify _ _ _ = err authentication_method_mismatch
