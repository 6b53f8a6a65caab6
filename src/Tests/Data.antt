-- ===== src/Tests/Data.antt =====
-- The inputs of the tests: a small database, and stand-ins for the code that is a parameter.
use turnkey_triumph_326606_m.Prelude.{
  ◌/◌, ltb, if◌then◌else◌, ℕ, true, false, none, some, [], ◌∷◌, codes, replicate, arith,
}
use turnkey_triumph_326606_m.Time.{Timestamp, seconds}
use turnkey_triumph_326606_m.Claims.{Codec, number}
use turnkey_triumph_326606_m.Scope.{Scope}
use turnkey_triumph_326606_m.Model.User.{BrowserSession}
use turnkey_triumph_326606_m.Model.Client.{no_auth, Client}
use turnkey_triumph_326606_m.Model.Session.{Session}
use turnkey_triumph_326606_m.Model.Grant.{plain, fulfilled, AuthorizationGrant, query}
use turnkey_triumph_326606_m.Storage.Rows.{
  Db, SessionRow, AccessTokenRow, RefreshTokenRow, GrantRow,
}
use turnkey_triumph_326606_m.Storage.Constraints.{TokensValid}
use turnkey_triumph_326606_m.ClientAuth.{Crypto, Credentials, no_credentials}
use turnkey_triumph_326606_m.TokenEndpoint.{Env, Moment, AuthorizationCodeGrant, RefreshTokenGrant}

abbrev pub app : Client
app = record {
  id = 1;
  client_id = codes "app";
  encrypted_client_secret = none;
  redirect_uris = codes "a:b" ∷ [];
  grant_types = [];
  jwks = none;
  id_token_signed_response_alg = none;
  token_endpoint_auth_method = some no_auth;
}

-- Times in claims, as numbers of seconds below 10 ^ 9.
abbrev pub whole_seconds : Codec Timestamp
whole_seconds = record {
  to_value = λ t. some (number (t / 1000000));
  from_value = elim [ number n ↦ (if ltb n 1000000000 then some (seconds n) else none) | _ ↦ none ];
}

abbrev pub env : Env
env = record {
  parse_url = λ s. some s;
  crc32 = λ t. 7;
  sha256 = λ t. replicate 32 1;
  base64url = λ t. t;
  oidc_issuer = codes "i";
  ts_seconds = whole_seconds;
  sign = λ alg claims. some (codes "signed");
}

abbrev pub crypto : Crypto
crypto = record {
  decode = λ t. none;
  verify_jwks = λ k t. false;
  verify_secret = λ k t. false;
  decrypt_string = λ t. some t;
}

-- A request that starts at an instant and draws one character again and again.
abbrev pub at : Timestamp → ℕ → Moment
at t c = record { db_now = t; now = t; id_token_now = t; rng = λ i. c }

abbrev pub email_scope : Scope
email_scope = codes "email" ∷ []

abbrev pub signed_in : BrowserSession
signed_in = record {
  id = 4;
  user = record { id = 3; username = codes "bob"; sub = codes "fake-sub-3"; primary_email = none };
  created_at = 50;
  last_authentication = none;
}

abbrev pub session : Session
session = record { id = 5; browser_session = signed_in; client = app; scope = email_scope }

abbrev pub session_row : SessionRow
session_row = record {
  id = 5;
  user_session_id = 4;
  oauth2_client_id = 1;
  scope = codes "email";
  created_at = 100;
  ended_at = none;
}

abbrev pub grant_row : GrantRow
grant_row = record {
  id = 6;
  oauth2_client_id = 1;
  redirect_uri = codes "a:b";
  scope = codes "email";
  state = none;
  nonce = none;
  max_age = none;
  acr_values = none;
  response_mode = codes "Query";
  code_challenge = some (codes "v");
  code_challenge_method = some (codes "plain");
  response_type_code = true;
  response_type_token = false;
  response_type_id_token = false;
  code = some (codes "abc");
  requires_consent = false;
  created_at = 90;
  fulfilled_at = some 100;
  cancelled_at = none;
  exchanged_at = none;
  oauth2_session_id = some 5;
}

abbrev pub old_access_token : AccessTokenRow
old_access_token = record {
  id = 0;
  oauth2_session_id = 5;
  token = codes "old";
  expires_after = 300;
  created_at = 100;
}

abbrev pub old_refresh_token : RefreshTokenRow
old_refresh_token = record {
  id = 0;
  oauth2_session_id = 5;
  oauth2_access_token_id = some 0;
  token = codes "ref";
  next_token_id = none;
  created_at = 100;
}

abbrev pub db : Db
db = record {
  clients = app ∷ [];
  users = record { id = 3; username = codes "bob"; primary_email_id = none } ∷ [];
  user_emails = [];
  user_passwords = [];
  verifications = [];
  next_user_id = 4;
  next_user_email_id = 1;
  next_verification_id = 1;
  next_user_session_id = 5;
  next_authentication_id = 9;
  user_sessions = record { id = 4; user_id = 3; created_at = 50; active = true } ∷ [];
  authentications = [];
  sessions = session_row ∷ [];
  access_tokens = old_access_token ∷ [];
  refresh_tokens = old_refresh_token ∷ [];
  grants = grant_row ∷ [];
  consents = [];
  next_session_id = 6;
  next_access_token_id = 1;
  next_refresh_token_id = 1;
  next_grant_id = 7;
}

abbrev pub granted : AuthorizationGrant
granted = record {
  id = 6;
  stage = fulfilled session 100;
  code = some (record {
    code = codes "abc";
    pkce = some (record { challenge_method = plain; challenge = codes "v" });
  });
  client = app;
  redirect_uri = codes "a:b";
  scope = email_scope;
  state = none;
  nonce = none;
  max_age = none;
  acr_values = none;
  response_mode = query;
  response_type_token = false;
  response_type_id_token = false;
  created_at = 90;
  requires_consent = false;
}

abbrev pub by_code : AuthorizationCodeGrant
by_code = record { code = codes "abc"; redirect_uri = none; code_verifier = some (codes "v") }

abbrev pub by_refresh : RefreshTokenGrant
by_refresh = record { refresh_token = codes "ref"; scope = none }

abbrev pub by_app : Credentials
by_app = no_credentials (codes "app")

pub db-TokensValid : TokensValid db
db-TokensValid = ((omega arith, tt, tt), (omega arith, tt, tt))
