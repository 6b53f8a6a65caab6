-- ===== src/Storage/GrantLookup.antt =====
-- The row that the lookups of a grant select, and its conversion into a grant,
-- crates/storage/src/oauth2/authorization_grant.rs. Parsing a stored URL is a parameter.
use turnkey_triumph_326606_m.Prelude.{
  ℕ, zero, suc, Bool, true, false, Option, none, some, Result, ok, err, map_err, Text, codes,
  text_eq, if◌then◌else◌,
}
use turnkey_triumph_326606_m.Prelude.Int.{ℤ, pos, negsuc}
use turnkey_triumph_326606_m.Prelude.ResultMonad.{◌>>=◌}
use turnkey_triumph_326606_m.Time.{Timestamp}
use turnkey_triumph_326606_m.Scope.{Scope, from_str}
use turnkey_triumph_326606_m.Model.User.{UserEmail, Authentication}
use turnkey_triumph_326606_m.Model.Client.{Client}
use turnkey_triumph_326606_m.Model.Session.{Session}
use turnkey_triumph_326606_m.Model.Grant.{
  PkceCodeChallengeMethod, plain, s256, Pkce, AuthorizationCode, AuthorizationGrantStage, pending,
  fulfilled, exchanged, cancelled, ResponseMode, query, fragment, form_post, AuthorizationGrant,
}
use turnkey_triumph_326606_m.Storage.Rows.{Db, StorageError, inconsistency, panicked}
use turnkey_triumph_326606_m.Storage.Lookups.{lookup_client, email_of, authentication_of, sub_of}

pub record GrantLookup : Type 0 where
  pub grant_id : ℕ
  pub grant_created_at : Timestamp
  pub grant_cancelled_at : Option Timestamp
  pub grant_fulfilled_at : Option Timestamp
  pub grant_exchanged_at : Option Timestamp
  pub grant_scope : Text
  pub grant_state : Option Text
  pub grant_redirect_uri : Text
  pub grant_response_mode : Text
  pub grant_nonce : Option Text
  pub grant_max_age : Option ℤ
  pub grant_acr_values : Option Text
  pub grant_response_type_code : Bool
  pub grant_response_type_token : Bool
  pub grant_response_type_id_token : Bool
  pub grant_code : Option Text
  pub grant_code_challenge : Option Text
  pub grant_code_challenge_method : Option Text
  pub grant_requires_consent : Bool
  pub oauth2_client_id : ℕ
  pub session_id : Option ℕ
  pub user_session_id : Option ℕ
  pub user_session_created_at : Option Timestamp
  pub user_id : Option ℕ
  pub user_username : Option Text
  pub last_authentication_id : Option ℕ
  pub last_authentication_created_at : Option Timestamp
  pub user_email_id : Option ℕ
  pub user_email : Option Text
  pub user_email_created_at : Option Timestamp
  pub user_email_confirmed_at : Option Timestamp

-- The `match` on the columns of the session and its user.
unfoldable pub session_of_columns :
    Client
    → Scope
    → Option ℕ
    → Option ℕ
    → Option Timestamp
    → Option ℕ
    → Option Text
    → Option Authentication
    → Option UserEmail
    → Result StorageError (Option Session)
unfolding sub_of
session_of_columns client scope (some id) (some us_id) (some created_at) (some user_id) (some name)
      auth email =
    ok (
      some (record {
        id = id;
        browser_session = record {
          id = us_id;
          user = record {
            id = user_id;
            username = name;
            sub = sub_of user_id;
            primary_email = email;
          };
          created_at = created_at;
          last_authentication = auth;
        };
        client = client;
        scope = scope;
      }))
session_of_columns client scope none none none none none none none = ok none
session_of_columns client scope _ _ _ _ _ _ _ = err inconsistency

-- The stage by the times and the session: (fulfilled, exchanged, cancelled, session).
unfoldable pub stage_of :
    Option Timestamp
    → Option Timestamp
    → Option Timestamp
    → Option Session
    → Result StorageError AuthorizationGrantStage
stage_of none none none none = ok pending
stage_of (some fulfilled_at) none none (some session) = ok (fulfilled session fulfilled_at)
stage_of (some fulfilled_at) (some exchanged_at) none (some session) =
    ok (exchanged session fulfilled_at exchanged_at)
stage_of none none (some cancelled_at) none = ok (cancelled cancelled_at)
stage_of _ _ _ _ = err inconsistency

unfoldable pub method_of : Text → Result StorageError PkceCodeChallengeMethod
unfolding text_eq
method_of m =
    if text_eq m (codes "plain")
    then ok plain
    else if text_eq m (codes "S256")
    then ok s256
    else err inconsistency

unfoldable pub pkce_of : Option Text → Option Text → Result StorageError (Option Pkce)
unfolding method_of
pkce_of (some challenge) (some challenge_method) = do
  m ← method_of challenge_method
  ok (some (record { challenge_method = m; challenge = challenge }))
pkce_of none none = ok none
pkce_of _ _ = err inconsistency

unfoldable pub code_of :
    Bool → Option Text → Option Pkce → Result StorageError (Option AuthorizationCode)
code_of false none none = ok none
code_of true (some code) pkce = ok (some (record { code = code; pkce = pkce }))
code_of _ _ _ = err inconsistency

-- The names that `parse_display` derives for a `ResponseMode`.
unfoldable pub mode_to_string : ResponseMode → Text
mode_to_string query = codes "Query"
mode_to_string fragment = codes "Fragment"
mode_to_string form_post = codes "FormPost"

unfoldable pub mode_of : Text → Result StorageError ResponseMode
unfolding text_eq
mode_of m =
    if text_eq m (codes "Query")
    then ok query
    else if text_eq m (codes "Fragment")
    then ok fragment
    else if text_eq m (codes "FormPost")
    then ok form_post
    else err inconsistency

-- `u32::try_from` and then `NonZeroU32::try_from`, under `Option`.
unfoldable pub max_age_of : Option ℤ → Result StorageError (Option ℕ)
max_age_of none = ok none
max_age_of (some (pos zero)) = err inconsistency
max_age_of (some (pos (suc n))) = ok (some (suc n))
max_age_of (some (negsuc n)) = err inconsistency

unfoldable pub url_of : (Text → Option Text) → Text → Result StorageError Text
url_of parse_url s = elim (parse_url s) [ none ↦ err inconsistency | some u ↦ ok u ]

-- The end of the conversion, once the stage is known.
unfoldable pub assemble :
    (Text → Option Text)
    → GrantLookup
    → Scope
    → Client
    → AuthorizationGrantStage
    → Result StorageError AuthorizationGrant
unfolding pkce_of code_of mode_of max_age_of url_of
assemble parse_url g scope client stage = do
  pkce ← pkce_of g.grant_code_challenge g.grant_code_challenge_method
  code ← code_of g.grant_response_type_code g.grant_code pkce
  redirect_uri ← url_of parse_url g.grant_redirect_uri
  response_mode ← mode_of g.grant_response_mode
  max_age ← max_age_of g.grant_max_age
  ok (record {
    id = g.grant_id;
    stage = stage;
    code = code;
    client = client;
    redirect_uri = redirect_uri;
    scope = scope;
    state = g.grant_state;
    nonce = g.grant_nonce;
    max_age = max_age;
    acr_values = g.grant_acr_values;
    response_mode = response_mode;
    response_type_token = g.grant_response_type_token;
    response_type_id_token = g.grant_response_type_id_token;
    created_at = g.grant_created_at;
    requires_consent = g.grant_requires_consent;
  })

unfoldable pub into_authorization_grant :
    (Text → Option Text) → Db → GrantLookup → Result StorageError AuthorizationGrant
unfolding session_of_columns stage_of assemble
into_authorization_grant parse_url db g = do
  scope ← map_err (λ _. inconsistency) (from_str g.grant_scope)
  client ← map_err (λ _. panicked) (lookup_client db g.oauth2_client_id)
  auth ← authentication_of g.last_authentication_id g.last_authentication_created_at
  email ← email_of g.user_email_id g.user_email g.user_email_created_at g.user_email_confirmed_at
  session ←
      session_of_columns client scope g.session_id g.user_session_id g.user_session_created_at
        g.user_id g.user_username auth email
  stage ← stage_of g.grant_fulfilled_at g.grant_exchanged_at g.grant_cancelled_at session
  assemble parse_url g scope client stage
