-- ===== src/Storage/Grant.antt =====
-- The table of authorization grants and of OAuth 2.0 sessions,
-- crates/storage/src/oauth2/authorization_grant.rs and mod.rs.
pub mod RoundTrip
use Prim.Native.Nat.{min}
use turnkey_triumph_326606_m.Prelude.{
  ℕ, ◌+◌, Bool, true, false, Option, none, some, List, [], ◌∷◌, ◌++◌, Result, ok, err, ok_or,
  map_err, Text, codes, text_eq, find, any, retain, length, map, if◌then◌else◌, ◌==◌,
}
use turnkey_triumph_326606_m.Prelude.Int.{ℤ, pos}
use turnkey_triumph_326606_m.Prelude.ResultMonad.{◌>>=◌}
use turnkey_triumph_326606_m.Time.{Timestamp}
use turnkey_triumph_326606_m.Scope.{Scope, to_string}
use turnkey_triumph_326606_m.Model.User.{BrowserSession, UserEmail}
use turnkey_triumph_326606_m.Model.Client.{Client}
use turnkey_triumph_326606_m.Model.Session.{Session}
use turnkey_triumph_326606_m.Model.Grant.{
  PkceCodeChallengeMethod, plain, s256, Pkce, AuthorizationCode, AuthorizationGrantStage, pending,
  ResponseMode, AuthorizationGrant, fulfill, exchange,
}
use turnkey_triumph_326606_m.Storage.Rows.{
  Db, GrantRow, SessionRow, UserRow, UserSessionRow, AuthenticationRow, StorageError, database,
  no_row_affected, unique_violation, row_not_found, invalid_transition,
}
use turnkey_triumph_326606_m.Storage.Lookups.{
  column, column?, is_null, latest_authentication, primary_email_row,
}
use turnkey_triumph_326606_m.Storage.GrantLookup.{
  GrantLookup, mode_to_string, into_authorization_grant,
}
use turnkey_triumph_326606_m.Storage.AccessToken.{i32_max}

abbrev pub method_to_string : PkceCodeChallengeMethod → Text
method_to_string plain = codes "plain"
method_to_string s256 = codes "S256"

-- What an authorization request asks of a new grant.
pub record NewGrant : Type 0 where
  pub client : Client
  pub redirect_uri : Text
  pub scope : Scope
  pub code : Option AuthorizationCode
  pub state : Option Text
  pub nonce : Option Text
  pub max_age : Option ℕ
  pub acr_values : Option Text
  pub response_mode : ResponseMode
  pub response_type_token : Bool
  pub response_type_id_token : Bool
  pub requires_consent : Bool

abbrev pub pkce_column : Option AuthorizationCode → Option Pkce
pkce_column none = none
pkce_column (some c) = c.pkce

-- `i32::try_from(…).unwrap_or(i32::MAX)`
abbrev pub max_age_column : Option ℕ → Option ℤ
max_age_column none = none
max_age_column (some n) = some (pos (min n i32_max))

abbrev pub code_matches : Text → GrantRow → Bool
code_matches code g = elim g.code [ none ↦ false | some c ↦ text_eq c code ]

-- The UNIQUE constraint on the codes.
abbrev pub code_taken : Option AuthorizationCode → Db → Bool
code_taken none db = false
code_taken (some c) db = any (code_matches c.code) db.grants

abbrev pub new_grant_row : Db → Timestamp → NewGrant → GrantRow
new_grant_row db now n = record {
  id = db.next_grant_id;
  oauth2_client_id = n.client.id;
  redirect_uri = n.redirect_uri;
  scope = to_string n.scope;
  state = n.state;
  nonce = n.nonce;
  max_age = max_age_column n.max_age;
  acr_values = n.acr_values;
  response_mode = mode_to_string n.response_mode;
  code_challenge = column (λ p. p.challenge) (pkce_column n.code);
  code_challenge_method = column (λ p. method_to_string p.challenge_method) (pkce_column n.code);
  response_type_code = elim n.code [ none ↦ false | some _ ↦ true ];
  response_type_token = n.response_type_token;
  response_type_id_token = n.response_type_id_token;
  code = column (λ c. c.code) n.code;
  requires_consent = n.requires_consent;
  created_at = now;
  fulfilled_at = none;
  cancelled_at = none;
  exchanged_at = none;
  oauth2_session_id = none;
}

abbrev pub new_grant : Db → Timestamp → NewGrant → AuthorizationGrant
new_grant db now n = record {
  id = db.next_grant_id;
  stage = pending;
  code = n.code;
  client = n.client;
  redirect_uri = n.redirect_uri;
  scope = n.scope;
  state = n.state;
  nonce = n.nonce;
  max_age = n.max_age;
  acr_values = n.acr_values;
  response_mode = n.response_mode;
  response_type_token = n.response_type_token;
  response_type_id_token = n.response_type_id_token;
  created_at = now;
  requires_consent = n.requires_consent;
}

unfoldable pub new_authorization_grant :
    Db → Timestamp → NewGrant → Result StorageError (AuthorizationGrant × Db)
new_authorization_grant db now n =
    if code_taken n.code db
    then err (database unique_violation)
    else ok (
      new_grant db now n,
      record db {
        grants = db.grants ++ new_grant_row db now n ∷ [];
        next_grant_id = db.next_grant_id + 1;
      },
    )

-- The columns of the `LEFT JOIN`s on a grant's session; whether the session is active is not asked.
abbrev pub joined_session : Db → GrantRow → Option SessionRow
joined_session db g =
    column? (λ i. find (λ (r : SessionRow). r.id == i) db.sessions) g.oauth2_session_id

abbrev pub joined_user_session : Db → Option SessionRow → Option UserSessionRow
joined_user_session db os =
    column? (λ o. find (λ (r : UserSessionRow). r.id == o.user_session_id) db.user_sessions) os

abbrev pub joined_user : Db → Option UserSessionRow → Option UserRow
joined_user db us = column? (λ s. find (λ (r : UserRow). r.id == s.user_id) db.users) us

unfoldable pub grant_columns : Db → GrantRow → GrantLookup
unfolding latest_authentication primary_email_row
grant_columns db g =
    let os = joined_session db g in
    let us = joined_user_session db os in
    let u = joined_user db us in
    let usa = column? (λ s. latest_authentication s.id db.authentications) us in
    let ue = column? (λ r. primary_email_row db r) u in
    record {
      grant_id = g.id;
      grant_created_at = g.created_at;
      grant_cancelled_at = g.cancelled_at;
      grant_fulfilled_at = g.fulfilled_at;
      grant_exchanged_at = g.exchanged_at;
      grant_scope = g.scope;
      grant_state = g.state;
      grant_redirect_uri = g.redirect_uri;
      grant_response_mode = g.response_mode;
      grant_nonce = g.nonce;
      grant_max_age = g.max_age;
      grant_acr_values = g.acr_values;
      grant_response_type_code = g.response_type_code;
      grant_response_type_token = g.response_type_token;
      grant_response_type_id_token = g.response_type_id_token;
      grant_code = g.code;
      grant_code_challenge = g.code_challenge;
      grant_code_challenge_method = g.code_challenge_method;
      grant_requires_consent = g.requires_consent;
      oauth2_client_id = g.oauth2_client_id;
      session_id = column (λ r. r.id) os;
      user_session_id = column (λ r. r.id) us;
      user_session_created_at = column (λ r. r.created_at) us;
      user_id = column (λ r. r.id) u;
      user_username = column (λ r. r.username) u;
      last_authentication_id = column (λ r. r.id) usa;
      last_authentication_created_at = column (λ r. r.created_at) usa;
      user_email_id = column (λ r. r.id) ue;
      user_email = column (λ r. r.email) ue;
      user_email_created_at = column (λ r. r.created_at) ue;
      user_email_confirmed_at = column? (λ r. r.confirmed_at) ue;
    }

module _ (parse_url : Text → Option Text) where
  unfoldable pub get_grant_by_id : Db → ℕ → Result StorageError AuthorizationGrant
  get_grant_by_id db id = do
    g ← ok_or (find (λ (r : GrantRow). r.id == id) db.grants) (database row_not_found)
    into_authorization_grant parse_url db (grant_columns db g)

  unfoldable pub lookup_grant_by_code : Db → Text → Result StorageError AuthorizationGrant
  lookup_grant_by_code db code = do
    g ← ok_or (find (code_matches code) db.grants) (database row_not_found)
    into_authorization_grant parse_url db (grant_columns db g)
