-- ===== src/Tests/Tables.antt =====
-- Runs of the queries on the tables.

use turnkey_triumph_326606_m.Prelude.{
  ℕ, ◌+◌, ◌≤◌, ◌<◌, ◌≡◌, ◌≢◌, ◌↔◌, refl, Bool, true, false, Option, none, some, List, [], ◌∷◌, ◌++◌,
  map, Result, ok, err, Text, codes, arith, ◌==◌,
}
use mathlib.Core.List.{Memᴰ}
use turnkey_triumph_326606_m.Time.{Timestamp, seconds, minutes}
use turnkey_triumph_326606_m.Scope.{nqchar, from_str}
use turnkey_triumph_326606_m.Scope.Parse.{from_str_sound}
use turnkey_triumph_326606_m.Storage.Lookups.{lookup_client}
use turnkey_triumph_326606_m.Model.Session.{Session, AccessToken, RefreshToken}
use turnkey_triumph_326606_m.Model.Grant.{
  AuthorizationCode, AuthorizationGrant, AuthorizationGrantStage, pending, exchanged, cancelled,
  query,
}
use turnkey_triumph_326606_m.Model.Grant.Stages.{
  fulfilling, exchanging, cancelling, Step, apply, run, History, apply_iff, run-History,
}
use turnkey_triumph_326606_m.Storage.Rows.{Db}
use turnkey_triumph_326606_m.Storage.Grant.{
  NewGrant, new_grant_row, new_grant, new_authorization_grant, lookup_grant_by_code,
}
use turnkey_triumph_326606_m.Storage.Grant.RoundTrip.{IsStorable, lookup-new_authorization_grant}
use turnkey_triumph_326606_m.Storage.GrantStage.{
  update_grant, set_exchanged, end_session, exchange_grant, end_oauth_session,
}
use turnkey_triumph_326606_m.Storage.GrantStage.Laws.{lookup-exchange_grant}
use turnkey_triumph_326606_m.Storage.SessionEnd.{end_oauth_session-tokens}
use turnkey_triumph_326606_m.Storage.AccessToken.{lookup_active_access_token, cleanup_expired}
use turnkey_triumph_326606_m.Storage.AccessToken.Cleaned.{without_access, cleanup_expired-kept}
use turnkey_triumph_326606_m.Storage.RefreshToken.{lookup_active_refresh_token}
use turnkey_triumph_326606_m.Tests.Data.{
  app, env, email_scope, session, db, granted, old_access_token,
}

abbrev asked : NewGrant
asked = record {
  client = app;
  redirect_uri = codes "a:b";
  scope = email_scope;
  code = some (record { code = codes "xyz"; pkce = none });
  state = none;
  nonce = none;
  max_age = some 60;
  acr_values = none;
  response_mode = query;
  response_type_token = false;
  response_type_id_token = false;
  requires_consent = true;
}

email_parsed : from_str (codes "email") ≡ ok email_scope
unfolding from_str nqchar
email_parsed = refl

asked-IsStorable : IsStorable env.parse_url db asked
unfolding lookup_client
asked-IsStorable = record {
  scope = (from_str_sound (codes "email") email_scope email_parsed).0;
  some_scope = λ e. cc;
  redirect_uri = refl;
  client = refl;
  max_age = (omega arith, omega arith);
}

abbrev asked_db : Db
asked_db = record db { grants = db.grants ++ new_grant_row db 300 asked ∷ []; next_grant_id = 8 }

asked_ok : new_authorization_grant db 300 asked ≡ ok (new_grant db 300 asked, asked_db)
unfolding new_authorization_grant turnkey_triumph_326606_m.Prelude.text_eq
asked_ok = refl

lookup-new_authorization_grant_example :
    lookup_grant_by_code env.parse_url asked_db (codes "xyz") ≡ ok (new_grant db 300 asked)
lookup-new_authorization_grant_example =
    lookup-new_authorization_grant env.parse_url db 300 asked asked-IsStorable
      (record { code = codes "xyz"; pkce = none }) refl (new_grant db 300 asked) asked_db asked_ok

found_grant : lookup_grant_by_code env.parse_url db (codes "abc") ≡ ok granted
unfolding lookup_grant_by_code turnkey_triumph_326606_m.Prelude.text_eq
    turnkey_triumph_326606_m.Storage.GrantLookup.into_authorization_grant from_str
    turnkey_triumph_326606_m.Storage.Grant.grant_columns nqchar lookup_client
    turnkey_triumph_326606_m.Storage.Lookups.authentication_of
    turnkey_triumph_326606_m.Storage.Lookups.email_of
found_grant = refl

abbrev exchanged_grant : AuthorizationGrant
exchanged_grant = record granted { stage = exchanged session 100 200 }

abbrev exchanged_grant_db : Db
exchanged_grant_db = update_grant 6 (set_exchanged 200) db

exchange_ok : exchange_grant db 200 granted ≡ ok (exchanged_grant, exchanged_grant_db)
unfolding exchange_grant turnkey_triumph_326606_m.Model.Grant.exchange
exchange_ok = refl

lookup-exchange_grant_example :
    lookup_grant_by_code env.parse_url exchanged_grant_db (codes "abc") ≡ ok exchanged_grant
lookup-exchange_grant_example =
    lookup-exchange_grant env.parse_url db (codes "abc") granted session 100 200 exchanged_grant
      exchanged_grant_db found_grant refl exchange_ok

abbrev ended_db : Db
ended_db = record db { sessions = map (end_session 200 5) db.sessions }

ended_ok : end_oauth_session db 200 session ≡ ok ended_db
unfolding end_oauth_session
ended_ok = refl

end_oauth_session-tokens_example :
    ((t : Timestamp) (u : Text) (a : AccessToken) (s' : Session)
      → lookup_active_access_token ended_db t u ≡ ok (a, s')
      → s'.id ≢ 5)
    × ((u : Text) (r : RefreshToken) (s' : Session)
        → lookup_active_refresh_token ended_db u ≡ ok (r, s')
        → s'.id ≢ 5)
end_oauth_session-tokens_example = end_oauth_session-tokens db 200 session ended_db ended_ok

-- The token expired at 300000100, more than 15 minutes before.
cleanup_expired-kept_example :
    (lookup_active_access_token (cleanup_expired db 5000000000).1 6000000000 (codes "old")
      ≡ lookup_active_access_token db 6000000000 (codes "old"))
    × (without_access (lookup_active_refresh_token (cleanup_expired db 5000000000).1 (codes "old"))
        ≡ without_access (lookup_active_refresh_token db (codes "old")))
    × (Memᴰ old_access_token (cleanup_expired db 5000000000).1.access_tokens ↔ (
        Memᴰ old_access_token db.access_tokens
        × (5000000000
            ≤ old_access_token.created_at + seconds old_access_token.expires_after + minutes 15)))
cleanup_expired-kept_example =
    cleanup_expired-kept db 5000000000 6000000000 (codes "old") old_access_token (omega arith)

apply_iff_example :
    (apply pending (cancelling 5) ≡ ok (cancelled 5)) ↔ Step pending (cancelling 5) (cancelled 5)
apply_iff_example = apply_iff pending (cancelling 5) (cancelled 5)

exchanged_run :
    run pending (fulfilling 100 session ∷ exchanging 200 ∷ []) ≡ ok (exchanged session 100 200)
unfolding run
exchanged_run = refl

run-History_example :
    History (fulfilling 100 session ∷ exchanging 200 ∷ []) (exchanged session 100 200)
run-History_example =
    run-History (fulfilling 100 session ∷ exchanging 200 ∷ []) (exchanged session 100 200)
      exchanged_run
