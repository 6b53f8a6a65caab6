-- ===== src/Tests/Compat.antt =====
-- Runs of the compatibility API.
use turnkey_triumph_326606_m.Compat.Device.{is_ascii_alphanumeric}
use turnkey_triumph_326606_m.Compat.Endpoint.{CompatEnv, CompatMoment}
use turnkey_triumph_326606_m.Compat.LoggedOut.{
  end_by_token_id, has_token_id, post_logout-by_token_id,
}
use turnkey_triumph_326606_m.Compat.LoginLive.{SessionsValid, post_login-live}
use turnkey_triumph_326606_m.Compat.LoginOnce.{post_login-once}
use turnkey_triumph_326606_m.Compat.LoginPost.{
  ResponseBody, invalid_login_token, password, post_login, token, user,
}
use turnkey_triumph_326606_m.Compat.LogoutPost.{post_logout}
use turnkey_triumph_326606_m.Compat.Lookup.{
  active_compat_session, lookup_active_compat_access_token, lookup_active_compat_refresh_token,
}
use turnkey_triumph_326606_m.Compat.RefreshPost.{
  RefreshResponse, new_access_token, new_refresh_token, post_refresh, ttl,
}
use turnkey_triumph_326606_m.Compat.Refreshed.{post_refresh-rotates}
use turnkey_triumph_326606_m.Compat.Rotation.{CompatTokensValid}
use turnkey_triumph_326606_m.Compat.Rows.{CompatAccessTokenRow, CompatDb, CompatSessionRow}
use turnkey_triumph_326606_m.Compat.Session.{
  CompatAccessToken, CompatRefreshToken, CompatSession, CompatSsoLogin, fullfilled,
}
use turnkey_triumph_326606_m.Compat.Sso.{get_compat_sso_login_by_token}
use turnkey_triumph_326606_m.Model.User.{User}
use turnkey_triumph_326606_m.Prelude.{
  Text, [], arith, codes, err, false, find, if◌then◌else◌, length, map, none, nothing, ok, refl,
  retain, some, true, ℕ, ◌+◌, ◌<◌, ◌==◌, ◌∷◌, ◌≡◌, ◌≤◌,
}
use turnkey_triumph_326606_m.Storage.Rows.{UserPasswordRow, database, row_not_found}
use turnkey_triumph_326606_m.Storage.User.{latest_password, lookup_user_by_username}
use turnkey_triumph_326606_m.Tests.Data.{db}
use turnkey_triumph_326606_m.Time.{Timestamp, seconds}
use turnkey_triumph_326606_m.Token.{
  access_token, compat_access_token, compat_refresh_token, generate, refresh_token,
}

abbrev cenv : CompatEnv
cenv = record {
  crc32 = λ t. 7;
  verify = λ h p. true;
  parse_url = λ s. some s;
  homeserver = codes "h";
}

abbrev drawing : Timestamp → ℕ → CompatMoment
drawing t c = record { db_now = t; now = t; rng = λ i. c }

-- The tokens that are in the tables.
abbrev old_refresh : Text
old_refresh = (generate cenv.crc32 compat_refresh_token (λ i. b'a')).0

abbrev old_access : Text
old_access = (generate cenv.crc32 compat_access_token (λ i. b'a')).0

abbrev session_row : ℕ → Text → CompatSessionRow
session_row i d = record { id = i; user_id = 3; device_id = d; created_at = 100; deleted_at = none }

abbrev access_row : CompatAccessTokenRow
access_row = record {
  id = 0;
  compat_session_id = 5;
  token = old_access;
  created_at = 100;
  expires_at = none;
}

-- The access token with id 0 is one of session 5.
abbrev cdb : CompatDb
cdb = record {
  main = record db {
    user_passwords = record { user_id = 3; hashed_password = codes "x"; created_at = 60 } ∷ [];
  };
  sessions = session_row 0 (codes "aaaaaaaaaa") ∷ session_row 5 (codes "cccccccccc") ∷ [];
  access_tokens = access_row ∷ [];
  refresh_tokens =
      record {
        id = 0;
        compat_session_id = 5;
        compat_access_token_id = some 0;
        token = old_refresh;
        next_token_id = none;
        created_at = 100;
      }
      ∷ [];
  sso_logins =
      record {
        id = 0;
        redirect_uri = codes "a:b";
        token = codes "sso";
        created_at = 150;
        fullfilled_at = some 190;
        exchanged_at = none;
        compat_session_id = some 5;
      }
      ∷ [];
  next_session_id = 6;
  next_access_token_id = 1;
  next_refresh_token_id = 1;
  next_sso_login_id = 1;
}

cdb-CompatTokensValid : CompatTokensValid cdb
cdb-CompatTokensValid = ((omega arith, tt, tt), (omega arith, tt, tt))

cdb-SessionsValid : SessionsValid cdb
cdb-SessionsValid = ((omega arith, (omega arith, tt)), (omega arith, tt, tt))

abbrev now : CompatMoment
now = drawing 200 b'b'

abbrev refreshed : RefreshResponse
refreshed = record {
  access_token = new_access_token cenv now;
  refresh_token = new_refresh_token cenv now;
  expires_in = ttl;
}

abbrev refreshed_db : CompatDb
refreshed_db = (post_refresh cenv now cdb old_refresh).1

refresh : post_refresh cenv now cdb old_refresh ≡ (ok refreshed, refreshed_db)
unfolding post_refresh generate is_ascii_alphanumeric
refresh = refl

abbrev by_token : ResponseBody
by_token = record {
  access_token = (generate cenv.crc32 compat_access_token now.rng).0;
  device_id = record { id = codes "cccccccccc" };
  user_id = codes "@bob:h";
  refresh_token = none;
  expires_in = none;
}

abbrev sso_db : CompatDb
sso_db =
    (post_login cenv now cdb
      (record { credentials = token (codes "sso"); refresh_token = false })).1

sso_login :
    post_login cenv now cdb (record { credentials = token (codes "sso"); refresh_token = false })
    ≡ (ok by_token, sso_db)
unfolding post_login turnkey_triumph_326606_m.Prelude.text_eq is_ascii_alphanumeric generate
sso_login = refl

abbrev by_password : ResponseBody
by_password = record by_token { device_id = record { id = codes "bbbbbbbbbb" } }

abbrev bob_db : CompatDb
bob_db =
    (post_login cenv now cdb (record {
      credentials = password (user (codes "bob")) (codes "pw");
      refresh_token = false;
    })).1

bob_login :
    post_login cenv now cdb
      (record { credentials = password (user (codes "bob")) (codes "pw"); refresh_token = false })
    ≡ (ok by_password, bob_db)
unfolding post_login turnkey_triumph_326606_m.Prelude.text_eq
    turnkey_triumph_326606_m.Storage.User.user_of_row turnkey_triumph_326606_m.Token.take_samples
    generate
bob_login = refl

abbrev out_db : CompatDb
out_db = (post_logout cenv now cdb (some old_access)).1

logout : post_logout cenv now cdb (some old_access) ≡ (ok nothing, out_db)
unfolding post_logout generate
logout = refl

post_refresh-rotates_example :
    (old : CompatRefreshToken) × (access : CompatAccessToken) × (s : CompatSession)
    × (lookup_active_compat_refresh_token cdb old_refresh ≡ ok (old, access, s))
    × (lookup_active_compat_refresh_token refreshed_db old_refresh ≡ err (database row_not_found))
    × (lookup_active_compat_access_token refreshed_db 200 access.token
        ≡ err (database row_not_found))
    × (fresh : CompatAccessToken) × (next : CompatRefreshToken) × (lookup_active_compat_access_token
          refreshed_db 201 refreshed.access_token
        ≡ ok (fresh, s))
    × (lookup_active_compat_refresh_token refreshed_db refreshed.refresh_token
        ≡ ok (next, fresh, s))
post_refresh-rotates_example =
    post_refresh-rotates cenv now cdb old_refresh refreshed refreshed_db 200 201
      cdb-CompatTokensValid refresh (omega arith) (omega arith)

post_login-once_example :
    (l : CompatSsoLogin) × (at : Timestamp) × (s : CompatSession) × (get_compat_sso_login_by_token
        cenv.parse_url cdb
        (codes "sso")
      ≡ ok l)
    × (l.state ≡ fullfilled at s)
    × (now.now ≤ at + seconds 30)
    × (post_login cenv
          (drawing 300 b'c')
          sso_db
          (record { credentials = token (codes "sso"); refresh_token = true })
        ≡ (err invalid_login_token, sso_db))
post_login-once_example =
    post_login-once cenv now cdb (codes "sso") false by_token sso_db (drawing 300 b'c') true
      sso_login

post_login-live_example :
    (u : User) × (p : UserPasswordRow) × (a : CompatAccessToken) × (s : CompatSession)
    × (lookup_user_by_username cdb.main (codes "bob") ≡ ok u)
    × (latest_password u.id cdb.main.user_passwords ≡ some p)
    × (cenv.verify p.hashed_password (codes "pw") ≡ true)
    × (s.user ≡ u)
    × (lookup_active_compat_access_token bob_db 900 by_password.access_token ≡ ok (a, s))
unfolding is_ascii_alphanumeric
post_login-live_example =
    post_login-live cenv now cdb (codes "bob") (codes "pw") false by_password bob_db 900
      cdb-SessionsValid (λ i. refl) bob_login refl

post_logout-by_token_id_example :
    (length (retain (has_token_id access_row) cdb.sessions) ≡ 1)
    × (out_db ≡ record cdb { sessions = map (end_by_token_id access_row now.db_now) cdb.sessions })
    × (active_compat_session out_db access_row.id ≡ err (database row_not_found))
    × (lookup_active_compat_access_token out_db 900 old_access ≡ (
        if access_row.compat_session_id == access_row.id
        then err (database row_not_found)
        else lookup_active_compat_access_token cdb 900 old_access))
unfolding turnkey_triumph_326606_m.Prelude.text_eq generate
post_logout-by_token_id_example =
    post_logout-by_token_id cenv now cdb old_access access_row nothing out_db 900
      cdb-CompatTokensValid refl logout
