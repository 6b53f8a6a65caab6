-- ===== src/Compat/Exchanged.antt =====
-- The states of a single sign-on login, as its row is read back, crates/storage/src/compat.rs.
use turnkey_triumph_326606_m.Prelude.{
  ℕ, ◌≡◌, refl, ap, ◌∙◌, Option, none, some, map, ok, ok_or, Text, find, arith,
}
use turnkey_triumph_326606_m.Prelude.ResultMonad.{>>=-eq-ok}
use turnkey_triumph_326606_m.Prelude.Finding.{find-map}
use turnkey_triumph_326606_m.Time.{Timestamp}
use turnkey_triumph_326606_m.Storage.Rows.{database, row_not_found, inconsistency}
use turnkey_triumph_326606_m.Storage.Lookups.{column, column?, email_of}
use turnkey_triumph_326606_m.Compat.Session.{CompatSession, fullfilled, exchanged, CompatSsoLogin}
use turnkey_triumph_326606_m.Compat.Rows.{CompatSsoLoginRow, CompatDb}
use turnkey_triumph_326606_m.Compat.Sso.{
  CompatSsoLoginLookup, user_of, session_of, state_of, login_try_from, select_login, has_token,
  set_exchanged, joined_session, joined_user, get_compat_sso_login_by_token,
  mark_compat_sso_login_as_exchanged,
}

state_of_exchanged :
    (f e : Option Timestamp) (s : Option CompatSession) (at x : Timestamp) (session : CompatSession)
    → state_of f e s ≡ ok (fullfilled at session)
    → state_of f (some x) s ≡ ok (exchanged at x session)
unfolding state_of
state_of_exchanged none none none at x session h = ground arith
state_of_exchanged none none (some s) at x session h = ground arith
state_of_exchanged none (some e) s at x session h = ground arith
state_of_exchanged (some f) none none at x session h = ground arith
state_of_exchanged (some f) none (some s) at x session h = ground arith
state_of_exchanged (some f) (some e) none at x session h = ground arith
state_of_exchanged (some f) (some e) (some s) at x session h = ground arith

-- A fulfilled login whose exchange is stored is read back as exchanged.
try_from_exchanged :
    (parse_url : Text → Option Text) (res : CompatSsoLoginLookup) (l : CompatSsoLogin)
    (at x : Timestamp) (session : CompatSession)
    → login_try_from parse_url res ≡ ok l
    → l.state ≡ fullfilled at session
    → (l.id ≡ res.login.id)
      × (login_try_from parse_url
            (record res { login = record res.login { exchanged_at = some x } })
          ≡ ok (record l { state = exchanged at x session }))
unfolding login_try_from
try_from_exchanged parse_url res l at x session h is =
    let (uri, e1, h1) = >>=-eq-ok (ok_or (parse_url res.login.redirect_uri) inconsistency) _ h in
    let (email, e2, h2) =
      >>=-eq-ok
        (email_of (column (λ e. e.id) res.email) (column (λ e. e.email) res.email)
          (column (λ e. e.created_at) res.email) (column? (λ e. e.confirmed_at) res.email))
        _ h1 in
    let (user, e3, h3) =
      >>=-eq-ok (user_of (column (λ u. u.id) res.user) (column (λ u. u.username) res.user) email) _
        h2 in
    let (s, e4, h4) =
      >>=-eq-ok
        (session_of (column (λ s. s.id) res.session) (column (λ s. s.device_id) res.session)
          (column (λ s. s.created_at) res.session) (column? (λ s. s.deleted_at) res.session) user)
        _ h3 in
    let (state, e5, h5) =
      >>=-eq-ok (state_of res.login.fullfilled_at res.login.exchanged_at s) _ h4 in
    let same : state ≡ l.state = ground arith in
    let moved = state_of_exchanged _ _ _ at x session (e5 ∙ ap ok (same ∙ is)) in
    (ground arith, rw (e1, e2, e3, e4, moved) (ground arith))

get_of_row :
    (parse_url : Text → Option Text) (db : CompatDb) (token : Text) (cl : CompatSsoLoginRow)
    → find (has_token token) db.sso_logins ≡ some cl
    → get_compat_sso_login_by_token parse_url db token
      ≡ login_try_from parse_url (select_login db cl)
unfolding get_compat_sso_login_by_token
get_of_row parse_url db token cl e = rw e refl

pub get_ok :
    (parse_url : Text → Option Text) (db : CompatDb) (token : Text) (l : CompatSsoLogin)
    → get_compat_sso_login_by_token parse_url db token ≡ ok l
    → (cl : CompatSsoLoginRow) × (find (has_token token) db.sso_logins ≡ some cl)
      × (login_try_from parse_url (select_login db cl) ≡ ok l)
unfolding get_compat_sso_login_by_token
get_ok parse_url db token l h =
    let (cl, e, h1) =
      >>=-eq-ok (ok_or (find (has_token token) db.sso_logins) (database row_not_found)) _ h in
    (cl, ground arith, h1)

-- The lookup reads the logins, the sessions and the users.
pub get-frame :
    (parse_url : Text → Option Text) (db db' : CompatDb) (token : Text)
    → db'.sso_logins ≡ db.sso_logins
    → db'.sessions ≡ db.sessions
    → db'.main ≡ db.main
    → get_compat_sso_login_by_token parse_url db' token
      ≡ get_compat_sso_login_by_token parse_url db token
unfolding get_compat_sso_login_by_token select_login joined_session joined_user
get-frame parse_url db db' token e1 e2 e3 = rw (e1, e2, e3) refl

marked :
    (db : CompatDb) (now at : Timestamp) (l l' : CompatSsoLogin) (s : CompatSession)
    (db' : CompatDb)
    → l.state ≡ fullfilled at s
    → mark_compat_sso_login_as_exchanged db now l ≡ ok (l', db')
    → (l' ≡ record l { state = exchanged at now s })
      × (db' ≡ record db { sso_logins = map (set_exchanged now l.id) db.sso_logins })
unfolding mark_compat_sso_login_as_exchanged
marked db now at l l' s db' is h = (ground arith, ground arith)

read_again :
    (parse_url : Text → Option Text) (db : CompatDb) (now at : Timestamp) (id : ℕ)
    (cl : CompatSsoLoginRow) (l : CompatSsoLogin) (s : CompatSession)
    → login_try_from parse_url (select_login db cl) ≡ ok l
    → l.state ≡ fullfilled at s
    → (l.id ≡ cl.id)
      × (login_try_from parse_url (
            select_login
              (record db { sso_logins = map (set_exchanged now id) db.sso_logins })
              (record cl { exchanged_at = some now }))
          ≡ ok (record l { state = exchanged at now s }))
unfolding select_login joined_session joined_user
read_again parse_url db now at id cl l s read is =
    try_from_exchanged parse_url (select_login db cl) l at now s read is

row_exchanged :
    (now : Timestamp) (id : ℕ) (cl : CompatSsoLoginRow)
    → id ≡ cl.id
    → set_exchanged now id cl ≡ record cl { exchanged_at = some now }
row_exchanged now id cl e = ground arith

-- Marking a login as exchanged answers with that state, and so does the lookup from then on.
pub get-mark_exchanged :
    (parse_url : Text → Option Text) (db : CompatDb) (token : Text) (now at : Timestamp)
    (l l' : CompatSsoLogin) (s : CompatSession) (db' : CompatDb)
    → get_compat_sso_login_by_token parse_url db token ≡ ok l
    → l.state ≡ fullfilled at s
    → mark_compat_sso_login_as_exchanged db now l ≡ ok (l', db')
    → (l' ≡ record l { state = exchanged at now s })
      × (get_compat_sso_login_by_token parse_url db' token ≡ ok l')
get-mark_exchanged parse_url db token now at l l' s db' found is done =
    let (cl, e, read) = get_ok parse_url db token l found in
    let (same_id, again) = read_again parse_url db now at l.id cl l s read is in
    let (el, edb) = marked db now at l l' s db' is done in
    let row : find (has_token token) (map (set_exchanged now l.id) db.sso_logins)
        ≡ some (record cl { exchanged_at = some now }) =
      find-map (has_token token) (set_exchanged now l.id) db.sso_logins (λ r. ground arith)
      ∙ rw e (ap some (row_exchanged now l.id cl same_id)) in
    (el, rw (edb, el) (get_of_row parse_url _ token _ row ∙ again))
