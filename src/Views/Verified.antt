-- ===== src/Views/Verified.antt =====
-- What the change of a password has checked and stored,
-- crates/handlers/src/views/account/password.rs.
use turnkey_triumph_326606_m.Prelude.{
  ◌<◌, ◌≡◌, refl, sym, ap, ◌∙◌, Bool, true, Option, some, List, [], ◌∷◌, ◌++◌, ok, ok_or, map_err,
  ensure, Text, text_eq, text_eq_iff, All, inl, inr, Option-cases, arith,
}
use turnkey_triumph_326606_m.Prelude.ResultMonad.{>>=-eq-ok, map_err_ok}
use turnkey_triumph_326606_m.Prelude.Finding.{All-mono}
use turnkey_triumph_326606_m.Time.{Timestamp}
use turnkey_triumph_326606_m.Model.User.{User, BrowserSession}
use turnkey_triumph_326606_m.Cookies.{Jar, SessionInfo}
use turnkey_triumph_326606_m.Storage.Rows.{Db, UserPasswordRow, row_not_found}
use turnkey_triumph_326606_m.Storage.User.{
  password_mismatch, fetch, latest_password, authenticate_session, set_password,
}
use turnkey_triumph_326606_m.Storage.User.Registered.{latest_password-append}
use turnkey_triumph_326606_m.TokenEndpoint.Redeemed.{commit_ok}
use turnkey_triumph_326606_m.Views.{
  ViewEnv, ViewMoment, ViewError, storage, authentication, signed_in,
}
use turnkey_triumph_326606_m.Views.Sessions.{done}
use turnkey_triumph_326606_m.Views.Account.{change_maybe, post_password_page}

authenticated_ok :
    (verify : Text → Text → Bool) (db : Db) (now : Timestamp) (b b' : BrowserSession)
    (secret : Text) (db' : Db)
    → authenticate_session verify db now b secret ≡ ok (b', db')
    → (p : UserPasswordRow) × (latest_password b.user.id db.user_passwords ≡ some p)
      × (verify p.hashed_password secret ≡ true)
      × (b'.user ≡ b.user)
      × (db'.user_passwords ≡ db.user_passwords)
unfolding authenticate_session
authenticated_ok verify db now b b' secret db' h =
    let (p, e1, h1) =
      >>=-eq-ok (ok_or (latest_password b.user.id db.user_passwords) (fetch row_not_found)) _ h in
    let (x, e2, h2) = >>=-eq-ok (ensure (verify p.hashed_password secret) password_mismatch) _ h1 in
    (p, ground arith, ground arith, ground arith, ground arith)

set_password_ok :
    (hash : Text → Text → Option Text) (db : Db) (now : Timestamp) (salt : Text) (user : User)
    (secret : Text) (db' : Db)
    → set_password hash db now salt user secret ≡ ok db'
    → (h : Text) × (hash secret salt ≡ some h)
      × (db'.user_passwords
          ≡ db.user_passwords
            ++ record { user_id = user.id; hashed_password = h; created_at = now } ∷ [])
unfolding set_password
set_password_ok hash db now salt user secret db' h = elim (Option-cases (hash secret salt)) [
  | inl e ↦ absurd (ground arith)
  | inr (k, e) ↦ (k, e, ground arith)
]

changed :
    (env : ViewEnv) (moment : ViewMoment) (db : Db) (b : BrowserSession)
    (current new confirm : Text) (db' : Db)
    → change_maybe env moment db (some b) current new confirm ≡ ok (done, db')
    → (p : UserPasswordRow) × (latest_password b.user.id db.user_passwords ≡ some p)
      × (env.verify p.hashed_password current ≡ true)
      × (new ≡ confirm)
      × (h : Text) × (env.hash new moment.salt ≡ some h)
      × (db'.user_passwords
          ≡ db.user_passwords
            ++ record { user_id = b.user.id; hashed_password = h; created_at = moment.db_now } ∷ [])
unfolding change_maybe
changed env moment db b current new confirm db' h =
    let ((b', db1), e1, h1) =
      >>=-eq-ok
        (map_err authentication (authenticate_session env.verify db moment.db_now b current)) _ h in
    let (x, e2, h2) = >>=-eq-ok (ensure (text_eq new confirm) ViewError.password_mismatch) _ h1 in
    let (db2, e3, h3) =
      >>=-eq-ok (map_err storage (set_password env.hash db1 moment.db_now moment.salt b'.user new))
        _ h2 in
    let (p, latest, verified, user, same) =
      authenticated_ok env.verify db moment.db_now b b' current db1
        (map_err_ok authentication _ e1) in
    let (k, hashed, table) =
      set_password_ok env.hash db1 moment.db_now moment.salt b'.user new db2
        (map_err_ok storage _ e3) in
    let same_db : db2 ≡ db' = ground arith in
    (
      p,
      latest,
      verified,
      (text_eq_iff new confirm).0 (ground arith),
      k,
      hashed,
      ap (λ (d : Db). d.user_passwords) (sym same_db)
          ∙ table
          ∙ ap
              (λ (ps : List UserPasswordRow).
                ps
                ++ record { user_id = b'.user.id; hashed_password = k; created_at = moment.db_now }
                  ∷ [])
              same
          ∙ ap
              (λ (q : User).
                db.user_passwords
                ++ record { user_id = q.id; hashed_password = k; created_at = moment.db_now } ∷ [])
              user,
    )

-- A change of the password that succeeds in a session has verified the current password against the
-- latest one; if the passwords that are stored are older, the latest one is then the hash of the new
-- password, which was given twice.
pub post_password_page-latest :
    (env : ViewEnv) (moment : ViewMoment) (db : Db) (jar : Jar) (form current new confirm : Text)
    (info : SessionInfo) (b : BrowserSession) (jar1 : Jar) (db' : Db)
    → All (λ (q : UserPasswordRow). q.created_at < moment.db_now) db.user_passwords
    → signed_in env moment db jar form ≡ ok (info, some b, jar1)
    → post_password_page env moment db jar form current new confirm ≡ (ok done, db')
    → (p : UserPasswordRow) × (latest_password b.user.id db.user_passwords ≡ some p)
      × (env.verify p.hashed_password current ≡ true)
      × (new ≡ confirm)
      × (h : Text) × (env.hash new moment.salt ≡ some h)
      × (latest_password b.user.id db'.user_passwords
          ≡ some (record { user_id = b.user.id; hashed_password = h; created_at = moment.db_now }))
unfolding post_password_page
post_password_page-latest env moment db jar form current new confirm info b jar1 db' older signed
      h =
    let ((info', maybe, jar2), e1, h1) =
      >>=-eq-ok (signed_in env moment db jar form) _ (commit_ok db _ done db' h) in
    let both = sym e1 ∙ signed in
    let same : maybe ≡ some b = ground arith in
    let (p, latest, verified, twice, k, hashed, table) =
      changed env moment db b current new confirm db'
        (ap (λ m. change_maybe env moment db m current new confirm) (sym same) ∙ h1) in
    (
      p,
      latest,
      verified,
      twice,
      k,
      hashed,
      ap (latest_password b.user.id) table
          ∙ latest_password-append b.user.id db.user_passwords _ refl
              (All-mono _ _ db.user_passwords (λ q lt e. lt) older),
    )
