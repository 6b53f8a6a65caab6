-- ===== src/Views/Registered.antt =====
-- What a registration has stored, crates/handlers/src/views/register.rs.
use turnkey_triumph_326606_m.Prelude.{
  ℕ, ◌<◌, ◌≡◌, ◌≢◌, refl, sym, ap, ◌∙◌, ◌&&◌, none, List, [], ◌∷◌, ◌++◌, ok, err, map_err, ensure,
  Text, find, All, ◌==◌, arith,
}
use turnkey_triumph_326606_m.Prelude.ResultMonad.{>>=-eq-ok, map_err_ok}
use turnkey_triumph_326606_m.Prelude.Finding.{find-append_none}
use turnkey_triumph_326606_m.Prelude.Decimal.{decimal}
use turnkey_triumph_326606_m.Time.{Timestamp}
use turnkey_triumph_326606_m.Model.User.{User, UserEmail, UserEmailVerification}
use turnkey_triumph_326606_m.Cookies.{Jar}
use turnkey_triumph_326606_m.Cookies.Csrf.{csrf_token, verify_form}
use turnkey_triumph_326606_m.Storage.Rows.{Db, UserEmailRow, database, row_not_found}
use turnkey_triumph_326606_m.Storage.User.{new_user, register_user, start_session}
use turnkey_triumph_326606_m.Storage.User.Registered.{register_user_ok}
use turnkey_triumph_326606_m.Storage.User.Emails.{
  email_of_row, new_email_row, add_user_email, lookup_user_email_by_id,
}
use turnkey_triumph_326606_m.Storage.User.Verification.{add_user_email_verification_code}
use turnkey_triumph_326606_m.TokenEndpoint.Redeemed.{commit_ok}
use turnkey_triumph_326606_m.Views.{ViewEnv, ViewMoment, csrf, storage, bad_address, mail}
use turnkey_triumph_326606_m.Views.Register.{
  RegisterForm, FormError, verify_email_page, validate, register_steps, register_valid,
  post_register_page,
}

no_email :
    (i j : ℕ) (es : List UserEmailRow)
    → All (λ (e : UserEmailRow). e.user_id < i) es
    → find (λ (e : UserEmailRow). e.user_id == i && e.id == j) es ≡ none
no_email i j [] h = refl
no_email i j (e ∷ es) h = ground (arith, no_email i j es h.1)

-- The emails of a database in which a new user's has been added.
module _ (db : Db) (now : Timestamp) (user : User) (email : Text) (d : Db)
    (table : d.user_emails ≡ db.user_emails ++ new_email_row db now user email ∷ [])
    (valid : All (λ (e : UserEmailRow). e.user_id < user.id) db.user_emails) where
  abbrev row : UserEmailRow
  row = new_email_row db now user email

  find_email :
      (j : ℕ)
      → find (λ (e : UserEmailRow). e.user_id == user.id && e.id == j) d.user_emails
        ≡ find (λ (e : UserEmailRow). e.user_id == user.id && e.id == j) (row ∷ [])
  find_email j =
      ap (find (λ (e : UserEmailRow). e.user_id == user.id && e.id == j)) table
      ∙ find-append_none (λ (e : UserEmailRow). e.user_id == user.id && e.id == j) db.user_emails
          (row ∷ []) (no_email user.id j db.user_emails valid)

  email_found : lookup_user_email_by_id d user db.next_user_email_id ≡ ok (email_of_row row)
  unfolding lookup_user_email_by_id
  email_found = rw (find_email db.next_user_email_id) (ground arith)

  email_missing :
      (j : ℕ)
      → j ≢ db.next_user_email_id
      → lookup_user_email_by_id d user j ≡ err (database row_not_found)
  unfolding lookup_user_email_by_id
  email_missing j ne = rw (find_email j) (ground arith)

add_code_ok :
    (db : Db) (now : Timestamp) (email : UserEmail) (code : Text) (v : UserEmailVerification)
    (db' : Db)
    → add_user_email_verification_code db now email code ≡ ok (v, db')
    → (v.id ≡ db.next_verification_id) × (db'.user_emails ≡ db.user_emails)
unfolding add_user_email_verification_code
add_code_ok db now email code v db' h = (ground arith, ground arith)

start_emails :
    (db : Db) (now : Timestamp) (user : User)
    → (start_session db now user).1.user_emails ≡ db.user_emails
unfolding start_session
start_emails db now user = refl

valid_steps :
    (env : ViewEnv) (moment : ViewMoment) (es : List FormError) (db : Db) (jar : Jar)
    (form : RegisterForm) (id : ℕ) (jar' : Jar) (db' : Db)
    → register_valid env moment es db jar form ≡ ok ((verify_email_page id, jar'), db')
    → register_steps env moment db jar form ≡ ok ((verify_email_page id, jar'), db')
valid_steps env moment [] db jar form id jar' db' h = h
valid_steps env moment (e ∷ es) db jar form id jar' db' h = absurd (ground arith)

module _ (env : ViewEnv) (moment : ViewMoment) (db : Db) (jar : Jar) (form : RegisterForm) (id : ℕ)
    (jar' : Jar) (db' : Db) where
  -- The page's id, and the emails.
  steps_ok :
      register_steps env moment db jar form ≡ ok ((verify_email_page id, jar'), db')
      → (id ≡ db.next_verification_id)
        × (db'.user_emails
            ≡ db.user_emails
              ++ new_email_row db moment.db_now (new_user db form.username) form.email ∷ [])
  unfolding register_steps add_user_email
  steps_ok h =
      let ((user, db1), e1, h1) =
        >>=-eq-ok
          (map_err storage
            (register_user env.hash db moment.db_now moment.salt form.username form.password))
          _ h in
      let (k, hashed, free, eu, edb) =
        register_user_ok env.hash db moment.db_now moment.salt form.username form.password user db1
          (map_err_ok storage _ e1) in
      let added = add_user_email db1 moment.db_now user form.email in
      let (x, e2, h2) = >>=-eq-ok (ensure (env.is_address added.0.email) bad_address) _ h1 in
      let ((v, db3), e3, h3) =
        >>=-eq-ok
          (map_err storage
            (add_user_email_verification_code added.1 moment.db_now added.0 (decimal moment.code)))
          _ h2 in
      let (y, e4, h4) =
        >>=-eq-ok
          (ensure (env.send_verification_email user.username added.0.email (decimal moment.code))
            mail)
          _ h3 in
      let (ev, emails) =
        add_code_ok added.1 moment.db_now added.0 (decimal moment.code) v db3
          (map_err_ok storage _ e3) in
      let same_id : v.id ≡ id = ground arith in
      let same_db : (start_session db3 moment.db_now user).1 ≡ db' = ground arith in
      (
        sym same_id ∙ ev ∙ ap (λ (d : Db). d.next_verification_id) edb,
        ap (λ (d : Db). d.user_emails) (sym same_db)
            ∙ start_emails db3 moment.db_now user
            ∙ emails
            ∙ rw (edb, eu) refl,
      )

-- A registration that succeeds has stored the email for the new user; but the page that the user is
-- sent to holds the id of the verification, so that where the two sequences differ, and no email refers
-- to a user to come, the lookup of the email by that page fails.
pub post_register_page-verification_id :
    (env : ViewEnv) (moment : ViewMoment) (db : Db) (jar : Jar) (token : Text) (form : RegisterForm)
    (id : ℕ) (jar' : Jar) (db' : Db)
    → All (λ (e : UserEmailRow). e.user_id < db.next_user_id) db.user_emails
    → db.next_verification_id ≢ db.next_user_email_id
    → post_register_page env moment db jar token form ≡ (ok (verify_email_page id, jar'), db')
    → (id ≡ db.next_verification_id)
      × (email : UserEmail) × (lookup_user_email_by_id db'
            (new_user db form.username)
            db.next_user_email_id
          ≡ ok email)
      × (email.email ≡ form.email)
      × (lookup_user_email_by_id db' (new_user db form.username) id ≡ err (database row_not_found))
unfolding post_register_page
post_register_page-verification_id env moment db jar token form id jar' db' valid ne h =
    let (x, e1, h1) =
      >>=-eq-ok (map_err csrf (verify_form env.cookies moment.now jar token)) _
        (commit_ok db _ _ db' h) in
    let jar1 : Jar = (csrf_token env.cookies moment.now moment.random jar).1 in
    let (same, table) =
      steps_ok env moment db jar1 form id jar' db'
        (valid_steps env moment (validate env moment db form) db jar1 form id jar' db' h1) in
    (
      same,
      email_of_row (new_email_row db moment.db_now (new_user db form.username) form.email),
      email_found db moment.db_now (new_user db form.username) form.email db' table valid,
      refl,
      email_missing db moment.db_now (new_user db form.username) form.email db' table valid id
          (λ e. ne (sym same ∙ e)),
    )
