-- ===== src/Views/Removed.antt =====
-- What the removal of an email has checked and stored,
-- crates/handlers/src/views/account/emails/mod.rs.
use turnkey_triumph_326606_m.Prelude.{
  ℕ, ◌≡◌, refl, sym, ap, ◌∙◌, not, ◌&&◌, ◌==◌, Option, none, some, List, [], ◌∷◌, Text, Result, ok,
  err, ok_or, map_err, Nothing, nothing, find, retain, if◌then◌else◌, Bool-cases, inl, inr, arith,
}
use turnkey_triumph_326606_m.Prelude.Int.{ℤ, pos, negsuc}
use turnkey_triumph_326606_m.Prelude.ParseInt.{parse_i64}
use turnkey_triumph_326606_m.Prelude.ResultMonad.{>>=-eq-ok, map_err_ok}
use turnkey_triumph_326606_m.Model.User.{User, BrowserSession, UserEmail}
use turnkey_triumph_326606_m.Cookies.{Jar, session_info, load_session}
use turnkey_triumph_326606_m.Cookies.Csrf.{CsrfError, verify_form}
use turnkey_triumph_326606_m.Storage.Rows.{Db, UserEmailRow, database, row_not_found}
use turnkey_triumph_326606_m.Storage.User.Emails.{get_user_email, remove_user_email}
use turnkey_triumph_326606_m.TokenEndpoint.Redeemed.{commit_ok}
use turnkey_triumph_326606_m.Views.{ViewEnv, ViewMoment, csrf, storage}
use turnkey_triumph_326606_m.Views.Emails.{
  remove, emails_page, email_with, own_email, manage, manage_maybe, post_emails_page,
}

find-removed :
    (u i j : ℕ) (es : List UserEmailRow)
    → find
        (λ (ue : UserEmailRow). ue.user_id == u && ue.id == j)
        (retain (λ (ue : UserEmailRow). not (ue.id == i)) es)
      ≡ (if j == i then none else find (λ (ue : UserEmailRow). ue.user_id == u && ue.id == j) es)
find-removed u i j [] = ground arith
find-removed u i j (e ∷ es) = ground (arith, find-removed u i j es)

-- The removed email is found by no user, and every other one as before.
get_user_email-removed :
    (db : Db) (email : UserEmail) (user : User) (j : ℕ)
    → get_user_email (remove_user_email db email) user j
      ≡ (if j == email.id then err (database row_not_found) else get_user_email db user j)
unfolding get_user_email remove_user_email
get_user_email-removed db email user j = elim (Bool-cases (j == email.id)) [
  | inl e ↦ rw (find-removed user.id email.id j db.user_emails, e) refl
  | inr e ↦ rw (find-removed user.id email.id j db.user_emails, e) refl
]

found_id :
    (u i : ℕ) (es : List UserEmailRow) (ue : UserEmailRow)
    → find (λ (r : UserEmailRow). r.user_id == u && r.id == i) es ≡ some ue
    → ue.id ≡ i
found_id u i [] ue h = absurd (ground arith)
found_id u i (e ∷ es) ue h = ground (arith, found_id u i es ue)

get_user_email_id :
    (db : Db) (user : User) (i : ℕ) (email : UserEmail)
    → get_user_email db user i ≡ ok email
    → email.id ≡ i
unfolding get_user_email
get_user_email_id db user i email h =
    let (ue, e, h1) =
      >>=-eq-ok
        (ok_or (find (λ (r : UserEmailRow). r.user_id == user.id && r.id == i) db.user_emails)
          (database row_not_found))
        _ h in
    let found = found_id user.id i db.user_emails ue (ground arith) in ground arith

only : (y : Nothing) → ◌≡◌ {A = Result CsrfError Nothing} (ok y) (ok nothing)
only nothing = refl

email_with_ok :
    (db : Db) (user : User) (id : Option ℤ) (email : UserEmail)
    → email_with db user id ≡ ok email
    → (i : ℕ) × (id ≡ some (pos i)) × (get_user_email db user i ≡ ok email)
unfolding email_with
email_with_ok db user none email h = absurd (ground arith)
email_with_ok db user (some (negsuc n)) email h = absurd (ground arith)
email_with_ok db user (some (pos n)) email h = (n, refl, map_err_ok storage _ h)

module _ (env : ViewEnv) (moment : ViewMoment) (db : Db) (b : BrowserSession) (db' : Db) where
  managed :
      (current : BrowserSession) (id : Text)
      → manage env moment db current (remove id) ≡ ok (emails_page b, db')
      → (current ≡ b)
        × (email : UserEmail) × (own_email db current.user id ≡ ok email)
        × (remove_user_email db email ≡ db')
  unfolding manage
  managed current id h =
      let (email, e, h1) = >>=-eq-ok (own_email db current.user id) _ h in
      (ground arith, email, e, ground arith)

  managed_maybe :
      (maybe : Option BrowserSession) (jar : Jar) (form id : Text)
      → manage_maybe env moment db maybe jar form (remove id) ≡ ok (emails_page b, db')
      → (maybe ≡ some b)
        × (verify_form env.cookies moment.now jar form ≡ ok nothing)
        × (manage env moment db b (remove id) ≡ ok (emails_page b, db'))
  unfolding manage_maybe
  managed_maybe none jar form id h = absurd (ground arith)
  managed_maybe (some current) jar form id h =
      let (x, e, h1) = >>=-eq-ok (map_err csrf (verify_form env.cookies moment.now jar form)) _ h in
      let same = (managed current id h1).0 in
      (
        ap some same,
        map_err_ok csrf _ e ∙ only x,
        ap (λ (q : BrowserSession). manage env moment db q (remove id)) (sym same) ∙ h1,
      )

-- A removal of an email that is answered with the list of emails was sent with the cookie's CSRF token,
-- in the browser session that the list is for; its id was read as the number of an email of that
-- session's user; this email is then found by no user, and every other one is found as before.
pub post_emails_page-remove :
    (env : ViewEnv) (moment : ViewMoment) (db : Db) (jar : Jar) (form id : Text)
    (b : BrowserSession) (db' : Db) (user : User) (j : ℕ)
    → post_emails_page env moment db jar form (remove id) ≡ (ok (emails_page b), db')
    → (load_session db (session_info env.cookies jar).0 ≡ ok (some b))
      × (verify_form env.cookies moment.now (session_info env.cookies jar).1 form ≡ ok nothing)
      × (i : ℕ) × (email : UserEmail) × (parse_i64 id ≡ some (pos i))
      × (get_user_email db b.user i ≡ ok email)
      × (get_user_email db' user j
          ≡ (if j == i then err (database row_not_found) else get_user_email db user j))
unfolding post_emails_page own_email
post_emails_page-remove env moment db jar form id b db' user j h =
    let (maybe, e, h1) =
      >>=-eq-ok (map_err storage (load_session db (session_info env.cookies jar).0)) _
        (commit_ok db _ (emails_page b) db' h) in
    let (same, verified, steps) =
      managed_maybe env moment db b db' maybe (session_info env.cookies jar).1 form id h1 in
    let (_, email, own, removed) = managed env moment db b db' b id steps in
    let (i, read, found) = email_with_ok db b.user (parse_i64 id) email own in
    (
      map_err_ok storage _ e ∙ ap (λ (q : Option BrowserSession). ok q) same,
      verified,
      i,
      email,
      read,
      found,
      ap (λ (d : Db). get_user_email d user j) (sym removed)
          ∙ get_user_email-removed db email user j
          ∙ ap
              (λ (k : ℕ). if j == k then err (database row_not_found) else get_user_email db user j)
              (get_user_email_id db b.user i email found),
    )
