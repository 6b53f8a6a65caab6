-- ===== src/Storage/User/Consumed.antt =====
-- A verification code is consumed once, crates/storage/src/user.rs.
use turnkey_triumph_326606_m.Prelude.{
  ℕ, ◌≡◌, refl, sym, ap, subst, ◌∙◌, ◌≤◌, Bool, true, false, Option, none, some, map, ok, err, Text,
  find, inl, inr, Option-cases, ltb, ◌+◌, arith,
}
use turnkey_triumph_326606_m.Prelude.Finding.{find-map}
use turnkey_triumph_326606_m.Time.{Timestamp}
use turnkey_triumph_326606_m.Model.User.{UserEmail, UserEmailVerification}
use turnkey_triumph_326606_m.Storage.Rows.{Db, VerificationRow, invalid_transition}
use turnkey_triumph_326606_m.Storage.User.Verification.{
  has_code, state_of, verification_of_row, is_valid, consume, consume_email_verification,
  lookup_user_email_verification_code,
}

found_verification :
    (db : Db) (now : Timestamp) (email : UserEmail) (code : Text) (max_age : ℕ)
    (v : UserEmailVerification)
    → lookup_user_email_verification_code db now email code max_age ≡ ok v
    → (ev : VerificationRow) × (find (has_code code email.id) db.verifications ≡ some ev)
      × (v ≡ verification_of_row now max_age email ev)
unfolding lookup_user_email_verification_code
found_verification db now email code max_age v h =
    elim (Option-cases (find (has_code code email.id) db.verifications)) [
      | inl e ↦ absurd (ground arith)
      | inr (ev, e) ↦ (ev, e, ground arith)
    ]

consumed_db :
    (db : Db) (now : Timestamp) (v v' : UserEmailVerification) (db' : Db)
    → consume_email_verification db now v ≡ ok (v', db')
    → (is_valid v.state ≡ true)
      × (db' ≡ record db { verifications = map (consume now v.id) db.verifications })
unfolding consume_email_verification
consumed_db db now v v' db' h = (ground arith, ground arith)

lookup_of_row :
    (db : Db) (now : Timestamp) (email : UserEmail) (code : Text) (max_age : ℕ)
    (ev : VerificationRow)
    → find (has_code code email.id) db.verifications ≡ some ev
    → lookup_user_email_verification_code db now email code max_age
      ≡ ok (verification_of_row now max_age email ev)
unfolding lookup_user_email_verification_code
lookup_of_row db now email code max_age ev e = rw e refl

used_not_valid : (late : Bool) (when : Timestamp) → is_valid (state_of late (some when)) ≡ false
used_not_valid true when = refl
used_not_valid false when = refl

valid_of_row :
    (late : Bool) (consumed_at : Option Timestamp)
    → is_valid (state_of late consumed_at) ≡ true
    → (late ≡ false) × (consumed_at ≡ none)
valid_of_row true c h = cc
valid_of_row false none h = (refl, refl)
valid_of_row false (some when) h = cc

not_later : {a b : ℕ} → ltb a b ≡ false → b ≤ a
not_later h = ground arith

refused :
    (db : Db) (now : Timestamp) (v : UserEmailVerification)
    → is_valid v.state ≡ false
    → consume_email_verification db now v ≡ err invalid_transition
unfolding consume_email_verification
refused db now v e = rw e refl

-- A code that was looked up and consumed was not older than the maximal age, and is then found again
-- for its email at any time and for any maximal age, but as a verification that cannot be consumed.
pub consume_email_verification-once :
    (db : Db) (now : Timestamp) (email : UserEmail) (code : Text) (max_age : ℕ)
    (v v' : UserEmailVerification) (db' : Db)
    → lookup_user_email_verification_code db now email code max_age ≡ ok v
    → consume_email_verification db now v ≡ ok (v', db')
    → (now ≤ v.created_at + max_age)
      × ((t : Timestamp) (age : ℕ)
          → (w : UserEmailVerification) × (lookup_user_email_verification_code db' t email code age
              ≡ ok w)
            × (consume_email_verification db' t w ≡ err invalid_transition))
consume_email_verification-once db now email code max_age v v' db' found consumed =
    let (ev, e, same) = found_verification db now email code max_age v found in
    let (is_v, edb) = consumed_db db now v v' db' consumed in
    let same_id : v.id ≡ ev.id = ap (λ w. w.id) same in
    let row : find (has_code code email.id) db'.verifications
        ≡ some (record ev { consumed_at = some now }) =
      rw edb (
        find-map (has_code code email.id) (consume now v.id) db.verifications (λ r. ground arith)
        ∙ rw e (ground arith)) in
    let fresh =
      valid_of_row (ltb (ev.created_at + max_age) now) ev.consumed_at
        (ap (λ w. is_valid w.state) (sym same) ∙ is_v) in
    let window : now ≤ v.created_at + max_age =
      subst (λ (w : UserEmailVerification). now ≤ w.created_at + max_age) (sym same)
        (not_later fresh.0) in
    (
      window,
      λ t age. (
        verification_of_row t age email (record ev { consumed_at = some now }),
        lookup_of_row db' t email code age _ row,
        refused db' t _ (used_not_valid (ltb (ev.created_at + age) t) now),
      ),
    )
