-- ===== src/Storage/User/Verification.antt =====
-- The codes that verify an email address, crates/storage/src/user.rs.
use turnkey_triumph_326606_m.Prelude.{
  ℕ, ◌+◌, Bool, true, false, ◌&&◌, Option, none, some, [], ◌∷◌, ◌++◌, map, Result, ok, ok_or,
  ensure, Text, text_eq, find, any, not, if◌then◌else◌, ◌==◌, ltb,
}
use turnkey_triumph_326606_m.Prelude.ResultMonad.{◌>>=◌}
use turnkey_triumph_326606_m.Time.{Timestamp}
use turnkey_triumph_326606_m.Model.User.{
  UserEmail, UserEmailVerificationState, already_used, expired, valid, UserEmailVerification,
}
use turnkey_triumph_326606_m.Storage.Rows.{
  Db, VerificationRow, StorageError, database, invalid_transition, unique_violation, row_not_found,
}

abbrev pub has_code : Text → ℕ → VerificationRow → Bool
has_code code email_id ev = text_eq ev.code code && ev.user_email_id == email_id

-- The state of a row, from `(ev.created_at + $3 < NOW())` and `consumed_at`.
abbrev pub state_of : Bool → Option Timestamp → UserEmailVerificationState
state_of true consumed_at = expired
state_of false (some when) = already_used when
state_of false none = valid

abbrev pub verification_of_row : Timestamp → ℕ → UserEmail → VerificationRow → UserEmailVerification
verification_of_row now max_age email ev = record {
  id = ev.id;
  code = ev.code;
  email = email;
  state = state_of (ltb (ev.created_at + max_age) now) ev.consumed_at;
  created_at = ev.created_at;
}

unfoldable pub lookup_user_email_verification_code :
    Db → Timestamp → UserEmail → Text → ℕ → Result StorageError UserEmailVerification
lookup_user_email_verification_code db now email code max_age = do
  ev ← ok_or (find (has_code code email.id) db.verifications) (database row_not_found)
  ok (verification_of_row now max_age email ev)

abbrev pub is_valid : UserEmailVerificationState → Bool
is_valid valid = true
is_valid expired = false
is_valid (already_used _) = false

abbrev pub consume : Timestamp → ℕ → VerificationRow → VerificationRow
consume now id ev = if ev.id == id then record ev { consumed_at = some now } else ev

unfoldable pub consume_email_verification :
    Db → Timestamp → UserEmailVerification → Result StorageError (UserEmailVerification × Db)
consume_email_verification db now verification = do
  _ ← ensure (is_valid verification.state) invalid_transition
  _ ←
      ensure (any (λ (ev : VerificationRow). ev.id == verification.id) db.verifications)
        (database row_not_found)
  ok (
    record verification { state = already_used now },
    record db { verifications = map (consume now verification.id) db.verifications },
  )

abbrev pub has_verification : Text → Db → Bool
has_verification code db = any (λ (ev : VerificationRow). text_eq ev.code code) db.verifications

abbrev pub new_verification : Db → Timestamp → UserEmail → Text → VerificationRow
new_verification db now email code = record {
  id = db.next_verification_id;
  user_email_id = email.id;
  code = code;
  created_at = now;
  consumed_at = none;
}

unfoldable pub add_user_email_verification_code :
    Db → Timestamp → UserEmail → Text → Result StorageError (UserEmailVerification × Db)
add_user_email_verification_code db now email code = do
  _ ← ensure (not (has_verification code db)) (database unique_violation)
  ok (
    record {
      id = db.next_verification_id;
      email = email;
      code = code;
      created_at = now;
      state = valid;
    },
    record db {
      verifications = db.verifications ++ new_verification db now email code ∷ [];
      next_verification_id = db.next_verification_id + 1;
    },
  )
