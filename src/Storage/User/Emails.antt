-- ===== src/Storage/User/Emails.antt =====
-- The email addresses of a user, crates/storage/src/user.rs.
use turnkey_triumph_326606_m.Prelude.{
  ℕ, ◌+◌, Bool, ◌&&◌, not, Option, none, some, [], ◌∷◌, ◌++◌, map, Result, ok, err, ok_or, Text,
  text_eq, find, any, retain, if◌then◌else◌, ◌==◌,
}
use turnkey_triumph_326606_m.Prelude.ResultMonad.{◌>>=◌}
use turnkey_triumph_326606_m.Time.{Timestamp}
use turnkey_triumph_326606_m.Model.User.{User, UserEmail}
use turnkey_triumph_326606_m.Storage.Rows.{
  Db, UserRow, UserEmailRow, VerificationRow, StorageError, database, row_not_found,
}

-- `From<UserEmailLookup>`
abbrev pub email_of_row : UserEmailRow → UserEmail
email_of_row ue = record {
  id = ue.id;
  email = ue.email;
  created_at = ue.created_at;
  confirmed_at = ue.confirmed_at;
}

abbrev pub has_id : ℕ → UserEmailRow → Bool
has_id id ue = ue.id == id

unfoldable pub get_user_email : Db → User → ℕ → Result StorageError UserEmail
get_user_email db user id = do
  ue ←
      ok_or (find (λ (ue : UserEmailRow). ue.user_id == user.id && ue.id == id) db.user_emails)
        (database row_not_found)
  ok (email_of_row ue)

unfoldable pub lookup_user_email : Db → User → Text → Result StorageError UserEmail
lookup_user_email db user email = do
  ue ←
      ok_or
        (find (λ (ue : UserEmailRow). ue.user_id == user.id && text_eq ue.email email)
          db.user_emails)
        (database row_not_found)
  ok (email_of_row ue)

-- The same query as `get_user_email`.
unfoldable pub lookup_user_email_by_id : Db → User → ℕ → Result StorageError UserEmail
lookup_user_email_by_id db user id = do
  ue ←
      ok_or (find (λ (ue : UserEmailRow). ue.user_id == user.id && ue.id == id) db.user_emails)
        (database row_not_found)
  ok (email_of_row ue)

abbrev pub new_email_row : Db → Timestamp → User → Text → UserEmailRow
new_email_row db now user email = record {
  id = db.next_user_email_id;
  user_id = user.id;
  email = email;
  created_at = now;
  confirmed_at = none;
}

unfoldable pub add_user_email : Db → Timestamp → User → Text → UserEmail × Db
add_user_email db now user email = (
  email_of_row (new_email_row db now user email),
  record db {
    user_emails = db.user_emails ++ new_email_row db now user email ∷ [];
    next_user_email_id = db.next_user_email_id + 1;
  },
)

abbrev pub make_primary : UserEmailRow → UserRow → UserRow
make_primary ue u = if u.id == ue.user_id then record u { primary_email_id = some ue.id } else u

-- `UPDATE users … FROM user_emails`: no row of `users` is updated if there is no such email.
unfoldable pub set_user_email_as_primary : Db → UserEmail → Db
set_user_email_as_primary db email = elim (find (has_id email.id) db.user_emails) [
  | none ↦ db
  | some ue ↦ record db { users = map (make_primary ue) db.users }
]

-- `ON DELETE SET NULL` of the users' `primary_email_id`.
abbrev pub clear_id : ℕ → Option ℕ → Option ℕ
clear_id id none = none
clear_id id (some i) = if i == id then none else some i

abbrev pub clear_primary : ℕ → UserRow → UserRow
clear_primary id u = record u { primary_email_id = clear_id id u.primary_email_id }

-- The verifications of the email are deleted with it, `ON DELETE CASCADE`.
unfoldable pub remove_user_email : Db → UserEmail → Db
remove_user_email db email = record db {
  user_emails = retain (λ (ue : UserEmailRow). not (ue.id == email.id)) db.user_emails;
  users = map (clear_primary email.id) db.users;
  verifications =
      retain (λ (ev : VerificationRow). not (ev.user_email_id == email.id)) db.verifications;
}

abbrev pub confirm : Timestamp → ℕ → UserEmailRow → UserEmailRow
confirm now id ue = if ue.id == id then record ue { confirmed_at = some now } else ue

unfoldable pub mark_user_email_as_verified :
    Db → Timestamp → UserEmail → Result StorageError (UserEmail × Db)
mark_user_email_as_verified db now email =
    if any (has_id email.id) db.user_emails
    then ok (
      record email { confirmed_at = some now },
      record db { user_emails = map (confirm now email.id) db.user_emails },
    )
    else err (database row_not_found)
