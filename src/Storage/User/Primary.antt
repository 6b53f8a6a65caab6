-- ===== src/Storage/User/Primary.antt =====
-- The primary email of a user, crates/storage/src/user.rs.
use turnkey_triumph_326606_m.Prelude.{
  ◌≡◌, ◌≢◌, refl, sym, ap, ◌∙◌, Option, none, some, map, ok, Text, find, inl, inr, Option-cases,
  ◌==◌, arith, Result,
}
use turnkey_triumph_326606_m.Prelude.Finding.{find-map, find_sound}
use turnkey_triumph_326606_m.Model.User.{User, UserEmail}
use turnkey_triumph_326606_m.Storage.Rows.{Db, UserRow, UserEmailRow, StorageError}
use turnkey_triumph_326606_m.Storage.Lookups.{column, column?, primary_email_row, email_of, sub_of}
use turnkey_triumph_326606_m.Storage.User.{has_name, user_of_row, lookup_user_by_username}
use turnkey_triumph_326606_m.Storage.User.Emails.{
  email_of_row, has_id, make_primary, set_user_email_as_primary, clear_primary, remove_user_email,
}

abbrev pub read_email : Option UserEmailRow → Result StorageError (Option UserEmail)
read_email ue =
    email_of (column (λ e. e.id) ue) (column (λ e. e.email) ue) (column (λ e. e.created_at) ue)
      (column? (λ e. e.confirmed_at) ue)

read_email_ok : (ue : Option UserEmailRow) → read_email ue ≡ ok (column email_of_row ue)
unfolding email_of
read_email_ok none = refl
read_email_ok (some e) = refl

-- The columns of the primary email are never inconsistent: a user's row is always read.
pub user_of_row_lem :
    (db : Db) (u : UserRow)
    → user_of_row db u
      ≡ ok (record {
        id = u.id;
        username = u.username;
        sub = sub_of u.id;
        primary_email = column email_of_row (primary_email_row db u);
      })
unfolding user_of_row
user_of_row_lem db u = rw (read_email_ok (primary_email_row db u)) refl

abbrev pub read_user : Db → UserRow → User
read_user db u = record {
  id = u.id;
  username = u.username;
  sub = sub_of u.id;
  primary_email = column email_of_row (primary_email_row db u);
}

pub lookup_user_of_row :
    (db : Db) (username : Text) (u : UserRow)
    → find (has_name username) db.users ≡ some u
    → lookup_user_by_username db username ≡ ok (read_user db u)
unfolding lookup_user_by_username
lookup_user_of_row db username u e = rw e (user_of_row_lem db u)

no_user :
    (db : Db) (username : Text) (user : User)
    → find (has_name username) db.users ≡ none
    → lookup_user_by_username db username ≢ ok user
unfolding lookup_user_by_username
no_user db username user e k = ground arith

pub found_user :
    (db : Db) (username : Text) (user : User)
    → lookup_user_by_username db username ≡ ok user
    → (u : UserRow) × (find (has_name username) db.users ≡ some u) × (user ≡ read_user db u)
found_user db username user h = elim (Option-cases (find (has_name username) db.users)) [
  | inl e ↦ absurd (no_user db username user e h)
  | inr (u, e) ↦ let same = sym h ∙ lookup_user_of_row db username u e in (u, e, ground arith)
]

find-users :
    (db : Db) (username : Text) (f : UserRow → UserRow) (u : UserRow)
    → ((r : UserRow) → (f r).username ≡ r.username)
    → find (has_name username) db.users ≡ some u
    → find (has_name username) (map f db.users) ≡ some (f u)
find-users db username f u same e =
    find-map (has_name username) f db.users (λ r. rw (same r) refl) ∙ rw e refl

module _ (db : Db) (username : Text) (email : UserEmail) (u : UserRow) (ue : UserEmailRow)
    (named : find (has_name username) db.users ≡ some u)
    (stored : find (has_id email.id) db.user_emails ≡ some ue) (own : ue.user_id ≡ u.id) where
  abbrev with_primary : Db
  with_primary = record db { users = map (make_primary ue) db.users }

  set_primary : set_user_email_as_primary db email ≡ with_primary
  unfolding set_user_email_as_primary
  set_primary = rw (set_user_email_as_primary, stored) refl

  same_id : ue.id ≡ email.id
  same_id = let (m, e) = find_sound (has_id email.id) db.user_emails ue stored in ground arith

  made : make_primary ue u ≡ record u { primary_email_id = some ue.id }
  made = ground arith

  named_primary :
      find (has_name username) with_primary.users
      ≡ some (record u { primary_email_id = some ue.id })
  named_primary =
      find-users db username (make_primary ue) u (λ r. ground arith) named ∙ ap some made

  primary_read :
      primary_email_row with_primary (record u { primary_email_id = some ue.id }) ≡ some ue
  unfolding primary_email_row
  primary_read = ap (λ i. find (λ (e : UserEmailRow). e.id == i) db.user_emails) same_id ∙ stored

  looked_up :
      lookup_user_by_username with_primary username
      ≡ ok (record (read_user db u) { primary_email = some (email_of_row ue) })
  looked_up = lookup_user_of_row with_primary username _ named_primary ∙ rw primary_read refl

  removed_row :
      find (has_name username) (remove_user_email with_primary email).users
      ≡ some (record u { primary_email_id = none })
  unfolding remove_user_email
  removed_row =
      find-users with_primary username (clear_primary email.id) _ (λ r. refl) named_primary
      ∙ rw same_id (ground arith)

  no_primary :
      primary_email_row
        (remove_user_email with_primary email)
        (record u { primary_email_id = none })
      ≡ none
  unfolding primary_email_row
  no_primary = refl

  removed_lookup :
      lookup_user_by_username (remove_user_email with_primary email) username
      ≡ ok (record (read_user db u) { primary_email = none })
  removed_lookup =
      lookup_user_of_row (remove_user_email with_primary email) username _ removed_row
      ∙ rw no_primary refl

-- An email of a user that is set as primary is the one that the user is then looked up with; once it is
-- removed, the user is looked up with no primary email.
pub set_user_email_as_primary-lookup :
    (db : Db) (username : Text) (user : User) (email : UserEmail) (ue : UserEmailRow)
    → lookup_user_by_username db username ≡ ok user
    → find (has_id email.id) db.user_emails ≡ some ue
    → ue.user_id ≡ user.id
    → (lookup_user_by_username (set_user_email_as_primary db email) username
        ≡ ok (record user { primary_email = some (email_of_row ue) }))
      × (lookup_user_by_username
            (remove_user_email (set_user_email_as_primary db email) email)
            username
          ≡ ok (record user { primary_email = none }))
set_user_email_as_primary-lookup db username user email ue found stored own =
    let (u, named, same) = found_user db username user found in
    let mine : ue.user_id ≡ u.id = own ∙ ap (λ (q : User). q.id) same in
    rw (set_primary db username email u ue named stored mine, same)
      (
        looked_up db username email u ue named stored mine,
        removed_lookup db username email u ue named stored mine,
      )
