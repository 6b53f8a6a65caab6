-- ===== src/Compat/LoggedOut.antt =====
-- What a logout ends, crates/storage/src/compat.rs and crates/handlers/src/compat/logout.rs.

use turnkey_triumph_326606_m.Prelude.{
  ℕ, ◌≡◌, ◌≢◌, refl, sym, ap, ◌∙◌, Bool, true, false, ◌&&◌, none, some, List, [], ◌∷◌, map, Result,
  ok, err, ensure, map_err, Nothing, Text, text_eq, text_eq_iff, find, any, All, ◌⊎◌, if◌then◌else◌,
  inl, inr, Option-cases, Bool-cases, ◌==◌, length, retain, arith,
}
use turnkey_triumph_326606_m.Prelude.ResultMonad.{◌>>=◌, >>=-eq-ok, >>=-elim-ok, map_err_ok}
use turnkey_triumph_326606_m.Prelude.Finding.{All-mono, find-map, find_sound}
use turnkey_triumph_326606_m.Time.{Timestamp}
use turnkey_triumph_326606_m.Token.{check}
use turnkey_triumph_326606_m.Storage.Rows.{StorageError, UserRow, database, row_not_found}
use turnkey_triumph_326606_m.Storage.Lookups.{is_null}
use turnkey_triumph_326606_m.Storage.Table.{id_of_token, same_row}
use turnkey_triumph_326606_m.Storage.User.Ended.{exactly_one_ok}
use turnkey_triumph_326606_m.TokenEndpoint.Redeemed.{commit_ok}
use turnkey_triumph_326606_m.Compat.Session.{CompatSession}
use turnkey_triumph_326606_m.Compat.Rows.{CompatDb, CompatSessionRow, CompatAccessTokenRow}
use turnkey_triumph_326606_m.Compat.Lookup.{
  access_token_of_row, is_live, active_compat_session, lookup_active_compat_access_token,
}
use turnkey_triumph_326606_m.Compat.LookupLaws.{access_missing}
use turnkey_triumph_326606_m.Compat.Tokens.{is_joined, delete_joined, compat_logout}
use turnkey_triumph_326606_m.Compat.Rotation.{CompatTokensValid}
use turnkey_triumph_326606_m.Compat.Endpoint.{CompatEnv, CompatMoment}
use turnkey_triumph_326606_m.Compat.LogoutPost.{
  invalid_authorization, logout_failed, is_compat_access_token, logout_steps, post_logout,
}

abbrev pub has_text : Text → CompatAccessTokenRow → Bool
has_text token ct = text_eq ct.token token

-- An active session with the id of the access token, in place of the token's `compat_session_id`.
abbrev pub has_token_id : CompatAccessTokenRow → CompatSessionRow → Bool
has_token_id ct cs = cs.id == ct.id && is_null cs.deleted_at

abbrev pub end_by_token_id : CompatAccessTokenRow → Timestamp → CompatSessionRow → CompatSessionRow
end_by_token_id ct now cs = if has_token_id ct cs then record cs { deleted_at = some now } else cs

abbrev joins : Text → CompatSessionRow → CompatAccessTokenRow → Bool
joins token cs ct = text_eq ct.token token && cs.id == ct.id

joined_only :
    (token : Text) (i : ℕ) (cs : CompatSessionRow) (cts : List CompatAccessTokenRow)
    → All (λ (q : CompatAccessTokenRow). q.token ≡ token → q.id ≡ i) cts
    → any (joins token cs) cts ≡ true
    → (cs.id == i) ≡ true
joined_only token i cs [] v h = cc
joined_only token i cs (q ∷ cts) v h = elim (Bool-cases (joins token cs q)) [
  | inl e ↦ let same : q.id ≡ i = v.0 ((text_eq_iff q.token token).0 (ground arith)) in ground arith
  | inr e ↦ joined_only token i cs cts v.1 (ground arith)
]

joined :
    (token : Text) (cs : CompatSessionRow) (cts : List CompatAccessTokenRow)
    (ct : CompatAccessTokenRow)
    → find (has_text token) cts ≡ some ct
    → (cs.id == ct.id) ≡ true
    → any (joins token cs) cts ≡ true
joined token cs [] ct e h = cc
joined token cs (q ∷ cts) ct e h = elim (Bool-cases (text_eq q.token token)) [
  | inl k ↦
      let same : q ≡ ct = ground arith in
      let here : (cs.id == q.id) ≡ true =
        ap (λ (r : CompatAccessTokenRow). cs.id == r.id) same ∙ h in
      rw (k, here) refl
  | inr k ↦ ground (arith, joined token cs cts ct (ground arith) h)
]

-- In a table with unique tokens, the sessions that the query joins are those with the token's own id.
is_joined_lem :
    (token : Text) (cs : CompatSessionRow) (cts : List CompatAccessTokenRow)
    (ct : CompatAccessTokenRow)
    → All (λ (q : CompatAccessTokenRow). q.token ≡ token → q.id ≡ ct.id) cts
    → find (has_text token) cts ≡ some ct
    → is_joined cts token cs ≡ ((cs.id == ct.id) && is_null cs.deleted_at)
is_joined_lem token cs cts ct v e = elim (Bool-cases (any (joins token cs) cts)) [
  | inl k ↦ rw (k, joined_only token ct.id cs cts v k) refl
  | inr k ↦ elim (Bool-cases (cs.id == ct.id)) [
    | inl h ↦ let yes = joined token cs cts ct e h in absurd (ground arith)
    | inr h ↦ rw (k, h) refl
  ]
]

compat_logout_ok :
    (db : CompatDb) (now : Timestamp) (token : Text) (db' : CompatDb)
    → compat_logout db now token ≡ ok db'
    → (length (retain (is_joined db.access_tokens token) db.sessions) ≡ 1)
      × (db' ≡ record db { sessions = map (delete_joined db.access_tokens now token) db.sessions })
unfolding compat_logout
compat_logout_ok db now token db' h = exactly_one_ok _ _ _ h

no_session :
    (db : CompatDb) (i : ℕ)
    → find (λ (r : CompatSessionRow). r.id == i) db.sessions ≡ none
    → active_compat_session db i ≡ err (database row_not_found)
unfolding active_compat_session
no_session db i e = rw e refl

deleted_session :
    (db : CompatDb) (i : ℕ) (cs : CompatSessionRow)
    → find (λ (r : CompatSessionRow). r.id == i) db.sessions ≡ some cs
    → is_null cs.deleted_at ≡ false
    → active_compat_session db i ≡ err (database row_not_found)
unfolding active_compat_session
deleted_session db i cs e k =
    elim (Option-cases (find (λ (r : UserRow). r.id == cs.user_id) db.main.users)) [
      | inl n ↦ rw (e, n) refl
      | inr (u, n) ↦ rw (e, n, k) refl
    ]

same_session :
    (db db' : CompatDb) (i : ℕ)
    → find (λ (r : CompatSessionRow). r.id == i) db'.sessions
      ≡ find (λ (r : CompatSessionRow). r.id == i) db.sessions
    → db'.main ≡ db.main
    → active_compat_session db' i ≡ active_compat_session db i
unfolding active_compat_session
same_session db db' i e k = rw (e, k) refl

delete_id :
    (b : Bool) (now : Timestamp) (r : CompatSessionRow) (i : ℕ)
    → ((if b then record r { deleted_at = some now } else r).id == i) ≡ (r.id == i)
delete_id true now r i = refl
delete_id false now r i = refl

delete_null :
    (b : Bool) (now : Timestamp) (r : CompatSessionRow)
    → is_null r.deleted_at ≡ b
    → is_null (if b then record r { deleted_at = some now } else r).deleted_at ≡ false
delete_null true now r h = refl
delete_null false now r h = h

module _ (db : CompatDb) (now : Timestamp) (token : Text) (ct : CompatAccessTokenRow)
    (v : All (λ (q : CompatAccessTokenRow). q.token ≡ token → q.id ≡ ct.id) db.access_tokens)
    (e : find (has_text token) db.access_tokens ≡ some ct) where
  abbrev logged_out : CompatDb
  logged_out = record db { sessions = map (delete_joined db.access_tokens now token) db.sessions }

  deleted_as :
      (cs : CompatSessionRow)
      → delete_joined db.access_tokens now token cs ≡ (
          if cs.id == ct.id && is_null cs.deleted_at
          then record cs { deleted_at = some now }
          else cs)
  deleted_as cs =
      ap (λ b. if b then record cs { deleted_at = some now } else cs)
        (is_joined_lem token cs db.access_tokens ct v e)

  retain_as :
      (ss : List CompatSessionRow)
      → retain (has_token_id ct) ss ≡ retain (is_joined db.access_tokens token) ss
  retain_as [] = refl
  retain_as (cs ∷ ss) = rw (is_joined_lem token cs db.access_tokens ct v e, retain_as ss) refl

  map_as :
      (ss : List CompatSessionRow)
      → map (end_by_token_id ct now) ss ≡ map (delete_joined db.access_tokens now token) ss
  map_as [] = refl
  map_as (cs ∷ ss) = rw (deleted_as cs, map_as ss) refl

  found_after :
      (i : ℕ)
      → find (λ (r : CompatSessionRow). r.id == i) logged_out.sessions
        ≡ elim (find (λ (r : CompatSessionRow). r.id == i) db.sessions) [
          | none ↦ none
          | some cs ↦ some (delete_joined db.access_tokens now token cs)
        ]
  found_after i =
      find-map (λ (r : CompatSessionRow). r.id == i) (delete_joined db.access_tokens now token)
        db.sessions (λ r. delete_id (is_joined db.access_tokens token r) now r i)

  -- The session whose id is the token's own is not active.
  ended : active_compat_session logged_out ct.id ≡ err (database row_not_found)
  ended = elim (Option-cases (find (λ (r : CompatSessionRow). r.id == ct.id) db.sessions)) [
    | inl k ↦ no_session logged_out ct.id (found_after ct.id ∙ rw k refl)
    | inr (cs, k) ↦
        let (m, is) = find_sound (λ (r : CompatSessionRow). r.id == ct.id) db.sessions cs k in
        deleted_session logged_out ct.id (delete_joined db.access_tokens now token cs)
          (found_after ct.id ∙ rw k refl)
          (ap (λ (r : CompatSessionRow). is_null r.deleted_at) (deleted_as cs)
            ∙ rw is (delete_null (is_null cs.deleted_at) now cs refl))
  ]

  -- Any other session is as it was.
  others : (i : ℕ) → i ≢ ct.id → active_compat_session logged_out i ≡ active_compat_session db i
  others i ne = same_session db logged_out i (found_after i ∙ kept) refl
    where
      kept :
          elim (find (λ (r : CompatSessionRow). r.id == i) db.sessions) [
            | none ↦ none
            | some cs ↦ some (delete_joined db.access_tokens now token cs)
          ]
          ≡ find (λ (r : CompatSessionRow). r.id == i) db.sessions
      kept = elim (Option-cases (find (λ (r : CompatSessionRow). r.id == i) db.sessions)) [
        | inl k ↦ rw k refl
        | inr (cs, k) ↦
            let (m, is) = find_sound (λ (r : CompatSessionRow). r.id == i) db.sessions cs k in
            let other : (cs.id == ct.id) ≡ false = ground arith in
            rw k (ap some (deleted_as cs ∙ rw other refl))
      ]

lookup_live :
    (db : CompatDb) (t : Timestamp) (token : Text) (ct : CompatAccessTokenRow)
    (r : Result StorageError CompatSession)
    → find (is_live t token) db.access_tokens ≡ some ct
    → active_compat_session db ct.compat_session_id ≡ r
    → lookup_active_compat_access_token db t token ≡ (r >>= λ s. ok (access_token_of_row ct, s))
unfolding lookup_active_compat_access_token
lookup_live db t token ct r e k = rw (e, k) refl

if_same {ℓ} : {A : Type ℓ} (b : Bool) (a : A) → (if b then a else a) ≡ a
if_same true a = refl
if_same false a = refl

logout_steps_ok :
    (env : CompatEnv) (moment : CompatMoment) (db : CompatDb) (token : Text) (x : Nothing)
    (db' : CompatDb)
    → logout_steps env moment db (some token) ≡ ok (x, db')
    → compat_logout db moment.db_now token ≡ ok db'
unfolding logout_steps
logout_steps_ok env moment db token x db' h =
    >>=-elim-ok (map_err (λ _. invalid_authorization) (check env.crc32 token)) _ h (λ token_type h1.
      >>=-elim-ok (ensure (is_compat_access_token token_type) invalid_authorization) _ h1 (λ y h2.
        let (db1, e, h3) =
          >>=-eq-ok (map_err (λ _. logout_failed) (compat_logout db moment.db_now token)) _ h2 in
        let same : db1 ≡ db' = ground arith in map_err_ok (λ _. logout_failed) _ e ∙ ap ok same))

-- In tables that meet their constraints, a logout that succeeds ends the one active session whose id is
-- the id of the access token, and changes nothing else: this is the token's own session only if these
-- ids are the same. The access token is accepted exactly as before if they differ, and not at all if
-- they do not.
pub post_logout-by_token_id :
    (env : CompatEnv) (moment : CompatMoment) (db : CompatDb) (token : Text)
    (ct : CompatAccessTokenRow) (x : Nothing) (db' : CompatDb) (t : Timestamp)
    → CompatTokensValid db
    → find (has_text token) db.access_tokens ≡ some ct
    → post_logout env moment db (some token) ≡ (ok x, db')
    → (length (retain (has_token_id ct) db.sessions) ≡ 1)
      × (db' ≡ record db { sessions = map (end_by_token_id ct moment.db_now) db.sessions })
      × (active_compat_session db' ct.id ≡ err (database row_not_found))
      × (lookup_active_compat_access_token db' t token ≡ (
          if ct.compat_session_id == ct.id
          then err (database row_not_found)
          else lookup_active_compat_access_token db t token))
unfolding post_logout
post_logout-by_token_id env moment db token ct x db' t v e h =
    let (one, out) =
      compat_logout_ok db moment.db_now token db'
        (logout_steps_ok env moment db token x db' (commit_ok db _ x db' h)) in
    (
      ap length (retain_as db moment.db_now token ct ids e db.sessions) ∙ one,
      out
          ∙ sym (
              ap (λ (ss : List CompatSessionRow). record db { sessions = ss })
                (map_as db moment.db_now token ct ids e db.sessions)),
      ap (λ (d : CompatDb). active_compat_session d ct.id) out
          ∙ ended db moment.db_now token ct ids e,
      ap (λ (d : CompatDb). lookup_active_compat_access_token d t token) out
          ∙ go (Option-cases (find (is_live t token) db.access_tokens)),
    )
  where
    ids : All (λ (q : CompatAccessTokenRow). q.token ≡ token → q.id ≡ ct.id) db.access_tokens
    ids =
        let (m, is) = find_sound (has_text token) db.access_tokens ct e in
        All-mono _ _ db.access_tokens
          (λ q same k. same (k ∙ sym ((text_eq_iff ct.token token).0 is)))
          (id_of_token (λ r. r.id) (λ r. r.token) db.next_access_token_id db.access_tokens ct v.0 m)

    after : CompatDb
    after = logged_out db moment.db_now token ct ids e

    go :
        (find (is_live t token) db.access_tokens ≡ none)
          ⊎ ((r : CompatAccessTokenRow) × (find (is_live t token) db.access_tokens ≡ some r))
        → lookup_active_compat_access_token after t token ≡ (
            if ct.compat_session_id == ct.id
            then err (database row_not_found)
            else lookup_active_compat_access_token db t token)
    go (inl k) =
        access_missing after t token k
        ∙ sym (if_same (ct.compat_session_id == ct.id) (err (database row_not_found)))
        ∙ ap (λ z. if ct.compat_session_id == ct.id then err (database row_not_found) else z)
            (sym (access_missing db t token k))
    go (inr (r, k)) =
        let (m, is) = find_sound (has_text token) db.access_tokens ct e in
        let (n, live) = find_sound (is_live t token) db.access_tokens r k in
        let text : r.token ≡ token = (text_eq_iff r.token token).0 (ground arith) in
        let same : r ≡ ct =
          same_row (λ r. r.id) (λ r. r.token) db.next_access_token_id db.access_tokens r ct v.0 n m
            (text ∙ sym ((text_eq_iff ct.token token).0 is)) in
        let hit : find (is_live t token) db.access_tokens ≡ some ct = k ∙ ap some same in
        elim (Bool-cases (ct.compat_session_id == ct.id)) [
          | inl c ↦
              let equal : ct.compat_session_id ≡ ct.id = ground arith in
              lookup_live after t token ct _ hit
                (ap (active_compat_session after) equal ∙ ended db moment.db_now token ct ids e)
              ∙ rw c refl
          | inr c ↦
              lookup_live after t token ct _ hit
                (others db moment.db_now token ct ids e ct.compat_session_id (ground arith))
              ∙ sym (lookup_live db t token ct _ hit refl)
              ∙ rw c refl
        ]
