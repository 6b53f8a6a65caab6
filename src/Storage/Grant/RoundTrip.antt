-- ===== src/Storage/Grant/RoundTrip.antt =====
-- A grant that is created and then looked up, crates/storage/src/oauth2/authorization_grant.rs.
use Prim.Native.Nat.{min}
use turnkey_triumph_326606_m.Prelude.{
  ℕ, zero, suc, ◌+◌, ◌≤◌, ◌<◌, ◌≡◌, ◌≢◌, refl, ap, subst, ◌∙◌, true, false, Option, none, some, [],
  ◌∷◌, ◌++◌, find, ok, map_err, Text, text_eq_refl, arith,
}
use turnkey_triumph_326606_m.Prelude.Int.{pos}
use turnkey_triumph_326606_m.Prelude.ResultMonad.{>>=-ok}
use turnkey_triumph_326606_m.Prelude.Finding.{find-append_none, find-none_of_any}
use turnkey_triumph_326606_m.Time.{Timestamp}
use turnkey_triumph_326606_m.Scope.{from_str, to_string}
use turnkey_triumph_326606_m.Scope.Parse.{IsScope, from_str-to_string}
use turnkey_triumph_326606_m.Model.Grant.{
  PkceCodeChallengeMethod, plain, s256, Pkce, AuthorizationCode, ResponseMode, query, fragment,
  form_post, AuthorizationGrant, pending,
}
use turnkey_triumph_326606_m.Storage.Rows.{Db, inconsistency, panicked}
use turnkey_triumph_326606_m.Storage.Lookups.{column, lookup_client, email_of, authentication_of}
use turnkey_triumph_326606_m.Storage.AccessToken.{i32_max}
use turnkey_triumph_326606_m.Storage.GrantLookup.{
  session_of_columns, stage_of, method_of, pkce_of, code_of, mode_to_string, mode_of, max_age_of,
  url_of, assemble, into_authorization_grant,
}
use turnkey_triumph_326606_m.Storage.Grant.{
  method_to_string, NewGrant, pkce_column, max_age_column, code_matches, code_taken, new_grant_row,
  new_grant, new_authorization_grant, grant_columns, lookup_grant_by_code,
}

pkce_of-columns :
    (p : Option Pkce)
    → pkce_of (column (λ q. q.challenge) p) (column (λ q. method_to_string q.challenge_method) p)
      ≡ ok p
unfolding pkce_of method_of
pkce_of-columns none = refl
pkce_of-columns (some p) = go p.challenge p.challenge_method
  where
    go :
        (c : Text) (m : PkceCodeChallengeMethod)
        → pkce_of (some c) (some (method_to_string m))
          ≡ ok (some (record { challenge_method = m; challenge = c }))
    go c plain = refl
    go c s256 = refl

code_of-columns :
    (o : Option AuthorizationCode)
    → code_of (elim o [ none ↦ false | some _ ↦ true ]) (column (λ c. c.code) o) (pkce_column o)
      ≡ ok o
unfolding code_of
code_of-columns none = refl
code_of-columns (some c) = refl

mode_of-mode_to_string : (m : ResponseMode) → mode_of (mode_to_string m) ≡ ok m
unfolding mode_of mode_to_string
mode_of-mode_to_string query = refl
mode_of-mode_to_string fragment = refl
mode_of-mode_to_string form_post = refl

-- A `NonZeroU32` that fits an `i32`, if any.
abbrev pub IsMaxAge : Option ℕ → Type 0
IsMaxAge none = Unit
IsMaxAge (some n) = (0 < n) × (n ≤ i32_max)

max_age_of-column : (n : Option ℕ) → IsMaxAge n → max_age_of (max_age_column n) ≡ ok n
unfolding max_age_of
max_age_of-column none h = refl
max_age_of-column (some zero) h = absurd (omega (arith, h.0))
max_age_of-column (some (suc n)) h =
    let same : min (suc n) i32_max ≡ suc n = omega (arith, h.1) in
    ap (λ k. max_age_of (some (pos k))) same

-- What a request for a grant has to be for the database to give it back: its scope is one that the code
-- parses, its redirect URI is a URL as the parser prints it, and its client is stored.
pub record IsStorable (parse_url : Text → Option Text) (db : Db) (n : NewGrant) : Type 0 where
  pub scope : IsScope n.scope
  pub some_scope : n.scope ≢ []
  pub redirect_uri : parse_url n.redirect_uri ≡ some n.redirect_uri
  pub client : lookup_client db n.client.id ≡ ok n.client
  pub max_age : IsMaxAge n.max_age

module _ (parse_url : Text → Option Text) (db : Db) (now : Timestamp) (n : NewGrant) where
  assemble-new :
      IsStorable parse_url db n
      → assemble parse_url (grant_columns db (new_grant_row db now n)) n.scope n.client pending
        ≡ ok (new_grant db now n)
  unfolding assemble grant_columns code_of url_of
  assemble-new v =
      >>=-ok
        (pkce_of (column (λ q. q.challenge) (pkce_column n.code))
          (column (λ q. method_to_string q.challenge_method) (pkce_column n.code)))
        _ (pkce_of-columns (pkce_column n.code))
        (>>=-ok
          (code_of (elim n.code [ none ↦ false | some _ ↦ true ]) (column (λ q. q.code) n.code)
            (pkce_column n.code))
          _ (code_of-columns n.code)
          (>>=-ok (url_of parse_url n.redirect_uri) _ (rw (url_of, v.redirect_uri) refl) (
            >>=-ok (mode_of (mode_to_string n.response_mode)) _
              (mode_of-mode_to_string n.response_mode)
              (>>=-ok (max_age_of (max_age_column n.max_age)) _
                (max_age_of-column n.max_age v.max_age) refl))))

  into_authorization_grant-new :
      IsStorable parse_url db n
      → into_authorization_grant parse_url db (grant_columns db (new_grant_row db now n))
        ≡ ok (new_grant db now n)
  unfolding into_authorization_grant grant_columns authentication_of email_of session_of_columns
      stage_of
  into_authorization_grant-new v =
      >>=-ok (map_err (λ _. inconsistency) (from_str (to_string n.scope))) _
        (ap (map_err (λ _. inconsistency)) (from_str-to_string n.scope v.some_scope v.scope))
        (>>=-ok (map_err (λ _. panicked) (lookup_client db n.client.id)) _
          (ap (map_err (λ _. panicked)) v.client) (assemble-new v))

  new_authorization_grant_ok :
      (a : AuthorizationGrant) (db' : Db)
      → new_authorization_grant db now n ≡ ok (a, db')
      → (code_taken n.code db ≡ false)
        × (a ≡ new_grant db now n)
        × (db' ≡ record db {
          grants = db.grants ++ new_grant_row db now n ∷ [];
          next_grant_id = db.next_grant_id + 1;
        })
  unfolding new_authorization_grant
  new_authorization_grant_ok a db' h = ground arith

  find-new_grant_row :
      (c : AuthorizationCode)
      → n.code ≡ some c
      → code_taken n.code db ≡ false
      → find (code_matches c.code) (db.grants ++ new_grant_row db now n ∷ [])
        ≡ some (new_grant_row db now n)
  find-new_grant_row c e fresh =
      find-append_none (code_matches c.code) db.grants (new_grant_row db now n ∷ []) (
        find-none_of_any (code_matches c.code) (code_matches c.code) db.grants (λ g h. h)
          (subst (λ o. code_taken o db ≡ false) e fresh))
      ∙ rw (e, text_eq_refl c.code) refl

  lookup-with_grant :
      (c : AuthorizationCode)
      → find (code_matches c.code) (db.grants ++ new_grant_row db now n ∷ [])
        ≡ some (new_grant_row db now n)
      → lookup_grant_by_code parse_url
          (record db {
            grants = db.grants ++ new_grant_row db now n ∷ [];
            next_grant_id = db.next_grant_id + 1;
          })
          c.code
        ≡ into_authorization_grant parse_url db (grant_columns db (new_grant_row db now n))
  unfolding lookup_grant_by_code into_authorization_grant grant_columns lookup_client
  lookup-with_grant c e = rw e refl

  -- A grant that is created with a code is found by this code, just as it was created, if its request is
  -- one that can be stored.
  pub lookup-new_authorization_grant :
      IsStorable parse_url db n
      → (c : AuthorizationCode) → n.code ≡ some c
      → (a : AuthorizationGrant) (db' : Db) → new_authorization_grant db now n ≡ ok (a, db')
      → lookup_grant_by_code parse_url db' c.code ≡ ok a
  lookup-new_authorization_grant v c e a db' h =
      let (fresh, ea, edb) = new_authorization_grant_ok a db' h in
      rw (edb, ea)
        (lookup-with_grant c (find-new_grant_row c e fresh) ∙ into_authorization_grant-new v)
