-- ===== src/Storage/GrantStage/Laws.antt =====
-- What the lookup of a grant answers after `exchange_grant`,
-- crates/storage/src/oauth2/authorization_grant.rs.
use turnkey_triumph_326606_m.Prelude.{
  ℕ, ◌≡◌, refl, ap, ◌∙◌, Option, none, some, List, ok, map_err, Text, find, inl, inr, Option-cases,
  if◌then◌else◌, arith, ◌==◌,
}
use turnkey_triumph_326606_m.Prelude.ResultMonad.{◌>>=◌, >>=-eq-ok, >>=-map-ok, >>=-elim-ok}
use turnkey_triumph_326606_m.Prelude.Finding.{find-map}
use turnkey_triumph_326606_m.Time.{Timestamp}
use turnkey_triumph_326606_m.Scope.{Scope, from_str}
use turnkey_triumph_326606_m.Model.Client.{Client}
use turnkey_triumph_326606_m.Model.Session.{Session}
use turnkey_triumph_326606_m.Model.Grant.{
  AuthorizationGrantStage, fulfilled, exchanged, AuthorizationGrant,
}
use turnkey_triumph_326606_m.Storage.Rows.{
  Db, GrantRow, AccessTokenRow, RefreshTokenRow, inconsistency, panicked,
}
use turnkey_triumph_326606_m.Storage.Lookups.{lookup_client, email_of, authentication_of}
use turnkey_triumph_326606_m.Storage.GrantLookup.{
  GrantLookup, session_of_columns, stage_of, pkce_of, code_of, mode_of, max_age_of, url_of,
  assemble, into_authorization_grant,
}
use turnkey_triumph_326606_m.Storage.Grant.{code_matches, grant_columns, lookup_grant_by_code}
use turnkey_triumph_326606_m.Storage.GrantStage.{update_grant, set_exchanged, exchange_grant}

exchanged_columns : Timestamp → GrantLookup → GrantLookup
exchanged_columns x g = record g { grant_exchanged_at = some x }

stage_of-fulfilled :
    (a b c : Option Timestamp) (d : Option Session) (s : Session) (f : Timestamp)
    → stage_of a b c d ≡ ok (fulfilled s f)
    → (x : Timestamp) → stage_of a (some x) c d ≡ ok (exchanged s f x)
unfolding stage_of
stage_of-fulfilled none none none none s f h x = cc
stage_of-fulfilled none none none (some d) s f h x = cc
stage_of-fulfilled none none (some c) none s f h x = cc
stage_of-fulfilled none none (some c) (some d) s f h x = cc
stage_of-fulfilled none (some b) none none s f h x = cc
stage_of-fulfilled none (some b) none (some d) s f h x = cc
stage_of-fulfilled none (some b) (some c) none s f h x = cc
stage_of-fulfilled none (some b) (some c) (some d) s f h x = cc
stage_of-fulfilled (some a) none none none s f h x = cc
stage_of-fulfilled (some a) none none (some d) s f h x = ground arith
stage_of-fulfilled (some a) none (some c) none s f h x = cc
stage_of-fulfilled (some a) none (some c) (some d) s f h x = cc
stage_of-fulfilled (some a) (some b) none none s f h x = cc
stage_of-fulfilled (some a) (some b) none (some d) s f h x = cc
stage_of-fulfilled (some a) (some b) (some c) none s f h x = cc
stage_of-fulfilled (some a) (some b) (some c) (some d) s f h x = cc

module _ (parse_url : Text → Option Text) (db : Db) where
  assemble-exchanged :
      (g : GrantLookup) (scope : Scope) (client : Client) (stage : AuthorizationGrantStage)
      (a : AuthorizationGrant)
      → assemble parse_url g scope client stage ≡ ok a
      → (x : Timestamp) (stage' : AuthorizationGrantStage)
      → assemble parse_url (exchanged_columns x g) scope client stage'
        ≡ ok (record a { stage = stage' })
  unfolding assemble exchanged_columns
  assemble-exchanged g scope client stage a h x stage' =
      >>=-map-ok (pkce_of g.grant_code_challenge g.grant_code_challenge_method) _ _ h (λ pkce h1.
        >>=-map-ok (code_of g.grant_response_type_code g.grant_code pkce) _ _ h1 (λ code h2.
          >>=-map-ok (url_of parse_url g.grant_redirect_uri) _ _ h2 (λ uri h3.
            >>=-map-ok (mode_of g.grant_response_mode) _ _ h3 (λ mode h4.
              >>=-map-ok (max_age_of g.grant_max_age) _ _ h4 (λ age h5. ground arith)))))

  assemble-stage :
      (g : GrantLookup) (scope : Scope) (client : Client) (stage : AuthorizationGrantStage)
      (a : AuthorizationGrant)
      → assemble parse_url g scope client stage ≡ ok a
      → (stage ≡ a.stage) × (a.id ≡ g.grant_id)
  unfolding assemble
  assemble-stage g scope client stage a h =
      >>=-elim-ok (pkce_of g.grant_code_challenge g.grant_code_challenge_method) _ h (λ pkce h1.
        >>=-elim-ok (code_of g.grant_response_type_code g.grant_code pkce) _ h1 (λ code h2.
          >>=-elim-ok (url_of parse_url g.grant_redirect_uri) _ h2 (λ uri h3.
            >>=-elim-ok (mode_of g.grant_response_mode) _ h3 (λ mode h4.
              >>=-elim-ok (max_age_of g.grant_max_age) _ h4
                (λ age h5. (ground arith, ground arith))))))

  into_authorization_grant-exchanged :
      (g : GrantLookup) (a : AuthorizationGrant) (s : Session) (f : Timestamp)
      → into_authorization_grant parse_url db g ≡ ok a
      → a.stage ≡ fulfilled s f
      → (x : Timestamp)
      → into_authorization_grant parse_url db (exchanged_columns x g)
        ≡ ok (record a { stage = exchanged s f x })
  unfolding into_authorization_grant exchanged_columns
  into_authorization_grant-exchanged g a s f h e x =
      >>=-map-ok (map_err (λ _. inconsistency) (from_str g.grant_scope)) _ _ h (λ scope h1.
        >>=-map-ok (map_err (λ _. panicked) (lookup_client db g.oauth2_client_id)) _ _ h1
          (λ client h2.
            >>=-map-ok (authentication_of g.last_authentication_id g.last_authentication_created_at)
              _ _ h2
              (λ auth h3.
                >>=-map-ok
                  (email_of g.user_email_id g.user_email g.user_email_created_at
                    g.user_email_confirmed_at)
                  _ _ h3
                  (λ email h4.
                    >>=-map-ok
                      (session_of_columns client scope g.session_id g.user_session_id
                        g.user_session_created_at g.user_id g.user_username auth email)
                      _ _ h4
                      (λ session h5.
                        let (stage, e6, h6) =
                          >>=-eq-ok
                            (stage_of g.grant_fulfilled_at g.grant_exchanged_at g.grant_cancelled_at
                              session)
                            (assemble parse_url g scope client) h5 in
                        ap (λ r. r >>= assemble parse_url (exchanged_columns x g) scope client)
                          (stage_of-fulfilled g.grant_fulfilled_at g.grant_exchanged_at
                            g.grant_cancelled_at session s f
                            (e6 ∙ ap ok ((assemble-stage g scope client stage a h6).0 ∙ e)) x)
                        ∙ assemble-exchanged g scope client stage a h6 x (exchanged s f x))))))

  into_authorization_grant-id :
      (g : GrantLookup) (a : AuthorizationGrant)
      → into_authorization_grant parse_url db g ≡ ok a
      → a.id ≡ g.grant_id
  unfolding into_authorization_grant
  into_authorization_grant-id g a h =
      >>=-elim-ok (map_err (λ _. inconsistency) (from_str g.grant_scope)) _ h (λ scope h1.
        >>=-elim-ok (map_err (λ _. panicked) (lookup_client db g.oauth2_client_id)) _ h1
          (λ client h2.
            >>=-elim-ok
              (authentication_of g.last_authentication_id g.last_authentication_created_at) _ h2
              (λ auth h3.
                >>=-elim-ok
                  (email_of g.user_email_id g.user_email g.user_email_created_at
                    g.user_email_confirmed_at)
                  _ h3
                  (λ email h4.
                    >>=-elim-ok
                      (session_of_columns client scope g.session_id g.user_session_id
                        g.user_session_created_at g.user_id g.user_username auth email)
                      _ h4
                      (λ session h5.
                        >>=-elim-ok
                          (stage_of g.grant_fulfilled_at g.grant_exchanged_at g.grant_cancelled_at
                            session)
                          _ h5 (λ stage h6. (assemble-stage g scope client stage a h6).1))))))

  lookup_grant_by_code_found :
      (code : Text) (a : AuthorizationGrant)
      → lookup_grant_by_code parse_url db code ≡ ok a
      → (g : GrantRow) × (find (code_matches code) db.grants ≡ some g)
        × (into_authorization_grant parse_url db (grant_columns db g) ≡ ok a)
  unfolding lookup_grant_by_code
  lookup_grant_by_code_found code a h = elim (Option-cases (find (code_matches code) db.grants)) [
    | inl e ↦ ground arith
    | inr (g, e) ↦ (g, e, ground arith)
  ]

  pub exchange_grant_ok :
      (now : Timestamp) (a a' : AuthorizationGrant) (db' : Db)
      → exchange_grant db now a ≡ ok (a', db')
      → db' ≡ update_grant a.id (set_exchanged now) db
  unfolding exchange_grant
  exchange_grant_ok now a a' db' h = ground arith

  find-update_grant :
      (id : ℕ) (now : Timestamp) (code : Text) (g : GrantRow)
      → find (code_matches code) db.grants ≡ some g
      → id ≡ g.id
      → find (code_matches code) (update_grant id (set_exchanged now) db).grants
        ≡ some (set_exchanged now g)
  find-update_grant id now code g e same =
      find-map (code_matches code) (λ r. if r.id == id then set_exchanged now r else r) db.grants
        (λ r. ground arith)
      ∙ rw (e, same) (ground arith)

  lookup_grant_by_code-update_grant :
      (id : ℕ) (now : Timestamp) (code : Text) (g : GrantRow)
      → find (code_matches code) (update_grant id (set_exchanged now) db).grants
        ≡ some (set_exchanged now g)
      → lookup_grant_by_code parse_url (update_grant id (set_exchanged now) db) code
        ≡ into_authorization_grant parse_url db (exchanged_columns now (grant_columns db g))
  unfolding lookup_grant_by_code into_authorization_grant exchanged_columns grant_columns
      lookup_client
  lookup_grant_by_code-update_grant id now code g e = rw e refl

  -- A fulfilled grant that is found by its code and exchanged is found again, with no change but its
  -- stage.
  pub lookup-exchange_grant :
      (code : Text) (a : AuthorizationGrant) (s : Session) (f now : Timestamp)
      (a' : AuthorizationGrant) (db' : Db)
      → lookup_grant_by_code parse_url db code ≡ ok a
      → a.stage ≡ fulfilled s f
      → exchange_grant db now a ≡ ok (a', db')
      → lookup_grant_by_code parse_url db' code ≡ ok (record a { stage = exchanged s f now })
  lookup-exchange_grant code a s f now a' db' found stage done =
      let (g, eg, ei) = lookup_grant_by_code_found code a found in
      let same : a.id ≡ g.id =
        into_authorization_grant-id (grant_columns db g) a ei ∙ unfold grant_columns in refl in
      rw (exchange_grant_ok now a a' db' done) (
        lookup_grant_by_code-update_grant a.id now code g
          (find-update_grant a.id now code g eg same)
        ∙ into_authorization_grant-exchanged (grant_columns db g) a s f ei stage now)

  -- A grant is read from none of the token tables.
  pub lookup_grant_by_code-tokens :
      (ats : List AccessTokenRow) (rts : List RefreshTokenRow) (n m : ℕ) (code : Text)
      → lookup_grant_by_code parse_url
          (record db {
            access_tokens = ats;
            refresh_tokens = rts;
            next_access_token_id = n;
            next_refresh_token_id = m;
          })
          code
        ≡ lookup_grant_by_code parse_url db code
  unfolding lookup_grant_by_code into_authorization_grant grant_columns lookup_client
  lookup_grant_by_code-tokens ats rts n m code = refl
