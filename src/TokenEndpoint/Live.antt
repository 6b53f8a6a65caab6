-- ===== src/TokenEndpoint/Live.antt =====
-- The tokens that a code is exchanged for are accepted, crates/handlers/src/oauth2/token.rs.
use turnkey_triumph_326606_m.Prelude.{
  ◌+◌, ◌≤◌, ◌≡◌, refl, ap, subst, ◌∙◌, some, List, ok, Text, arith,
}
use turnkey_triumph_326606_m.Prelude.ResultMonad.{◌>>=◌}
use turnkey_triumph_326606_m.Time.{Timestamp, minutes}
use turnkey_triumph_326606_m.Model.Client.{Client}
use turnkey_triumph_326606_m.Model.Session.{Session, AccessToken, RefreshToken}
use turnkey_triumph_326606_m.Model.Grant.{AuthorizationGrant, fulfilled}
use turnkey_triumph_326606_m.Storage.Rows.{Db, GrantRow, RefreshTokenRow}
use turnkey_triumph_326606_m.Storage.Lookups.{active_session, user_columns, lookup_client}
use turnkey_triumph_326606_m.Storage.Sessions.{session_of, stored_session, stored_session-tokens}
use turnkey_triumph_326606_m.Storage.AccessToken.{
  lookup_active_access_token, select_active_access_token,
}
use turnkey_triumph_326606_m.Storage.AccessToken.Laws.{add_access_token_ok, lookup-add_access_token}
use turnkey_triumph_326606_m.Storage.RefreshToken.{
  add_refresh_token, lookup_active_refresh_token, select_active_refresh_token, joined_access_token,
  with_refresh_token, new_row,
}
use turnkey_triumph_326606_m.Storage.RefreshToken.Laws.{
  add_refresh_token_ok, find-new_row, answer, lookup_active_refresh_token_lem, refresh_token_of,
}
use turnkey_triumph_326606_m.Storage.Grant.{lookup_grant_by_code}
use turnkey_triumph_326606_m.Storage.GrantStage.Laws.{exchange_grant_ok}
use turnkey_triumph_326606_m.TokenEndpoint.{
  AccessTokenResponse, Env, Moment, AuthorizationCodeGrant,
}
use turnkey_triumph_326606_m.TokenEndpoint.AuthorizationCode.{
  new_access_token, new_refresh_token, authorization_code_grant,
}
use turnkey_triumph_326606_m.TokenEndpoint.Redeemed.{Issued, redeemed}
use turnkey_triumph_326606_m.TokenEndpoint.Replay.{same_session}

-- The lookups of tokens read no grants, and that of an access token no refresh tokens.
access-frame :
    (db : Db) (grants : List GrantRow) (t : Timestamp) (u : Text)
    → lookup_active_access_token (record db { grants = grants }) t u
      ≡ lookup_active_access_token db t u
unfolding lookup_active_access_token select_active_access_token active_session user_columns
    session_of lookup_client
access-frame db grants t u = refl

access-with_refresh_token :
    (db : Db) (row : RefreshTokenRow) (t : Timestamp) (u : Text)
    → lookup_active_access_token (with_refresh_token db row) t u ≡ lookup_active_access_token db t u
unfolding lookup_active_access_token select_active_access_token active_session user_columns
    session_of lookup_client
access-with_refresh_token db row t u = refl

refresh-frame :
    (db : Db) (grants : List GrantRow) (u : Text)
    → lookup_active_refresh_token (record db { grants = grants }) u
      ≡ lookup_active_refresh_token db u
unfolding lookup_active_refresh_token select_active_refresh_token joined_access_token active_session
    user_columns session_of lookup_client
refresh-frame db grants u = refl

-- The refresh token that was added for an active session is found, with this session.
added_refresh_token :
    (db : Db) (now : Timestamp) (s : Session) (a : AccessToken) (token : Text) (r : RefreshToken)
    (db' : Db)
    → add_refresh_token db now s a token ≡ ok (r, db')
    → stored_session db s.id ≡ ok s
    → (r' : RefreshToken) × (lookup_active_refresh_token db' token ≡ ok (r', s))
unfolding answer
added_refresh_token db now s a token r db' h active =
    let (fresh, er, edb) = add_refresh_token_ok db now s a token r db' h in
    let row : RefreshTokenRow = new_row db now s a token in
    (
      refresh_token_of row (joined_access_token (with_refresh_token db row) row),
      rw edb (
          lookup_active_refresh_token_lem (with_refresh_token db row) token
          ∙ ap (answer (with_refresh_token db row)) (find-new_row db now s a token fresh)
          ∙ ap
              (λ z. z >>= (λ session. ok (
                refresh_token_of row (joined_access_token (with_refresh_token db row) row),
                session,
              )))
              (stored_session-tokens db _ _ _ _ s.id ∙ active)),
    )

module _ (env : Env) (moment : Moment) (db : Db) (grant : AuthorizationCodeGrant)
    (client : Client) where
  Issued-live :
      (a : AuthorizationGrant) (s : Session) (r : AccessTokenResponse) (db' : Db)
      → Issued env moment db grant client a s r db'
      → stored_session db s.id ≡ ok s
      → ((t : Timestamp)
          → t ≤ moment.db_now + minutes 5
          → (token : AccessToken) × (lookup_active_access_token db' t r.access_token
              ≡ ok (token, s)))
        × ((token : RefreshToken) × (next : Text) × (r.refresh_token ≡ some next)
            × (lookup_active_refresh_token db' next ≡ ok (token, s)))
  Issued-live a s r db' i active =
      let exchanged =
        exchange_grant_ok env.parse_url i.with_refresh moment.db_now a i.after db'
          i.grant_exchanged in
      let (taken, er, edb) = add_refresh_token_ok _ _ _ _ _ _ _ i.refresh_added in
      let (taken', ea, edb') = add_access_token_ok _ _ _ _ _ _ _ i.access_added in
      let (token, found) =
        added_refresh_token i.with_access moment.db_now s i.access (new_refresh_token env moment)
          i.fresh i.with_refresh i.refresh_added
          (ap (λ d. stored_session d s.id) edb' ∙ stored_session-tokens db _ _ _ _ s.id ∙ active) in
      (
        λ t early. (
          i.access,
          ap (lookup_active_access_token db' t) i.same_access_token
              ∙ ap (λ d. lookup_active_access_token d t (new_access_token env moment)) exchanged
              ∙ access-frame i.with_refresh _ t (new_access_token env moment)
              ∙ ap (λ d. lookup_active_access_token d t (new_access_token env moment)) edb
              ∙ access-with_refresh_token i.with_access _ t (new_access_token env moment)
              ∙ lookup-add_access_token db moment.db_now s (new_access_token env moment) 300
                  i.access i.with_access (omega arith) i.access_added active t early,
        ),
        (
          token,
          new_refresh_token env moment,
          i.same_refresh_token,
          ap (λ d. lookup_active_refresh_token d (new_refresh_token env moment)) exchanged
              ∙ refresh-frame i.with_refresh _ (new_refresh_token env moment)
              ∙ found,
        ),
      )

  -- If the code of a fulfilled grant is exchanged and the session of the grant is active, then from the
  -- database that the exchange leaves the new access token is accepted until five minutes after the
  -- start of the transaction, and the new refresh token is accepted.
  pub exchanged_tokens_live :
      (a : AuthorizationGrant) (s : Session) (f : Timestamp) (r : AccessTokenResponse) (db' : Db)
      → lookup_grant_by_code env.parse_url db grant.code ≡ ok a
      → a.stage ≡ fulfilled s f
      → stored_session db s.id ≡ ok s
      → authorization_code_grant env moment db grant client ≡ (ok r, db')
      → ((t : Timestamp)
          → t ≤ moment.db_now + minutes 5
          → (token : AccessToken) × (lookup_active_access_token db' t r.access_token
              ≡ ok (token, s)))
        × ((token : RefreshToken) × (next : Text) × (r.refresh_token ≡ some next)
            × (lookup_active_refresh_token db' next ≡ ok (token, s)))
  exchanged_tokens_live a s f r db' found stage active h =
      let (b, s', f', found', stage', early, issued') =
        redeemed env moment db grant client r db' h in
      Issued-live b s r db'
        (subst (λ z. Issued env moment db grant client b z r db')
          (same_session env moment db grant client b a s' s f' f found' found stage' stage) issued')
        active
