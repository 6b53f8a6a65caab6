-- ===== src/Authorization/Complete.antt =====
-- `complete`, crates/handlers/src/oauth2/authorization/complete.rs.
use turnkey_triumph_326606_m.Prelude.{
  Bool, true, false, ◌&&◌, ◌||◌, not, Option, none, some, [], ◌∷◌, Result, ok, map_err, ensure,
  Nothing, Text, codes, any, ◌==◌,
}
use turnkey_triumph_326606_m.Prelude.ResultMonad.{◌>>=◌}
use turnkey_triumph_326606_m.Scope.{Scope, ScopeToken, has_token}
use turnkey_triumph_326606_m.Model.User.{BrowserSession, was_authenticated_after}
use turnkey_triumph_326606_m.Model.Session.{Session}
use turnkey_triumph_326606_m.Model.Grant.{
  AuthorizationCode, AuthorizationGrant, is_pending, max_auth_time,
}
use turnkey_triumph_326606_m.Storage.Rows.{Db, StorageError}
use turnkey_triumph_326606_m.Storage.Consent.{fetch_client_consent}
use turnkey_triumph_326606_m.Storage.GrantStage.{derive_session, fulfill_grant}
use turnkey_triumph_326606_m.Storage.AccessToken.{add_access_token}
use turnkey_triumph_326606_m.Storage.RefreshToken.{add_refresh_token}
use turnkey_triumph_326606_m.TokenEndpoint.{Env, Moment, AccessTokenResponse, commit_or_rollback}
use turnkey_triumph_326606_m.TokenEndpoint.AuthorizationCode.{
  ttl, new_access_token, new_refresh_token,
}

pub data GrantCompletionError : Type 0 where
  anyhow : StorageError → GrantCompletionError
  id_token_not_implemented : GrantCompletionError
  not_pending requires_reauth requires_consent : GrantCompletionError

pub record AuthorizationResponse : Type 0 where
  pub code : Option Text
  pub response : Option AccessTokenResponse

unfoldable pub starts_with : Text → Text → Bool
starts_with s [] = true
starts_with [] (p ∷ ps) = false
starts_with (c ∷ s) (p ∷ ps) = c == p && starts_with s ps

abbrev pub is_device_token : ScopeToken → Bool
is_device_token t = starts_with t (codes "urn:matrix:device:")

-- `scope.difference(&current_consent).any(…)`
unfoldable pub lacks_consent : Scope → Scope → Bool
unfolding has_token starts_with
lacks_consent scope consent =
    any (λ (t : ScopeToken). not (has_token t consent) && not (is_device_token t)) scope

abbrev pub code_text : Option AuthorizationCode → Option Text
code_text none = none
code_text (some c) = some c.code

-- The checks, of which none changes the database; the transaction is committed after the second and
-- the third.
unfoldable pub check_completion :
    Db → AuthorizationGrant → BrowserSession → Result GrantCompletionError Nothing
unfolding is_pending was_authenticated_after max_auth_time fetch_client_consent lacks_consent
check_completion db grant browser_session = do
  _ ← ensure (is_pending grant.stage) not_pending
  _ ← ensure (was_authenticated_after browser_session (max_auth_time grant)) requires_reauth
  current_consent ← map_err anyhow (fetch_client_consent db browser_session.user grant.client)
  ensure (not (lacks_consent grant.scope current_consent || grant.requires_consent))
      requires_consent

module _ (env : Env) (moment : Moment) where
  -- `if grant.response_type_token`
  unfoldable pub implicit_tokens :
      Bool → Db → Session → Result GrantCompletionError (Option AccessTokenResponse × Db)
  unfolding add_access_token add_refresh_token
  implicit_tokens false db session = ok (none, db)
  implicit_tokens true db session = do
    (issued, db1) ←
        map_err anyhow (add_access_token db moment.db_now session (new_access_token env moment) ttl)
    (_, db2) ←
        map_err anyhow
          (add_refresh_token db1 moment.db_now session issued (new_refresh_token env moment))
    ok (
      some (record {
        access_token = new_access_token env moment;
        refresh_token = some (new_refresh_token env moment);
        id_token = none;
        expires_in = some ttl;
        scope = none;
      }),
      db2,
    )

  unfoldable pub complete_steps :
      Db
      → AuthorizationGrant
      → BrowserSession
      → Result GrantCompletionError (AuthorizationResponse × Db)
  unfolding check_completion derive_session fulfill_grant implicit_tokens
  complete_steps db grant browser_session = do
    _ ← check_completion db grant browser_session
    (session, db1) ← map_err anyhow (derive_session db moment.db_now grant browser_session)
    (fulfilled_grant, db2) ← map_err anyhow (fulfill_grant db1 grant session)
    (response, db3) ← implicit_tokens fulfilled_grant.response_type_token db2 session
    _ ← ensure (not fulfilled_grant.response_type_id_token) id_token_not_implemented
    ok (record { code = code_text fulfilled_grant.code; response = response }, db3)

  unfoldable pub complete :
      Db
      → AuthorizationGrant
      → BrowserSession
      → Result GrantCompletionError AuthorizationResponse × Db
  unfolding complete_steps commit_or_rollback
  complete db grant browser_session =
      commit_or_rollback db (complete_steps db grant browser_session)
