-- ===== src/Authorization/Completed.antt =====
-- When a grant is completed, crates/handlers/src/oauth2/authorization/complete.rs.
use turnkey_triumph_326606_m.Prelude.{
  ◌≡◌, refl, ap, ◌∙◌, Bool, true, false, ◌||◌, not, [], ◌∷◌, ok, map_err, ensure, Nothing, text_eq,
  text_eq_iff, inl, inr, ◌⊎◌, Bool-cases, arith,
}
use turnkey_triumph_326606_m.Prelude.ResultMonad.{>>=-eq-ok, map_err_ok}
use turnkey_triumph_326606_m.Scope.{Scope, ScopeToken, has_token}
use turnkey_triumph_326606_m.Model.User.{BrowserSession, was_authenticated_after}
use turnkey_triumph_326606_m.Model.Grant.{AuthorizationGrant, is_pending, max_auth_time}
use turnkey_triumph_326606_m.Storage.Rows.{Db}
use turnkey_triumph_326606_m.Storage.Consent.{fetch_client_consent}
use turnkey_triumph_326606_m.TokenEndpoint.{Env, Moment}
use turnkey_triumph_326606_m.TokenEndpoint.Redeemed.{commit_ok}
use turnkey_triumph_326606_m.Authorization.Complete.{
  AuthorizationResponse, anyhow, not_pending, requires_reauth, is_device_token, lacks_consent,
  check_completion, complete_steps, complete,
}

ensured : {E : Type 0} (b : Bool) (e : E) {x : Nothing} → ensure b e ≡ ok x → b ≡ true
ensured true e h = refl
ensured false e h = cc

-- A token of a scope that lacks no consent.
consented_or_device :
    (scope consent : Scope) (t : ScopeToken)
    → lacks_consent scope consent ≡ false
    → has_token t scope ≡ true
    → (has_token t consent ≡ true) ⊎ (is_device_token t ≡ true)
unfolding lacks_consent has_token
consented_or_device [] consent t h k = cc
consented_or_device (u ∷ scope) consent t h k = elim (Bool-cases (text_eq t u)) [
  | inl e ↦ elim (Bool-cases (has_token u consent)) [
    | inl c ↦ inl (ap (λ z. has_token z consent) ((text_eq_iff t u).0 e) ∙ c)
    | inr c ↦ elim (Bool-cases (is_device_token u)) [
      | inl d ↦ inr (ap is_device_token ((text_eq_iff t u).0 e) ∙ d)
      | inr d ↦ absurd (ground arith)
    ]
  ]
  | inr e ↦ consented_or_device scope consent t (ground arith) (ground arith)
]

-- A grant that is completed was pending; its user had authenticated after the instant that the grant
-- asks for; no consent was asked for explicitly; and every token of its scope is one that the user has
-- consented to for the client, or a device's.
pub complete-checked :
    (env : Env) (moment : Moment) (db : Db) (grant : AuthorizationGrant) (session : BrowserSession)
    (r : AuthorizationResponse) (db' : Db) (t : ScopeToken)
    → complete env moment db grant session ≡ (ok r, db')
    → has_token t grant.scope ≡ true
    → (is_pending grant.stage ≡ true)
      × (was_authenticated_after session (max_auth_time grant) ≡ true)
      × (grant.requires_consent ≡ false)
      × (consent : Scope) × (fetch_client_consent db session.user grant.client ≡ ok consent)
      × ((has_token t consent ≡ true) ⊎ (is_device_token t ≡ true))
unfolding complete complete_steps check_completion
complete-checked env moment db grant session r db' t h here =
    let (x, checked, h1) =
      >>=-eq-ok (check_completion db grant session) _ (commit_ok db _ r db' h) in
    let (x1, e1, k1) = >>=-eq-ok (ensure (is_pending grant.stage) not_pending) _ checked in
    let (x2, e2, k2) =
      >>=-eq-ok (ensure (was_authenticated_after session (max_auth_time grant)) requires_reauth) _
        k1 in
    let (consent, e3, k3) =
      >>=-eq-ok (map_err anyhow (fetch_client_consent db session.user grant.client)) _ k2 in
    let clear = ensured (not (lacks_consent grant.scope consent || grant.requires_consent)) _ k3 in
    (
      ensured _ _ e1,
      ensured _ _ e2,
      ground arith,
      consent,
      map_err_ok anyhow _ e3,
      consented_or_device grant.scope consent t (ground arith) here,
    )
