-- ===== src/Authorization/Consented.antt =====
-- A consent lets a grant be completed, crates/handlers/src/oauth2/consent.rs and
-- authorization/complete.rs.
use turnkey_triumph_326606_m.Prelude.{
  ◌≡◌, refl, sym, ap, ◌∙◌, Bool, true, false, ◌&&◌, not, List, [], ◌∷◌, ok, nothing, Text, text_eq,
  text_eq_iff, text_eq_refl, retain, All, inl, inr, Bool-cases, arith,
}
use turnkey_triumph_326606_m.Prelude.Finding.{All-retain}
use turnkey_triumph_326606_m.Time.{Timestamp}
use turnkey_triumph_326606_m.Scope.{Scope, ScopeToken, from_iter, insert, has_token}
use turnkey_triumph_326606_m.Scope.Tokens.{IsToken, has_token-from_iter}
use turnkey_triumph_326606_m.Model.User.{BrowserSession, was_authenticated_after}
use turnkey_triumph_326606_m.Model.Grant.{AuthorizationGrant, is_pending, max_auth_time}
use turnkey_triumph_326606_m.Storage.Rows.{Db}
use turnkey_triumph_326606_m.Storage.Consent.{fetch_client_consent, insert_client_consent}
use turnkey_triumph_326606_m.Storage.Consented.{fetch-insert_client_consent}
use turnkey_triumph_326606_m.Storage.GrantStage.{give_consent_to_grant}
use turnkey_triumph_326606_m.Authorization.Complete.{
  is_device_token, lacks_consent, check_completion,
}
use turnkey_triumph_326606_m.Authorization.Consent.{scope_without_device, give_consent}

has_token-retain :
    (t : Text) (keep : Text → Bool) (ts : List Text)
    → keep t ≡ true
    → has_token t ts ≡ true
    → has_token t (retain keep ts) ≡ true
unfolding has_token
has_token-retain t keep [] k h = h
has_token-retain t keep (u ∷ ts) k h = elim (Bool-cases (text_eq t u)) [
  | inl e ↦
      let same : keep u ≡ true = ap keep (sym ((text_eq_iff t u).0 e)) ∙ k in rw same (rw e refl)
  | inr e ↦ elim (Bool-cases (keep u)) [
    | inl l ↦ rw l (rw e (has_token-retain t keep ts k (ground arith)))
    | inr l ↦ rw l (has_token-retain t keep ts k (ground arith))
  ]
]

-- What every token of a scope satisfies that is one of its tokens.
All-has_token_consent :
    (scope consent : Scope)
    → ((t : ScopeToken)
        → has_token t scope ≡ true
        → is_device_token t ≡ false
        → has_token t consent ≡ true)
    → All (λ t. not (has_token t consent) && not (is_device_token t) ≡ false) scope
unfolding has_token
All-has_token_consent [] consent h = tt
All-has_token_consent (t ∷ ts) consent h = (
  elim (Bool-cases (is_device_token t)) [
    | inl d ↦ ground arith
    | inr d ↦
        let here : has_token t consent ≡ true = h t (rw (text_eq_refl t) refl) d in ground arith
  ],
  All-has_token_consent ts consent (λ u k. h u (ground arith)),
)

no_lack :
    (scope consent : Scope)
    → All (λ t. not (has_token t consent) && not (is_device_token t) ≡ false) scope
    → lacks_consent scope consent ≡ false
unfolding lacks_consent
no_lack [] consent h = refl
no_lack (t ∷ ts) consent h = rw h.0 (no_lack ts consent h.1)

check_ok :
    (db : Db) (grant : AuthorizationGrant) (session : BrowserSession) (consent : Scope)
    → is_pending grant.stage ≡ true
    → was_authenticated_after session (max_auth_time grant) ≡ true
    → fetch_client_consent db session.user grant.client ≡ ok consent
    → lacks_consent grant.scope consent ≡ false
    → grant.requires_consent ≡ false
    → check_completion db grant session ≡ ok nothing
unfolding check_completion
check_ok db grant session consent p a f l r = rw (p, a, f, l, r) refl

fetch-give_consent :
    (db : Db) (now : Timestamp) (grant : AuthorizationGrant) (session : BrowserSession)
    → fetch_client_consent (give_consent db now grant session).1 session.user grant.client
      ≡ fetch_client_consent
          (insert_client_consent db now session.user grant.client
            (scope_without_device grant.scope))
          session.user
          grant.client
unfolding give_consent give_consent_to_grant fetch_client_consent
fetch-give_consent db now grant session = refl

given :
    (db : Db) (now : Timestamp) (grant : AuthorizationGrant) (session : BrowserSession)
    → (give_consent db now grant session).0 ≡ record grant { requires_consent = false }
unfolding give_consent give_consent_to_grant
given db now grant session = refl

insert-All : (t : ScopeToken) (s : Scope) → IsToken t → All IsToken s → All IsToken (insert t s).1
unfolding insert
insert-All t s is h = elim (Bool-cases (has_token t s)) [ inl e ↦ rw e h | inr e ↦ rw e (is, h) ]

from_iter-All : (ts : List ScopeToken) → All IsToken ts → All IsToken (from_iter ts)
unfolding from_iter
from_iter-All [] h = tt
from_iter-All (t ∷ ts) h = insert-All t (from_iter ts) h.0 (from_iter-All ts h.1)

-- A pending grant whose scope is of valid tokens, and whose user has authenticated recently enough,
-- passes every check of its completion once the user has consented, where the user's earlier consent
-- can be read.
pub check_completion-give_consent :
    (db : Db) (now : Timestamp) (grant : AuthorizationGrant) (session : BrowserSession)
    (before : Scope)
    → All IsToken grant.scope
    → is_pending grant.stage ≡ true
    → was_authenticated_after session (max_auth_time grant) ≡ true
    → fetch_client_consent db session.user grant.client ≡ ok before
    → check_completion
        (give_consent db now grant session).1
        (give_consent db now grant session).0
        session
      ≡ ok nothing
unfolding max_auth_time
check_completion-give_consent db now grant session before valid pending recent found =
    let (after, read, union) =
      fetch-insert_client_consent db now session.user grant.client
        (scope_without_device grant.scope) before
        (from_iter-All _ (All-retain IsToken (λ t. not (is_device_token t)) grant.scope valid))
        found in
    rw (given db now grant session) (
      check_ok (give_consent db now grant session).1 (record grant { requires_consent = false })
        session after pending recent (fetch-give_consent db now grant session ∙ read)
        (no_lack grant.scope after (
          All-has_token_consent grant.scope after (λ t here device.
            union t
            ∙ rw
                (has_token-from_iter t (retain (λ u. not (is_device_token u)) grant.scope)
                  ∙ has_token-retain t (λ u. not (is_device_token u)) grant.scope (rw device refl)
                      here)
                (ground arith))))
        refl)
