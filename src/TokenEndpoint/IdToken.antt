-- ===== src/TokenEndpoint/IdToken.antt =====
-- The ID token of `authorization_code_grant`, and `hash`, crates/handlers/src/oauth2/token.rs.
use turnkey_triumph_326606_m.Prelude.{
  ℕ, zero, suc, ◌+◌, Option, none, some, List, [], ◌∷◌, Result, ok, ok_or, map_err, Text, codes,
  if◌then◌else◌,
}
use turnkey_triumph_326606_m.Prelude.ResultMonad.{◌>>=◌}
use turnkey_triumph_326606_m.Time.{Timestamp, hours}
use turnkey_triumph_326606_m.Scope.{contains, openid}
use turnkey_triumph_326606_m.Claims.{Claims, Claim, insert}
use turnkey_triumph_326606_m.Claims.Standard.{
  iss, sub, aud, iat, exp, nonce, auth_time, at_hash, c_hash,
}
use turnkey_triumph_326606_m.Model.Client.{Client}
use turnkey_triumph_326606_m.Model.Session.{Session}
use turnkey_triumph_326606_m.TokenEndpoint.{
  RouteError, internal, anyhow, claim, short_digest, signing, Env,
}

-- `hash.get(..n)`
unfoldable pub first {ℓ} : {A : Type ℓ} → ℕ → List A → Option (List A)
first zero bytes = some []
first (suc n) [] = none
first (suc n) (b ∷ bytes) = elim (first n bytes) [ none ↦ none | some bits ↦ some (b ∷ bits) ]

abbrev pub rs256 : Text
rs256 = codes "RS256"

abbrev alg_of : Client → Text
alg_of client = elim client.id_token_signed_response_alg [ none ↦ rs256 | some alg ↦ alg ]

module _ (env : Env) where
  -- The left half of a SHA-256 digest.
  unfoldable pub hash : Text → Result RouteError Text
  unfolding first
  hash token = do
    bits ← ok_or (first 16 (env.sha256 token)) (anyhow short_digest)
    ok (env.base64url bits)

  abbrev insert_claim : {T : Type 0} → Claim T → T → Claims → Result RouteError Claims
  insert_claim c value claims = map_err (λ e. internal (claim e)) (insert c claims value)

  abbrev insert_optional : {T : Type 0} → Claim T → Option T → Claims → Result RouteError Claims
  insert_optional c none claims = ok claims
  insert_optional c (some value) claims = insert_claim c value claims

  unfoldable pub id_token_claims :
      Timestamp → Client → Session → Option Text → Text → Text → Result RouteError Claims
  unfolding hash insert
  id_token_claims now client session grant_nonce access_token code = do
    c1 ← insert_claim iss env.oidc_issuer []
    c2 ← insert_claim sub session.browser_session.user.sub c1
    c3 ← insert_claim aud (client.client_id ∷ []) c2
    c4 ← insert_claim (iat env.ts_seconds) now c3
    c5 ← insert_claim (exp env.ts_seconds) (now + hours 1) c4
    c6 ← insert_optional nonce grant_nonce c5
    c7 ←
        insert_optional (auth_time env.ts_seconds)
          (elim session.browser_session.last_authentication [
            | none ↦ none
            | some a ↦ some a.created_at
          ])
          c6
    at ← hash access_token
    c8 ← insert_claim at_hash at c7
    c ← hash code
    insert_claim c_hash c c8

  -- Only for a session with the scope `openid`.
  unfoldable pub id_token_of :
      Timestamp → Client → Session → Option Text → Text → Text → Result RouteError (Option Text)
  unfolding id_token_claims contains
  id_token_of now client session grant_nonce access_token code =
      if contains session.scope openid
      then (do
        claims ← id_token_claims now client session grant_nonce access_token code
        token ← ok_or (env.sign (alg_of client) claims) (anyhow signing)
        ok (some token))
      else ok none
