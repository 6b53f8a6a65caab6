-- ===== src/ClientAuth/Laws.antt =====
-- What a client has to show, crates/axum-utils/src/client_authorization.rs.
use turnkey_triumph_326606_m.Prelude.{
  ◌≡◌, ◌⊎◌, ◌↔◌, inl, inr, refl, sym, ap, ◌∙◌, Bool, true, false, Option, none, some, ok, ok_or,
  ensure, Option-cases, Bool-cases, nothing, Text, text_eq, text_eq_iff, text_eq_refl, arith,
}
use turnkey_triumph_326606_m.Prelude.ResultMonad.{>>=-eq-ok, >>=-elim-ok}
use turnkey_triumph_326606_m.Claims.{Claims}
use turnkey_triumph_326606_m.Model.Client.{
  AuthMethod, no_auth, client_secret_post, client_secret_basic, client_secret_jwt, private_key_jwt,
  Client,
}
use turnkey_triumph_326606_m.ClientAuth.{
  Crypto, Credentials, no_credentials, secret_basic, secret_post, assertion_jwt_bearer,
  invalid_assertion, invalid_client_config, credentials_client_id, jwt_bearer_client_assertion,
  same_client_id, subject_of, from_assertion, credentials_of, decrypted_secret,
  verify_client_secret, verify,
}

-- Credentials that prove to be the client's by its registered method: none are asked for, its secret,
-- or an assertion that is signed with its key set or with its secret.
pub data Proves (crypto : Crypto) (client : Client) : Credentials → AuthMethod → Type 0 where
  public : (id : Text) → Proves crypto client (no_credentials id) no_auth
  posted :
      (id secret stored : Text)
      → client.encrypted_client_secret ≡ some stored
      → crypto.decrypt_string stored ≡ some secret
      → Proves crypto client (secret_post id secret) client_secret_post
  basic :
      (id secret stored : Text)
      → client.encrypted_client_secret ≡ some stored
      → crypto.decrypt_string stored ≡ some secret
      → Proves crypto client (secret_basic id secret) client_secret_basic
  signed :
      (id jwt jwks : Text) (claims : Claims)
      → client.jwks ≡ some jwks
      → crypto.verify_jwks jwks jwt ≡ true
      → Proves crypto client (assertion_jwt_bearer id jwt claims) private_key_jwt
  shared :
      (id jwt secret stored : Text) (claims : Claims)
      → client.encrypted_client_secret ≡ some stored
      → crypto.decrypt_string stored ≡ some secret
      → crypto.verify_secret secret jwt ≡ true
      → Proves crypto client (assertion_jwt_bearer id jwt claims) client_secret_jwt

ensure-true {ℓ} : {E : Type ℓ} (b : Bool) (e : E) → ensure b e ≡ ok nothing → b ≡ true
ensure-true true e h = refl
ensure-true false e h = cc

module _ (crypto : Crypto) (client : Client) where
  decrypted_secret_ok :
      (secret : Text)
      → decrypted_secret crypto client ≡ ok secret
      → (stored : Text) × (client.encrypted_client_secret ≡ some stored)
        × (crypto.decrypt_string stored ≡ some secret)
  decrypted_secret_ok secret h = elim (Option-cases client.encrypted_client_secret) [
    | inl e ↦ ground arith
    | inr (stored, e) ↦ (stored, e, ground arith)
  ]

  verify_client_secret_ok :
      (secret : Text)
      → verify_client_secret crypto secret client ≡ ok nothing
      → (stored : Text) × (client.encrypted_client_secret ≡ some stored)
        × (crypto.decrypt_string stored ≡ some secret)
  unfolding verify_client_secret
  verify_client_secret_ok secret h =
      let (found, e, k) = >>=-eq-ok (decrypted_secret crypto client) _ h in
      let same : secret ≡ found = ground (arith, text_eq_iff secret found) in
      decrypted_secret_ok secret (e ∙ ap ok (sym same))

  pub verify_sound :
      (c : Credentials) (m : AuthMethod)
      → verify crypto c m client ≡ ok nothing
      → Proves crypto client c m
  unfolding verify
  verify_sound (no_credentials id) no_auth h = Proves.public id
  verify_sound (secret_post id secret) client_secret_post h =
      let (stored, e, k) = verify_client_secret_ok secret h in Proves.posted id secret stored e k
  verify_sound (secret_basic id secret) client_secret_basic h =
      let (stored, e, k) = verify_client_secret_ok secret h in Proves.basic id secret stored e k
  verify_sound (assertion_jwt_bearer id jwt claims) private_key_jwt h =
      let (jwks, e, k) = >>=-eq-ok (ok_or client.jwks invalid_client_config) _ h in
      Proves.signed id jwt jwks claims (ground arith) (ensure-true _ _ k)
  verify_sound (assertion_jwt_bearer id jwt claims) client_secret_jwt h =
      let (secret, e, k) = >>=-eq-ok (decrypted_secret crypto client) _ h in
      let (stored, e1, e2) = decrypted_secret_ok secret e in
      Proves.shared id jwt secret stored claims e1 e2 (ensure-true _ _ k)
  verify_sound c m h = ground arith

  verify_complete :
      (c : Credentials) (m : AuthMethod)
      → Proves crypto client c m
      → verify crypto c m client ≡ ok nothing
  unfolding verify verify_client_secret
  verify_complete c m (Proves.public id) = refl
  verify_complete c m (Proves.posted id secret stored e k) = rw (e, k, text_eq_refl secret) refl
  verify_complete c m (Proves.basic id secret stored e k) = rw (e, k, text_eq_refl secret) refl
  verify_complete c m (Proves.signed id jwt jwks claims e k) = rw (e, k) refl
  verify_complete c m (Proves.shared id jwt secret stored claims e k v) = rw (e, k, v) refl

  -- A client's credentials are accepted for its registered method exactly if they prove to be the
  -- client's.
  pub verify_iff :
      (c : Credentials) (m : AuthMethod)
      → (verify crypto c m client ≡ ok nothing) ↔ Proves crypto client c m
  verify_iff c m = (verify_sound c m, verify_complete c m)

same_client_id_ok :
    (id : Text) (form_id : Option Text)
    → same_client_id id form_id ≡ ok nothing
    → (form_id ≡ none) ⊎ (form_id ≡ some id)
same_client_id_ok id none h = inl refl
same_client_id_ok id (some form) h = inr (ground (arith, text_eq_iff id form))

module _ (crypto : Crypto) where
  from_assertion-client_id :
      (form_id : Option Text) (assertion : Text) (c : Credentials)
      → from_assertion crypto form_id assertion ≡ ok c
      → (form_id ≡ none) ⊎ (form_id ≡ some (credentials_client_id c))
  unfolding from_assertion
  from_assertion-client_id form_id assertion c h =
      >>=-elim-ok (ok_or (crypto.decode assertion) invalid_assertion) _ h (λ claims h1.
        >>=-elim-ok (subject_of claims) _ h1 (λ id h2.
          let (x, e, h3) = >>=-eq-ok (same_client_id id form_id) _ h2 in
          elim (same_client_id_ok id form_id (ground arith)) [
            | inl k ↦ inl k
            | inr k ↦ inr (k ∙ ground arith)
          ]))

  credentials_of-bearer :
      (id ty assertion : Text)
      → text_eq ty jwt_bearer_client_assertion ≡ true
      → credentials_of crypto none (some id) none (some ty) (some assertion)
        ≡ from_assertion crypto (some id) assertion
  unfolding credentials_of
  credentials_of-bearer id ty assertion e = rw e refl

  -- Whatever the credentials of an accepted request are taken from, a client id in its form is that of
  -- the credentials.
  pub credentials_of-client_id :
      (header : Option (Text × Text)) (form_id secret ty assertion : Option Text) (c : Credentials)
      → credentials_of crypto header form_id secret ty assertion ≡ ok c
      → (form_id ≡ none) ⊎ (form_id ≡ some (credentials_client_id c))
  unfolding credentials_of
  credentials_of-client_id (some (id, pass)) form_id none none none c h =
      let (x, e, k) = >>=-eq-ok (same_client_id id form_id) _ h in
      elim (same_client_id_ok id form_id (ground arith)) [
        | inl none' ↦ inl none'
        | inr same ↦ inr (same ∙ ground arith)
      ]
  credentials_of-client_id none (some id) (some secret) none none c h = inr (ground arith)
  credentials_of-client_id none (some id) none none none c h = inr (ground arith)
  credentials_of-client_id none none none (some ty) (some assertion) c h = inl refl
  credentials_of-client_id none (some id) none (some ty) (some assertion) c h =
      elim (Bool-cases (text_eq ty jwt_bearer_client_assertion)) [
        | inl e ↦
            from_assertion-client_id (some id) assertion c
              (sym (credentials_of-bearer id ty assertion e) ∙ h)
        | inr e ↦ ground arith
      ]
  credentials_of-client_id header form_id secret ty assertion c h = ground arith
