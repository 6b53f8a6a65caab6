-- ===== src/Storage/Consented.antt =====
-- The tokens of a client's consents after more are stored, crates/storage/src/oauth2/consent.rs.
use turnkey_triumph_326606_m.Prelude.{
  ℕ, ◌≡◌, refl, sym, ap, subst, ◌∙◌, Bool, true, false, ◌||◌, List, [], ◌∷◌, ◌++◌, map, ok,
  Result-cases, Text, text_eq, text_eq_iff, any, All, if◌then◌else◌, inl, inr, Bool-cases, arith,
}
use turnkey_triumph_326606_m.Prelude.Finding.{All-append}
use turnkey_triumph_326606_m.Time.{Timestamp}
use turnkey_triumph_326606_m.Scope.{
  Scope, ScopeToken, token_from_str, tokens_from_strs, from_iter, has_token,
}
use turnkey_triumph_326606_m.Scope.Tokens.{
  IsToken, token_from_str_ok, token_from_str_of_IsToken, has_token-from_iter,
}
use turnkey_triumph_326606_m.Model.User.{User}
use turnkey_triumph_326606_m.Model.Client.{Client}
use turnkey_triumph_326606_m.Storage.Rows.{Db, ConsentRow}
use turnkey_triumph_326606_m.Storage.Consent.{
  is_consent_of, is_consent_to, consented_tokens, fetch_client_consent, touch, upsert_consent,
  upsert_consents, insert_client_consent,
}

reparsed : (ts : List Text) → All IsToken ts → tokens_from_strs ts ≡ ok ts
unfolding tokens_from_strs
reparsed [] h = refl
reparsed (t ∷ ts) h = rw (tokens_from_strs, token_from_str_of_IsToken t h.0, reparsed ts h.1) refl

each_parsed : (ss ts : List Text) → tokens_from_strs ss ≡ ok ts → All IsToken ss
unfolding tokens_from_strs
each_parsed [] ts h = tt
each_parsed (s ∷ ss) ts h = elim (Result-cases (token_from_str s)) [
  | inr (e, k) ↦ absurd (ground arith)
  | inl (t, k) ↦ elim (Result-cases (tokens_from_strs ss)) [
    | inr (e, l) ↦ absurd (ground arith)
    | inl (us, l) ↦ ((token_from_str_ok s t k).0, each_parsed ss us l)
  ]
]

has_token-append :
    (t u : Text) (ts : List Text) → has_token t (ts ++ u ∷ []) ≡ (has_token t ts || text_eq t u)
unfolding has_token
has_token-append t u [] = ground arith
has_token-append t u (s ∷ ts) = ground (arith, has_token-append t u ts)

text_eq_sym : (s t : Text) → text_eq s t ≡ text_eq t s
text_eq_sym s t = elim (Bool-cases (text_eq s t)) [
  | inl e ↦ rw ((text_eq_iff s t).0 e) refl
  | inr e ↦ ground (arith, text_eq_iff s t, text_eq_iff t s)
]

absorbed :
    (t u : Text) (ts : List Text)
    → has_token t ts ≡ true
    → has_token u ts ≡ (has_token u ts || text_eq u t)
absorbed t u ts h = elim (Bool-cases (text_eq u t)) [
  | inl e ↦
      let same : has_token u ts ≡ true = ap (λ z. has_token z ts) ((text_eq_iff u t).0 e) ∙ h in
      ground arith
  | inr e ↦ ground arith
]

module _ (now : Timestamp) (user_id client_id : ℕ) where
  touch_same :
      (t : Text) (r : ConsentRow)
      → (is_consent_of user_id client_id (touch now user_id client_id t r)
          ≡ is_consent_of user_id client_id r)
        × ((touch now user_id client_id t r).scope_token ≡ r.scope_token)
  touch_same t r = elim (Bool-cases (is_consent_to user_id client_id t r)) [
    | inl e ↦ rw e (refl, refl)
    | inr e ↦ rw e (refl, refl)
  ]

  mapped :
      (f : ConsentRow → ConsentRow)
      → ((r : ConsentRow)
          → (is_consent_of user_id client_id (f r) ≡ is_consent_of user_id client_id r)
            × ((f r).scope_token ≡ r.scope_token))
      → (rows : List ConsentRow)
      → consented_tokens user_id client_id (map f rows) ≡ consented_tokens user_id client_id rows
  mapped f same [] = refl
  mapped f same (r ∷ rows) = elim (Bool-cases (is_consent_of user_id client_id r)) [
    | inl e ↦
        rw ((same r).0, e) (rw ((same r).1) (ap (λ z. r.scope_token ∷ z) (mapped f same rows)))
    | inr e ↦ rw ((same r).0, e) (mapped f same rows)
  ]

  appended :
      (r : ConsentRow) (rows : List ConsentRow)
      → is_consent_of user_id client_id r ≡ true
      → consented_tokens user_id client_id (rows ++ r ∷ [])
        ≡ (consented_tokens user_id client_id rows ++ r.scope_token ∷ [])
  appended r [] own = rw own refl
  appended r (q ∷ rows) own = elim (Bool-cases (is_consent_of user_id client_id q)) [
    | inl e ↦ rw e (ap (λ z. q.scope_token ∷ z) (appended r rows own))
    | inr e ↦ rw e (appended r rows own)
  ]

  consented_iff :
      (t : Text) (rows : List ConsentRow)
      → any (is_consent_to user_id client_id t) rows
        ≡ has_token t (consented_tokens user_id client_id rows)
  unfolding has_token
  consented_iff t [] = refl
  consented_iff t (r ∷ rows) = elim (Bool-cases (is_consent_of user_id client_id r)) [
    | inl e ↦ rw (e, consented_iff t rows, text_eq_sym r.scope_token t) refl
    | inr e ↦ rw e (consented_iff t rows)
  ]

  tokens-upsert :
      (t : Text) (rows : List ConsentRow)
      → consented_tokens user_id client_id (upsert_consent now user_id client_id t rows) ≡ (
          if has_token t (consented_tokens user_id client_id rows)
          then consented_tokens user_id client_id rows
          else consented_tokens user_id client_id rows ++ t ∷ [])
  unfolding upsert_consent
  tokens-upsert t rows = elim (Bool-cases (any (is_consent_to user_id client_id t) rows)) [
    | inl e ↦
        rw (e, sym (consented_iff t rows) ∙ e)
          (mapped (touch now user_id client_id t) (touch_same t) rows)
    | inr e ↦ rw (e, sym (consented_iff t rows) ∙ e) (appended _ rows (ground arith))
  ]

  has_token-upsert :
      (t u : Text) (rows : List ConsentRow)
      → has_token u
          (consented_tokens user_id client_id (upsert_consent now user_id client_id t rows))
        ≡ (has_token u (consented_tokens user_id client_id rows) || text_eq u t)
  has_token-upsert t u rows =
      ap (has_token u) (tokens-upsert t rows)
      ∙ elim (Bool-cases (has_token t (consented_tokens user_id client_id rows))) [
        | inl e ↦ rw e (absorbed t u (consented_tokens user_id client_id rows) e)
        | inr e ↦ rw e (has_token-append u t (consented_tokens user_id client_id rows))
      ]

  -- The tokens that are stored join those that were there.
  has_token-upserts :
      (ts : List ScopeToken) (u : Text) (rows : List ConsentRow)
      → has_token u
          (consented_tokens user_id client_id (upsert_consents now user_id client_id ts rows))
        ≡ (has_token u (consented_tokens user_id client_id rows) || has_token u ts)
  unfolding upsert_consents has_token
  has_token-upserts [] u rows = ground arith
  has_token-upserts (t ∷ ts) u rows =
      has_token-upserts ts u (upsert_consent now user_id client_id t rows)
      ∙ rw (has_token-upsert t u rows) (ground arith)

  upsert-All :
      (t : Text) (rows : List ConsentRow)
      → IsToken t
      → All IsToken (consented_tokens user_id client_id rows)
      → All IsToken
          (consented_tokens user_id client_id (upsert_consent now user_id client_id t rows))
  upsert-All t rows is v =
      subst (λ z. All IsToken z) (sym (tokens-upsert t rows))
        (by_case (has_token t (consented_tokens user_id client_id rows)))
    where
      by_case :
          (b : Bool)
          → All IsToken (
              if b
              then consented_tokens user_id client_id rows
              else consented_tokens user_id client_id rows ++ t ∷ [])
      by_case true = v
      by_case false =
          All-append IsToken (consented_tokens user_id client_id rows) (t ∷ []) v (is, tt)

  upserts-All :
      (ts : List Text) (rows : List ConsentRow)
      → All IsToken ts
      → All IsToken (consented_tokens user_id client_id rows)
      → All IsToken
          (consented_tokens user_id client_id (upsert_consents now user_id client_id ts rows))
  unfolding upsert_consents
  upserts-All [] rows is v = v
  upserts-All (t ∷ ts) rows is v =
      upserts-All ts (upsert_consent now user_id client_id t rows) is.1 (upsert-All t rows is.0 v)

fetch_of :
    (db : Db) (user : User) (client : Client)
    → All IsToken (consented_tokens user.id client.id db.consents)
    → fetch_client_consent db user client
      ≡ ok (from_iter (consented_tokens user.id client.id db.consents))
unfolding fetch_client_consent
fetch_of db user client v = rw (reparsed (consented_tokens user.id client.id db.consents) v) refl

fetched :
    (db : Db) (user : User) (client : Client) (scope : Scope)
    → fetch_client_consent db user client ≡ ok scope
    → All IsToken (consented_tokens user.id client.id db.consents)
unfolding fetch_client_consent
fetched db user client scope h =
    elim (Result-cases (tokens_from_strs (consented_tokens user.id client.id db.consents))) [
      | inr (e, k) ↦ absurd (ground arith)
      | inl (ts, k) ↦ each_parsed _ ts k
    ]

-- Where the consent of a user for a client is read, and valid tokens are stored with it, the consent is
-- then read as the union of the two sets.
pub fetch-insert_client_consent :
    (db : Db) (now : Timestamp) (user : User) (client : Client) (scope before : Scope)
    → All IsToken scope
    → fetch_client_consent db user client ≡ ok before
    → (after : Scope) × (fetch_client_consent
          (insert_client_consent db now user client scope)
          user
          client
        ≡ ok after)
      × ((u : ScopeToken) → has_token u after ≡ (has_token u before || has_token u scope))
unfolding insert_client_consent
fetch-insert_client_consent db now user client scope before is found =
    let v = fetched db user client before found in
    let stored = upserts-All now user.id client.id scope db.consents is v in
    let same : from_iter (consented_tokens user.id client.id db.consents) ≡ before =
      let both = sym (fetch_of db user client v) ∙ found in ground arith in
    (
      from_iter (
          consented_tokens user.id client.id
            (upsert_consents now user.id client.id scope db.consents)),
      fetch_of _ user client stored,
      λ u.
          has_token-from_iter u _
          ∙ has_token-upserts now user.id client.id scope u db.consents
          ∙ ap (λ b. b || has_token u scope)
              (sym (has_token-from_iter u (consented_tokens user.id client.id db.consents))
                ∙ ap (has_token u) same),
    )
