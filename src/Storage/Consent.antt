-- ===== src/Storage/Consent.antt =====
-- What a user has consented to for a client, crates/storage/src/oauth2/consent.rs. The three columns of
-- a row are UNIQUE together.
use turnkey_triumph_326606_m.Prelude.{
  ℕ, Bool, ◌&&◌, List, [], ◌∷◌, ◌++◌, map, Result, ok, map_err, Text, text_eq, any, retain,
  if◌then◌else◌, ◌==◌,
}
use turnkey_triumph_326606_m.Prelude.ResultMonad.{◌>>=◌}
use turnkey_triumph_326606_m.Time.{Timestamp}
use turnkey_triumph_326606_m.Scope.{Scope, ScopeToken, tokens_from_strs, from_iter}
use turnkey_triumph_326606_m.Model.User.{User}
use turnkey_triumph_326606_m.Model.Client.{Client}
use turnkey_triumph_326606_m.Storage.Rows.{Db, ConsentRow, StorageError, inconsistency}

abbrev pub is_consent_of : ℕ → ℕ → ConsentRow → Bool
is_consent_of user_id client_id r = r.user_id == user_id && r.oauth2_client_id == client_id

abbrev pub consented_tokens : ℕ → ℕ → List ConsentRow → List Text
consented_tokens user_id client_id rows =
    map (λ (r : ConsentRow). r.scope_token) (retain (is_consent_of user_id client_id) rows)

-- The error is that of the scope's parse.
unfoldable pub fetch_client_consent : Db → User → Client → Result StorageError Scope
unfolding tokens_from_strs from_iter
fetch_client_consent db user client = do
  tokens ←
      map_err (λ _. inconsistency)
        (tokens_from_strs (consented_tokens user.id client.id db.consents))
  ok (from_iter tokens)

abbrev pub is_consent_to : ℕ → ℕ → Text → ConsentRow → Bool
is_consent_to user_id client_id token r =
    is_consent_of user_id client_id r && text_eq r.scope_token token

abbrev pub touch : Timestamp → ℕ → ℕ → Text → ConsentRow → ConsentRow
touch now user_id client_id token r =
    if is_consent_to user_id client_id token r then record r { updated_at = now } else r

-- `INSERT … ON CONFLICT … DO UPDATE SET updated_at = NOW()`, for one token.
unfoldable pub upsert_consent : Timestamp → ℕ → ℕ → ScopeToken → List ConsentRow → List ConsentRow
upsert_consent now user_id client_id token rows =
    if any (is_consent_to user_id client_id token) rows
    then map (touch now user_id client_id token) rows
    else rows
      ++ record {
        oauth2_client_id = client_id;
        user_id = user_id;
        scope_token = token;
        updated_at = now;
      }
        ∷ []

unfoldable pub upsert_consents :
    Timestamp → ℕ → ℕ → List ScopeToken → List ConsentRow → List ConsentRow
unfolding upsert_consent
upsert_consents now user_id client_id [] rows = rows
upsert_consents now user_id client_id (t ∷ ts) rows =
    upsert_consents now user_id client_id ts (upsert_consent now user_id client_id t rows)

unfoldable pub insert_client_consent : Db → Timestamp → User → Client → Scope → Db
unfolding upsert_consents
insert_client_consent db now user client scope = record db {
  consents = upsert_consents now user.id client.id scope db.consents;
}
