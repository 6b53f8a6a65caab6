-- ===== src/Cookies.antt =====
-- The private cookies: the session's, crates/axum-utils/src/session.rs, and the CSRF token's,
-- crates/axum-utils/src/csrf.rs. A jar holds the values of these two cookies.
pub mod Csrf
pub mod Form
use turnkey_triumph_326606_m.Prelude.{ℕ, Option, none, some, Text, Result, ok, err, ◌/◌, ◌*◌}
use turnkey_triumph_326606_m.Prelude.ResultMonad.{◌>>=◌}
use turnkey_triumph_326606_m.Time.{Timestamp, seconds}
use turnkey_triumph_326606_m.Model.User.{BrowserSession}
use turnkey_triumph_326606_m.Storage.Rows.{Db, StorageError}
use turnkey_triumph_326606_m.Storage.User.{lookup_active_session}

pub record SessionInfo : Type 0 where
  pub current : Option ℕ

-- The bytes of the token are a text's.
pub record CsrfToken : Type 0 where
  pub expiration : Timestamp
  pub token : Text

pub record Jar : Type 0 where
  pub session : Option Text
  pub csrf : Option Text

-- The code that is not here: unpadded base64url, the encodings of the two cookies' values, and their
-- decodings, where an error is `none`.
pub record CookieEnv : Type 0 where
  pub base64url : Text → Text
  pub base64url_decode : Text → Option Text
  pub encode_session : SessionInfo → Text
  pub decode_session : Text → Option SessionInfo
  pub encode_csrf : CsrfToken → Text
  pub decode_csrf : Text → Option CsrfToken

abbrev pub or_default {ℓ} : {A : Type ℓ} → Option A → A → A
or_default none d = d
or_default (some a) d = a

abbrev pub and_then {ℓ κ} : {A : Type ℓ} {B : Type κ} → Option A → (A → Option B) → Option B
and_then none f = none
and_then (some a) f = f a

unfoldable pub from_session : BrowserSession → SessionInfo
from_session session = record { current = some session.id }

unfoldable pub mark_session_ended : SessionInfo → SessionInfo
mark_session_ended info = record { current = none }

unfoldable pub load_session : Db → SessionInfo → Result StorageError (Option BrowserSession)
unfolding lookup_active_session
load_session db info = elim info.current [
  | none ↦ ok none
  | some id ↦ do session ← lookup_active_session db id; ok (some session)
]

module _ (env : CookieEnv) where
  -- A cookie that is missing or cannot be decoded is one of no session.
  unfoldable pub session_info : Jar → SessionInfo × Jar
  session_info jar =
      let info = or_default (and_then jar.session env.decode_session) (record { current = none }) in
      (info, record jar { session = some (env.encode_session info) })

  unfoldable pub update_session_info : Jar → SessionInfo → Jar
  update_session_info jar info = record jar { session = some (env.encode_session info) }

  unfoldable pub set_session : Jar → BrowserSession → Jar
  unfolding update_session_info from_session
  set_session jar session = update_session_info jar (from_session session)
