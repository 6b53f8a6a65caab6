-- ===== src/Compat/Device.antt =====
-- The device of a compatibility session, crates/data-model/src/compat.rs. The random generator is the
-- stream of bytes that `Alphanumeric` draws from it.
use turnkey_triumph_326606_m.Prelude.{
  ℕ, ◌+◌, Bool, ◌&&◌, ◌||◌, not, ◌++◌, Result, ok, err, Text, codes, length, all, if◌then◌else◌,
  ◌==◌, leb,
}
use turnkey_triumph_326606_m.Scope.{InvalidScope, ScopeToken, token_from_str}
use turnkey_triumph_326606_m.Token.{take_samples}

abbrev pub device_id_length : ℕ
device_id_length = 10

pub record Device : Type 0 where
  pub id : Text

pub data InvalidDeviceId : Type 0 where
  invalid_length invalid_characters : InvalidDeviceId

-- `char::is_ascii_alphanumeric`; a byte of a character outside ASCII is above 127.
unfoldable pub is_ascii_alphanumeric : ℕ → Bool
is_ascii_alphanumeric c =
    leb b'0' c && leb c b'9' || leb b'A' c && leb c b'Z' || leb b'a' c && leb c b'z'

-- `TryFrom<String>`
unfoldable pub device_try_from : Text → Result InvalidDeviceId Device
device_try_from id =
    if not (length id == device_id_length)
    then err invalid_length
    else if not (all is_ascii_alphanumeric id)
    then err invalid_characters
    else ok (record { id = id })

-- `to_scope_token`, before its `unwrap`.
unfoldable pub to_scope_token : Device → Result InvalidScope ScopeToken
to_scope_token device = token_from_str (codes "urn:matrix:device:" ++ device.id)

-- The device, and what is left of the stream.
unfoldable pub generate_device : (ℕ → ℕ) → Device × (ℕ → ℕ)
generate_device rng =
    (record { id = take_samples device_id_length rng }, λ i. rng (device_id_length + i))
