-- ===== src/Compat/ScopeToken.antt =====
-- A device is a scope token, crates/data-model/src/compat.rs.
use turnkey_triumph_326606_m.Prelude.{
  ℕ, zero, suc, ◌≡◌, refl, true, [], ◌∷◌, ◌++◌, ok, Text, codes, length, all, arith,
}
use turnkey_triumph_326606_m.Scope.{nqchar, token_from_str}
use turnkey_triumph_326606_m.Token.{take_samples}
use turnkey_triumph_326606_m.Token.RoundTrip.{length-take_samples}
use turnkey_triumph_326606_m.Compat.Device.{
  Device, is_ascii_alphanumeric, device_try_from, to_scope_token, generate_device, device_id_length,
}

alphanumeric-nqchar : (c : ℕ) → is_ascii_alphanumeric c ≡ true → nqchar c ≡ true
unfolding is_ascii_alphanumeric nqchar
alphanumeric-nqchar c h = ground arith

all-nqchar : (s : Text) → all is_ascii_alphanumeric s ≡ true → all nqchar s ≡ true
all-nqchar [] h = refl
all-nqchar (c ∷ s) h = ground (arith, alphanumeric-nqchar c, all-nqchar s)

all-append : (s t : Text) → all nqchar s ≡ true → all nqchar t ≡ true → all nqchar (s ++ t) ≡ true
all-append [] t h k = k
all-append (c ∷ s) t h k = ground (arith, all-append s t)

all-take_samples :
    (n : ℕ) (rng : ℕ → ℕ)
    → ((i : ℕ) → is_ascii_alphanumeric (rng i) ≡ true)
    → all is_ascii_alphanumeric (take_samples n rng) ≡ true
unfolding take_samples
all-take_samples zero rng h = refl
all-take_samples (suc n) rng h = rw (h 0) (all-take_samples n (λ i. rng (suc i)) (λ i. h (suc i)))

device_of :
    (id : Text)
    → length id ≡ device_id_length
    → all is_ascii_alphanumeric id ≡ true
    → device_try_from id ≡ ok (record { id = id })
unfolding device_try_from
device_of id l a = rw (l, a) refl

device_try_from_ok :
    (id : Text) (d : Device)
    → device_try_from id ≡ ok d
    → (d ≡ record { id = id })
      × (length id ≡ device_id_length)
      × (all is_ascii_alphanumeric id ≡ true)
unfolding device_try_from
device_try_from_ok id d h = (ground arith, ground arith, ground arith)

scope_token_of :
    (id : Text)
    → all is_ascii_alphanumeric id ≡ true
    → to_scope_token (record { id = id }) ≡ ok (codes "urn:matrix:device:" ++ id)
unfolding to_scope_token token_from_str nqchar
scope_token_of id a = rw (all-append (codes "urn:matrix:device:") id refl (all-nqchar id a)) refl

-- A device that is generated from ASCII letters and digits is read back from its id.
pub device_try_from-generate_device :
    (rng : ℕ → ℕ)
    → ((i : ℕ) → is_ascii_alphanumeric (rng i) ≡ true)
    → device_try_from (generate_device rng).0.id ≡ ok (generate_device rng).0
unfolding generate_device
device_try_from-generate_device rng h =
    device_of (take_samples device_id_length rng) (length-take_samples device_id_length rng)
      (all-take_samples device_id_length rng h)

-- A device that is read from a text has it as its id, and its scope token is `urn:matrix:device:` and
-- the text, so that the parse never fails; and a device that is generated from ASCII letters and digits
-- is read back from its id.
pub device-scope_token :
    (id : Text) (d : Device) (rng : ℕ → ℕ)
    → device_try_from id ≡ ok d
    → ((i : ℕ) → is_ascii_alphanumeric (rng i) ≡ true)
    → (d.id ≡ id)
      × (to_scope_token d ≡ ok (codes "urn:matrix:device:" ++ id))
      × (device_try_from (generate_device rng).0.id ≡ ok (generate_device rng).0)
device-scope_token id d rng read drawn =
    let (same, l, a) = device_try_from_ok id d read in
    rw same (refl, scope_token_of id a, device_try_from-generate_device rng drawn)
