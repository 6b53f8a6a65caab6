-- ===== src/Model/Client/Redirect.antt =====
-- Which redirect URIs a client's registration allows, crates/data-model/src/oauth2/client.rs.
use mathlib.Core.List.{Memᴰ}
use turnkey_triumph_326606_m.Prelude.{
  ◌≡◌, ◌↔◌, inl, inr, refl, true, Bool-cases, Option, none, some, List, [], ◌∷◌, ok, Text, text_eq,
  text_eq_iff, arith,
}
use turnkey_triumph_326606_m.Model.Client.{Client, has_uri, resolve, resolve_redirect_uri}

has_uri_sound : (us : List Text) (u : Text) → has_uri us u ≡ true → Memᴰ u us
unfolding has_uri
has_uri_sound [] u h = cc
has_uri_sound (v ∷ us) u h = elim (Bool-cases (text_eq v u)) [
  | inl e ↦ Memᴰ.head (ground (arith, text_eq_iff v u))
  | inr e ↦ Memᴰ.tail (has_uri_sound us u (ground arith))
]

has_uri_complete : (us : List Text) (u : Text) → Memᴰ u us → has_uri us u ≡ true
unfolding has_uri
has_uri_complete [] u m = elim m [ ]
has_uri_complete (v ∷ us) u (Memᴰ.head e) = ground (arith, text_eq_iff v u)
has_uri_complete (v ∷ us) u (Memᴰ.tail m) = ground (arith, has_uri_complete us u m)

-- A URI that was asked for and is registered, or the only registered one if none was asked for.
abbrev pub IsAllowed : List Text → Option Text → Text → Type 0
IsAllowed us (some uri) u = (u ≡ uri) × Memᴰ uri us
IsAllowed us none u = us ≡ u ∷ []

resolve_sound :
    (us : List Text) (uri : Option Text) (u : Text) → resolve us uri ≡ ok u → IsAllowed us uri u
unfolding resolve
resolve_sound [] none u h = cc
resolve_sound [] (some uri) u h = cc
resolve_sound (one ∷ []) none u h = ground arith
resolve_sound (one ∷ two ∷ more) none u h = cc
resolve_sound (one ∷ more) (some uri) u h = elim (Bool-cases (has_uri (one ∷ more) uri)) [
  | inl e ↦ (ground arith, has_uri_sound (one ∷ more) uri e)
  | inr e ↦ ground arith
]

resolve_complete :
    (us : List Text) (uri : Option Text) (u : Text) → IsAllowed us uri u → resolve us uri ≡ ok u
unfolding resolve
resolve_complete us none u h = rw h refl
resolve_complete [] (some uri) u h = elim h.1 [ ]
resolve_complete (one ∷ more) (some uri) u h = rw (has_uri_complete (one ∷ more) uri h.1, h.0) refl

-- The redirect URI of a request is resolved exactly to the URI that it asks for, if this is registered,
-- or to the client's only registered URI if it asks for none.
pub resolve_redirect_uri_iff :
    (c : Client) (uri : Option Text) (u : Text)
    → (resolve_redirect_uri c uri ≡ ok u) ↔ IsAllowed c.redirect_uris uri u
unfolding resolve_redirect_uri
resolve_redirect_uri_iff c uri u =
    (resolve_sound c.redirect_uris uri u, resolve_complete c.redirect_uris uri u)
