-- ===== src/Token/RoundTrip.antt =====
-- `TokenType::check` accepts what `TokenType::generate` makes, and nothing of another shape.
use mathlib.Core.WellFounded.{Acc}
use mathlib.Core.Logic.{dite}
use turnkey_triumph_326606_m.Prelude.Order.{lt_wf}
use turnkey_triumph_326606_m.Prelude.{
  ◌%◌, ◌/◌, get_or, replicate, dec_lt, ℕ, zero, suc, ◌^◌, ◌≤◌, ◌<◌, ◌≡◌, ◌≢◌, ◌⊎◌, ◌↔◌, refl, sym,
  ap, subst, ◌∙◌, List, [], ◌∷◌, ◌++◌, ok, All, Text, length, codes, text_eq_iff, text_eq_refl,
  some, append_assoc, arith,
}
use turnkey_triumph_326606_m.Token.{
  TokenType, access_token, refresh_token, compat_access_token, compat_refresh_token, prefix,
  match_prefix, base62_encode, take_samples, base_of, generate, check_crc, check_parts, check,
  digit, digits_acc, num_table, div62_lt,
}
use turnkey_triumph_326606_m.Token.Base62.{length-base62_encode}
use turnkey_triumph_326606_m.Prelude.Split.{
  split, NoByte, split_of_NoByte, split-append, join, join-split, split-NoByte,
}

-- What `rand::distributions::Alphanumeric` samples: the ASCII letters and digits.
abbrev pub IsAlphanumeric : ℕ → Type 0
IsAlphanumeric c = ((b'0' ≤ c) × (c ≤ b'9')) ⊎ ((b'A' ≤ c) × (c ≤ b'Z')) ⊎ ((b'a' ≤ c) × (c ≤ b'z'))

pub length-take_samples : (n : ℕ) (rng : ℕ → ℕ) → length (take_samples n rng) ≡ n
unfolding take_samples
length-take_samples zero rng = refl
length-take_samples (suc n) rng = ap suc (length-take_samples n (λ i. rng (suc i)))

take_samples-NoByte :
    (n : ℕ) (rng : ℕ → ℕ) → ((i : ℕ) → IsAlphanumeric (rng i)) → NoByte b'_' (take_samples n rng)
unfolding take_samples
take_samples-NoByte zero rng h = tt
take_samples-NoByte (suc n) rng h =
    (let a = h 0 in ground arith, take_samples-NoByte n (λ i. rng (suc i)) (λ i. h (suc i)))

prefix-NoByte : (t : TokenType) → NoByte b'_' (prefix t)
prefix-NoByte access_token = omega arith
prefix-NoByte refresh_token = omega arith
prefix-NoByte compat_access_token = omega arith
prefix-NoByte compat_refresh_token = omega arith

-- The four prefixes are recognised, each as its own type.
pub match_prefix-prefix : (t : TokenType) → match_prefix (prefix t) ≡ some t
unfolding match_prefix
match_prefix-prefix access_token = refl
match_prefix-prefix refresh_token = refl
match_prefix-prefix compat_access_token = refl
match_prefix-prefix compat_refresh_token = refl

length-prefix : (t : TokenType) → length (prefix t) ≡ 3
length-prefix access_token = refl
length-prefix refresh_token = refl
length-prefix compat_access_token = refl
length-prefix compat_refresh_token = refl

pub prefix_of_match_prefix : (p : Text) (t : TokenType) → match_prefix p ≡ some t → p ≡ prefix t
unfolding match_prefix
prefix_of_match_prefix p t h = ground (
  arith,
  text_eq_iff p (codes "mat"),
  text_eq_iff p (codes "mar"),
  text_eq_iff p (codes "mct"),
  text_eq_iff p (codes "mcr"),
)

get_or-NoByte : (table : Text) (i : ℕ) → NoByte b'_' table → get_or table i 0 ≢ b'_'
get_or-NoByte [] i h = omega arith
get_or-NoByte (c ∷ table) zero h = h.0
get_or-NoByte (c ∷ table) (suc i) h = get_or-NoByte table i h.1

digit-ne-separator : (num : ℕ) → digit num ≢ b'_'
unfolding digit
digit-ne-separator num = get_or-NoByte num_table (num % 62) (omega arith)

dite_elim {ℓ κ μ} :
    {P : Type ℓ} {C : Type κ} (d : Dec P) (Q : C → Type μ) {x : P → C} {y : ¬ P → C}
    → ((h : P) → Q (x h))
    → ((h : ¬ P) → Q (y h))
    → Q (dite d x y)
dite_elim (yes h) Q f g = f h
dite_elim (no h) Q f g = g h

digits_acc-NoByte : (num : ℕ) (w : Acc ◌<◌ num) → NoByte b'_' (digits_acc num w)
unfolding digits_acc
digits_acc-NoByte num (Acc.intro _ smaller) =
    dite_elim (dec_lt 0 num) (NoByte b'_')
      (λ h. (
        digit-ne-separator num,
        digits_acc-NoByte (num / 62) (smaller (num / 62) (div62_lt num h)),
      ))
      (λ _. tt)

NoByte-append : (s t : Text) → NoByte b'_' s → NoByte b'_' t → NoByte b'_' (s ++ t)
NoByte-append [] t h k = k
NoByte-append (c ∷ s) t h k = (h.0, NoByte-append s t h.1 k)

replicate-NoByte : (n : ℕ) → NoByte b'_' (replicate n b'0')
replicate-NoByte zero = tt
replicate-NoByte (suc n) = (omega arith, replicate-NoByte n)

base62_encode-NoByte : (num : ℕ) → NoByte b'_' (base62_encode num)
unfolding base62_encode
base62_encode-NoByte num =
    NoByte-append _ _ (replicate-NoByte _) (digits_acc-NoByte num (lt_wf.apply num))

module _ (crc32 : Text → ℕ) (crc32_u32 : (s : Text) → crc32 s < 2 ^ 32) where
  -- The token of a type and a random part.
  abbrev pub token_of : TokenType → Text → Text
  token_of t r = base_of crc32 t r ++ b'_' ∷ base62_encode (crc32 (base_of crc32 t r))

  split-token_of :
      (t : TokenType) (r : Text)
      → NoByte b'_' r
      → split b'_' (token_of t r) ≡ prefix t ∷ r ∷ base62_encode (crc32 (base_of crc32 t r)) ∷ []
  split-token_of t r h =
      let crc : Text = base62_encode (crc32 (base_of crc32 t r)) in
      rw (append_assoc (prefix t) (b'_' ∷ r) (b'_' ∷ crc)) (
        split-append b'_' (prefix t) (r ++ b'_' ∷ crc) (prefix-NoByte t)
        ∙ ap (λ ps. prefix t ∷ ps)
            (split-append b'_' r crc h
              ∙ ap (λ ps. r ∷ ps) (split_of_NoByte b'_' crc (base62_encode-NoByte _))))

  check_parts-token_of :
      (t : TokenType) (r : Text)
      → length r ≡ 30
      → check_parts crc32 (prefix t ∷ r ∷ base62_encode (crc32 (base_of crc32 t r)) ∷ []) ≡ ok t
  unfolding check_parts check_crc
  check_parts-token_of t r h =
      rw
        (
          length-prefix t,
          h,
          length-base62_encode (crc32 (base_of crc32 t r)) (crc32_u32 _),
          match_prefix-prefix t,
          text_eq_refl,
        )
        refl

  check_parts_ok :
      (parts : List Text) (t : TokenType)
      → check_parts crc32 parts ≡ ok t
      → (r : Text) × (length r ≡ 30)
        × (parts ≡ prefix t ∷ r ∷ base62_encode (crc32 (base_of crc32 t r)) ∷ [])
  unfolding check_parts check_crc
  check_parts_ok [] t h = cc
  check_parts_ok (p ∷ []) t h = cc
  check_parts_ok (p ∷ r ∷ []) t h = cc
  check_parts_ok (p ∷ r ∷ c ∷ []) t h = (
    r,
    ground arith,
    ground (
      arith,
      prefix_of_match_prefix p t,
      text_eq_iff c (base62_encode (crc32 (base_of crc32 t r))),
    ),
  )
  check_parts_ok (p ∷ r ∷ c ∷ d ∷ ps) t h = cc

  check_sound :
      (s : Text) (t : TokenType)
      → check_parts crc32 (split b'_' s) ≡ ok t
      → (r : Text) × (length r ≡ 30) × NoByte b'_' r × (s ≡ token_of t r)
  check_sound s t h =
      let (r, n, e) = check_parts_ok (split b'_' s) t h in
      let crc : Text = base62_encode (crc32 (base_of crc32 t r)) in
      (
        r,
        n,
        (subst (All (NoByte b'_')) e (split-NoByte b'_' s)).1.0,
        sym (join-split b'_' s)
            ∙ ap (join b'_') e
            ∙ sym (append_assoc (prefix t) (b'_' ∷ r) (b'_' ∷ crc)),
      )

  -- `check` answers a type exactly for the texts that are the type's prefix, thirty bytes without an
  -- underscore and the encoded checksum of these two, joined by underscores, whenever the checksum
  -- is a 32-bit number.
  pub check_iff :
      (s : Text) (t : TokenType)
      → (check crc32 s ≡ ok t) ↔ ((r : Text) × (length r ≡ 30) × NoByte b'_' r × (s ≡ token_of t r))
  unfolding check
  check_iff s t = (
    λ h. check_sound s t h,
    λ (r, n, k, e). rw (e, split-token_of t r k) (check_parts-token_of t r n),
  )

  -- A generated token of any type passes the check with its own type, for every stream of ASCII
  -- letters and digits and every 32-bit checksum.
  pub check-generate :
      (t : TokenType) (rng : ℕ → ℕ)
      → ((i : ℕ) → IsAlphanumeric (rng i))
      → check crc32 (generate crc32 t rng).0 ≡ ok t
  unfolding generate
  check-generate t rng h =
      (check_iff (token_of t (take_samples 30 rng)) t).1
        (take_samples 30 rng, length-take_samples 30 rng, take_samples-NoByte 30 rng h, refl)
