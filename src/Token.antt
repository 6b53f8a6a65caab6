-- ===== src/Token.antt =====
-- The token formats of crates/data-model/src/tokens.rs: `TokenType`, its generation and its check.
-- The CRC-32 of the `crc` crate is a parameter, and the random generator is the stream of bytes that
-- `sample_iter(&Alphanumeric)` draws from it.
pub mod Base62
pub mod RoundTrip
pub mod Collision
use mathlib.Core.WellFounded.{Acc}
use mathlib.Core.Logic.{dite}
use turnkey_triumph_326606_m.Prelude.{
  ℕ, zero, suc, ◌+◌, ◌-◌, ◌/◌, ◌%◌, ◌<◌, Bool, true, false, ◌&&◌, ◌||◌, Option, none, some, List,
  [], ◌∷◌, ◌++◌, Result, ok, err, ok_or, if◌then◌else◌, ◌==◌, not, length, get_or, replicate, Text,
  codes, text_eq, dec_lt, arith,
}
use turnkey_triumph_326606_m.Prelude.Order.{lt_wf}
use turnkey_triumph_326606_m.Prelude.Split.{split}

pub data TokenType : Type 0 where
  access_token refresh_token compat_access_token compat_refresh_token : TokenType

pub data TokenFormatError : Type 0 where
  invalid_format : TokenFormatError
  unknown_prefix : Text → TokenFormatError
  invalid_crc : Text → Text → TokenFormatError

abbrev pub prefix : TokenType → Text
prefix access_token = codes "mat"
prefix refresh_token = codes "mar"
prefix compat_access_token = codes "mct"
prefix compat_refresh_token = codes "mcr"

unfoldable pub match_prefix : Text → Option TokenType
unfolding text_eq
match_prefix p =
    if text_eq p (codes "mat")
    then some access_token
    else if text_eq p (codes "mar")
    then some refresh_token
    else if text_eq p (codes "mct")
    then some compat_access_token
    else if text_eq p (codes "mcr")
    then some compat_refresh_token
    else none

-- The table `NUM`.
abbrev pub num_table : Text
num_table = codes "0123456789ABCDEFGHIJKLMNOPQRSTUVWXYZabcdefghijklmnopqrstuvwxyz"

-- The digit of a remainder: `NUM[(num % 62) as usize]`, never out of range.
unfoldable pub digit : ℕ → ℕ
digit num = get_or num_table (num % 62) 0

pub div62_lt : (num : ℕ) → 0 < num → num / 62 < num
div62_lt num h = omega arith

-- The loop of `base62_encode`: the least significant digit is pushed first.
unfoldable pub digits_acc : (num : ℕ) → Acc ◌<◌ num → Text
unfolding digit dec_lt
digits_acc num (Acc.intro _ smaller) =
    dite (dec_lt 0 num)
      (λ h. digit num ∷ digits_acc (num / 62) (smaller (num / 62) (div62_lt num h))) (λ _. [])

-- `format!("{:0>6}", res)`: padded with zeros on the left to six characters.
pub pad_left : ℕ → Text → Text
pad_left width res = replicate (width - length res) b'0' ++ res

unfoldable pub base62_encode : ℕ → Text
unfolding digits_acc pad_left lt_wf
base62_encode num = pad_left 6 (digits_acc num (lt_wf.apply num))

-- The first `n` samples of a stream.
unfoldable pub take_samples : ℕ → (ℕ → ℕ) → Text
take_samples zero rng = []
take_samples (suc n) rng = rng 0 ∷ take_samples n (λ i. rng (suc i))

module _ (crc32 : Text → ℕ) where
  -- `format!("{}_{}", self.prefix(), random_part)`
  abbrev pub base_of : TokenType → Text → Text
  base_of t random_part = prefix t ++ b'_' ∷ random_part

  -- The token, and what is left of the stream.
  unfoldable pub generate : TokenType → (ℕ → ℕ) → Text × (ℕ → ℕ)
  unfolding take_samples base62_encode
  generate t rng =
      let random_part = take_samples 30 rng in
      let base = base_of t random_part in
      (base ++ b'_' ∷ base62_encode (crc32 base), λ i. rng (30 + i))

  pub check_crc : TokenType → Text → Text → Result TokenFormatError TokenType
  unfolding base62_encode text_eq
  check_crc t random_part crc =
      let expected_crc = base62_encode (crc32 (base_of t random_part)) in
      if not (text_eq crc expected_crc) then err (invalid_crc expected_crc crc) else ok t

  pub check_parts : List Text → Result TokenFormatError TokenType
  unfolding match_prefix check_crc
  check_parts (p ∷ random_part ∷ crc ∷ []) =
      if not (length p == 3) || not (length random_part == 30) || not (length crc == 6)
      then err invalid_format
      else elim (match_prefix p) [
        | none ↦ err (unknown_prefix p)
        | some t ↦ check_crc t random_part crc
      ]
  check_parts _ = err invalid_format

  unfoldable pub check : Text → Result TokenFormatError TokenType
  unfolding split check_parts
  check token = check_parts (split b'_' token)
