-- ===== src/Token/Collision.antt =====
-- `base62_encode` writes the least significant digit first but pads on the left, so it forgets
-- trailing zeros: two checksums that differ by a factor of 62 are encoded alike.
use mathlib.Core.WellFounded.{Acc}
use turnkey_triumph_326606_m.Prelude.{
  ℕ, zero, suc, ◌-◌, ◌*◌, ◌/◌, ◌%◌, ◌≤◌, ◌<◌, ◌≡◌, refl, ap, subst, ◌∷◌, ◌++◌, Text, length,
  replicate, arith,
}
use turnkey_triumph_326606_m.Prelude.Order.{lt_wf}
use turnkey_triumph_326606_m.Token.{digit, digits_acc, pad_left, base62_encode}
use turnkey_triumph_326606_m.Token.Base62.{digits_acc-pos, digits_acc_irrelevant, length-digits_acc}

digit-mul62 : (n : ℕ) → digit (62 * n) ≡ b'0'
unfolding digit
digit-mul62 n = rw (let e : (62 * n) % 62 ≡ 0 = omega arith in e) refl

digits_acc_cong :
    (m n : ℕ) → m ≡ n → (w : Acc ◌<◌ m) (w' : Acc ◌<◌ n) → digits_acc m w ≡ digits_acc n w'
digits_acc_cong m n e =
    subst (λ k. (w : Acc ◌<◌ m) (w' : Acc ◌<◌ k) → digits_acc m w ≡ digits_acc k w') e
      (digits_acc_irrelevant m)

-- A factor of 62 puts a zero in front.
digits_acc-mul62 :
    (n : ℕ) (w : Acc ◌<◌ (62 * n)) (w' : Acc ◌<◌ n)
    → 0 < n
    → digits_acc (62 * n) w ≡ b'0' ∷ digits_acc n w'
digits_acc-mul62 n w w' h =
    let (v, e) = digits_acc-pos (62 * n) w (omega arith) in
    rw (e, digit-mul62 n)
      (ap (λ ds. b'0' ∷ ds) (digits_acc_cong (62 * n / 62) n (omega arith) v w'))

replicate-concat : (k : ℕ) (c : ℕ) (s : Text) → replicate k c ++ c ∷ s ≡ c ∷ (replicate k c ++ s)
replicate-concat zero c s = refl
replicate-concat (suc k) c s = ap (λ t. c ∷ t) (replicate-concat k c s)

pad_left-zero :
    (width : ℕ) (res : Text) → length res < width → pad_left width (b'0' ∷ res) ≡ pad_left width res
unfolding pad_left
pad_left-zero width res h =
    let e : width - length res ≡ suc (width - suc (length res)) = omega arith in
    rw e (replicate-concat (width - suc (length res)) b'0' res)

-- For every number below 62 ^ 5, the number and its multiple by 62 have the same encoding.
pub base62_encode-mul62 :
    (n : ℕ) → n < 62 * 62 * 62 * 62 * 62 → base62_encode (62 * n) ≡ base62_encode n
unfolding base62_encode
base62_encode-mul62 zero h = refl
base62_encode-mul62 (suc n) h =
    rw (digits_acc-mul62 (suc n) (lt_wf.apply (62 * suc n)) (lt_wf.apply (suc n)) (omega arith)) (
      pad_left-zero 6 (digits_acc (suc n) (lt_wf.apply (suc n))) (
        let b : length (digits_acc (suc n) (lt_wf.apply (suc n))) ≤ 5 =
          length-digits_acc 5 (suc n) (lt_wf.apply (suc n)) (omega arith) in
        omega arith))
