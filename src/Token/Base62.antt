-- ===== src/Token/Base62.antt =====
-- The length of an encoded checksum: six characters for every `u32`, since 62 ^ 6 exceeds 2 ^ 32.
use mathlib.Core.WellFounded.{Acc}
use mathlib.Core.Logic.{dif_pos, dif_neg}
use native.Mathlib.Bridge.{le_prop}
use turnkey_triumph_326606_m.Prelude.{
  ℕ, zero, suc, ◌*◌, ◌/◌, ◌^◌, ◌≤◌, ◌<◌, ◌≡◌, refl, [], ◌∷◌, ap, Text, length, length-append,
  length-replicate, arith, dec_lt,
}
use turnkey_triumph_326606_m.Prelude.Order.{lt_wf}
use turnkey_triumph_326606_m.Token.{digit, digits_acc, pad_left, base62_encode, div62_lt}

-- A positive number has its last digit first, then those of its quotient.
pub digits_acc-pos :
    (num : ℕ) (w : Acc ◌<◌ num)
    → 0 < num
    → (w' : Acc ◌<◌ (num / 62)) × (digits_acc num w ≡ digit num ∷ digits_acc (num / 62) w')
unfolding digits_acc
digits_acc-pos num (Acc.intro _ smaller) h =
    (smaller (num / 62) (div62_lt num h), rw (dif_pos _ le_prop h) refl)

pub digits_acc-zero : (w : Acc ◌<◌ 0) → digits_acc 0 w ≡ []
unfolding digits_acc
digits_acc-zero (Acc.intro _ smaller) = refl

-- The proof that the loop ends does not matter.
pub digits_acc_irrelevant : (num : ℕ) (w w' : Acc ◌<◌ num) → digits_acc num w ≡ digits_acc num w'
unfolding digits_acc
digits_acc_irrelevant num (Acc.intro _ s) (Acc.intro _ s') = elim (dec_lt 0 num) [
  | yes h ↦ rw (dif_pos _ le_prop h) (
      rw (dif_pos _ le_prop h) (
        ap (λ ds. digit num ∷ ds)
          (digits_acc_irrelevant (num / 62) (s (num / 62) (div62_lt num h))
            (s' (num / 62) (div62_lt num h)))))
  | no h ↦ rw (dif_neg _ h) (rw (dif_neg _ h) refl)
]

-- 62 ^ k by repeated multiplication, which `omega` reads.
abbrev pub pow62 : ℕ → ℕ
pow62 zero = 1
pow62 (suc k) = 62 * pow62 k

-- A number below 62 ^ k has at most k digits.
pub length-digits_acc :
    (k num : ℕ) (w : Acc ◌<◌ num) → num < pow62 k → length (digits_acc num w) ≤ k
length-digits_acc k zero w h = rw (digits_acc-zero w) (omega arith)
length-digits_acc zero (suc n) w h = absurd (omega arith)
length-digits_acc (suc k) (suc n) w h =
    let (w', e) = digits_acc-pos (suc n) w (omega arith) in
    let rest : length (digits_acc (suc n / 62) w') ≤ k =
      length-digits_acc k (suc n / 62) w' (omega arith) in
    rw e (omega arith)

length-pad_left :
    (width : ℕ) (res : Text) → length res ≤ width → length (pad_left width res) ≡ width
unfolding pad_left
length-pad_left width res h = rw length-append (rw length-replicate (omega arith))

-- The encoding of every `u32` has exactly six characters.
pub length-base62_encode : (num : ℕ) → num < 2 ^ 32 → length (base62_encode num) ≡ 6
unfolding base62_encode
length-base62_encode num h =
    length-pad_left 6 _ (length-digits_acc 6 num (lt_wf.apply num) (omega arith))
