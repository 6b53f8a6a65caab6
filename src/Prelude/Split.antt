-- ===== src/Prelude/Split.antt =====
-- `str::split` at a separator byte and its laws, which the token and scope parsers rest on.
use Prim.Native.Nat.{ℕ}
use mathlib.Core.Path.{◌≡◌, refl, ap, ◌∙◌}
use mathlib.Core.Logic.{◌≢◌, inl, inr}
use mathlib.Core.List.{List, [], ◌∷◌, ◌++◌}
use native.Mathlib.Omega.{arith}
use turnkey_triumph_326606_m.Prelude.Tests.{◌==◌, Bool-cases, if◌then◌else◌}
use turnkey_triumph_326606_m.Prelude.Lists.{All}
use turnkey_triumph_326606_m.Prelude.Bytes.{Text}

-- `str::split` at one ASCII byte: always one part more than there are separators.
pub cons_head : ℕ → List Text → List Text
cons_head c [] = (c ∷ []) ∷ []
cons_head c (part ∷ parts) = (c ∷ part) ∷ parts

unfoldable pub split : ℕ → Text → List Text
unfolding cons_head
split sep [] = [] ∷ []
split sep (c ∷ s) = let rest = split sep s in if c == sep then [] ∷ rest else cons_head c rest

abbrev pub NoByte : ℕ → Text → Type 0
NoByte sep s = All (λ c. c ≢ sep) s

-- A text without the separator is one part.
pub split_of_NoByte : (sep : ℕ) (s : Text) → NoByte sep s → split sep s ≡ s ∷ []
unfolding split
split_of_NoByte sep [] h = refl
split_of_NoByte sep (c ∷ s) h = ground (arith, split_of_NoByte sep s h.1)

-- The first part ends at the first separator.
pub split-append :
    (sep : ℕ) (p s : Text) → NoByte sep p → split sep (p ++ sep ∷ s) ≡ p ∷ split sep s
unfolding split
split-append sep [] s h = ground arith
split-append sep (c ∷ p) s h = ground (arith, split-append sep p s h.1)

-- The inverse of splitting.
abbrev pub join : ℕ → List Text → Text
join sep [] = []
join sep (p ∷ []) = p
join sep (p ∷ q ∷ ps) = p ++ sep ∷ join sep (q ∷ ps)

join-cons_head : (sep c : ℕ) (parts : List Text) → join sep (cons_head c parts) ≡ c ∷ join sep parts
unfolding cons_head
join-cons_head sep c [] = refl
join-cons_head sep c (p ∷ []) = refl
join-cons_head sep c (p ∷ q ∷ ps) = refl

split-ne-nil : (sep : ℕ) (s : Text) → split sep s ≢ []
unfolding split
split-ne-nil sep [] = cc
split-ne-nil sep (c ∷ s) = ground arith

join-cons_nil :
    (sep : ℕ) (parts : List Text) → parts ≢ [] → join sep ([] ∷ parts) ≡ sep ∷ join sep parts
join-cons_nil sep [] h = absurd (h refl)
join-cons_nil sep (p ∷ ps) h = refl

pub join-split : (sep : ℕ) (s : Text) → join sep (split sep s) ≡ s
unfolding split
join-split sep [] = refl
join-split sep (c ∷ s) = elim (Bool-cases (c == sep)) [
  | inl e ↦
      rw e (join-cons_nil sep (split sep s) (split-ne-nil sep s) ∙ ground (arith, join-split sep s))
  | inr e ↦ rw e (join-cons_head sep c (split sep s) ∙ ap (λ t. c ∷ t) (join-split sep s))
]

cons_head-NoByte :
    (sep c : ℕ) (parts : List Text)
    → c ≢ sep
    → All (NoByte sep) parts
    → All (NoByte sep) (cons_head c parts)
unfolding cons_head
cons_head-NoByte sep c [] h a = ((h, tt), tt)
cons_head-NoByte sep c (p ∷ ps) h (a, as') = ((h, a), as')

-- No part holds the separator.
pub split-NoByte : (sep : ℕ) (s : Text) → All (NoByte sep) (split sep s)
unfolding split
split-NoByte sep [] = (tt, tt)
split-NoByte sep (c ∷ s) = elim (Bool-cases (c == sep)) [
  | inl e ↦ rw e (tt, split-NoByte sep s)
  | inr e ↦ rw e (cons_head-NoByte sep c (split sep s) (ground arith) (split-NoByte sep s))
]
