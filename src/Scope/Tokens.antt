-- ===== src/Scope/Tokens.antt =====
-- Which texts are scope tokens, and the set operations of a scope.
use turnkey_triumph_326606_m.Prelude.{
  ℕ, ◌≤◌, ◌≡◌, ◌≢◌, ◌↔◌, ◌⊎◌, inl, inr, refl, ap, ◌∙◌, true, false, ◌||◌, List, [], ◌∷◌, ok, Text,
  text_eq, text_eq_iff, All, all, Bool-cases, arith,
}
use turnkey_triumph_326606_m.Scope.{
  ScopeToken, Scope, nqchar, token_from_str, has_token, insert, from_iter,
}

-- NQCHAR of RFC 6749, appendix A: %x21 / %x23-5B / %x5D-7E.
abbrev pub IsNqchar : ℕ → Type 0
IsNqchar c = (c ≡ 0x21) ⊎ ((0x23 ≤ c) × (c ≤ 0x5B)) ⊎ ((0x5D ≤ c) × (c ≤ 0x7E))

-- The characters that the code accepts are those of the RFC's grammar other than `[` and `~`.
pub nqchar_iff : (c : ℕ) → (nqchar c ≡ true) ↔ (IsNqchar c × ((c ≢ b'[') × (c ≢ b'~')))
unfolding nqchar
nqchar_iff c = (λ h. (ground arith, (ground arith, ground arith)), λ h. ground arith)

-- A token in the sense of the code: at least one character, each accepted.
abbrev pub IsToken : Text → Type 0
IsToken s = (s ≢ []) × All (λ c. IsNqchar c × ((c ≢ b'[') × (c ≢ b'~'))) s

all-nqchar :
    (s : Text) → (all nqchar s ≡ true) ↔ All (λ c. IsNqchar c × ((c ≢ b'[') × (c ≢ b'~'))) s
all-nqchar [] = (λ h. tt, λ h. refl)
all-nqchar (c ∷ s) = (
  λ h. ((nqchar_iff c).0 (ground arith), (all-nqchar s).0 (ground arith)),
  λ h. rw ((nqchar_iff c).1 h.0) ((all-nqchar s).1 h.1),
)

pub token_from_str_ok : (s t : Text) → token_from_str s ≡ ok t → IsToken s × (s ≡ t)
unfolding token_from_str
token_from_str_ok [] t h = cc
token_from_str_ok (c ∷ s) t h = elim (Bool-cases (all nqchar (c ∷ s))) [
  | inl e ↦ ((cc, (all-nqchar (c ∷ s)).0 e), ground arith)
  | inr e ↦ absurd (ground arith)
]

pub token_from_str_of_IsToken : (s : Text) → IsToken s → token_from_str s ≡ ok s
unfolding token_from_str
token_from_str_of_IsToken [] h = absurd (h.0 refl)
token_from_str_of_IsToken (c ∷ s) h = rw ((all-nqchar (c ∷ s)).1 h.1) refl

-- The set laws.
pub has_token-insert :
    (u t : ScopeToken) (s : Scope) → has_token u (insert t s).1 ≡ (text_eq u t || has_token u s)
unfolding insert has_token
has_token-insert u t s = elim (Bool-cases (has_token t s)) [
  | inl e ↦ elim (Bool-cases (text_eq u t)) [
    | inl f ↦ rw (e, f) (rw ((text_eq_iff u t).0 f) e)
    | inr f ↦ rw (e, f) refl
  ]
  | inr e ↦ rw e refl
]

pub has_token-from_iter :
    (u : ScopeToken) (ts : List ScopeToken) → has_token u (from_iter ts) ≡ has_token u ts
unfolding from_iter has_token
has_token-from_iter u [] = refl
has_token-from_iter u (t ∷ ts) =
    rw (has_token-insert u t (from_iter ts), has_token-from_iter u ts) refl

-- No token is listed twice.
abbrev pub IsDistinct : Scope → Type 0
IsDistinct [] = Unit
IsDistinct (t ∷ ts) = (has_token t ts ≡ false) × IsDistinct ts

insert-IsDistinct : (t : ScopeToken) (s : Scope) → IsDistinct s → IsDistinct (insert t s).1
unfolding insert
insert-IsDistinct t s h = elim (Bool-cases (has_token t s)) [ inl e ↦ rw e h | inr e ↦ rw e (e, h) ]

pub from_iter-IsDistinct : (ts : List ScopeToken) → IsDistinct (from_iter ts)
unfolding from_iter
from_iter-IsDistinct [] = tt
from_iter-IsDistinct (t ∷ ts) = insert-IsDistinct t (from_iter ts) (from_iter-IsDistinct ts)

pub from_iter_of_IsDistinct : (ts : List ScopeToken) → IsDistinct ts → from_iter ts ≡ ts
unfolding from_iter insert
from_iter_of_IsDistinct [] h = refl
from_iter_of_IsDistinct (t ∷ ts) h =
    ap (λ s. (insert t s).1) (from_iter_of_IsDistinct ts h.1) ∙ rw h.0 refl
