-- ===== src/Scope/Parse.antt =====
-- Parsing and printing a scope, crates/oauth2-types/src/scope.rs.
use mathlib.Core.Logic.{∥∥₁_elim}
use mathlib.Core.List.{Perm, Permᴰ}
use mathlib.Core.Quot
use mathlib.Core.Quot.{Quot, Quot-set}
use turnkey_triumph_326606_m.Prelude.{
  ◌≡◌, ◌≢◌, ◌↔◌, refl, sym, ap, subst, ◌∙◌, Bool, List, [], ◌∷◌, Result, ok, err, Text, text_eq,
  All, Bool-cases, inl, inr, arith,
}
use turnkey_triumph_326606_m.Prelude.Split.{split, join, NoByte, split_of_NoByte, split-append}
use turnkey_triumph_326606_m.Scope.{
  ScopeToken, Scope, InvalidScope, token_from_str, has_token, insert, from_iter, tokens_from_strs,
  from_str, to_string,
}
use turnkey_triumph_326606_m.Scope.Tokens.{
  IsToken, IsNqchar, token_from_str_ok, token_from_str_of_IsToken, has_token-from_iter, IsDistinct,
  from_iter-IsDistinct, from_iter_of_IsDistinct,
}

tokens_from_strs_ok : (ps ts : List Text) → tokens_from_strs ps ≡ ok ts → All IsToken ps × (ps ≡ ts)
unfolding tokens_from_strs
tokens_from_strs_ok [] ts h = (tt, cc)
tokens_from_strs_ok (p ∷ ps) ts h =
    go (token_from_str p) refl (tokens_from_strs ps) refl h (λ us e. tokens_from_strs_ok ps us e)
  where
    combine :
        Result InvalidScope Text → Result InvalidScope (List Text) → Result InvalidScope (List Text)
    combine r rest = elim r [
      | err e ↦ err e
      | ok t ↦ elim rest [ err e ↦ err e | ok us ↦ ok (t ∷ us) ]
    ]

    go :
        (r : Result InvalidScope Text)
        → token_from_str p ≡ r
        → (rest : Result InvalidScope (List Text)) → tokens_from_strs ps ≡ rest
        → combine r rest ≡ ok ts
        → ((us : List Text) → tokens_from_strs ps ≡ ok us → All IsToken ps × (ps ≡ us))
        → All IsToken (p ∷ ps) × (p ∷ ps ≡ ts)
    go (err e) a rest b k ih = cc
    go (ok t) a (err e) b k ih = cc
    go (ok t) a (ok us) b k ih =
        let (tok, same) = token_from_str_ok p t a in
        let (toks, sames) = ih us b in ((tok, toks), cc)

tokens_from_strs_of_IsToken : (ps : List Text) → All IsToken ps → tokens_from_strs ps ≡ ok ps
unfolding tokens_from_strs
tokens_from_strs_of_IsToken [] h = refl
tokens_from_strs_of_IsToken (p ∷ ps) h =
    ground (arith, token_from_str_of_IsToken p h.0, tokens_from_strs_of_IsToken ps h.1)

from_str_ok :
    (s : Text) (sc : Scope)
    → from_str s ≡ ok sc
    → All IsToken (split b' ' s) × (from_iter (split b' ' s) ≡ sc)
unfolding from_str
from_str_ok s sc h = go (tokens_from_strs (split b' ' s)) refl h
  where
    go :
        (r : Result InvalidScope (List Text))
        → tokens_from_strs (split b' ' s) ≡ r
        → elim r [ err e ↦ err e | ok ts ↦ ok (from_iter ts) ] ≡ ok sc
        → All IsToken (split b' ' s) × (from_iter (split b' ' s) ≡ sc)
    go (err e) a k = cc
    go (ok ts) a k = let (toks, same) = tokens_from_strs_ok (split b' ' s) ts a in (toks, cc)

from_str_of_IsToken :
    (s : Text) → All IsToken (split b' ' s) → from_str s ≡ ok (from_iter (split b' ' s))
unfolding from_str
from_str_of_IsToken s h = ground (arith, tokens_from_strs_of_IsToken (split b' ' s) h)

-- A scope as the code keeps it: its tokens are valid and distinct.
pub record IsScope (s : Scope) : Type 0 where
  pub tokens : All IsToken s
  pub distinct : IsDistinct s

insert-All : (t : ScopeToken) (s : Scope) → IsToken t → All IsToken s → All IsToken (insert t s).1
unfolding insert
insert-All t s h k = elim (Bool-cases (has_token t s)) [ inl e ↦ rw e k | inr e ↦ rw e (h, k) ]

from_iter-All : (ts : List ScopeToken) → All IsToken ts → All IsToken (from_iter ts)
unfolding from_iter
from_iter-All [] h = tt
from_iter-All (t ∷ ts) h = insert-All t (from_iter ts) h.0 (from_iter-All ts h.1)

-- The scope that a text is parsed to has valid and distinct tokens, and they are exactly the parts
-- of the text between single spaces.
pub from_str_sound :
    (s : Text) (sc : Scope)
    → from_str s ≡ ok sc
    → IsScope sc × ((u : Text) → has_token u sc ≡ has_token u (split b' ' s))
from_str_sound s sc h =
    let (toks, e) = from_str_ok s sc h in
    (
      record {
        tokens = subst (All IsToken) e (from_iter-All (split b' ' s) toks);
        distinct = subst IsDistinct e (from_iter-IsDistinct (split b' ' s));
      },
      λ u. rw (← e) (has_token-from_iter u (split b' ' s)),
    )

-- A text is parsed to some scope exactly if every part between single spaces is a token: so not if it
-- is empty, begins or ends with a space, or has two spaces in a row.
pub from_str_iff : (s : Text) → ((sc : Scope) × (from_str s ≡ ok sc)) ↔ All IsToken (split b' ' s)
from_str_iff s =
    (λ (sc, e). (from_str_ok s sc e).0, λ h. (from_iter (split b' ' s), from_str_of_IsToken s h))

IsToken-NoByte : (s : Text) → IsToken s → NoByte b' ' s
IsToken-NoByte s h = go s h.1
  where
    go : (s : Text) → All (λ c. IsNqchar c × ((c ≢ b'[') × (c ≢ b'~'))) s → NoByte b' ' s
    go [] h = tt
    go (c ∷ s) (h, k) = (ground arith, go s k)

split-join :
    (t : ScopeToken) (ts : Scope) → All IsToken (t ∷ ts) → split b' ' (join b' ' (t ∷ ts)) ≡ t ∷ ts
split-join t [] h = split_of_NoByte b' ' t (IsToken-NoByte t h.0)
split-join t (u ∷ us) h =
    split-append b' ' t (join b' ' (u ∷ us)) (IsToken-NoByte t h.0)
    ∙ ap (λ ps. t ∷ ps) (split-join u us h.1)

-- A non-empty scope is read back from its printed form, whatever order its tokens are printed in.
pub from_str-to_string : (s : Scope) → s ≢ [] → IsScope s → from_str (to_string s) ≡ ok s
unfolding to_string
from_str-to_string [] h v = absurd (h refl)
from_str-to_string (t ∷ ts) h v =
    let e : split b' ' (join b' ' (t ∷ ts)) ≡ t ∷ ts = split-join t ts v.tokens in
    from_str_of_IsToken (join b' ' (t ∷ ts)) (rw e v.tokens)
    ∙ ap ok (ap from_iter e ∙ from_iter_of_IsDistinct (t ∷ ts) v.distinct)

-- Two scopes with the same tokens: equality of the source's hash sets.
abbrev pub SameTokens : Scope → Scope → Type 0
SameTokens a b = (u : ScopeToken) → has_token u a ≡ has_token u b

abbrev pub ScopeSet : Type 0
ScopeSet = Quot SameTokens

abbrev pub set_of : Scope → ScopeSet
set_of s = Quot.mk s

Bool-set : IsSet Bool
Bool-set = hlevel

has_token-Permᴰ :
    (u : ScopeToken) {ts us : List ScopeToken} → Permᴰ ts us → has_token u ts ≡ has_token u us
unfolding has_token
has_token-Permᴰ u Permᴰ.nil = refl
has_token-Permᴰ u (Permᴰ.cons e p) = ground (arith, ap (text_eq u) e, has_token-Permᴰ u p)
has_token-Permᴰ u (Permᴰ.swap e f) = ground (arith, ap (text_eq u) e, ap (text_eq u) f)
has_token-Permᴰ u (Permᴰ.trans p q) = has_token-Permᴰ u p ∙ has_token-Permᴰ u q

-- The order of the words does not matter: texts whose parts are permutations of one another are
-- parsed to the same set of tokens, as an equation in the quotient of scopes by their tokens.
pub from_str_perm :
    (s t : Text) (a b : Scope)
    → Perm (split b' ' s) (split b' ' t)
    → from_str s ≡ ok a
    → from_str t ≡ ok b
    → set_of a ≡ set_of b
from_str_perm s t a b p ha hb = Quot.sound λ u.
    (from_str_sound s a ha).1 u
    ∙ ∥∥₁_elim p (Bool-set _ _) (λ d. has_token-Permᴰ u d)
    ∙ sym ((from_str_sound t b hb).1 u)
