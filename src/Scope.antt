-- ===== src/Scope.antt =====
-- Scope tokens and scopes, crates/oauth2-types/src/scope.rs. A `Scope` is the list of the tokens of
-- the source's hash set, each once, in some order of iteration.
pub mod Tokens
pub mod Parse
use turnkey_triumph_326606_m.Prelude.{
  ℕ, Bool, true, false, ◌&&◌, ◌||◌, not, List, [], ◌∷◌, ◌++◌, Result, ok, err, Text, codes, text_eq,
  if◌then◌else◌, ◌==◌, leb, ltb, all, map,
}
use turnkey_triumph_326606_m.Prelude.Split.{split, join}

pub data InvalidScope : Type 0 where
  invalid_scope : InvalidScope

abbrev pub ScopeToken : Type 0
ScopeToken = Text

abbrev pub Scope : Type 0
Scope = List ScopeToken

abbrev pub openid : ScopeToken
openid = codes "openid"

-- A range of the source, `('\x23'..'\x5B')`, leaves its end out. Every byte of a character outside
-- ASCII is above these ranges, so a text's bytes pass exactly if its characters do.
unfoldable pub nqchar : ℕ → Bool
nqchar c = c == 0x21 || (leb 0x23 c && ltb c 0x5B) || (leb 0x5D c && ltb c 0x7E)

abbrev pub is_empty : Text → Bool
is_empty [] = true
is_empty (c ∷ s) = false

-- `ScopeToken::from_str`
unfoldable pub token_from_str : Text → Result InvalidScope ScopeToken
token_from_str s = if not (is_empty s) && all nqchar s then ok s else err invalid_scope

-- `HashSet::contains`
unfoldable pub has_token : ScopeToken → Scope → Bool
unfolding text_eq
has_token t [] = false
has_token t (u ∷ us) = text_eq t u || has_token t us

-- `HashSet::insert`: whether the token is new, and the set with it.
unfoldable pub insert : ScopeToken → Scope → Bool × Scope
unfolding has_token
insert t s = if has_token t s then (false, s) else (true, t ∷ s)

-- `FromIterator`: the tokens are inserted one by one.
unfoldable pub from_iter : List ScopeToken → Scope
unfolding insert
from_iter [] = []
from_iter (t ∷ ts) = (insert t (from_iter ts)).1

-- `map(ScopeToken::from_str)` collected into a `Result`: the first error, if there is one.
unfoldable pub tokens_from_strs : List Text → Result InvalidScope (List ScopeToken)
unfolding token_from_str
tokens_from_strs [] = ok []
tokens_from_strs (p ∷ ps) =
    let rest = tokens_from_strs ps in
    elim (token_from_str p) [
      | err e ↦ err e
      | ok t ↦ elim rest [ err e ↦ err e | ok ts ↦ ok (t ∷ ts) ]
    ]

-- `Scope::from_str`
unfoldable pub from_str : Text → Result InvalidScope Scope
unfolding tokens_from_strs from_iter split
from_str s = elim (tokens_from_strs (split b' ' s)) [ err e ↦ err e | ok ts ↦ ok (from_iter ts) ]

-- `Scope::contains`
unfoldable pub contains : Scope → Text → Bool
unfolding token_from_str has_token
contains s t = elim (token_from_str t) [ ok token ↦ has_token token s | err e ↦ false ]

-- `Scope::to_string`
unfoldable pub to_string : Scope → Text
to_string s = join b' ' s
