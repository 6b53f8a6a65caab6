-- ===== src/Claims/Standard.antt =====
-- The types of the standard claims, and the claims that the endpoints use, crates/jose/src/claims.rs.
use turnkey_triumph_326606_m.Prelude.{none, some, List, [], ◌∷◌, Text, codes}
use turnkey_triumph_326606_m.Time.{Timestamp}
use turnkey_triumph_326606_m.Claims.{Value, string, array, Codec, Claim}

abbrev pub text_codec : Codec Text
text_codec = record {
  to_value = λ s. some (string s);
  from_value = elim [ string s ↦ some s | _ ↦ none ];
}

abbrev pub prefer_one : List Text → Value
prefer_one (one ∷ []) = string one
prefer_one many = array many

-- `OneOrMany` with `PreferOne`: a single value stands for itself.
abbrev pub one_or_many_codec : Codec (List Text)
one_or_many_codec = record {
  to_value = λ ts. some (prefer_one ts);
  from_value = elim [ string s ↦ some (s ∷ []) | array ts ↦ some ts | _ ↦ none ];
}

abbrev pub iss : Claim Text
iss = record { name = codes "iss"; codec = text_codec }

abbrev pub sub : Claim Text
sub = record { name = codes "sub"; codec = text_codec }

abbrev pub aud : Claim (List Text)
aud = record { name = codes "aud"; codec = one_or_many_codec }

abbrev pub nonce : Claim Text
nonce = record { name = codes "nonce"; codec = text_codec }

abbrev pub at_hash : Claim Text
at_hash = record { name = codes "at_hash"; codec = text_codec }

abbrev pub c_hash : Claim Text
c_hash = record { name = codes "c_hash"; codec = text_codec }

-- `chrono::serde::ts_seconds` is not here: the codec of the times is a parameter.
module _ (ts_seconds : Codec Timestamp) where
  abbrev pub nbf : Claim Timestamp
  nbf = record { name = codes "nbf"; codec = ts_seconds }

  abbrev pub exp : Claim Timestamp
  exp = record { name = codes "exp"; codec = ts_seconds }

  abbrev pub iat : Claim Timestamp
  iat = record { name = codes "iat"; codec = ts_seconds }

  abbrev pub auth_time : Claim Timestamp
  auth_time = record { name = codes "auth_time"; codec = ts_seconds }
