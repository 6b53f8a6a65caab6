-- ===== src/Claims/Laws.antt =====
-- The map laws, and what inserting and extracting a claim do to each other and to other claims.
use turnkey_triumph_326606_m.Prelude.{
  ◌≡◌, ◌≢◌, ◌↔◌, refl, ◌∙◌, true, none, some, [], ◌∷◌, ok, Text, text_eq_iff, text_eq_refl, inl,
  inr, Option-cases, arith,
}
use turnkey_triumph_326606_m.Time.{Timestamp}
use turnkey_triumph_326606_m.Claims.{
  Value, Claims, get, remove, insert_value, Validator, Claim, insert, extract_required_with_options,
  extract_optional_with_options,
}

pub get-remove_self : (k : Text) (m : Claims) → get k (remove k m) ≡ none
unfolding get remove
get-remove_self k [] = refl
get-remove_self k ((j, v) ∷ m) = ground (arith, get-remove_self k m)

pub get-remove_ne : (k j : Text) (m : Claims) → j ≢ k → get j (remove k m) ≡ get j m
unfolding get remove
get-remove_ne k j [] h = refl
get-remove_ne k j ((i, v) ∷ m) h =
    ground (arith, text_eq_iff i k, text_eq_iff i j, get-remove_ne k j m h)

remove-remove : (k : Text) (m : Claims) → remove k (remove k m) ≡ remove k m
unfolding remove
remove-remove k [] = refl
remove-remove k ((j, v) ∷ m) = ground (arith, remove-remove k m)

get-cons_self : (k : Text) (v : Value) (m : Claims) → get k ((k, v) ∷ m) ≡ some v
unfolding get
get-cons_self k v m = rw (text_eq_refl k) refl

get-cons_ne : (k j : Text) (v : Value) (m : Claims) → j ≢ k → get j ((k, v) ∷ m) ≡ get j m
unfolding get
get-cons_ne k j v m h = ground (arith, text_eq_iff k j)

module _ {T : Type 0} (c : Claim T) where
  insert_ok :
      (claims m : Claims) (value : T) (v : Value)
      → c.codec.to_value value ≡ some v
      → insert c claims value ≡ ok m
      → m ≡ (c.name, v) ∷ remove c.name claims
  unfolding insert insert_value
  insert_ok claims m value v e i = ground arith

  remove-cons_self :
      (v : Value) (claims : Claims)
      → remove c.name ((c.name, v) ∷ remove c.name claims) ≡ remove c.name claims
  unfolding remove
  remove-cons_self v claims = rw (text_eq_refl c.name) (remove-remove c.name claims)

  -- The map that an extraction leaves: the claim is gone, accepted or not, and no other has changed.
  pub extract_frame :
      (now : Timestamp) (claims : Claims) (validate : Validator T)
      → let rest = (extract_required_with_options c now claims validate).1 in
        (get c.name rest ≡ none) × ((j : Text) → j ≢ c.name → get j rest ≡ get j claims)
  unfolding extract_required_with_options
  extract_frame now claims validate = elim (Option-cases (get c.name claims)) [
    | inl e ↦ (ground arith, λ j h. ground arith)
    | inr (v, e) ↦ (
      ground (arith, get-remove_self c.name claims),
      λ j h. ground (arith, get-remove_ne c.name j claims h),
    )
  ]

  extract_required_lem :
      (now : Timestamp) (claims : Claims) (validate : Validator T) (v : Value) (t : T)
      → get c.name claims ≡ some v
      → c.codec.from_value v ≡ some t
      → validate now t ≡ true
      → (extract_required_with_options c now claims validate).0 ≡ ok t
  unfolding extract_required_with_options
  extract_required_lem now claims validate v t e d p = ground arith

  -- A claim that was inserted is extracted as what its stored value stands for, if the validator
  -- accepts that; every other claim is still there afterwards.
  pub extract-insert :
      (now : Timestamp) (claims m : Claims) (value t : T) (v : Value) (validate : Validator T)
      → c.codec.to_value value ≡ some v
      → c.codec.from_value v ≡ some t
      → validate now t ≡ true
      → insert c claims value ≡ ok m
      → ((extract_required_with_options c now m validate).0 ≡ ok t)
        × ((j : Text)
            → j ≢ c.name
            → get j (extract_required_with_options c now m validate).1 ≡ get j claims)
  extract-insert now claims m value t v validate e d p i =
      let shape = insert_ok claims m value v e i in
      (
        extract_required_lem now m validate v t (rw shape (get-cons_self c.name v _)) d p,
        λ j h.
            (extract_frame now m validate).1 j h
            ∙ rw shape (get-cons_ne c.name j v _ (λ q. h q) ∙ get-remove_ne c.name j claims h),
      )

  -- An optional extraction answers nothing exactly if the claim is missing, and a value exactly if a
  -- required extraction answers it; a malformed or rejected claim stays an error.
  pub extract_optional_cases :
      (now : Timestamp) (claims : Claims) (validate : Validator T)
      → let r = (extract_required_with_options c now claims validate).0 in
        let o = (extract_optional_with_options c now claims validate).0 in
        ((o ≡ ok none) ↔ (get c.name claims ≡ none)) × ((t : T) → (o ≡ ok (some t)) ↔ (r ≡ ok t))
  unfolding extract_required_with_options extract_optional_with_options
  extract_optional_cases now claims validate = elim (Option-cases (get c.name claims)) [
    | inl e ↦ (ground arith, λ t. ground arith)
    | inr (v, e) ↦ (ground arith, λ t. ground arith)
  ]
