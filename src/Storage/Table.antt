-- ===== src/Storage/Table.antt =====
-- The constraints of a table with a primary key from a sequence and a UNIQUE token column
-- (crates/storage/migrations), and how insertions, deletions and updates keep them.
use mathlib.Core.List.{Memᴰ}
use turnkey_triumph_326606_m.Prelude.{
  ℕ, ◌+◌, ◌<◌, ◌≡◌, ◌≢◌, inl, inr, sym, ap, ◌∙◌, Bool, false, List, [], ◌∷◌, ◌++◌, map, Text,
  text_eq, text_eq_iff, All, any, retain, Bool-cases, arith,
}
use turnkey_triumph_326606_m.Prelude.Finding.{All-append, All-mono, All-retain, All-Mem}

module _ {A : Type 0} (id : A → ℕ) (token : A → Text) where
  abbrev pub Differs : A → A → Type 0
  Differs r q = (id q ≢ id r) × (token q ≢ token r)

  -- Ids are below the sequence's next value; no two rows share an id or a token.
  abbrev pub IsTable : ℕ → List A → Type 0
  IsTable next [] = Unit
  IsTable next (r ∷ rs) = (id r < next) × All (Differs r) rs × IsTable next rs

  any-All :
      (t : Text) (rs : List A)
      → any (λ r. text_eq (token r) t) rs ≡ false
      → All (λ r. token r ≢ t) rs
  any-All t [] h = tt
  any-All t (r ∷ rs) h = (ground (arith, text_eq_iff (token r) t), any-All t rs (ground arith))

  pub IsTable-append :
      (next : ℕ) (new : A) (rs : List A)
      → id new ≡ next
      → any (λ r. text_eq (token r) (token new)) rs ≡ false
      → IsTable next rs
      → IsTable (next + 1) (rs ++ new ∷ [])
  IsTable-append next new [] i h v = (omega arith, tt, tt)
  IsTable-append next new (r ∷ rs) i h v = (
    omega arith,
    All-append (Differs r) rs (new ∷ []) v.1
        ((omega arith, λ e. (any-All (token new) (r ∷ rs) h).0 (sym e)), tt),
    IsTable-append next new rs i (ground arith) v.2,
  )

  pub IsTable-retain :
      (next : ℕ) (keep : A → Bool) (rs : List A) → IsTable next rs → IsTable next (retain keep rs)
  IsTable-retain next keep [] v = tt
  IsTable-retain next keep (r ∷ rs) v = elim (Bool-cases (keep r)) [
    | inl e ↦ rw e (v.0, All-retain (Differs r) keep rs v.1, IsTable-retain next keep rs v.2)
    | inr e ↦ rw e (IsTable-retain next keep rs v.2)
  ]

  All-Differs-map :
      (f : A → A)
      → ((r : A) → (id (f r) ≡ id r) × (token (f r) ≡ token r))
      → (r : A) (rs : List A) → All (Differs r) rs
      → All (Differs (f r)) (map f rs)
  All-Differs-map f same r [] h = tt
  All-Differs-map f same r (q ∷ rs) h = (
    (λ e. h.0.0 (sym (same q).0 ∙ e ∙ (same r).0), λ e. h.0.1 (sym (same q).1 ∙ e ∙ (same r).1)),
    All-Differs-map f same r rs h.1,
  )

  pub IsTable-map :
      (next : ℕ) (f : A → A) (rs : List A)
      → ((r : A) → (id (f r) ≡ id r) × (token (f r) ≡ token r))
      → IsTable next rs
      → IsTable next (map f rs)
  IsTable-map next f [] same v = tt
  IsTable-map next f (r ∷ rs) same v =
      (rw ((same r).0) v.0, All-Differs-map f same r rs v.1, IsTable-map next f rs same v.2)

  -- A row that shares its token with a row of the table shares its id.
  pub id_of_token :
      (next : ℕ) (rs : List A) (x : A)
      → IsTable next rs
      → Memᴰ x rs
      → All (λ r. token r ≡ token x → id r ≡ id x) rs
  id_of_token next [] x v m = elim m [ ]
  id_of_token next (r ∷ rs) x v (Memᴰ.head e) = (
    λ _. ap id (sym e),
    All-mono (Differs r) (λ q. token q ≡ token x → id q ≡ id x) rs
        (λ q d same. absurd (d.1 (same ∙ ap token e))) v.1,
  )
  id_of_token next (r ∷ rs) x v (Memᴰ.tail m) =
      (λ same. absurd ((All-Mem (Differs r) rs v.1 m).1 (sym same)), id_of_token next rs x v.2 m)

  -- A row that shares its id with a row of the table shares its token.
  pub token_of_id :
      (next : ℕ) (rs : List A) (x : A)
      → IsTable next rs
      → Memᴰ x rs
      → All (λ r. id r ≡ id x → token r ≡ token x) rs
  token_of_id next [] x v m = elim m [ ]
  token_of_id next (r ∷ rs) x v (Memᴰ.head e) = (
    λ _. ap token (sym e),
    All-mono (Differs r) (λ q. id q ≡ id x → token q ≡ token x) rs
        (λ q d same. absurd (d.0 (same ∙ ap id e))) v.1,
  )
  token_of_id next (r ∷ rs) x v (Memᴰ.tail m) =
      (λ same. absurd ((All-Mem (Differs r) rs v.1 m).0 (sym same)), token_of_id next rs x v.2 m)

  -- A row that shares its id with a row of the table is this row.
  pub row_of_id :
      (next : ℕ) (rs : List A) (x : A)
      → IsTable next rs
      → Memᴰ x rs
      → All (λ r. id r ≡ id x → r ≡ x) rs
  row_of_id next [] x v m = elim m [ ]
  row_of_id next (r ∷ rs) x v (Memᴰ.head e) = (
    λ _. sym e,
    All-mono (Differs r) (λ q. id q ≡ id x → q ≡ x) rs (λ q d same. absurd (d.0 (same ∙ ap id e)))
        v.1,
  )
  row_of_id next (r ∷ rs) x v (Memᴰ.tail m) =
      (λ same. absurd ((All-Mem (Differs r) rs v.1 m).0 (sym same)), row_of_id next rs x v.2 m)

  pub IsTable-below : (next : ℕ) (rs : List A) → IsTable next rs → All (λ r. id r < next) rs
  IsTable-below next [] v = tt
  IsTable-below next (r ∷ rs) v = (v.0, IsTable-below next rs v.2)

  -- No two rows of the table share a token.
  pub same_row :
      (next : ℕ) (rs : List A) (x y : A)
      → IsTable next rs
      → Memᴰ x rs
      → Memᴰ y rs
      → token x ≡ token y
      → x ≡ y
  same_row next [] x y v m n same = elim m [ ]
  same_row next (r ∷ rs) x y v (Memᴰ.head e) (Memᴰ.head f) same = e ∙ sym f
  same_row next (r ∷ rs) x y v (Memᴰ.head e) (Memᴰ.tail n) same =
      absurd ((All-Mem (Differs r) rs v.1 n).1 (sym same ∙ ap token e))
  same_row next (r ∷ rs) x y v (Memᴰ.tail m) (Memᴰ.head f) same =
      absurd ((All-Mem (Differs r) rs v.1 m).1 (same ∙ ap token f))
  same_row next (r ∷ rs) x y v (Memᴰ.tail m) (Memᴰ.tail n) same = same_row next rs x y v.2 m n same
