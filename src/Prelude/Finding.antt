-- ===== src/Prelude/Finding.antt =====
-- Laws of `find`, `any`, `retain` and `map` on lists, which a table's queries and updates use.
use mathlib.Core.Path.{◌≡◌, refl, ap, sym, subst, ◌∙◌}
use mathlib.Core.Logic.{inl, inr, ◌↔◌}
use mathlib.Core.Bool.{Bool, true, false}
use mathlib.Core.Option.{none, some}
use mathlib.Core.List.{List, [], ◌∷◌, ◌++◌, map, Memᴰ}
use native.Mathlib.Omega.{arith}
use Prim.Native.Nat.{ℕ, ◌<◌}
use turnkey_triumph_326606_m.Prelude.Tests.{Bool-cases, if◌then◌else◌, ◌==◌}
use turnkey_triumph_326606_m.Prelude.Lists.{find, any, retain, All}

module _ {ℓ} {A : Type ℓ} where
  pub find-append_none :
      (p : A → Bool) (xs ys : List A) → find p xs ≡ none → find p (xs ++ ys) ≡ find p ys
  find-append_none p [] ys h = refl
  find-append_none p (x ∷ xs) ys h = ground (arith, find-append_none p xs ys)

  pub find-append_miss :
      (p : A → Bool) (xs : List A) (y : A) → p y ≡ false → find p (xs ++ y ∷ []) ≡ find p xs
  find-append_miss p [] y h = rw h refl
  find-append_miss p (x ∷ xs) y h = ground (arith, find-append_miss p xs y h)

  -- A stronger test fails where a weaker one does.
  pub find-none_of_any :
      (p q : A → Bool) (xs : List A)
      → ((x : A) → p x ≡ true → q x ≡ true)
      → any q xs ≡ false
      → find p xs ≡ none
  find-none_of_any p q [] h e = refl
  find-none_of_any p q (x ∷ xs) h e = ground (arith, h x, find-none_of_any p q xs h)

  -- Where every id is below the sequence's next value, no row has this value.
  pub find-next :
      (id : A → ℕ) (next : ℕ) (xs : List A)
      → All (λ x. id x < next) xs
      → find (λ x. id x == next) xs ≡ none
  find-next id next [] h = refl
  find-next id next (x ∷ xs) h = ground (arith, find-next id next xs h.1)

  pub find-next_append :
      (id : A → ℕ) (next : ℕ) (xs : List A) (y : A)
      → All (λ x. id x < next) xs
      → id y ≡ next
      → find (λ x. id x == next) (xs ++ y ∷ []) ≡ some y
  find-next_append id next xs y h e =
      find-append_none (λ x. id x == next) xs (y ∷ []) (find-next id next xs h)
      ∙ rw e (ground arith)

  -- Deleting only rows that fail the test leaves what it finds.
  pub find-retain-All :
      (p keep : A → Bool) (xs : List A)
      → All (λ x. p x ≡ true → keep x ≡ true) xs
      → find p (retain keep xs) ≡ find p xs
  find-retain-All p keep [] h = refl
  find-retain-All p keep (x ∷ xs) h = elim (Bool-cases (keep x)) [
    | inl k ↦ ground (arith, find-retain-All p keep xs h.1)
    | inr k ↦ ground (arith, h.0, find-retain-All p keep xs h.1)
  ]

  pub find-retain :
      (p keep : A → Bool) (xs : List A)
      → ((x : A) → p x ≡ true → keep x ≡ true)
      → find p (retain keep xs) ≡ find p xs
  find-retain p keep xs h = find-retain-All p keep xs (everywhere xs)
    where
      everywhere : (ys : List A) → All (λ x. p x ≡ true → keep x ≡ true) ys
      everywhere [] = tt
      everywhere (y ∷ ys) = (h y, everywhere ys)

  -- Deleting every row that passes the test leaves nothing to find.
  pub find-retain-none :
      (p keep : A → Bool) (xs : List A)
      → All (λ x. p x ≡ true → keep x ≡ false) xs
      → find p (retain keep xs) ≡ none
  find-retain-none p keep [] h = refl
  find-retain-none p keep (x ∷ xs) h = elim (Bool-cases (keep x)) [
    | inl k ↦ ground (arith, h.0, find-retain-none p keep xs h.1)
    | inr k ↦ ground (arith, find-retain-none p keep xs h.1)
  ]

  pub find_sound :
      (p : A → Bool) (xs : List A) (x : A) → find p xs ≡ some x → Memᴰ x xs × (p x ≡ true)
  find_sound p [] x h = cc
  find_sound p (y ∷ xs) x h = elim (Bool-cases (p y)) [
    | inl e ↦ (Memᴰ.head (ground arith), ground arith)
    | inr e ↦ let (m, q) = find_sound p xs x (ground arith) in (Memᴰ.tail m, q)
  ]

  -- If every row that passes the test is updated so that it fails, nothing is found.
  pub find-map-none :
      (p : A → Bool) (f : A → A) (xs : List A)
      → All (λ x. p (f x) ≡ false) xs
      → find p (map f xs) ≡ none
  find-map-none p f [] h = refl
  find-map-none p f (x ∷ xs) h = rw h.0 (find-map-none p f xs h.1)

  -- An update that the test and the rest of the query do not see.
  pub find-map :
      (p : A → Bool) (f : A → A) (xs : List A)
      → ((x : A) → p (f x) ≡ p x)
      → find p (map f xs) ≡ elim (find p xs) [ none ↦ none | some x ↦ some (f x) ]
  find-map p f [] h = refl
  find-map p f (x ∷ xs) h = ground (arith, h x, find-map p f xs h)

  -- An update that leaves the rows alone that the test accepts, and adds none to them.
  pub find-map-All :
      (p : A → Bool) (f : A → A) (xs : List A)
      → All (λ x. (p (f x) ≡ p x) × (p x ≡ true → f x ≡ x)) xs
      → find p (map f xs) ≡ find p xs
  find-map-All p f [] h = refl
  find-map-All p f (x ∷ xs) h = elim (Bool-cases (p x)) [
    | inl e ↦ rw (h.0.0, e) (ap some (h.0.1 e))
    | inr e ↦ rw (h.0.0, e) (find-map-All p f xs h.1)
  ]

  pub All-append {κ} : (P : A → Type κ) (xs ys : List A) → All P xs → All P ys → All P (xs ++ ys)
  All-append P [] ys h k = k
  All-append P (x ∷ xs) ys h k = (h.0, All-append P xs ys h.1 k)

  pub All-mono {κ μ} :
      (P : A → Type κ) (Q : A → Type μ) (xs : List A) → ((x : A) → P x → Q x) → All P xs → All Q xs
  All-mono P Q [] f h = tt
  All-mono P Q (x ∷ xs) f h = (f x h.0, All-mono P Q xs f h.1)

  pub All-retain {κ} :
      (P : A → Type κ) (keep : A → Bool) (xs : List A) → All P xs → All P (retain keep xs)
  All-retain P keep [] h = tt
  All-retain P keep (x ∷ xs) h = elim (Bool-cases (keep x)) [
    | inl e ↦ rw e (h.0, All-retain P keep xs h.1)
    | inr e ↦ rw e (All-retain P keep xs h.1)
  ]

  pub All-map {κ} :
      (P : A → Type κ) (f : A → A) (xs : List A)
      → ((x : A) → P x → P (f x))
      → All P xs
      → All P (map f xs)
  All-map P f [] g h = tt
  All-map P f (x ∷ xs) g h = (g x h.0, All-map P f xs g h.1)

  pub All-map_to {κ μ} :
      (P : A → Type κ) (Q : A → Type μ) (f : A → A) (xs : List A)
      → ((x : A) → P x → Q (f x))
      → All P xs
      → All Q (map f xs)
  All-map_to P Q f [] g h = tt
  All-map_to P Q f (x ∷ xs) g h = (g x h.0, All-map_to P Q f xs g h.1)

  pub All-both {κ μ} :
      (P : A → Type κ) (Q : A → Type μ) (xs : List A)
      → All P xs
      → All Q xs
      → All (λ x. P x × Q x) xs
  All-both P Q [] h k = tt
  All-both P Q (x ∷ xs) h k = ((h.0, k.0), All-both P Q xs h.1 k.1)

  pub any-append : (p : A → Bool) (xs ys : List A) → any p xs ≡ true → any p (xs ++ ys) ≡ true
  any-append p [] ys h = cc
  any-append p (x ∷ xs) ys h = elim (Bool-cases (p x)) [
    | inl e ↦ rw e refl
    | inr e ↦ ground (arith, any-append p xs ys (ground arith))
  ]

  pub any-last : (p : A → Bool) (xs : List A) (y : A) → p y ≡ true → any p (xs ++ y ∷ []) ≡ true
  any-last p [] y h = ground arith
  any-last p (x ∷ xs) y h = ground (arith, any-last p xs y h)

  pub any-of :
      (p q : A → Bool) (xs : List A)
      → ((x : A) → p x ≡ true → q x ≡ true)
      → any p xs ≡ true
      → any q xs ≡ true
  any-of p q [] f h = h
  any-of p q (x ∷ xs) f h = elim (Bool-cases (p x)) [
    | inl e ↦ rw (f x e) refl
    | inr e ↦ ground (arith, any-of p q xs f (ground arith))
  ]

  pub find-of_any :
      (p q : A → Bool) (xs : List A)
      → ((x : A) → p x ≡ true → q x ≡ true)
      → any p xs ≡ true
      → (x : A) × (find q xs ≡ some x)
  find-of_any p q [] f h = absurd (ground arith)
  find-of_any p q (x ∷ xs) f h = elim (Bool-cases (q x)) [
    | inl e ↦ (x, ground arith)
    | inr e ↦
        let rest : any p xs ≡ true = ground (arith, f x) in
        let (y, k) = find-of_any p q xs f rest in (y, ground arith)
  ]

  pub All-Mem {κ} : (P : A → Type κ) (xs : List A) {x : A} → All P xs → Memᴰ x xs → P x
  All-Mem P [] h m = elim m [ ]
  All-Mem P (y ∷ xs) h (Memᴰ.head e) = subst P (sym e) h.0
  All-Mem P (y ∷ xs) h (Memᴰ.tail m) = All-Mem P xs h.1 m

  pub Mem-append : (xs ys : List A) {x : A} → Memᴰ x xs → Memᴰ x (xs ++ ys)
  Mem-append [] ys m = elim m [ ]
  Mem-append (y ∷ xs) ys (Memᴰ.head e) = Memᴰ.head e
  Mem-append (y ∷ xs) ys (Memᴰ.tail m) = Memᴰ.tail (Mem-append xs ys m)

  -- The elements that are retained.
  pub Mem-retain :
      (p : A → Bool) (xs : List A) {x : A} → Memᴰ x (retain p xs) ↔ (Memᴰ x xs × (p x ≡ true))
  Mem-retain p [] = (λ m. elim m [ ], λ (m, e). elim m [ ])
  Mem-retain p (y ∷ xs) {x} =
      (kept (p y) refl (Mem-retain p xs {x = x}), back (p y) refl (Mem-retain p xs {x = x}))
    where
      kept :
          (b : Bool)
          → p y ≡ b
          → Memᴰ x (retain p xs) ↔ (Memᴰ x xs × (p x ≡ true))
          → Memᴰ x (if b then y ∷ retain p xs else retain p xs)
          → Memᴰ x (y ∷ xs) × (p x ≡ true)
      kept true e rest (Memᴰ.head same) = (Memᴰ.head same, ap p same ∙ e)
      kept true e rest (Memᴰ.tail m) = let (n, h) = rest.0 m in (Memᴰ.tail n, h)
      kept false e rest m = let (n, h) = rest.0 m in (Memᴰ.tail n, h)

      back :
          (b : Bool)
          → p y ≡ b
          → Memᴰ x (retain p xs) ↔ (Memᴰ x xs × (p x ≡ true))
          → Memᴰ x (y ∷ xs) × (p x ≡ true)
          → Memᴰ x (if b then y ∷ retain p xs else retain p xs)
      back true e rest (Memᴰ.head same, h) = Memᴰ.head same
      back true e rest (Memᴰ.tail m, h) = Memᴰ.tail (rest.1 (m, h))
      back false e rest (Memᴰ.head same, h) =
          let wrong : false ≡ true = sym e ∙ sym (ap p same) ∙ h in absurd (ground arith)
      back false e rest (Memᴰ.tail m, h) = rest.1 (m, h)
