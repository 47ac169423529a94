-- ===== src/Base/Keys.antt =====
-- Rows that no two clash, as a primary key or a unique index has it, and rows that refer to others.
use mathlib.Core.Path.{◌≡◌, refl, sym, subst, ◌∙◌}
use mathlib.Core.Logic.{inl, inr}
use mathlib.Core.Bool.{Bool, true, false}
use mathlib.Core.List.{List, [], ◌∷◌, ◌++◌, Memᴰ}
use native.Mathlib.Omega.{arith}
use general_webhook.Base.Tests.{Bool-cases}
use general_webhook.Base.Lists.{All, update_where, delete_where, exists, All-update_where}

module _ {ℓ} {A : Type ℓ} (clash : A → A → Bool) where
  -- No row clashes with an earlier one; `clash new old` compares a row with one before it.
  abbrev pub Distinct : List A → Type 0
  Distinct [] = Unit
  Distinct (x ∷ xs) = All (λ y. clash y x ≡ false) xs × Distinct xs

  All-free : (y : A) (xs : List A) → exists (clash y) xs ≡ false → All (λ x. clash y x ≡ false) xs
  unfolding exists
  All-free y [] h = tt
  All-free y (x ∷ xs) h = (ground arith, All-free y xs (ground arith))

  All-snoc :
      (x y : A) (xs : List A)
      → clash y x ≡ false
      → All (λ z. clash z x ≡ false) xs
      → All (λ z. clash z x ≡ false) (xs ++ y ∷ [])
  All-snoc x y [] e h = (e, tt)
  All-snoc x y (z ∷ xs) e h = (h.0, All-snoc x y xs e h.1)

  Distinct-snoc-All :
      (xs : List A) (y : A)
      → All (λ x. clash y x ≡ false) xs
      → Distinct xs
      → Distinct (xs ++ y ∷ [])
  Distinct-snoc-All [] y h d = (tt, tt)
  Distinct-snoc-All (x ∷ xs) y h d = (All-snoc x y xs h.0 d.0, Distinct-snoc-All xs y h.1 d.1)

  -- A row that clashes with none may be added at the end.
  pub Distinct-snoc :
      (xs : List A) (y : A) → exists (clash y) xs ≡ false → Distinct xs → Distinct (xs ++ y ∷ [])
  Distinct-snoc xs y h d = Distinct-snoc-All xs y (All-free y xs h) d

  All-delete_clash :
      (x : A) (p : A → Bool) (xs : List A)
      → All (λ y. clash y x ≡ false) xs
      → All (λ y. clash y x ≡ false) (delete_where p xs)
  unfolding delete_where
  All-delete_clash x p [] h = tt
  All-delete_clash x p (y ∷ ys) h = elim (Bool-cases (p y)) [
    | inl e ↦ rw e (All-delete_clash x p ys h.1)
    | inr e ↦ rw e (h.0, All-delete_clash x p ys h.1)
  ]

  pub Distinct-delete_where :
      (p : A → Bool) (xs : List A) → Distinct xs → Distinct (delete_where p xs)
  unfolding delete_where
  Distinct-delete_where p [] d = tt
  Distinct-delete_where p (x ∷ xs) d = elim (Bool-cases (p x)) [
    | inl e ↦ rw e (Distinct-delete_where p xs d.1)
    | inr e ↦ rw e (All-delete_clash x p xs d.0, Distinct-delete_where p xs d.1)
  ]

module _ {ℓ} {A : Type ℓ} (clash : A → A → Bool) (p : A → Bool) (f : A → A) where
  -- An update that leaves the compared columns alone.
  abbrev pub KeepsKey : Type ℓ
  KeepsKey = (x y : A) → (clash (f x) y ≡ clash x y) × (clash x (f y) ≡ clash x y)

  module _ (keep : KeepsKey) where
    All-update_clash :
        (x : A) (xs : List A)
        → All (λ y. clash y x ≡ false) xs
        → All (λ y. clash y x ≡ false) (update_where p f xs)
    All-update_clash x = All-update_where (λ y. clash y x ≡ false) p f (λ y _ h. (keep y x).0 ∙ h)

    All-updated_clash :
        (x : A) (xs : List A)
        → All (λ y. clash y x ≡ false) xs
        → All (λ y. clash y (f x) ≡ false) xs
    All-updated_clash x [] h = tt
    All-updated_clash x (y ∷ ys) h = ((keep y x).1 ∙ h.0, All-updated_clash x ys h.1)

    pub Distinct-update_where :
        (xs : List A) → Distinct clash xs → Distinct clash (update_where p f xs)
    unfolding update_where
    Distinct-update_where [] d = tt
    Distinct-update_where (x ∷ xs) d = elim (Bool-cases (p x)) [
      | inl e ↦
          rw e (All-updated_clash x _ (All-update_clash x xs d.0), Distinct-update_where xs d.1)
      | inr e ↦ rw e (All-update_clash x xs d.0, Distinct-update_where xs d.1)
    ]

module _ {ℓ} {A : Type ℓ} where
  pub All-Memᴰ {κ} : (P : A → Type κ) (xs : List A) (a : A) → All P xs → Memᴰ a xs → P a
  All-Memᴰ P [] a h m = elim m [ ]
  All-Memᴰ P (x ∷ xs) a h (Memᴰ.head e) = subst P (sym e) h.0
  All-Memᴰ P (x ∷ xs) a h (Memᴰ.tail m) = All-Memᴰ P xs a h.1 m

  pub All-of_Memᴰ {κ} : (P : A → Type κ) (xs : List A) → ((a : A) → Memᴰ a xs → P a) → All P xs
  All-of_Memᴰ P [] h = tt
  All-of_Memᴰ P (x ∷ xs) h = (h x (Memᴰ.head refl), All-of_Memᴰ P xs (λ a m. h a (Memᴰ.tail m)))

  -- Rows of the table that clash both ways are one row.
  pub Distinct-unique :
      (clash : A → A → Bool) (xs : List A) (a b : A)
      → Distinct clash xs
      → Memᴰ a xs
      → Memᴰ b xs
      → clash a b ≡ true
      → clash b a ≡ true
      → a ≡ b
  Distinct-unique clash [] a b d m n ab ba = elim m [ ]
  Distinct-unique clash (x ∷ xs) a b d (Memᴰ.head e) (Memᴰ.head f) ab ba = e ∙ sym f
  Distinct-unique clash (x ∷ xs) a b d (Memᴰ.head e) (Memᴰ.tail n) ab ba =
      absurd (cc (All-Memᴰ (λ y. clash y x ≡ false) xs b d.0 n, e))
  Distinct-unique clash (x ∷ xs) a b d (Memᴰ.tail m) (Memᴰ.head f) ab ba =
      absurd (cc (All-Memᴰ (λ y. clash y x ≡ false) xs a d.0 m, f))
  Distinct-unique clash (x ∷ xs) a b d (Memᴰ.tail m) (Memᴰ.tail n) ab ba =
      Distinct-unique clash xs a b d.1 m n ab ba
