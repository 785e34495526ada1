-- ===== src/Sorting.antt =====
-- `sort.Slice` and `sort.Strings`. Go does not say how equal elements are ordered; the program
-- sorts records by keys that are distinct, where the sorted order is unique.
pub mod Unique
use mathlib.Core.List.{Perm, Permᴰ}
use mathlib.Core.Logic.{∥∥₁_elim, ∥∥₁_prop}
use mathlib.Core.List.Perm
use go_infra_lab.Common.{
  suc, String, Bool, true, false, List, [], ◌∷◌, ◌≡◌, refl, arith, ap, ◌∙◌, if◌then◌else◌, All,
  length, filter, any, All-filter, All-mono, Bool-cases, inl, inr, str_lt, str_lt_asym,
  not_lt_trans,
}

-- What a comparison must satisfy for a sorted order to exist.
pub record IsOrder {ℓ} {A : Type ℓ} (less : A → A → Bool) : Type ℓ where
  pub asym : (a b : A) → less a b ≡ true → less b a ≡ false
  pub not_less_trans : (a b c : A) → less b a ≡ false → less c b ≡ false → less c a ≡ false

-- Nothing later in the list is below anything earlier.
abbrev pub IsSorted {ℓ} : {A : Type ℓ} → (A → A → Bool) → List A → Type ℓ
IsSorted less [] = Unit
IsSorted less (x ∷ xs) = All (λ y. less y x ≡ false) xs × IsSorted less xs

-- The comparison `f(a) < f(b)` of two records by a text.
abbrev pub by {ℓ} : {A : Type ℓ} → (A → String) → A → A → Bool
by f a b = str_lt (f a) (f b)

pub by-IsOrder {ℓ} : {A : Type ℓ} (f : A → String) → IsOrder (by f)
by-IsOrder f = record {
  asym = λ a b. str_lt_asym (f a) (f b);
  not_less_trans = λ a b c. not_lt_trans (f a) (f b) (f c);
}

module _ {ℓ} {A : Type ℓ} (less : A → A → Bool) where
  insert : A → List A → List A
  insert x [] = x ∷ []
  insert x (y ∷ ys) = if less y x then y ∷ insert x ys else x ∷ y ∷ ys

  unfoldable pub sort_slice : List A → List A
  unfolding insert
  sort_slice [] = []
  sort_slice (x ∷ xs) = insert x (sort_slice xs)

  insert-perm : (x : A) (ys : List A) → Perm (insert x ys) (x ∷ ys)
  unfolding insert
  insert-perm x [] = Perm.refl _
  insert-perm x (y ∷ ys) = elim (Bool-cases (less y x)) [
    | inl below ↦ rw below (Perm.trans (Perm.cons y (insert-perm x ys)) (Perm.swap x y ys))
    | inr above ↦ rw above (Perm.refl _)
  ]

  -- Sorting loses and invents nothing.
  pub sort_slice-perm : (xs : List A) → Perm (sort_slice xs) xs
  unfolding sort_slice
  sort_slice-perm [] = Perm.refl _
  sort_slice-perm (x ∷ xs) =
      Perm.trans (insert-perm x (sort_slice xs)) (Perm.cons x (sort_slice-perm xs))

  length-insert : (x : A) (ys : List A) → length (insert x ys) ≡ suc (length ys)
  unfolding insert
  length-insert x [] = refl
  length-insert x (y ∷ ys) = ground (arith, length-insert x ys)

  pub length-sort_slice : (xs : List A) → length (sort_slice xs) ≡ length xs
  unfolding sort_slice
  length-sort_slice [] = refl
  length-sort_slice (x ∷ xs) = length-insert x (sort_slice xs) ∙ ap suc (length-sort_slice xs)

  module _ {κ} (P : A → Type κ) where
    insert-All : (x : A) (ys : List A) → P x → All P ys → All P (insert x ys)
    unfolding insert
    insert-All x [] px h = (px, tt)
    insert-All x (y ∷ ys) px h = elim (Bool-cases (less y x)) [
      | inl below ↦ rw below (h.0, insert-All x ys px h.1)
      | inr above ↦ rw above (px, h)
    ]

    pub sort_slice-All : (xs : List A) → All P xs → All P (sort_slice xs)
    unfolding sort_slice
    sort_slice-All [] h = tt
    sort_slice-All (x ∷ xs) h = insert-All x (sort_slice xs) h.0 (sort_slice-All xs h.1)

  any-insert :
      (p : A → Bool) (x : A) (ys : List A) → any p (insert x ys) ≡ (if p x then true else any p ys)
  unfolding insert
  any-insert p x [] = refl
  any-insert p x (y ∷ ys) = ground (arith, any-insert p x ys)

  pub any-sort_slice : (p : A → Bool) (xs : List A) → any p (sort_slice xs) ≡ any p xs
  unfolding sort_slice
  any-sort_slice p [] = refl
  any-sort_slice p (x ∷ xs) = ground (arith, any-insert p x (sort_slice xs), any-sort_slice p xs)

  module _ (order : IsOrder less) where
    insert-IsSorted : (x : A) (ys : List A) → IsSorted less ys → IsSorted less (insert x ys)
    unfolding insert
    insert-IsSorted x [] h = (tt, tt)
    insert-IsSorted x (y ∷ ys) h = elim (Bool-cases (less y x)) [
      | inl below ↦ rw below (
        insert-All (λ z. less z y ≡ false) x ys (order.asym y x below) h.0,
        insert-IsSorted x ys h.1,
      )
      | inr above ↦ rw above (
        (
          above,
          All-mono (λ z. less z y ≡ false) (λ z. less z x ≡ false)
              (λ z. order.not_less_trans x y z above) ys h.0,
        ),
        h,
      )
    ]

    pub sort_slice-IsSorted : (xs : List A) → IsSorted less (sort_slice xs)
    unfolding sort_slice
    sort_slice-IsSorted [] = tt
    sort_slice-IsSorted (x ∷ xs) = insert-IsSorted x (sort_slice xs) (sort_slice-IsSorted xs)

-- Filters keep the order, and do the same to two lists of the same elements.
module _ {ℓ} {A : Type ℓ} (p : A → Bool) where
  pub filter-IsSorted :
      (less : A → A → Bool) (xs : List A) → IsSorted less xs → IsSorted less (filter p xs)
  filter-IsSorted less [] h = tt
  filter-IsSorted less (x ∷ xs) h = elim (Bool-cases (p x)) [
    | inl keep ↦ rw keep (All-filter (λ y. less y x ≡ false) p xs h.0, filter-IsSorted less xs h.1)
    | inr skip ↦ rw skip (filter-IsSorted less xs h.1)
  ]

  filter-swap : (x y : A) (l : List A) → Perm (filter p (y ∷ x ∷ l)) (filter p (x ∷ y ∷ l))
  filter-swap x y l = swapped (p x) (p y) (filter p l)
    where
      swapped :
          (b c : Bool) (r : List A)
          → Perm
              (if c then y ∷ (if b then x ∷ r else r) else (if b then x ∷ r else r))
              (if b then x ∷ (if c then y ∷ r else r) else (if c then y ∷ r else r))
      swapped true true r = Perm.swap x y r
      swapped true false r = Perm.refl _
      swapped false true r = Perm.refl _
      swapped false false r = Perm.refl _

  filter-Permᴰ : {xs ys : List A} → Permᴰ xs ys → Perm (filter p xs) (filter p ys)
  filter-Permᴰ Permᴰ.nil = Perm.refl _
  filter-Permᴰ (Permᴰ.cons {b = x} e d) = elim (Bool-cases (p x)) [
    | inl keep ↦ rw e (rw keep (Perm.cons x (filter-Permᴰ d)))
    | inr skip ↦ rw e (rw skip (filter-Permᴰ d))
  ]
  filter-Permᴰ (Permᴰ.swap {a' = x} {b' = y} {l = l} e f) = rw (e, f) (filter-swap x y l)
  filter-Permᴰ (Permᴰ.trans d e) = Perm.trans (filter-Permᴰ d) (filter-Permᴰ e)

  pub filter-perm : {xs ys : List A} → Perm xs ys → Perm (filter p xs) (filter p ys)
  filter-perm h = ∥∥₁_elim h ∥∥₁_prop filter-Permᴰ

  insert_front :
      (less : A → A → Bool) (x : A) (ys : List A)
      → All (λ z. less z x ≡ false) ys
      → insert less x ys ≡ x ∷ ys
  unfolding insert
  insert_front less x [] h = refl
  insert_front less x (y ∷ ys) h = ground (arith, h.0)

  -- What passes the filter can be sorted before or after it.
  filter-insert :
      (less : A → A → Bool) (order : IsOrder less) (x : A) (ys : List A)
      → IsSorted less ys
      → filter p (insert less x ys) ≡ (if p x then insert less x (filter p ys) else filter p ys)
  unfolding insert
  filter-insert less order x [] h = ground arith
  filter-insert less order x (y ∷ ys) h = elim (Bool-cases (less y x)) [
    | inl below ↦ ground (arith, filter-insert less order x ys h.1)
    | inr above ↦
        let later : All (λ z. less z x ≡ false) (y ∷ ys) = (
          above,
          All-mono (λ z. less z y ≡ false) (λ z. less z x ≡ false)
              (λ z. order.not_less_trans x y z above) ys h.0,
        ) in
        let front =
          insert_front less x (filter p (y ∷ ys))
            (All-filter (λ z. less z x ≡ false) p (y ∷ ys) later) in
        ground (arith, front)
  ]

  pub filter-sort_slice :
      (less : A → A → Bool) (order : IsOrder less) (xs : List A)
      → filter p (sort_slice less xs) ≡ sort_slice less (filter p xs)
  unfolding sort_slice
  filter-sort_slice less order [] = refl
  filter-sort_slice less order (x ∷ xs) = ground (
    arith,
    filter-insert less order x (sort_slice less xs) (sort_slice-IsSorted less order xs),
    filter-sort_slice less order xs,
  )
