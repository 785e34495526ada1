-- ===== src/Sorting/Unique.antt =====
-- `sort.Slice` of elements with distinct keys: the result does not depend on the order before.
use go_infra_lab.Common.{
  String, Bool, false, Option, none, some, List, [], ◌∷◌, ◌≡◌, ◌∙◌, refl, ap, sym, arith, ◌==◌,
  eq_iff, eq_refl, if◌then◌else◌, All, count, Bool-cases, inl, inr,
}
use package.go_infra_lab.Sorting.{IsOrder, IsSorted, insert, sort_slice, sort_slice-IsSorted}

module _ {A : Type 0} (key : A → String) where
  -- The first element with a key.
  abbrev pub find : String → List A → Option A
  find k [] = none
  find k (x ∷ xs) = if key x == k then some x else find k xs

  -- No key stands twice.
  abbrev pub HasUniqueKeys : List A → Type 0
  HasUniqueKeys [] = Unit
  HasUniqueKeys (x ∷ xs) = (find (key x) xs ≡ none) × HasUniqueKeys xs

  find-All : (P : A → Type 0) (k : String) (l : List A) (x : A) → All P l → find k l ≡ some x → P x
  find-All P k [] x h e = cc
  find-All P k (y ∷ l) x h e = elim (Bool-cases (key y == k)) [
    | inl here ↦ let same : y ≡ x = ground arith in rw (← same) h.0
    | inr later ↦ find-All P k l x h.1 (ground arith)
  ]

  find-insert :
      (less : A → A → Bool) (k : String) (x : A) (l : List A)
      → find (key x) l ≡ none
      → find k (insert less x l) ≡ find k (x ∷ l)
  unfolding insert
  find-insert less k x [] h = refl
  find-insert less k x (y ∷ l) h =
      ground
        (arith, find-insert less k x l, eq_iff (key x) k, eq_iff (key y) k, eq_iff (key y) (key x))

  insert-HasUniqueKeys :
      (less : A → A → Bool) (x : A) (l : List A)
      → find (key x) l ≡ none
      → HasUniqueKeys l
      → HasUniqueKeys (insert less x l)
  unfolding insert
  insert-HasUniqueKeys less x [] h u = (refl, tt)
  insert-HasUniqueKeys less x (y ∷ l) h u = ground (
    arith,
    insert-HasUniqueKeys less x l,
    find-insert less (key y) x l,
    eq_iff (key x) (key y),
    eq_iff (key y) (key x),
  )

  pub find-sort_slice :
      (less : A → A → Bool) (l : List A)
      → HasUniqueKeys l
      → HasUniqueKeys (sort_slice less l) × ((k : String) → find k (sort_slice less l) ≡ find k l)
  unfolding sort_slice
  find-sort_slice less [] u = (tt, λ k. refl)
  find-sort_slice less (x ∷ l) u =
      let (unique, same) = find-sort_slice less l u.1 in
      (
        insert-HasUniqueKeys less x (sort_slice less l) (same (key x) ∙ u.0) unique,
        λ k. find-insert less k x (sort_slice less l) (same (key x) ∙ u.0) ∙ ground (arith, same k),
      )

  module _ (less : A → A → Bool)
      (tells_apart : (a b : A) → less a b ≡ false → less b a ≡ false → key a ≡ key b) where
    sorted_unique :
        (l m : List A)
        → HasUniqueKeys l
        → HasUniqueKeys m
        → IsSorted less l
        → IsSorted less m
        → ((k : String) → find k l ≡ find k m)
        → l ≡ m
    sorted_unique [] [] u v s t same = refl
    sorted_unique [] (y ∷ m) u v s t same = ground (arith, same (key y), eq_refl (key y))
    sorted_unique (x ∷ l) [] u v s t same = ground (arith, same (key x), eq_refl (key x))
    sorted_unique (x ∷ l) (y ∷ m) u v s t same = elim (Bool-cases (key x == key y)) [
      | inl together ↦
          let heads : x ≡ y = ground (
            arith,
            same (key x),
            eq_refl (key x),
            eq_iff (key x) (key y),
            eq_iff (key y) (key x),
          ) in
          let tails : (k : String) → find k l ≡ find k m = λ k.
            ground (
              arith,
              same k,
              u.0,
              v.0,
              eq_iff (key x) (key y),
              eq_iff (key x) k,
              eq_iff (key y) k,
            ) in
          ap (λ z. z ∷ l) heads ∙ ap (λ r. y ∷ r) (sorted_unique l m u.1 v.1 s.1 t.1 tails)
      | inr apart ↦
          let x_later : find (key x) m ≡ some x = ground (
            arith,
            same (key x),
            eq_refl (key x),
            eq_iff (key x) (key y),
            eq_iff (key y) (key x),
          ) in
          let y_later : find (key y) l ≡ some y = ground (
            arith,
            same (key y),
            eq_refl (key y),
            eq_iff (key x) (key y),
            eq_iff (key y) (key x),
          ) in
          let below = find-All (λ z. less z y ≡ false) (key x) m x t.0 x_later in
          let above = find-All (λ z. less z x ≡ false) (key y) l y s.0 y_later in
          ground (arith, tells_apart x y below above, eq_iff (key x) (key y))
    ]

    -- Lists of the same elements are sorted to the same list.
    pub sort_slice_unique :
        IsOrder less
        → (l m : List A) → HasUniqueKeys l
        → HasUniqueKeys m
        → ((k : String) → find k l ≡ find k m)
        → sort_slice less l ≡ sort_slice less m
    sort_slice_unique order l m u v same =
        let (ul, fl) = find-sort_slice less l u in
        let (um, fm) = find-sort_slice less m v in
        sorted_unique (sort_slice less l) (sort_slice less m) ul um
          (sort_slice-IsSorted less order l) (sort_slice-IsSorted less order m)
          (λ k. fl k ∙ (same k ∙ sym (fm k)))

module _ {A : Type 0} (less : A → A → Bool) (p : A → Bool) where
  count-insert : (x : A) (l : List A) → count p (insert less x l) ≡ count p (x ∷ l)
  unfolding insert
  count-insert x [] = refl
  count-insert x (y ∷ l) = ground (arith, count-insert x l)

  pub count-sort_slice : (l : List A) → count p (sort_slice less l) ≡ count p l
  unfolding sort_slice
  count-sort_slice [] = refl
  count-sort_slice (x ∷ l) = ground (arith, count-insert x (sort_slice less l), count-sort_slice l)
