-- ===== src/GoMap/Select.antt =====
-- A `range` loop over a map that collects some of its values, changed or not, and sorts them: the
-- result depends on what the map holds under each key, and not on the order in which the loop
-- visits it.
use go_infra_lab.Common.{
  String, Bool, false, Option, none, some, List, [], ◌∷◌, ◌≡◌, ◌∙◌, refl, ap, sym, arith, eq_iff,
  eq_refl, if◌then◌else◌, filter, count, Option-cases, inl, inr, str_lt_total,
}
use go_infra_lab.Sorting.{IsOrder, by, by-IsOrder, sort_slice}
use go_infra_lab.Sorting.Unique.{find, HasUniqueKeys, sort_slice_unique, count-sort_slice}
use package.go_infra_lab.GoMap.{GoMap, get, values, HasDistinctKeys, Entries}
use package.go_infra_lab.GoMap.Laws.{Entries-get}

-- The values for which `f` has a result, in the order of the loop.
abbrev pub select {ℓ κ} : {V : Type ℓ} {W : Type κ} → (V → Option W) → GoMap V → List W
select f [] = []
select f ((k, v) ∷ m) = elim (f v) [ none ↦ select f m | some w ↦ w ∷ select f m ]

abbrev pub keep_if {ℓ} : {V : Type ℓ} → (V → Bool) → V → Option V
keep_if p v = if p v then some v else none

pub filter-values {ℓ} :
    {V : Type ℓ} (p : V → Bool) (m : GoMap V) → filter p (values m) ≡ select (keep_if p) m
filter-values p [] = refl
filter-values p ((k, v) ∷ m) = ground (arith, filter-values p m)

pub values-select {ℓ} : {V : Type ℓ} (m : GoMap V) → values m ≡ select some m
values-select [] = refl
values-select ((k, v) ∷ m) = ap (λ r. v ∷ r) (values-select m)

pub Entries-of_get {ℓ κ} :
    {V : Type ℓ} (P : String → V → Type κ) (m : GoMap V)
    → HasDistinctKeys m
    → ((k : String) (v : V) → get k m ≡ some v → P k v)
    → Entries P m
unfolding get
Entries-of_get P [] d h = tt
Entries-of_get P ((k, v) ∷ m) d h = (
  h k v (ground (arith, eq_refl k)),
  Entries-of_get P m d.1 (λ j w e. h j w (ground (arith, d.0, eq_iff k j))),
)

module _ {V W : Type 0} (key : V → String) (key' : W → String) (f : V → Option W)
    (keeps : (v : V) (w : W) → f v ≡ some w → key' w ≡ key v) where
  abbrev pub NamedBy : GoMap V → Type 0
  NamedBy = Entries (λ k v. key v ≡ k)

  find-select :
      (k : String) (m : GoMap V)
      → HasDistinctKeys m
      → NamedBy m
      → find key' k (select f m) ≡ elim (get k m) [ none ↦ none | some v ↦ f v ]
  unfolding get
  find-select k [] d n = refl
  find-select k ((j, v) ∷ m) d n = elim (Option-cases (f v)) [
    | inl dropped ↦ ground (arith, find-select k m d.1 n.1, eq_iff j k)
    | inr (w, kept) ↦
        ground (arith, find-select k m d.1 n.1, keeps v w kept, n.0, eq_iff j k, eq_iff (key' w) k)
  ]

  select-HasUniqueKeys :
      (m : GoMap V) → HasDistinctKeys m → NamedBy m → HasUniqueKeys key' (select f m)
  select-HasUniqueKeys [] d n = tt
  select-HasUniqueKeys ((j, v) ∷ m) d n = elim (Option-cases (f v)) [
    | inl dropped ↦ ground (arith, select-HasUniqueKeys m d.1 n.1)
    | inr (w, kept) ↦
        ground (
          arith,
          select-HasUniqueKeys m d.1 n.1,
          find-select (key' w) m d.1 n.1,
          keeps v w kept,
          n.0,
        )
  ]

  -- The sorted selections of two maps that hold the same are the same.
  pub sort_slice-select :
      (less : W → W → Bool)
      → IsOrder less
      → ((a b : W) → less a b ≡ false → less b a ≡ false → key' a ≡ key' b)
      → (m m' : GoMap V) → HasDistinctKeys m
      → HasDistinctKeys m'
      → NamedBy m
      → ((k : String) → get k m ≡ get k m')
      → sort_slice less (select f m) ≡ sort_slice less (select f m')
  sort_slice-select less order tells_apart m m' d d' n same =
      let n' : NamedBy m' =
        Entries-of_get (λ k v. key v ≡ k) m' d'
          (λ k v e. Entries-get (λ k v. key v ≡ k) k m n (same k ∙ e)) in
      sort_slice_unique key' less tells_apart order (select f m) (select f m')
        (select-HasUniqueKeys m d n) (select-HasUniqueKeys m' d' n')
        (λ k.
          find-select k m d n
          ∙ (ap (λ o. elim o [ none ↦ none | some v ↦ f v ]) (same k)
              ∙ sym (find-select k m' d' n')))

-- Of the comparison of two texts.
pub by-tells_apart {ℓ} :
    {A : Type ℓ} (key : A → String) (a b : A)
    → by key a b ≡ false
    → by key b a ≡ false
    → key a ≡ key b
by-tells_apart key a b below above = str_lt_total (key a) (key b) below above

module _ {V : Type 0} (key : V → String) (m m' : GoMap V) (distinct : HasDistinctKeys m)
    (distinct' : HasDistinctKeys m') (named : Entries (λ k v. key v ≡ k) m)
    (same : (k : String) → get k m ≡ get k m') where
  -- The values sorted by their names.
  pub sort_slice-values : sort_slice (by key) (values m) ≡ sort_slice (by key) (values m')
  sort_slice-values =
      ap (sort_slice (by key)) (values-select m)
      ∙ (sort_slice-select key key some (λ v w e. ground arith) (by key) (by-IsOrder key)
            (by-tells_apart key) m m' distinct distinct' named same
          ∙ ap (sort_slice (by key)) (sym (values-select m')))

  pub sort_slice-filter-values :
      (less : V → V → Bool)
      → IsOrder less
      → ((a b : V) → less a b ≡ false → less b a ≡ false → key a ≡ key b)
      → (p : V → Bool)
      → sort_slice less (filter p (values m)) ≡ sort_slice less (filter p (values m'))
  sort_slice-filter-values less order tells_apart p =
      ap (sort_slice less) (filter-values p m)
      ∙ (sort_slice-select key key (keep_if p) (λ v w e. ground arith) less order tells_apart m m'
            distinct distinct' named same
          ∙ ap (sort_slice less) (sym (filter-values p m')))

  pub count-values : (p : V → Bool) → count p (values m) ≡ count p (values m')
  count-values p =
      sym (count-sort_slice (by key) p (values m))
      ∙ (ap (count p) sort_slice-values ∙ count-sort_slice (by key) p (values m'))
