-- ===== src/GoMap.antt =====
-- Go's `map[string]V`, as a list of entries with distinct keys. The order of the list stands for
-- the order in which a `range` loop happens to visit the entries: the theorems hold for every list.
pub mod Laws
pub mod Select
use go_infra_lab.Common.{
  String, Bool, true, false, Option, none, some, List, [], ◌∷◌, ◌≡◌, ◌==◌, if◌then◌else◌, map,
}

abbrev pub GoMap {ℓ} : Type ℓ → Type ℓ
GoMap V = List (String × V)

module _ {ℓ} {V : Type ℓ} where
  -- `v, ok := m[k]`
  unfoldable pub get : String → GoMap V → Option V
  get k [] = none
  get k ((j, v) ∷ m) = if j == k then some v else get k m

  -- `m[k] = v`
  unfoldable pub put : String → V → GoMap V → GoMap V
  put k v [] = (k, v) ∷ []
  put k v ((j, w) ∷ m) = if j == k then (j, v) ∷ m else (j, w) ∷ put k v m

  -- `_, ok := m[k]`
  unfoldable pub has : String → GoMap V → Bool
  unfolding get
  has k m = elim (get k m) [ none ↦ false | some v ↦ true ]

  abbrev pub keys : GoMap V → List String
  keys = map (λ e. e.0)

  abbrev pub values : GoMap V → List V
  values = map (λ e. e.1)

  -- A `range` loop that writes every entry back under its own key.
  unfoldable pub update_all : (V → V) → GoMap V → GoMap V
  update_all f [] = []
  update_all f ((k, v) ∷ m) = (k, f v) ∷ update_all f m

  -- No key stands twice.
  abbrev pub HasDistinctKeys : GoMap V → Type ℓ
  HasDistinctKeys [] = Unit
  HasDistinctKeys ((k, v) ∷ m) = (get k m ≡ none) × HasDistinctKeys m

  -- Every entry, with its key, satisfies `P`.
  abbrev pub Entries {κ} : (String → V → Type κ) → GoMap V → Type κ
  Entries P [] = Unit
  Entries P ((k, v) ∷ m) = P k v × Entries P m
