-- ===== src/GoMap/Laws.antt =====
-- What the operations of a map do to later reads, to its size and to what holds of its entries.
use go_infra_lab.Common.{
  suc, String, some, [], ◌∷◌, ◌≡◌, ◌≢◌, refl, ◌==◌, eq_iff, eq_refl, arith, if◌then◌else◌, length,
  Bool-cases, inl, map, inr, ap, subst, sym,
}
use mathlib.Core.Option
use package.go_infra_lab.GoMap.{GoMap, get, put, has, update_all, values, HasDistinctKeys, Entries}

module _ {ℓ} {V : Type ℓ} where
  pub get-put :
      (k j : String) (v : V) (m : GoMap V)
      → get j (put k v m) ≡ (if k == j then some v else get j m)
  unfolding get put
  get-put k j v [] = refl
  get-put k j v ((i, w) ∷ m) = ground (arith, eq_iff k j, eq_iff i k, eq_iff i j, get-put k j v m)

  pub get-put_self : (k : String) (v : V) (m : GoMap V) → get k (put k v m) ≡ some v
  get-put_self k v m = ground (arith, get-put k k v m, eq_refl k)

  pub get-put_ne : (k j : String) (v : V) (m : GoMap V) → k ≢ j → get j (put k v m) ≡ get j m
  get-put_ne k j v m h = ground (arith, get-put k j v m, eq_iff k j)

  pub get-update_all :
      (f : V → V) (k : String) (m : GoMap V) → get k (update_all f m) ≡ Option.map f (get k m)
  unfolding get update_all
  get-update_all f k [] = refl
  get-update_all f k ((j, v) ∷ m) = ground (arith, get-update_all f k m)

  pub values-update_all : (f : V → V) (m : GoMap V) → values (update_all f m) ≡ map f (values m)
  unfolding update_all
  values-update_all f [] = refl
  values-update_all f ((k, v) ∷ m) = ap (◌∷◌ (f v)) (values-update_all f m)

  pub length-update_all : (f : V → V) (m : GoMap V) → length (update_all f m) ≡ length m
  unfolding update_all
  length-update_all f [] = refl
  length-update_all f (e ∷ m) = ap suc (length-update_all f m)

  pub length-put :
      (k : String) (v : V) (m : GoMap V)
      → length (put k v m) ≡ (if has k m then length m else suc (length m))
  unfolding put has
  length-put k v [] = refl
  length-put k v ((j, w) ∷ m) = ground (arith, length-put k v m)

  pub put-HasDistinctKeys :
      (k : String) (v : V) (m : GoMap V) → HasDistinctKeys m → HasDistinctKeys (put k v m)
  unfolding get put
  put-HasDistinctKeys k v [] h = ground arith
  put-HasDistinctKeys k v ((j, w) ∷ m) h =
      ground (arith, put-HasDistinctKeys k v m, get-put k j v m, eq_iff k j, eq_iff j k)

  pub update_all-HasDistinctKeys :
      (f : V → V) (m : GoMap V) → HasDistinctKeys m → HasDistinctKeys (update_all f m)
  unfolding get update_all
  update_all-HasDistinctKeys f [] h = tt
  update_all-HasDistinctKeys f ((j, w) ∷ m) h =
      ground (arith, update_all-HasDistinctKeys f m, get-update_all f j m)

module _ {ℓ κ} {V : Type ℓ} (P : String → V → Type κ) where
  pub Entries-get : (k : String) (m : GoMap V) {v : V} → Entries P m → get k m ≡ some v → P k v
  unfolding get
  Entries-get k [] h e = cc
  Entries-get k ((j, w) ∷ m) h e = elim (Bool-cases (j == k)) [
    | inl same ↦
        let v : w ≡ _ = ground arith in subst (P k) v (subst (λ i. P i w) ((eq_iff j k).0 same) h.0)
    | inr other ↦ Entries-get k m h.1 (ground arith)
  ]

  pub put-Entries : (k : String) (v : V) (m : GoMap V) → P k v → Entries P m → Entries P (put k v m)
  unfolding put
  put-Entries k v [] new h = (new, tt)
  put-Entries k v ((j, w) ∷ m) new h = elim (Bool-cases (j == k)) [
    | inl same ↦ rw same (subst (λ i. P i v) (sym ((eq_iff j k).0 same)) new, h.1)
    | inr other ↦ rw other (h.0, put-Entries k v m new h.1)
  ]

  pub update_all-Entries :
      (f : V → V) (m : GoMap V)
      → ((k : String) (v : V) → P k v → P k (f v))
      → Entries P m
      → Entries P (update_all f m)
  unfolding update_all
  update_all-Entries f [] keep h = tt
  update_all-Entries f ((k, v) ∷ m) keep h = (keep k v h.0, update_all-Entries f m keep h.1)
