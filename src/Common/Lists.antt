-- ===== src/Common/Lists.antt =====
-- Lists measured by native numbers, Boolean filters and predicates by recursion.
use Prim.Native.Nat.{ℕ, zero, suc, ◌+◌, ◌≤◌, min}
use mathlib.Core.Path.{◌≡◌, refl}
use mathlib.Core.Bool.{Bool, true, false}
use mathlib.Core.Option.{Option, none, some}
use mathlib.Core.List.{List, [], ◌∷◌, ◌++◌, map}
use native.Mathlib.Omega.{arith}
use go_infra_lab.Common.Tests.{if◌then◌else◌}

module _ {ℓ} {A : Type ℓ} where
  abbrev pub length : List A → ℕ
  length [] = 0
  length (x ∷ xs) = suc (length xs)

  abbrev pub take : ℕ → List A → List A
  take zero xs = []
  take (suc n) [] = []
  take (suc n) (x ∷ xs) = x ∷ take n xs

  abbrev pub drop : ℕ → List A → List A
  drop zero xs = xs
  drop (suc n) [] = []
  drop (suc n) (x ∷ xs) = drop n xs

  abbrev pub head? : List A → Option A
  head? [] = none
  head? (x ∷ xs) = some x

  -- The elements that pass a Boolean test, in order.
  abbrev pub filter : (A → Bool) → List A → List A
  filter p [] = []
  filter p (x ∷ xs) = if p x then x ∷ filter p xs else filter p xs

  -- How many elements pass a Boolean test.
  abbrev pub count : (A → Bool) → List A → ℕ
  count p [] = 0
  count p (x ∷ xs) = if p x then suc (count p xs) else count p xs

  -- Whether some element passes a Boolean test.
  abbrev pub any : (A → Bool) → List A → Bool
  any p [] = false
  any p (x ∷ xs) = if p x then true else any p xs

  abbrev pub All {κ} : (A → Type κ) → List A → Type κ
  All P [] = Unit
  All P (x ∷ xs) = P x × All P xs

  pub length-append : (xs ys : List A) → length (xs ++ ys) ≡ length xs + length ys
  length-append [] ys = omega arith
  length-append (x ∷ xs) ys = omega (arith, length-append xs ys)

  pub length-take : (n : ℕ) (xs : List A) → length (take n xs) ≡ min n (length xs)
  length-take zero xs = omega arith
  length-take (suc n) [] = omega arith
  length-take (suc n) (x ∷ xs) = omega (arith, length-take n xs)

  pub length-filter-le : (p : A → Bool) (xs : List A) → length (filter p xs) ≤ length xs
  length-filter-le p [] = omega arith
  length-filter-le p (x ∷ xs) = ground (arith, length-filter-le p xs)

module _ {ℓ κ} {A : Type ℓ} (P : A → Type κ) where
  pub All-append : (xs ys : List A) → All P xs → All P ys → All P (xs ++ ys)
  All-append [] ys h k = k
  All-append (x ∷ xs) ys h k = (h.0, All-append xs ys h.1 k)

  pub All-take : (n : ℕ) (xs : List A) → All P xs → All P (take n xs)
  All-take zero xs h = tt
  All-take (suc n) [] h = tt
  All-take (suc n) (x ∷ xs) h = (h.0, All-take n xs h.1)

  pub All-filter : (p : A → Bool) (xs : List A) → All P xs → All P (filter p xs)
  All-filter p [] h = tt
  All-filter p (x ∷ xs) h = keep (p x) (All-filter p xs h.1)
    where
      keep : (b : Bool) → All P (filter p xs) → All P (if b then x ∷ filter p xs else filter p xs)
      keep true r = (h.0, r)
      keep false r = r

  -- What passes a filter satisfies its test, and what else held.
  pub All-filter_test :
      (p : A → Bool) (xs : List A)
      → All (λ x. p x ≡ true → P x) xs
      → All (λ x. (p x ≡ true) × P x) (filter p xs)
  All-filter_test p [] h = tt
  All-filter_test p (x ∷ xs) h = keep (p x) refl (All-filter_test p xs h.1)
    where
      keep :
          (b : Bool)
          → p x ≡ b
          → All (λ x. (p x ≡ true) × P x) (filter p xs)
          → All (λ x. (p x ≡ true) × P x) (if b then x ∷ filter p xs else filter p xs)
      keep true e r = ((e, h.0 e), r)
      keep false e r = r

  pub All-of_forall : ((x : A) → P x) → (xs : List A) → All P xs
  All-of_forall f [] = tt
  All-of_forall f (x ∷ xs) = (f x, All-of_forall f xs)

pub All-mono {ℓ κ μ} :
    {A : Type ℓ} (P : A → Type κ) (Q : A → Type μ)
    → ((x : A) → P x → Q x)
    → (xs : List A) → All P xs
    → All Q xs
All-mono P Q f [] h = tt
All-mono P Q f (x ∷ xs) h = (f x h.0, All-mono P Q f xs h.1)

pub All-map_of_forall {ℓ κ μ} :
    {A : Type ℓ} {B : Type κ} (P : B → Type μ) (f : A → B)
    → ((x : A) → P (f x))
    → (xs : List A) → All P (map f xs)
All-map_of_forall P f h [] = tt
All-map_of_forall P f h (x ∷ xs) = (h x, All-map_of_forall P f h xs)

-- What passes a filter satisfies its test.
pub All-filter_self {ℓ} :
    {A : Type ℓ} (p : A → Bool) (xs : List A) → All (λ x. p x ≡ true) (filter p xs)
All-filter_self p xs =
    All-mono (λ x. (p x ≡ true) × Unit {0}) (λ x. p x ≡ true) (λ x h. h.0) (filter p xs)
      (All-filter_test (λ x. Unit {0}) p xs
        (All-of_forall (λ x. p x ≡ true → Unit {0}) (λ x h. tt) xs))

module _ {ℓ} {A : Type ℓ} (p : A → Bool) where
  pub any-append : (xs ys : List A) → any p (xs ++ ys) ≡ (if any p xs then true else any p ys)
  any-append [] ys = refl
  any-append (x ∷ xs) ys = ground (arith, any-append xs ys)

  pub any-filter :
      (q : A → Bool) (xs : List A) → any p (filter q xs) ≡ any (λ x. if q x then p x else false) xs
  any-filter q [] = refl
  any-filter q (x ∷ xs) = ground (arith, any-filter q xs)
