-- ===== src/Action/Results.antt =====
-- Go's `if err != nil { return err }` between the steps of a function that changes no receiver.
use package.go_infra_lab.Action.{Result, ok, err}

module _ {ℓ κ} {A : Type ℓ} {B : Type κ} where
  infixl 5 ◌>>=◌
  abbrev pub ◌>>=◌ : Result A → (A → Result B) → Result B
  ◌>>=◌ (ok a) f = f a
  ◌>>=◌ (err e) f = err e

  abbrev pub map_ok : (A → B) → Result A → Result B
  map_ok f (ok a) = ok (f a)
  map_ok f (err e) = err e
