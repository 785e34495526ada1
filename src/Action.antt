-- ===== src/Action.antt =====
-- Go's pairs of a value and an error, and methods that also change their receiver. What was written
-- before an error stays written, so the state comes back beside the error too.
pub mod Results
use go_infra_lab.Common.{String}

-- The errors that the program names, a panic, and any other error with its text.
pub data Error : Type 0 where
  metadata_not_found replica_not_found file_deleted no_readable_replicas : Error
  no_healthy_nodes primary_unavailable task_not_found no_pending_tasks : Error
  checksum_mismatch short_write panic : Error
  other : String → Error

-- `err.Error()`
unfoldable pub error_text : Error → String
error_text metadata_not_found = "metadata not found"
error_text replica_not_found = "replica not found"
error_text file_deleted = "file is deleted"
error_text no_readable_replicas = "no readable replicas available"
error_text no_healthy_nodes = "no healthy nodes available"
error_text primary_unavailable = "primary replica is not available"
error_text task_not_found = "replication task not found"
error_text no_pending_tasks = "no pending replication tasks"
error_text checksum_mismatch = "object checksum mismatch"
error_text short_write = "short write"
error_text panic = "panic"
error_text (other text) = text

pub data Result {ℓ} (A : Type ℓ) : Type ℓ where
  ok : A → Result A
  err : Error → Result A

abbrev pub Action {ℓ κ} : Type ℓ → Type κ → Type (ℓ ⊔ κ)
Action S A = S → Result A × S

module _ {ℓ κ} {S : Type ℓ} {A : Type κ} where
  abbrev pub pure : A → Action S A
  pure a s = (ok a, s)

  abbrev pub fail : Error → Action S A
  fail e s = (err e, s)

  abbrev pub gets : (S → A) → Action S A
  gets f s = (ok (f s), s)

  abbrev pub lift : Result A → Action S A
  lift r s = (r, s)

module _ {ℓ κ μ} {S : Type ℓ} {A : Type κ} {B : Type μ} where
  abbrev pub continue : Result A × S → (A → Action S B) → Result B × S
  continue (ok a, s) f = f a s
  continue (err e, s) f = (err e, s)

  infixl 5 ◌>>=◌
  abbrev pub ◌>>=◌ : Action S A → (A → Action S B) → Action S B
  ◌>>=◌ m f s = continue (m s) f

infixl 5 ◌>>◌
abbrev pub ◌>>◌ {ℓ κ} : {S : Type ℓ} {B : Type κ} → Action S (Unit {0}) → Action S B → Action S B
m >> k = m >>= λ _. k

-- A method of a part of a larger object.
abbrev pub focus {ℓ κ μ} :
    {S : Type ℓ} {T : Type κ} {A : Type μ} → (S → T) → (S → T → S) → Action T A → Action S A
focus view set m s = let (r, t) = m (view s) in (r, set s t)
