-- ===== src/Service.antt =====
-- distributed-fs/managed_file_service.go: the state of a `ManagedFileService` and what it takes
-- from outside. `writeLock` makes `Put` and `Delete` run one after the other.
pub mod Storage
pub mod Files
pub mod Manifest
pub mod Putting
pub mod Success
pub mod RoundTrip
pub mod Failure
pub mod Metrics
pub mod Counts
pub mod Delegates
use go_infra_lab.Common.{ℕ, String, Option, List, ℤ}
use go_infra_lab.Action.{Action, Error, focus}
use go_infra_lab.Backend.{MetadataBackend, ReplicationTaskQueue}
use go_infra_lab.Coordinator.{Coordinator, new_coordinator}
use go_infra_lab.Objects.{ObjectStore}
use go_infra_lab.Staging.{TempFiles}

-- The service's coordinator is also its worker's; `objects` is the state of the object store.
pub record Service (S Q O : Type 0) : Type 0 where
  pub coordinator : Coordinator S Q
  pub objects : O

unfoldable pub new_service : {S Q O : Type 0} → ℤ → O → S → Q → Service S Q O
new_service replica_count objects metadata tasks = record {
  coordinator = new_coordinator replica_count metadata tasks;
  objects = objects;
}

-- What the service takes from outside: the backends, the object store, the checksum, the temporary
-- files and the errors of seeking in them.
pub record Environment (S Q O : Type 0) : Type 0 where
  pub metadata : MetadataBackend S
  pub queue : ReplicationTaskQueue Q
  pub store : ObjectStore O
  pub sha256 : List ℕ → String
  pub temp : TempFiles
  pub seek_error : ℕ → Option Error

module _ {S Q O : Type 0} where
  abbrev pub on_coordinator {ℓ} :
      {A : Type ℓ} → Action (Coordinator S Q) A → Action (Service S Q O) A
  on_coordinator = focus (λ s. s.coordinator) (λ s c. record s { coordinator = c })

  abbrev pub on_objects {ℓ} : {A : Type ℓ} → Action O A → Action (Service S Q O) A
  on_objects = focus (λ s. s.objects) (λ s o. record s { objects = o })
