-- ===== src/Service/Failure.antt =====
-- distributed-fs/managed_file_service.go: what a failed `Put` leaves behind.
use go_infra_lab.Common.{ℕ, ◌≡◌, String, false, Option, none, List, eqb}
use go_infra_lab.Action.{Error}
use go_infra_lab.Metadata.{MetadataStore, next_version}
use go_infra_lab.Replication.Queue.{MemoryQueue}
use go_infra_lab.Objects.{ObjectStore}
use go_infra_lab.Objects.Contract.{IsObjectStore}
use go_infra_lab.Staging.{TempFiles}
use package.go_infra_lab.Service.{Environment}
use package.go_infra_lab.Service.Putting.{Manager, in_memory}

module _ {O : Type 0} (store : ObjectStore O) (contents : String → String → ℕ → O → Option (List ℕ))
    (laws : IsObjectStore store contents) (sha256 : List ℕ → String) (temp : TempFiles)
    (seek_error : ℕ → Option Error) (seeks : (n : ℕ) → seek_error n ≡ none) where
  abbrev env : Environment MetadataStore MemoryQueue O
  env = in_memory store sha256 temp seek_error

  -- A state with the same metadata and tasks, and the same objects but those of the next version of
  -- a key.
  abbrev pub SameBut : String → Manager O → Manager O → Type 0
  SameBut key s s' =
      (s'.coordinator ≡ s.coordinator)
      × ((node object_key : String) (version : ℕ)
          → eqb (next_version key s.coordinator.metadata) version ≡ false
          → contents node object_key version s'.objects
            ≡ contents node object_key version s.objects)
