-- ===== src/Service/Files.antt =====
-- distributed-fs/managed_file_service.go: `Put`, `Get`, `Delete` and `RunReplicationOnce`.
use go_infra_lab.Common.{ℕ, String, none, some, List, [], ◌∷◌}
use go_infra_lab.GoMap.{keys}
use go_infra_lab.Action.{
  Action, Error, ok, err, metadata_not_found, no_readable_replicas, checksum_mismatch,
}
use go_infra_lab.Metadata.{ReplicaMetadata, ReplicaState, ChunkMetadata, FileMetadata}
use go_infra_lab.Coordinator.{
  on_metadata, prepare_write, commit_write, read_candidates, delete_file,
}
use go_infra_lab.Objects.{replicate}
use go_infra_lab.Staging.{Reader, Staged, default_chunk_size, stage_reader}
use go_infra_lab.Worker.{ObjectReplicator, WorkResult, work_once}
use package.go_infra_lab.Service.{Service, Environment, on_coordinator, on_objects}
use package.go_infra_lab.Service.Storage.{delete_objects, write_chunks, stage_replica}

module _ {S Q O : Type 0} (env : Environment S Q O) where
  open env use {metadata as mb, queue as tq, store, sha256, temp, seek_error}

  -- `Put`, from the staged file on.
  unfoldable pub put_staged : String → Staged → Action (Service S Q O) FileMetadata
  put_staged key staged s =
      let (prepared?, s₁) =
        on_coordinator (prepare_write mb tq key staged.size staged.checksum staged.chunks) s in
      elim prepared? [
        | err e ↦ (err e, s₁)
        | ok prepared ↦
            let node_id = prepared.primary.id in
            let (stored, s₂) =
              on_objects (write_chunks env node_id key prepared.version staged.file staged.chunks)
                s₁ in
            elim stored [
              | err e ↦ (err e, s₂)
              | ok _ ↦
                  let (plan?, s₃) = on_coordinator (commit_write mb tq prepared) s₂ in
                  elim plan? [
                    | err e ↦
                        let objects' =
                          delete_objects env node_id key prepared.version staged.chunks
                            s₃.objects in
                        (err e, record s₃ { objects = objects' })
                    | ok plan ↦ (ok plan.metadata, s₃)
                  ]
            ]
      ]

  unfoldable pub put_file : String → Reader → Action (Service S Q O) FileMetadata
  unfolding put_staged
  put_file key reader s = elim (stage_reader sha256 default_chunk_size temp reader) [
    | err e ↦ (err e, s)
    | ok staged ↦ put_staged key staged s
  ]

  -- `errors.Is(err, ErrChecksumMismatch)` chooses the state of a replica that could not be read.
  abbrev pub unreadable_state : Error → ReplicaState
  unreadable_state e = elim e [ checksum_mismatch ↦ ReplicaState.stale | _ ↦ ReplicaState.missing ]

  -- The loop of `Get` over the candidates.
  unfoldable pub get_loop :
      String → FileMetadata → List ReplicaMetadata → Action (Service S Q O) (List ℕ × FileMetadata)
  get_loop key meta [] s = (err no_readable_replicas, s)
  get_loop key meta (replica ∷ rest) s =
      let (staged, s₁) = on_objects (stage_replica env replica.node_id meta) s in
      elim staged [
        | err e ↦
            let mark = mb.mark_replica key replica.node_id (unreadable_state e) in
            get_loop key meta rest (on_coordinator (on_metadata mark) s₁).1
        | ok file ↦ elim (seek_error 0) [ some e ↦ (err e, s₁) | none ↦ (ok (file, meta), s₁) ]
      ]

  unfoldable pub get_contents : String → Action (Service S Q O) (List ℕ × FileMetadata)
  get_contents key s =
      let (plan?, s₁) = on_coordinator (read_candidates mb tq key) s in
      elim plan? [ err e ↦ (err e, s₁) | ok plan ↦ get_loop key plan.metadata plan.replicas s₁ ]

  unfoldable pub delete_on_nodes : List String → String → ℕ → List ChunkMetadata → O → O
  delete_on_nodes [] key version chunks objects = objects
  delete_on_nodes (node_id ∷ rest) key version chunks objects =
      delete_on_nodes rest key version chunks
        (delete_objects env node_id key version chunks objects)

  unfoldable pub delete_key : String → Action (Service S Q O) FileMetadata
  delete_key key s =
      let (found, s₁) = on_coordinator (on_metadata (mb.get_file key)) s in
      elim found [
        | err e ↦ (err e, s₁)
        | ok none ↦ (err metadata_not_found, s₁)
        | ok (some meta) ↦
            let (deleted, s₂) = on_coordinator (delete_file mb tq key) s₁ in
            elim deleted [
              | err e ↦ (err e, s₂)
              | ok tombstone ↦
                  let objects' =
                    delete_on_nodes (keys meta.replicas) key meta.version meta.chunks s₂.objects in
                  (ok tombstone, record s₂ { objects = objects' })
            ]
      ]

  abbrev pub local_replicator : ObjectReplicator O
  local_replicator = record { replicate = replicate store sha256 }

  unfoldable pub run_replication_once : Service S Q O → WorkResult × Service S Q O
  run_replication_once s =
      let (result, w) =
        work_once mb tq local_replicator
          (record { coordinator = s.coordinator; objects = s.objects }) in
      (result, record { coordinator = w.coordinator; objects = w.objects })
