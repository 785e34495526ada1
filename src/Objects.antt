-- ===== src/Objects.antt =====
-- distributed-fs/object.go: the interface `ObjectStore`, the names of objects and the
-- `LocalObjectReplicator`, over any object store and any checksum function.
pub mod Names
pub mod Contract
use go_infra_lab.Common.{
  ℕ, ◌+◌, String, Bool, Option, none, some, List, [], ◌∷◌, ◌++◌, ◌==◌, ◌&&◌, not, if◌then◌else◌,
  eqb, take,
}
use go_infra_lab.Action.{Action, Error, ok, err, checksum_mismatch}
use go_infra_lab.Metadata.{ChunkMetadata}
use go_infra_lab.Replication.{ReplicationTask}
use go_infra_lab.Objects.Names.{chunk_object_key}

-- An `io.ReadCloser` that `ReadObject` has opened: the bytes that it yields, the error that stops
-- it short, if any, and what `Close` returns.
pub record Stream : Type 0 where
  pub bytes : List ℕ
  pub read_error : Option Error
  pub close_error : Option Error

-- What a successful `WriteObject` did: the count that it returned, and how many of the reader's
-- bytes it took.
pub record Written : Type 0 where
  pub count : ℕ
  pub consumed : ℕ

pub record ObjectStore (O : Type 0) : Type 0 where
  pub write_object : String → String → ℕ → List ℕ → Option Error → Action O Written
  pub read_object : String → String → ℕ → Action O (ℕ × Stream)
  pub delete_object : String → String → ℕ → Action O (Unit {0})
  pub has_object : String → String → ℕ → O → Bool

module _ {O : Type 0} (store : ObjectStore O) where
  -- A call whose result the source ignores.
  abbrev pub ignore_delete : String → String → ℕ → O → O
  ignore_delete node_id key version objects = (store.delete_object node_id key version objects).1

  unfoldable pub delete_chunk_objects : String → ℕ → List String → O → O
  delete_chunk_objects node_id version [] objects = objects
  delete_chunk_objects node_id version (object_key ∷ rest) objects =
      delete_chunk_objects node_id version rest (ignore_delete node_id object_key version objects)

  module _ (sha256 : List ℕ → String) where
    -- The body of the loop of `replicateChunks`, after the read: write, close, compare. `full` are
    -- the bytes that the full hash has seen, `written` the object keys written so far.
    unfoldable pub copy_chunk :
        ReplicationTask → ChunkMetadata → Stream → List String → Action O (List ℕ)
    copy_chunk task chunk src written objects =
        let object_key = chunk_object_key task.key chunk.index in
        let (result, objects') =
          store.write_object task.target object_key task.version src.bytes src.read_error objects in
        let undo = delete_chunk_objects task.target task.version written in
        elim result [
          | err e ↦ (err e, undo objects')
          | ok w ↦
              let seen = take w.consumed src.bytes in
              elim src.close_error [
                | some e ↦ (err e, undo objects')
                | none ↦
                    if eqb w.count chunk.size && sha256 seen == chunk.checksum
                    then (ok seen, objects')
                    else (
                      err checksum_mismatch,
                      undo (ignore_delete task.target object_key task.version objects'),
                    )
              ]
        ]

    unfoldable pub replicate_loop :
        ReplicationTask → List ChunkMetadata → List ℕ → List String → Action O (Unit {0})
    replicate_loop task [] full written objects =
        if not (task.checksum == "") && not (sha256 full == task.checksum)
        then (err checksum_mismatch, delete_chunk_objects task.target task.version written objects)
        else (ok tt, objects)
    replicate_loop task (chunk ∷ rest) full written objects =
        let object_key = chunk_object_key task.key chunk.index in
        let (opened, objects₁) = store.read_object task.source object_key task.version objects in
        elim opened [
          | err e ↦ (err e, objects₁)
          | ok (_, src) ↦
              let (copied, objects₂) = copy_chunk task chunk src written objects₁ in
              elim copied [
                | err e ↦ (err e, objects₂)
                | ok seen ↦
                    replicate_loop task rest (full ++ seen) (written ++ object_key ∷ []) objects₂
              ]
        ]

    -- `Replicate` on a task without chunks.
    unfoldable pub replicate_object : ReplicationTask → Action O (Unit {0})
    replicate_object task objects =
        let (opened, objects₁) = store.read_object task.source task.key task.version objects in
        elim opened [
          | err e ↦ (err e, objects₁)
          | ok (_, src) ↦
              let (result, objects₂) =
                store.write_object task.target task.key task.version src.bytes src.read_error
                  objects₁ in
              elim result [
                | err e ↦ (err e, objects₂)
                | ok w ↦
                    if not (task.checksum == "")
                      && not (sha256 (take w.consumed src.bytes) == task.checksum)
                    then (
                      err checksum_mismatch,
                      ignore_delete task.target task.key task.version objects₂,
                    )
                    else (ok tt, objects₂)
              ]
        ]

    unfoldable pub replicate : ReplicationTask → Action O (Unit {0})
    replicate task = elim task.chunks [
      | [] ↦ replicate_object task
      | chunk ∷ rest ↦ replicate_loop task (chunk ∷ rest) [] []
    ]
