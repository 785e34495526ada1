-- ===== src/Service/Storage.antt =====
-- distributed-fs/managed_file_service.go: the objects of one file version on one node, written by
-- `writeChunks`, read back by `stageReplica` and removed by `deleteObjects`.
pub mod Writing
pub mod Versions
pub mod Reading
use go_infra_lab.Common.{
  ℕ, String, Option, none, some, List, [], ◌∷◌, ◌++◌, ◌==◌, ◌&&◌, if◌then◌else◌, eqb, length, take,
  drop,
}
use go_infra_lab.Action.{Action, Error, Result, ok, err, checksum_mismatch, short_write}
use go_infra_lab.Metadata.{ChunkMetadata, FileMetadata}
use go_infra_lab.Objects.{Stream}
use go_infra_lab.Objects.Names.{chunk_object_key}
use go_infra_lab.Staging.{Reader, default_chunk_size, add64, eof, read_failed, stage_reader}
use package.go_infra_lab.Service.{Environment}

module _ {S Q O : Type 0} (env : Environment S Q O) where
  open env use {metadata as mb, queue as tq, store, sha256, temp, seek_error}

  unfoldable pub delete_chunks : String → String → ℕ → List ChunkMetadata → O → O
  delete_chunks node_id key version [] objects = objects
  delete_chunks node_id key version (chunk ∷ rest) objects =
      delete_chunks node_id key version rest
        (store.delete_object node_id (chunk_object_key key chunk.index) version objects).1

  unfoldable pub delete_objects : String → String → ℕ → List ChunkMetadata → O → O
  unfolding delete_chunks
  delete_objects node_id key version chunks objects = elim chunks [
    | [] ↦ (store.delete_object node_id key version objects).1
    | chunk ∷ rest ↦ delete_chunks node_id key version (chunk ∷ rest) objects
  ]

  -- One round of `writeChunks`; an error removes all objects of the version.
  unfoldable pub write_chunk :
      String → String → ℕ → List ℕ → List ChunkMetadata → ChunkMetadata → Action O (Unit {0})
  write_chunk node_id key version file chunks chunk objects = elim (seek_error chunk.offset) [
    | some e ↦ (err e, delete_objects node_id key version chunks objects)
    | none ↦
        let part = take chunk.size (drop chunk.offset file) in
        let (result, objects') =
          store.write_object node_id (chunk_object_key key chunk.index) version part none objects in
        elim result [
          | err e ↦ (err e, delete_objects node_id key version chunks objects')
          | ok w ↦
              if eqb w.count chunk.size
              then (ok tt, objects')
              else (err short_write, delete_objects node_id key version chunks objects')
        ]
  ]

  unfoldable pub write_loop :
      String → String → ℕ → List ℕ → List ChunkMetadata → List ChunkMetadata → Action O (Unit {0})
  write_loop node_id key version file chunks [] objects = (ok tt, objects)
  write_loop node_id key version file chunks (chunk ∷ rest) objects =
      let (result, objects') = write_chunk node_id key version file chunks chunk objects in
      elim result [
        | err e ↦ (err e, objects')
        | ok _ ↦ write_loop node_id key version file chunks rest objects'
      ]

  unfoldable pub write_chunks :
      String → String → ℕ → List ℕ → List ChunkMetadata → Action O (Unit {0})
  write_chunks node_id key version file chunks objects = elim chunks [
    | [] ↦ elim (seek_error 0) [
      | some e ↦ (err e, objects)
      | none ↦
          let (result, objects') = store.write_object node_id key version file none objects in
          elim result [ err e ↦ (err e, objects') | ok w ↦ (ok tt, objects') ]
    ]
    | chunk ∷ rest ↦ write_loop node_id key version file (chunk ∷ rest) (chunk ∷ rest) objects
  ]

  -- The reads of a stream: its bytes, and the error that stops it.
  abbrev pub stream_reads : Stream → Reader
  stream_reads src = elim src.read_error [
    | none ↦ (src.bytes, eof) ∷ []
    | some e ↦ (src.bytes, read_failed e) ∷ []
  ]

  -- `stageReplica` for a file without chunks.
  unfoldable pub stage_object : String → FileMetadata → Action O (List ℕ)
  stage_object node_id meta objects =
      let (opened, objects') = store.read_object node_id meta.key meta.version objects in
      elim opened [
        | err e ↦ (err e, objects')
        | ok (_, src) ↦ elim (stage_reader sha256 default_chunk_size temp (stream_reads src)) [
          | err e ↦ (err e, objects')
          | ok staged ↦ elim src.close_error [
            | some e ↦ (err e, objects')
            | none ↦
                if eqb staged.size meta.size && staged.checksum == meta.checksum
                then (ok staged.file, objects')
                else (err checksum_mismatch, objects')
          ]
        ]
      ]

  -- What the loop of `stageReplica` does with one opened chunk: the copy to the temporary file, the
  -- close and the comparison.
  unfoldable pub check_chunk : ChunkMetadata → List ℕ → Stream → Result (List ℕ)
  check_chunk chunk file src =
      let copy_error : Option Error = elim (temp.write_error file src.bytes) [
        | some e ↦ some e
        | none ↦ src.read_error
      ] in
      elim copy_error [
        | some e ↦ err e
        | none ↦ elim src.close_error [
          | some e ↦ err e
          | none ↦
              if eqb (length src.bytes) chunk.size && sha256 src.bytes == chunk.checksum
              then ok src.bytes
              else err checksum_mismatch
        ]
      ]

  -- The loop of `stageReplica` over the chunks; `file` is also what the full hash has seen.
  unfoldable pub stage_loop :
      String → FileMetadata → List ChunkMetadata → List ℕ → ℕ → Action O (List ℕ)
  unfolding check_chunk
  stage_loop node_id meta [] file total objects =
      if eqb total meta.size && sha256 file == meta.checksum
      then (ok file, objects)
      else (err checksum_mismatch, objects)
  stage_loop node_id meta (chunk ∷ rest) file total objects =
      let object_key = chunk_object_key meta.key chunk.index in
      let (opened, objects') = store.read_object node_id object_key meta.version objects in
      elim opened [
        | err e ↦ (err e, objects')
        | ok (_, src) ↦ elim (check_chunk chunk file src) [
          | err e ↦ (err e, objects')
          | ok bytes ↦
              stage_loop node_id meta rest (file ++ bytes) (add64 total (length bytes)) objects'
        ]
      ]

  unfoldable pub stage_replica : String → FileMetadata → Action O (List ℕ)
  stage_replica node_id meta objects = elim meta.chunks [
    | [] ↦ stage_object node_id meta objects
    | chunk ∷ rest ↦ elim temp.create_error [
      | some e ↦ (err e, objects)
      | none ↦ stage_loop node_id meta (chunk ∷ rest) [] 0 objects
    ]
  ]
