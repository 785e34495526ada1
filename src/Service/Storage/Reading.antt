-- ===== src/Service/Storage/Reading.antt =====
-- distributed-fs/managed_file_service.go: `stageReplica` of a node that holds all chunks of a file.
use go_infra_lab.Common.{
  ℕ, ◌+◌, ◌^◌, ◌%◌, ◌<◌, ◌≡◌, ◌∙◌, refl, sym, ap, arith, String, Option, none, List, [], ◌∷◌, ◌++◌,
  eq_iff, length, length-append, map, All,
}
use go_infra_lab.Action.{ok}
use go_infra_lab.Metadata.{ChunkMetadata, FileMetadata}
use go_infra_lab.Objects.Contract.{IsObjectStore, stream_of}
use go_infra_lab.Objects.Names.{chunk_object_key}
use go_infra_lab.Staging.Chunks.{append_nil, append_assoc, flatten, slice, IsSlice}
use package.go_infra_lab.Service.{Environment}
use package.go_infra_lab.Service.Storage.{check_chunk, stage_loop, stage_replica}
use package.go_infra_lab.Service.Storage.Writing.{HoldsChunks}

module _ {S Q O : Type 0} (env : Environment S Q O)
    (contents : String → String → ℕ → O → Option (List ℕ)) (laws : IsObjectStore env.store contents)
    (creates : env.temp.create_error ≡ none)
    (writes : (file piece : List ℕ) → env.temp.write_error file piece ≡ none) where
  check_chunk-slice :
      (whole file : List ℕ) (chunk : ChunkMetadata)
      → IsSlice env.sha256 whole chunk
      → check_chunk env chunk file (stream_of (slice whole chunk)) ≡ ok (slice whole chunk)
  unfolding check_chunk
  check_chunk-slice whole file chunk good =
      let same_size = good.0 in
      let same_sum = good.1 in
      ground (
        arith,
        writes file (slice whole chunk),
        eq_iff (env.sha256 (slice whole chunk)) chunk.checksum,
      )

  module _ (node : String) (meta : FileMetadata) (whole : List ℕ) (size : meta.size ≡ length whole)
      (checksum : env.sha256 whole ≡ meta.checksum) (small : length whole < 2 ^ 63) where
    stage_loop_whole :
        (rest : List ChunkMetadata) (file : List ℕ) (o : O)
        → HoldsChunks contents node meta.key meta.version whole rest o
        → All (IsSlice env.sha256 whole) rest
        → file ++ flatten (map (slice whole) rest) ≡ whole
        → stage_loop env node meta rest file (length file) o ≡ (ok whole, o)
    unfolding stage_loop
    stage_loop_whole [] file o held good same =
        let e : file ≡ whole = sym (append_nil file) ∙ same in
        rw e (ground (arith, eq_iff (env.sha256 whole) meta.checksum))
    stage_loop_whole (chunk ∷ rest) file o held good same =
        let bytes = slice whole chunk in
        let left = flatten (map (slice whole) rest) in
        let n : (length file + length bytes) % 2 ^ 64 ≡ length (file ++ bytes) = omega (
          arith,
          ap length same,
          length-append file bytes,
          length-append file (bytes ++ left),
          length-append bytes left,
        ) in
        ground (
          arith,
          laws.read_lem node (chunk_object_key meta.key chunk.index) meta.version bytes o held.0,
          check_chunk-slice whole file chunk good.0,
          n,
          stage_loop_whole rest (file ++ bytes) o held.1 good.1
              (append_assoc file bytes (flatten (map (slice whole) rest)) ∙ same),
        )

    stage_chunks :
        (chunks : List ChunkMetadata) (o : O)
        → meta.chunks ≡ chunks
        → 0 < length chunks
        → stage_replica env node meta o ≡ stage_loop env node meta chunks [] 0 o
    unfolding stage_replica
    stage_chunks [] o e some_chunk = absurd (omega arith)
    stage_chunks (chunk ∷ rest) o e some_chunk = rw e (ground (arith, creates))

    -- `stageReplica` gives the file back, and leaves the objects as they are.
    pub stage_replica_whole :
        (o : O)
        → 0 < length meta.chunks
        → HoldsChunks contents node meta.key meta.version whole meta.chunks o
        → All (IsSlice env.sha256 whole) meta.chunks
        → flatten (map (slice whole) meta.chunks) ≡ whole
        → stage_replica env node meta o ≡ (ok whole, o)
    stage_replica_whole o some_chunk held good same =
        stage_chunks meta.chunks o refl some_chunk
        ∙ stage_loop_whole meta.chunks [] o held good same
