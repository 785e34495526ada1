-- ===== src/Service/Success.antt =====
-- distributed-fs/managed_file_service.go: `Put` succeeds while nothing around it fails.
use go_infra_lab.Common.{
  ℕ, ◌^◌, ◌<◌, ◌≡◌, ◌≢◌, refl, sym, subst, arith, String, Option, none, List, [], ◌∷◌, length,
  filter, pos, All,
}
use go_infra_lab.Action.{Error, ok}
use go_infra_lab.Metadata.{
  NodeMetadata, ChunkMetadata, FileMetadata, MetadataStore, healthy_nodes, is_node_healthy,
  next_version,
}
use go_infra_lab.Coordinator.Writing.{published}
use go_infra_lab.Replication.{plan}
use go_infra_lab.Replication.Placement.{plan-IsPlacement}
use go_infra_lab.Replication.Queue.{MemoryQueue}
use go_infra_lab.Objects.{ObjectStore, Written}
use go_infra_lab.Objects.Contract.{IsObjectStore}
use go_infra_lab.Objects.Names.{chunk_object_key}
use go_infra_lab.Staging.{Reader, TempFiles, default_chunk_size}
use go_infra_lab.Staging.Chunks.{slice, IsSlice}
use go_infra_lab.Staging.Delivery.{delivered}
use go_infra_lab.Staging.Manifest.{stage_reader_lem, slices-IsManifest}
use go_infra_lab.Coordinator.Primary.{plan-All}
use package.go_infra_lab.Service.{Environment}
use package.go_infra_lab.Service.Files.{put_file}
use package.go_infra_lab.Service.Manifest.{manifest-IsNumbered}
use package.go_infra_lab.Service.Putting.{Manager, in_memory, prepared, put_staged_written}
use package.go_infra_lab.Service.Storage.{write_chunk, write_loop, write_chunks}

module _ {S Q O : Type 0} (env : Environment S Q O)
    (contents : String → String → ℕ → O → Option (List ℕ)) (laws : IsObjectStore env.store contents)
    (seeks : (n : ℕ) → env.seek_error n ≡ none)
    (stores : (node key : String) (version : ℕ) (bytes : List ℕ) (o : O)
      → (w : Written) × ((env.store.write_object node key version bytes none o).0 ≡ ok w))
    (node key : String) (version : ℕ) (file : List ℕ) (all : List ChunkMetadata) where
  write_chunk_succeeds :
      (chunk : ChunkMetadata) (o : O)
      → IsSlice env.sha256 file chunk
      → (write_chunk env node key version file all chunk o).0 ≡ ok tt
  unfolding write_chunk
  write_chunk_succeeds chunk o good =
      let k = chunk_object_key key chunk.index in
      let bytes = slice file chunk in
      let (w, wrote) = stores node k version bytes o in
      let count = (laws.write_lem node k version bytes w o wrote).0 in
      let size = good.0 in ground (arith, seeks chunk.offset, wrote)

  pub write_loop_succeeds :
      (rest : List ChunkMetadata) (o : O)
      → All (IsSlice env.sha256 file) rest
      → (write_loop env node key version file all rest o).0 ≡ ok tt
  unfolding write_loop
  write_loop_succeeds [] o good = refl
  write_loop_succeeds (chunk ∷ rest) o good = ground (
    arith,
    write_chunk_succeeds chunk o good.0,
    write_loop_succeeds rest (write_chunk env node key version file all chunk o).1 good.1,
  )

module _ {O : Type 0} (store : ObjectStore O) (contents : String → String → ℕ → O → Option (List ℕ))
    (laws : IsObjectStore store contents) (sha256 : List ℕ → String) (temp : TempFiles)
    (seek_error : ℕ → Option Error) (seeks : (n : ℕ) → seek_error n ≡ none)
    (creates : temp.create_error ≡ none)
    (writes : (file piece : List ℕ) → temp.write_error file piece ≡ none)
    (stores : (node key : String) (version : ℕ) (bytes : List ℕ) (o : O)
      → (w : Written) × ((store.write_object node key version bytes none o).0 ≡ ok w)) where
  abbrev env : Environment MetadataStore MemoryQueue O
  env = in_memory store sha256 temp seek_error

  write_chunks_succeeds :
      (node key : String) (version : ℕ) (file : List ℕ) (chunks : List ChunkMetadata) (o : O)
      → 0 < length chunks
      → All (IsSlice sha256 file) chunks
      → (write_chunks env node key version file chunks o).0 ≡ ok tt
  unfolding write_chunks
  write_chunks_succeeds node key version file [] o some_chunk good = absurd (omega arith)
  write_chunks_succeeds node key version file (chunk ∷ rest) o some_chunk good =
      write_loop_succeeds env contents laws seeks stores node key version file (chunk ∷ rest)
        (chunk ∷ rest) o good

  -- Over the metadata store and the task queue in memory: with a positive replica count, a healthy
  -- node and IDs for all of them, and while the temporary file, its seeks and the writes to an
  -- object store that keeps what was written do not fail, a `Put` of fewer than 2 ^ 63 bytes
  -- succeeds, in reads of whatever length.
  pub put_file_succeeds :
      (n : ℕ) (key : String) (reads : Reader) (bytes : List ℕ) (s : Manager O)
      → delivered reads ≡ ok bytes
      → length bytes < 2 ^ 63
      → s.coordinator.planner ≡ record { replica_count = pos n }
      → 0 < n
      → 0 < length (filter is_node_healthy (healthy_nodes s.coordinator.metadata))
      → All (λ (n : NodeMetadata). n.id ≢ "") (healthy_nodes s.coordinator.metadata)
      → (meta : FileMetadata) × ((put_file env key reads s).0 ≡ ok meta)
  unfolding put_file
  put_file_succeeds n key reads bytes s delivers small planner positive some_node named =
      let (staged, read, (same, size, checksum, manifest)) =
        stage_reader_lem sha256 default_chunk_size temp creates writes reads bytes (omega arith)
          delivers small in
      let nodes = healthy_nodes s.coordinator.metadata in
      let (p, planned, placement) = plan-IsPlacement n nodes positive some_node in
      let planned' = subst (λ q. plan q nodes ≡ ok p) (sym planner) planned in
      let (numbered, some_chunk, few) =
        manifest-IsNumbered sha256 default_chunk_size bytes staged.chunks (omega arith) small
          manifest in
      let slices = (slices-IsManifest sha256 default_chunk_size bytes staged.chunks manifest).1 in
      let wrote =
        write_chunks_succeeds p.primary.id key (next_version key s.coordinator.metadata) staged.file
          staged.chunks s.objects some_chunk
          (subst (λ f. All (IsSlice sha256 f) staged.chunks) (sym same) slices) in
      let done =
        put_staged_written store sha256 temp seek_error key staged s p planned' wrote
          (plan-All (λ n. n.id ≢ "") s.coordinator.planner nodes p named planned') in
      (
        (published s.coordinator (prepared store sha256 temp seek_error key staged p s)).0,
        ground (arith, read, done),
      )
