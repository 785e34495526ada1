-- ===== src/Service/RoundTrip.antt =====
-- distributed-fs/managed_file_service.go: `Put` followed by `Get`, over the in-memory backends and
-- any object store that keeps what was written.
use go_infra_lab.Common.{
  ℕ, ◌^◌, ◌<◌, ◌≡◌, ◌≢◌, ◌∙◌, sym, ap, subst, arith, String, true, Option, none, List, [], ◌∷◌,
  ◌==◌, eq_iff, eq_refl, length,
}
use go_infra_lab.Action.{Error, ok, err}
use go_infra_lab.Metadata.{
  ReplicaMetadata, FileMetadata, MetadataStore, next_version, begin_file_version,
}
use go_infra_lab.Replication.{ReplicaPlan}
use go_infra_lab.Replication.Queue.{MemoryQueue}
use go_infra_lab.Coordinator.{PreparedWrite}
use go_infra_lab.Coordinator.Reading.{offers}
use go_infra_lab.Coordinator.Writing.{
  lists, chosen, published, published_fields, read_plan-commit_write,
}
use go_infra_lab.Objects.{ObjectStore}
use go_infra_lab.Objects.Contract.{IsObjectStore}
use go_infra_lab.Staging.{Reader, Staged, TempFiles, default_chunk_size}
use go_infra_lab.Staging.Delivery.{delivered}
use go_infra_lab.Staging.Manifest.{IsStaged, stage_reader_lem, slices-IsManifest}
use package.go_infra_lab.Service.{Environment}
use package.go_infra_lab.Service.Files.{put_file, put_staged, get_contents, get_loop}
use package.go_infra_lab.Service.Manifest.{manifest-IsNumbered}
use package.go_infra_lab.Service.Putting.{
  Manager, in_memory, prepared, stored, committed, put_staged_ok,
}
use package.go_infra_lab.Service.Storage.{stage_replica}
use package.go_infra_lab.Service.Storage.Writing.{HoldsChunks, write_chunks-HoldsChunks}
use package.go_infra_lab.Service.Storage.Reading.{stage_replica_whole}

module _ {O : Type 0} (store : ObjectStore O) (contents : String → String → ℕ → O → Option (List ℕ))
    (laws : IsObjectStore store contents) (sha256 : List ℕ → String) (temp : TempFiles)
    (seek_error : ℕ → Option Error) (seeks : (n : ℕ) → seek_error n ≡ none)
    (creates : temp.create_error ≡ none)
    (writes : (file piece : List ℕ) → temp.write_error file piece ≡ none) where
  abbrev env : Environment MetadataStore MemoryQueue O
  env = in_memory store sha256 temp seek_error

  -- The loop of `Get` stops at the first candidate, if this has the file.
  get_loop_first :
      (key node : String) (meta : FileMetadata) (replicas : List ReplicaMetadata) (file : List ℕ)
      (s : Manager O)
      → ((i : String) → offers i replicas ≡ (node == i))
      → stage_replica env node meta s.objects ≡ (ok file, s.objects)
      → get_loop env key meta replicas s ≡ (ok (file, meta), s)
  unfolding get_loop
  get_loop_first key node meta [] file s only held =
      absurd (ground (arith, only node, eq_refl node))
  get_loop_first key node meta (r ∷ rest) file s only held =
      let here : node ≡ r.node_id =
        ground (arith, only r.node_id, eq_refl r.node_id, eq_iff node r.node_id) in
      let held' =
        subst (λ n. stage_replica env n meta s.objects ≡ (ok file, s.objects)) here held in
      ground (arith, held', seeks 0)

  -- Right after a commit `Get` gives back the file that the primary holds.
  get-committed :
      (w : PreparedWrite) (file : List ℕ) (o : O) (s : Manager O)
      → w.primary.id ≢ ""
      → lists w.primary.id (chosen w) ≡ true
      → stage_replica env w.primary.id (published s.coordinator w).0 o ≡ (ok file, o)
      → let s' : Manager O = record {
        coordinator = committed store sha256 temp seek_error s w;
        objects = o;
      } in
        get_contents env w.key s' ≡ (ok (file, (published s.coordinator w).0), s')
  unfolding get_contents
  get-committed w file o s named listed held =
      let (p, read, same, only) = read_plan-commit_write s.coordinator w named listed in
      let s' : Manager O = record {
        coordinator = committed store sha256 temp seek_error s w;
        objects = o;
      } in
      let first =
        get_loop_first w.key w.primary.id p.metadata p.replicas file s' only
          (subst (λ m. stage_replica env w.primary.id m o ≡ (ok file, o)) (sym same) held) in
      ground (arith, read, first, same)

  -- The primary then holds the file of the published metadata.
  held_replica :
      (key : String) (bytes : List ℕ) (staged : Staged) (p : ReplicaPlan) (s : Manager O)
      → length bytes < 2 ^ 63
      → IsStaged sha256 default_chunk_size bytes staged
      → (stored store sha256 temp seek_error key staged p s).0 ≡ ok tt
      → let m =
          (published s.coordinator (prepared store sha256 temp seek_error key staged p s)).0 in
        let o = (stored store sha256 temp seek_error key staged p s).1 in
        stage_replica env p.primary.id m o ≡ (ok bytes, o)
  unfolding begin_file_version next_version
  held_replica key bytes staged p s small (same, size, checksum, manifest) wrote =
      let w = prepared store sha256 temp seek_error key staged p s in
      let m = (published s.coordinator w).0 in
      let (numbered, some_chunk, few) =
        manifest-IsNumbered sha256 default_chunk_size bytes staged.chunks (omega arith) small
          manifest in
      let held =
        write_chunks-HoldsChunks env contents laws seeks p.primary.id key w.version staged.file
          staged.chunks s.objects numbered some_chunk few wrote in
      let (whole, slices) =
        slices-IsManifest sha256 default_chunk_size bytes staged.chunks manifest in
      let o = (stored store sha256 temp seek_error key staged p s).1 in
      stage_replica_whole env contents laws creates writes p.primary.id m bytes size (sym checksum)
        small o some_chunk
        (subst (λ f. HoldsChunks contents p.primary.id key m.version f staged.chunks o) same held)
        slices whole

  -- What a staged file becomes when it is written to the primary and published: `Get` gives it
  -- back.
  get-put_staged :
      (key : String) (bytes : List ℕ) (staged : Staged) (meta : FileMetadata) (s : Manager O)
      → length bytes < 2 ^ 63
      → IsStaged sha256 default_chunk_size bytes staged
      → (put_staged env key staged s).0 ≡ ok meta
      → let s' = (put_staged env key staged s).1 in
        (get_contents env key s' ≡ (ok (bytes, meta), s'))
        × (meta.version ≡ next_version key s.coordinator.metadata)
        × (meta.size ≡ length bytes)
        × (meta.checksum ≡ sha256 bytes)
  get-put_staged key bytes staged meta s small (same, size, checksum, manifest) done =
      let (p, listed, named, wrote, result) =
        put_staged_ok store sha256 temp seek_error key staged s meta done in
      let w = prepared store sha256 temp seek_error key staged p s in
      let m = (published s.coordinator w).0 in
      let o = (stored store sha256 temp seek_error key staged p s).1 in
      let (key', version, size', checksum', chunks) = published_fields s.coordinator w in
      let held = held_replica key bytes staged p s small (same, size, checksum, manifest) wrote in
      let back = get-committed w bytes o s named listed held in
      let same_meta : m ≡ meta =
        ap (λ r. elim r [ ok m' ↦ m' | err e ↦ meta ]) (sym (ap (λ r. r.0) result) ∙ done) in
      let s' : Manager O = record {
        coordinator = committed store sha256 temp seek_error s w;
        objects = o;
      } in
      (
        subst (λ r. get_contents env key r.1 ≡ (ok (bytes, meta), r.1)) (sym result)
            (subst (λ m'. get_contents env key s' ≡ (ok (bytes, m'), s')) same_meta back),
        sym (ap (λ m'. m'.version) same_meta) ∙ version,
        sym (ap (λ m'. m'.size) same_meta) ∙ (size' ∙ size),
        sym (ap (λ m'. m'.checksum) same_meta) ∙ (checksum' ∙ checksum),
      )

  -- What was put is what is got: over the metadata store and the task queue in memory and an object
  -- store that keeps what was written, and while seeks and temporary files work, a `Put` of fewer
  -- than 2 ^ 63 bytes that succeeds has published the next version of the key with their size and
  -- checksum; and a `Get` right after it returns these bytes and this metadata, and changes
  -- nothing.
  pub get-put_file :
      (key : String) (reads : Reader) (bytes : List ℕ) (meta : FileMetadata) (s : Manager O)
      → delivered reads ≡ ok bytes
      → length bytes < 2 ^ 63
      → (put_file env key reads s).0 ≡ ok meta
      → let s' = (put_file env key reads s).1 in
        (get_contents env key s' ≡ (ok (bytes, meta), s'))
        × (meta.version ≡ next_version key s.coordinator.metadata)
        × (meta.size ≡ length bytes)
        × (meta.checksum ≡ sha256 bytes)
  unfolding put_file
  get-put_file key reads bytes meta s delivers small done =
      let (staged, read, is_staged) =
        stage_reader_lem sha256 default_chunk_size temp creates writes reads bytes (omega arith)
          delivers small in
      let step : put_file env key reads s ≡ put_staged env key staged s = ground (arith, read) in
      subst
        (λ r.
          (get_contents env key r.1 ≡ (ok (bytes, meta), r.1))
          × (meta.version ≡ next_version key s.coordinator.metadata)
          × (meta.size ≡ length bytes)
          × (meta.checksum ≡ sha256 bytes))
        (sym step)
        (get-put_staged key bytes staged meta s small is_staged (sym (ap (λ r. r.0) step) ∙ done))
