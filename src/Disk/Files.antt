-- ===== src/Disk/Files.antt =====
-- The operations on files of distributed-fs/metadata_disk.go: each does what the store in memory
-- does.
use go_infra_lab.Common.{ℕ, String, Bool, true, List, ◌≡◌, sym, arith}
use go_infra_lab.GoMap.{get, put, values}
use go_infra_lab.GoMap.Laws.{Entries-get}
use go_infra_lab.GoMap.Select.{sort_slice-values, Entries-of_get}
use go_infra_lab.Action.{ok}
use go_infra_lab.Metadata
use go_infra_lab.Metadata.{NodeMetadata, ReplicaState, ChunkMetadata, FileMetadata, MetadataStore}
use go_infra_lab.Metadata.Commands.{begin, mark, delete, add, apply}
use go_infra_lab.Metadata.WellFormed.{IsFileOf}
use go_infra_lab.Backend.{memory_backend}
use go_infra_lab.Backend.Refines.{Related}
use package.go_infra_lab.Disk.{Bolt, Codec, IsBuckets, IsReliable}
use package.go_infra_lab.Disk.Mirrors.{
  Mirrors, done-Related, view-Related, put_file-Mirrors, kept, change_at_related,
}
use package.go_infra_lab.Disk.Reads.{IsFaithful, decode_entries}
use package.go_infra_lab.Disk.Metadata as DiskStore
use package.go_infra_lab.Disk.Metadata.{
  DiskMetadataStore, files_bucket, get_file_from_bucket, marked, buried, with_replica,
}

module _ {B R : Type 0} (bolt : Bolt B R) (accepts : String → Bool) (buckets : IsBuckets bolt)
    (reliable : IsReliable bolt accepts) (files : Codec FileMetadata R)
    (faithful_files : IsFaithful files) (nodes : Codec NodeMetadata R)
    (faithful_nodes : IsFaithful nodes) where
  abbrev Agree : DiskMetadataStore B → MetadataStore → Type 0
  Agree = Mirrors bolt files nodes

  pub get_file_related :
      (key : String) (d : DiskMetadataStore B) (m : MetadataStore)
      → Agree d m
      → Related Agree (DiskStore.get_file bolt files nodes key d) (memory_backend.get_file key m)
  unfolding DiskStore.get_file Metadata.get_file get_file_from_bucket
  get_file_related key d m h =
      view-Related bolt accepts buckets reliable files faithful_files nodes faithful_nodes
        (get_file_from_bucket bolt files nodes key) (ok (get key m.files)) d m (h.holds_files key) h

  pub next_version_related :
      (key : String) (d : DiskMetadataStore B) (m : MetadataStore)
      → Agree d m
      → Related Agree
          (DiskStore.next_version bolt files nodes key d)
          (memory_backend.next_version key m)
  unfolding DiskStore.next_version Metadata.next_version Metadata.next_version_locked
      get_file_from_bucket
  next_version_related key d m h =
      view-Related bolt accepts buckets reliable files faithful_files nodes faithful_nodes _
        (ok (Metadata.next_version key m)) d m (ground (arith, h.holds_files key)) h

  pub begin_related :
      (key : String) (size : ℕ) (checksum : String) (chunks : List ChunkMetadata) (primary : String)
      (replicas : List String) (d : DiskMetadataStore B) (m : MetadataStore)
      → accepts key ≡ true
      → Agree d m
      → Related Agree
          (DiskStore.begin_file_version bolt files nodes key size checksum chunks primary replicas
            d)
          (memory_backend.begin_file_version key size checksum chunks primary replicas m)
  unfolding DiskStore.begin_file_version Metadata.begin_file_version Metadata.next_version_locked
      get_file_from_bucket apply
  begin_related key size checksum chunks primary replicas d m accepted h =
      let meta = (Metadata.begin_file_version key size checksum chunks primary replicas m).0 in
      let same = h.same_now in
      let (db', done, after) =
        put_file-Mirrors bolt accepts buckets reliable files faithful_files nodes faithful_nodes key
          meta d m accepted
          (kept bolt accepts buckets reliable files faithful_files nodes faithful_nodes
            (begin key size checksum chunks primary replicas) m h.well_formed)
          h in
      done-Related bolt accepts buckets reliable files faithful_files nodes faithful_nodes _ meta d
        db' (record m { files = put key meta m.files })
        (ground (arith, done, same, h.holds_files key)) after

  pub mark_related :
      (key node_id : String) (state : ReplicaState) (d : DiskMetadataStore B) (m : MetadataStore)
      → Agree d m
      → Related Agree
          (DiskStore.mark_replica bolt files nodes key node_id state d)
          (memory_backend.mark_replica key node_id state m)
  unfolding DiskStore.mark_replica Metadata.mark_replica apply
  mark_related key node_id state d m h =
      change_at_related bolt accepts buckets reliable files faithful_files nodes faithful_nodes key
        (λ now. marked now node_id state) d m (Metadata.mark_replica key node_id state m)
        (ground arith)
        (kept bolt accepts buckets reliable files faithful_files nodes faithful_nodes
          (mark key node_id state) m h.well_formed)
        h

  pub tombstone_related :
      (key : String) (d : DiskMetadataStore B) (m : MetadataStore)
      → Agree d m
      → Related Agree (DiskStore.tombstone bolt files nodes key d) (memory_backend.tombstone key m)
  unfolding DiskStore.tombstone Metadata.tombstone apply
  tombstone_related key d m h =
      change_at_related bolt accepts buckets reliable files faithful_files nodes faithful_nodes key
        buried d m (Metadata.tombstone key m) (ground arith)
        (kept bolt accepts buckets reliable files faithful_files nodes faithful_nodes (delete key) m
          h.well_formed)
        h

  pub add_related :
      (key node_id : String) (state : ReplicaState) (d : DiskMetadataStore B) (m : MetadataStore)
      → Agree d m
      → Related Agree
          (DiskStore.add_replica bolt files nodes key node_id state d)
          (memory_backend.add_replica key node_id state m)
  unfolding DiskStore.add_replica Metadata.add_replica apply
  add_related key node_id state d m h =
      change_at_related bolt accepts buckets reliable files faithful_files nodes faithful_nodes key
        (λ now. with_replica now node_id state) d m (Metadata.add_replica key node_id state m)
        (ground arith)
        (kept bolt accepts buckets reliable files faithful_files nodes faithful_nodes
          (add key node_id state) m h.well_formed)
        h

  pub list_files_related :
      (d : DiskMetadataStore B) (m : MetadataStore)
      → Agree d m
      → Related Agree (DiskStore.list_files bolt files nodes d) (memory_backend.list_files m)
  unfolding DiskStore.list_files Metadata.list_files
  list_files_related d m h =
      let (found, contents, all) =
        decode_entries bolt accepts buckets reliable files faithful_files files_bucket d.db m.files
          h.holds_files in
      let w = h.well_formed in
      let named =
        Entries-of_get (λ k (f : FileMetadata). f.key ≡ k) m.files w.files_distinct
          (λ k f e. (Entries-get IsFileOf k m.files w.files_named e).named) in
      let sorted =
        sort_slice-values (λ (f : FileMetadata). f.key) m.files found w.files_distinct
          contents.distinct named (λ k. sym (contents.contents k)) in
      let read =
        view-Related bolt accepts buckets reliable files faithful_files nodes faithful_nodes _
          (ok (values found)) d m all h in
      (ground (arith, read.0, sorted), read.1)
