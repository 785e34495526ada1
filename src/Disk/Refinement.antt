-- ===== src/Disk/Refinement.antt =====
-- distributed-fs/metadata_disk.go: on a disk that works, `DiskMetadataStore` behaves as the in-
-- memory store.
use go_infra_lab.Common.{String, Bool}
use go_infra_lab.Metadata.{NodeMetadata, FileMetadata, MetadataStore}
use go_infra_lab.Backend.{memory_backend}
use go_infra_lab.Backend.Refines.{BackendRefines}
use package.go_infra_lab.Disk.{Bolt, Codec, IsBuckets, IsReliable}
use package.go_infra_lab.Disk.Mirrors.{Mirrors}
use package.go_infra_lab.Disk.Reads.{IsFaithful}
use package.go_infra_lab.Disk.Metadata.{DiskMetadataStore, disk_backend}
use package.go_infra_lab.Disk.Nodes.{upsert_node_related, nodes_related, healthy_nodes_related}
use package.go_infra_lab.Disk.Files.{
  get_file_related, next_version_related, begin_related, mark_related, tombstone_related,
  add_related, list_files_related,
}

module _ {B R : Type 0} (bolt : Bolt B R) (accepts : String → Bool) (buckets : IsBuckets bolt)
    (reliable : IsReliable bolt accepts) (files : Codec FileMetadata R)
    (faithful_files : IsFaithful files) (nodes : Codec NodeMetadata R)
    (faithful_nodes : IsFaithful nodes) where
  abbrev Agree : DiskMetadataStore B → MetadataStore → Type 0
  Agree = Mirrors bolt files nodes

  -- On a disk that works, the persistent metadata store behaves as the store in memory: every
  -- operation of the backend but `MarkExpiredNodes` returns the same result, errors included, and
  -- keeps the two in agreement. A new file or node must have a name that the database accepts as a
  -- key.
  pub disk_backend-BackendRefines :
      BackendRefines accepts Agree (disk_backend bolt files nodes) memory_backend
  disk_backend-BackendRefines = record {
    upsert_node =
        upsert_node_related bolt accepts buckets reliable files faithful_files nodes faithful_nodes;
    healthy_nodes =
        healthy_nodes_related bolt accepts buckets reliable files faithful_files nodes
          faithful_nodes;
    nodes = nodes_related bolt accepts buckets reliable files faithful_files nodes faithful_nodes;
    begin_file_version =
        begin_related bolt accepts buckets reliable files faithful_files nodes faithful_nodes;
    next_version =
        next_version_related bolt accepts buckets reliable files faithful_files nodes
          faithful_nodes;
    mark_replica =
        mark_related bolt accepts buckets reliable files faithful_files nodes faithful_nodes;
    tombstone =
        tombstone_related bolt accepts buckets reliable files faithful_files nodes faithful_nodes;
    get_file =
        get_file_related bolt accepts buckets reliable files faithful_files nodes faithful_nodes;
    list_files =
        list_files_related bolt accepts buckets reliable files faithful_files nodes faithful_nodes;
    add_replica =
        add_related bolt accepts buckets reliable files faithful_files nodes faithful_nodes;
    now = λ d m h. h.same_now;
  }
