-- ===== src/Disk/Nodes.antt =====
-- The operations on nodes of distributed-fs/metadata_disk.go: each does what the store in memory
-- does.
use go_infra_lab.Common.{String, Bool, true, ◌≡◌, sym, arith, eq_iff, ℤ, add_duration, negate}
use go_infra_lab.GoMap.{put, values, update_all}
use go_infra_lab.GoMap.Laws.{get-update_all}
use go_infra_lab.GoMap.Select.{sort_slice-values}
use go_infra_lab.Sorting.{by, by-IsOrder, sort_slice, filter-sort_slice}
use go_infra_lab.Action.{ok}
use go_infra_lab.Metadata
use go_infra_lab.Metadata.{NodeMetadata, NodeState, FileMetadata, MetadataStore, is_node_healthy}
use go_infra_lab.Metadata.Commands.{upsert, expire, apply}
use go_infra_lab.Backend.{memory_backend}
use go_infra_lab.Backend.Refines.{Related}
use package.go_infra_lab.Disk.{VisitsSnapshot, Bolt, Codec, IsBuckets, IsReliable}
use package.go_infra_lab.Disk.Mirrors.{Mirrors, done-Related, view-Related, kept}
use package.go_infra_lab.Disk.Reads.{IsFaithful, Holds-SameBucket, put_json-Holds, decode_entries}
use package.go_infra_lab.Disk.Rewrites.{rewrite_all_lem}
use package.go_infra_lab.Disk.Metadata as DiskStore
use package.go_infra_lab.Disk.Metadata.{DiskMetadataStore, files_bucket, nodes_bucket, expired_node}

module _ {B R : Type 0} (bolt : Bolt B R) (accepts : String → Bool) (buckets : IsBuckets bolt)
    (reliable : IsReliable bolt accepts) (files : Codec FileMetadata R)
    (faithful_files : IsFaithful files) (nodes : Codec NodeMetadata R)
    (faithful_nodes : IsFaithful nodes) where
  abbrev Agree : DiskMetadataStore B → MetadataStore → Type 0
  Agree = Mirrors bolt files nodes

  pub upsert_node_related :
      (id addr : String) (d : DiskMetadataStore B) (m : MetadataStore)
      → accepts id ≡ true
      → Agree d m
      → Related Agree
          (DiskStore.upsert_node bolt files nodes id addr d)
          (memory_backend.upsert_node id addr m)
  unfolding DiskStore.upsert_node Metadata.upsert_node
  upsert_node_related id addr d m accepted h =
      let node : NodeMetadata = record {
        id = id;
        addr = addr;
        state = NodeState.healthy;
        last_heartbeat = m.now;
      } in
      let same = h.same_now in
      let (db', done, holds, others) =
        put_json-Holds bolt accepts buckets reliable nodes faithful_nodes nodes_bucket id node d.db
          m.nodes accepted h.holds_nodes in
      done-Related bolt accepts buckets reliable files faithful_files nodes faithful_nodes _ node d
        db' (record m { nodes = put id node m.nodes }) (ground (arith, done, same))
        (record {
          holds_files =
              Holds-SameBucket bolt accepts buckets reliable files faithful_files files_bucket d.db
                db' m.files (others files_bucket (ground (arith, eq_iff nodes_bucket files_bucket)))
                h.holds_files;
          holds_nodes = holds;
          same_now = h.same_now;
          well_formed =
              unfold apply Metadata.upsert_node in
              kept bolt accepts buckets reliable files faithful_files nodes faithful_nodes
                (upsert id addr) m h.well_formed;
        })

  nodes_read :
      (d : DiskMetadataStore B) (m : MetadataStore)
      → Agree d m
      → Related Agree
          (DiskStore.all_nodes bolt files nodes d)
          (ok (sort_slice (by (λ (n : NodeMetadata). n.id)) (values m.nodes)), m)
  unfolding DiskStore.all_nodes
  nodes_read d m h =
      let (found, contents, all) =
        decode_entries bolt accepts buckets reliable nodes faithful_nodes nodes_bucket d.db m.nodes
          h.holds_nodes in
      let w = h.well_formed in
      let sorted =
        sort_slice-values (λ (n : NodeMetadata). n.id) m.nodes found w.nodes_distinct
          contents.distinct w.nodes_named (λ k. sym (contents.contents k)) in
      let read =
        view-Related bolt accepts buckets reliable files faithful_files nodes faithful_nodes _
          (ok (values found)) d m all h in
      (ground (arith, read.0, sorted), read.1)

  pub nodes_related :
      (d : DiskMetadataStore B) (m : MetadataStore)
      → Agree d m
      → Related Agree (DiskStore.all_nodes bolt files nodes d) (memory_backend.nodes m)
  unfolding Metadata.nodes
  nodes_related = nodes_read

  pub healthy_nodes_related :
      (d : DiskMetadataStore B) (m : MetadataStore)
      → Agree d m
      → Related Agree (DiskStore.healthy_nodes bolt files nodes d) (memory_backend.healthy_nodes m)
  unfolding DiskStore.healthy_nodes Metadata.healthy_nodes
  healthy_nodes_related d m h =
      let all = nodes_read d m h in
      (
        ground (
          arith,
          all.0,
          filter-sort_slice is_node_healthy (by (λ (n : NodeMetadata). n.id))
              (by-IsOrder (λ (n : NodeMetadata). n.id)) (values m.nodes),
        ),
        all.1,
      )

  -- On a disk that works, `MarkExpiredNodes` of the persistent store does what that of the store in
  -- memory does, under an assumption that bbolt does not document: that a `ForEach` which puts into
  -- the bucket it visits goes on with what the bucket held before.
  pub mark_expired_nodes_related :
      VisitsSnapshot bolt
      → (ttl : ℤ) (d : DiskMetadataStore B) (m : MetadataStore) → Agree d m
      → Related Agree
          (DiskStore.mark_expired_nodes bolt files nodes ttl d)
          (memory_backend.mark_expired_nodes ttl m)
  unfolding DiskStore.mark_expired_nodes Metadata.mark_expired_nodes
  mark_expired_nodes_related snapshot ttl d m h =
      let cutoff = add_duration m.now (negate ttl) in
      let same = h.same_now in
      let (found, db', contents, done, reads, others) =
        rewrite_all_lem bolt accepts buckets reliable nodes faithful_nodes snapshot nodes_bucket
          (expired_node cutoff) d.db m.nodes h.holds_nodes in
      done-Related bolt accepts buckets reliable files faithful_files nodes faithful_nodes _ tt d
        db' (record m { nodes = update_all (Metadata.expire_node cutoff) m.nodes })
        (ground (arith, done, same))
        (record {
          holds_files =
              Holds-SameBucket bolt accepts buckets reliable files faithful_files files_bucket d.db
                db' m.files (others files_bucket (ground (arith, eq_iff nodes_bucket files_bucket)))
                h.holds_files;
          holds_nodes = λ j.
              unfold Metadata.expire_node in
              ground (
                arith,
                reads j,
                h.holds_nodes j,
                get-update_all (Metadata.expire_node cutoff) j m.nodes,
              );
          same_now = same;
          well_formed =
              unfold apply Metadata.mark_expired_nodes in
              kept bolt accepts buckets reliable files faithful_files nodes faithful_nodes
                (expire ttl) m h.well_formed;
        })
