-- ===== src/Metadata/Replicas.antt =====
-- distributed-fs/metadata.go: what `MarkReplica`, `AddReplica` and `Tombstone` do to the replicas
-- that later calls read, and what `HealthyReplicas` gives.
use mathlib.Core.List.{Perm}
use go_infra_lab.Common.{
  String, true, none, some, ◌≡◌, ◌==◌, ◌&&◌, arith, eq_iff, if◌then◌else◌, filter, All,
  All-filter_self,
}
use go_infra_lab.GoMap.{values}
use go_infra_lab.GoMap.Laws.{get-put, get-update_all}
use go_infra_lab.Sorting.{
  by, by-IsOrder, IsSorted, sort_slice-perm, sort_slice-IsSorted, sort_slice-All,
}
use go_infra_lab.Action.{err, metadata_not_found, replica_not_found}
use package.go_infra_lab.Metadata.{
  ReplicaState, FileMetadata, MetadataStore, mark_replica, tombstone, delete_replica, get_file,
  next_uint64, healthy_replicas, is_replica_healthy,
}
use package.go_infra_lab.Metadata.Commands.{replica_of, version_of}

-- `MarkReplica` gives a known replica the new state and the current time, and it changes nothing
-- else: no other replica, no replica of another key, no version.
pub replica-mark_replica :
    (key node_id : String) (new : ReplicaState) (m : MetadataStore) (j p : String)
    → let m' = (mark_replica key node_id new m).1 in
      (replica_of j p m' ≡ (
        if key == j && node_id == p
        then (elim (replica_of key node_id m) [
          | none ↦ none
          | some r ↦ some (record r { state = new; updated_at = m.now })
        ])
        else replica_of j p m))
      × (version_of j m' ≡ version_of j m)
unfolding mark_replica get_file
replica-mark_replica key node_id new m j p = grind (arith, get-put, eq_iff key j, eq_iff node_id p)

-- Where the key has no replica on the node, `MarkReplica` reports whether the file or only the
-- replica is missing, and leaves the store as it was.
pub mark_replica_missing :
    (key node_id : String) (new : ReplicaState) (m : MetadataStore)
    → replica_of key node_id m ≡ none
    → mark_replica key node_id new m ≡ (
      err (elim (get_file key m) [ none ↦ metadata_not_found | some meta ↦ replica_not_found ]),
      m,
    )
unfolding mark_replica get_file
mark_replica_missing key node_id new m h = ground arith

-- A tombstone of a known file raises the version by one as a uint64, marks every replica of it
-- deleted, and touches no other file.
pub tombstone_lem :
    (key : String) (m : MetadataStore) (meta : FileMetadata)
    → get_file key m ≡ some meta
    → (j p : String)
    → let (r, m') = tombstone key m in
      (version_of key m' ≡ next_uint64 meta.version)
      × (get_file j m' ≡ (if key == j then get_file key m' else get_file j m))
      × (replica_of key p m'
          ≡ elim (replica_of key p m) [ none ↦ none | some r ↦ some (delete_replica m.now r) ])
unfolding tombstone get_file
tombstone_lem key m meta found j p =
    grind (arith, get-put, get-update_all, eq_iff key j, eq_iff key key)

-- `HealthyReplicas` gives exactly the healthy replicas of the file, sorted by node ID.
pub healthy_replicas_lem :
    (meta : FileMetadata)
    → Perm (healthy_replicas meta) (filter is_replica_healthy (values meta.replicas))
      × All (λ r. is_replica_healthy r ≡ true) (healthy_replicas meta)
      × IsSorted (by (λ r. r.node_id)) (healthy_replicas meta)
unfolding healthy_replicas
healthy_replicas_lem meta =
    let healthy = filter is_replica_healthy (values meta.replicas) in
    (
      sort_slice-perm _ healthy,
      sort_slice-All _ _ healthy (All-filter_self is_replica_healthy (values meta.replicas)),
      sort_slice-IsSorted _ (by-IsOrder (λ r. r.node_id)) healthy,
    )
