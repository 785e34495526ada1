-- ===== src/Metadata/Versions.antt =====
-- distributed-fs/metadata.go: the versions of a key over any sequence of calls.
use go_infra_lab.Common.{
  ℕ, ◌+◌, ◌^◌, ◌≤◌, ◌<◌, String, false, some, List, [], ◌∷◌, ◌≡◌, ◌==◌, eq_iff, refl, arith,
  if◌then◌else◌, length, Time,
}
use go_infra_lab.GoMap.Laws.{get-put}
use package.go_infra_lab.Metadata.{
  ChunkMetadata, MetadataStore, upsert_node, mark_expired_nodes, begin_file_version,
  next_version_locked, next_version, mark_replica, tombstone, add_replica, get_file,
}
use package.go_infra_lab.Metadata.Commands.{
  Command, upsert, expire, begin, mark, delete, add, tick, apply, run, version_of, created_of,
}

-- `BeginFileVersion` publishes the next version under its key and changes no other file.
pub get_file-begin_file_version :
    (key : String) (size : ℕ) (checksum : String) (chunks : List ChunkMetadata) (primary : String)
    (replicas : List String) (m : MetadataStore) (j : String)
    → let (meta, m') = begin_file_version key size checksum chunks primary replicas m in
      (get_file j m' ≡ (if key == j then some meta else get_file j m))
      × (meta.version ≡ next_version key m)
      × (meta.size ≡ size)
      × (meta.checksum ≡ checksum)
      × (meta.deleted ≡ false)
unfolding begin_file_version get_file next_version
get_file-begin_file_version key size checksum chunks primary replicas m j =
    (get-put key j _ m.files, refl, refl, refl, refl)

apply-version :
    (c : Command) (key : String) (m : MetadataStore)
    → version_of key m + 1 < 2 ^ 64
    → (version_of key m ≤ version_of key (apply c m))
      × (version_of key (apply c m) ≤ version_of key m + 1)
unfolding apply get_file upsert_node mark_expired_nodes begin_file_version next_version_locked
    mark_replica tombstone add_replica
apply-version (upsert id addr) key m h = ground arith
apply-version (expire ttl) key m h = ground arith
apply-version (begin k size checksum chunks primary replicas) key m h =
    grind (arith, get-put, eq_iff k key)
apply-version (mark k node_id _) key m h = grind (arith, get-put, eq_iff k key)
apply-version (delete k) key m h = grind (arith, get-put, eq_iff k key)
apply-version (add k node_id _) key m h = grind (arith, get-put, eq_iff k key)
apply-version (tick d) key m h = ground arith

-- No sequence of calls takes a version back: while the version counter has room for the calls, the
-- version of every key grows by at most one in each call and never falls.
pub version-run :
    (cs : List Command) (key : String) (m : MetadataStore)
    → version_of key m + length cs < 2 ^ 64
    → (version_of key m ≤ version_of key (run cs m))
      × (version_of key (run cs m) ≤ version_of key m + length cs)
unfolding run
version-run [] key m h = omega arith
version-run (c ∷ cs) key m h =
    let step = apply-version c key m (omega arith) in
    let rest = version-run cs key (apply c m) (omega arith) in omega arith

apply-created :
    (c : Command) (key : String) (m : MetadataStore) (t : Time)
    → created_of key m ≡ some t
    → created_of key (apply c m) ≡ some t
unfolding apply get_file upsert_node mark_expired_nodes begin_file_version next_version_locked
    mark_replica tombstone add_replica
apply-created (upsert id addr) key m t h = ground arith
apply-created (begin k size checksum chunks primary replicas) key m t h =
    grind (arith, get-put, eq_iff k key)
apply-created (mark k node_id _) key m t h = grind (arith, get-put, eq_iff k key)
apply-created (delete k) key m t h = grind (arith, get-put, eq_iff k key)
apply-created (add k node_id _) key m t h = grind (arith, get-put, eq_iff k key)
apply-created _ key m t h = ground arith

-- A file never disappears from the metadata, and it keeps the time of its first version, through
-- any sequence of calls, new versions and deletions included.
created-run :
    (cs : List Command) (key : String) (m : MetadataStore) (t : Time)
    → created_of key m ≡ some t
    → created_of key (run cs m) ≡ some t
unfolding run
created-run [] key m t h = h
created-run (c ∷ cs) key m t h = created-run cs key (apply c m) t (apply-created c key m t h)
