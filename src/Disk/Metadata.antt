-- ===== src/Disk/Metadata.antt =====
-- distributed-fs/metadata_disk.go: `DiskMetadataStore`. Its clock is the field `now`.
use go_infra_lab.Common.{
  ℕ, String, true, false, Option, none, some, List, [], filter, ℤ, negate, Time, add_duration,
  before,
}
use go_infra_lab.GoMap.{get, put, update_all}
use go_infra_lab.Sorting.{by, sort_slice}
use go_infra_lab.Action.{Action, Result, ok, err, metadata_not_found, replica_not_found}
use go_infra_lab.Action.Results.{◌>>=◌, map_ok}
use go_infra_lab.Metadata.{
  NodeMetadata, NodeState, ReplicaMetadata, ReplicaState, ChunkMetadata, FileMetadata,
  is_node_healthy, next_uint64, new_replica, record_replicas, delete_replica,
}
use go_infra_lab.Backend.{MetadataBackend}
use package.go_infra_lab.Disk.{Bolt, Codec, read_json, put_json, decode_all, rewrite_all}

pub record DiskMetadataStore (B : Type 0) : Type 0 where
  pub db : B
  pub now : Time

abbrev pub files_bucket : String
files_bucket = "files"

abbrev pub nodes_bucket : String
nodes_bucket = "nodes"

-- What `MarkExpiredNodes` writes for a node whose heartbeat is too old.
abbrev pub expired_node : Time → NodeMetadata → Option NodeMetadata
expired_node cutoff node = elim (before node.last_heartbeat cutoff) [
  | true ↦ some (record node { state = NodeState.down })
  | false ↦ none
]

-- What `MarkReplica`, `Tombstone` and `AddReplica` write for a known file.
abbrev pub marked : Time → String → ReplicaState → FileMetadata → Result FileMetadata
marked now node_id state meta = elim (get node_id meta.replicas) [
  | none ↦ err replica_not_found
  | some replica ↦
      let replica' : ReplicaMetadata = record replica { state = state; updated_at = now } in
      ok (record meta { replicas = put node_id replica' meta.replicas; updated_at = now })
]

abbrev pub buried : Time → FileMetadata → Result FileMetadata
buried now meta = ok (record meta {
  version = next_uint64 meta.version;
  deleted = true;
  updated_at = now;
  replicas = update_all (delete_replica now) meta.replicas;
})

abbrev pub with_replica : Time → String → ReplicaState → FileMetadata → Result FileMetadata
with_replica now node_id state meta = ok (record meta {
  replicas = put node_id (new_replica now node_id state) meta.replicas;
  updated_at = now;
})

module _ {B R : Type 0} (bolt : Bolt B R) (files : Codec FileMetadata R)
    (nodes : Codec NodeMetadata R) where
  -- A transaction on the store's database.
  abbrev pub in_update : {A : Type 0} → (B → Result (A × B)) → Action (DiskMetadataStore B) A
  in_update f m = let (r, db) = bolt.update f m.db in (r, record m { db = db })

  abbrev pub in_view : {A : Type 0} → (B → Result A) → Action (DiskMetadataStore B) A
  in_view f m = let (r, db) = bolt.view f m.db in (r, record m { db = db })

  unfoldable pub init : Action (DiskMetadataStore B) (Unit {0})
  init = in_update (λ db. do
    db' ← bolt.create_bucket files_bucket db
    db'' ← bolt.create_bucket nodes_bucket db'
    ok (tt, db''))

  unfoldable pub get_file_from_bucket : String → B → Result (Option FileMetadata)
  get_file_from_bucket = read_json bolt files files_bucket

  -- The last step of a transaction that returns what it puts.
  unfoldable pub put_file : String → FileMetadata → B → Result (FileMetadata × B)
  put_file key meta db = do db' ← put_json bolt files files_bucket key meta db; ok (meta, db')

  unfoldable pub upsert_node : String → String → Action (DiskMetadataStore B) NodeMetadata
  upsert_node id addr m =
      let node : NodeMetadata = record {
        id = id;
        addr = addr;
        state = NodeState.healthy;
        last_heartbeat = m.now;
      } in
      in_update (λ db. do db' ← put_json bolt nodes nodes_bucket id node db; ok (node, db')) m

  unfoldable pub mark_expired_nodes : ℤ → Action (DiskMetadataStore B) (Unit {0})
  mark_expired_nodes ttl m =
      let cutoff = add_duration m.now (negate ttl) in
      in_update
        (λ db. do
          (_, db') ← rewrite_all bolt nodes nodes_bucket (expired_node cutoff) db
          ok (tt, db'))
        m

  unfoldable pub all_nodes : Action (DiskMetadataStore B) (List NodeMetadata)
  all_nodes m =
      let (r, m') = in_view (λ db. decode_all bolt nodes (bolt.entries nodes_bucket db)) m in
      (map_ok (sort_slice (by (λ n. n.id))) r, m')

  unfoldable pub healthy_nodes : Action (DiskMetadataStore B) (List NodeMetadata)
  healthy_nodes m = let (r, m') = all_nodes m in (map_ok (filter is_node_healthy) r, m')

  -- The version and the creation time that `BeginFileVersion` gives to the successor of `prev`.
  abbrev pub successor : Option FileMetadata → Time → ℕ × Time
  successor none now = (1, now)
  successor (some prev) now = (next_uint64 prev.version, prev.created_at)

  unfoldable pub begin_file_version :
      String
      → ℕ
      → String
      → List ChunkMetadata
      → String
      → List String
      → Action (DiskMetadataStore B) FileMetadata
  begin_file_version key size checksum chunks primary replicas m =
      in_update
        (λ db. do
          prev ← get_file_from_bucket key db
          put_file key
              (record {
                key = key;
                version = (successor prev m.now).0;
                size = size;
                checksum = checksum;
                primary = primary;
                deleted = false;
                chunks = chunks;
                replicas = record_replicas m.now primary replicas [];
                created_at = (successor prev m.now).1;
                updated_at = m.now;
              })
              db)
        m

  unfoldable pub next_version : String → Action (DiskMetadataStore B) ℕ
  next_version key = in_view (λ db. do
    found ← get_file_from_bucket key db
    ok (elim found [ none ↦ 1 | some meta ↦ next_uint64 meta.version ]))

  -- A transaction that changes a known file: what the three updates below share.
  abbrev pub change_file :
      String → (FileMetadata → Result FileMetadata) → Action (DiskMetadataStore B) FileMetadata
  change_file key change = in_update (λ db. do
    found ← get_file_from_bucket key db
    elim found [
      | none ↦ err metadata_not_found
      | some meta ↦ do meta' ← change meta; put_file key meta' db
    ])

  unfoldable pub mark_replica :
      String → String → ReplicaState → Action (DiskMetadataStore B) FileMetadata
  mark_replica key node_id state m = change_file key (marked m.now node_id state) m

  unfoldable pub tombstone : String → Action (DiskMetadataStore B) FileMetadata
  tombstone key m = change_file key (buried m.now) m

  unfoldable pub get_file : String → Action (DiskMetadataStore B) (Option FileMetadata)
  get_file key = in_view (get_file_from_bucket key)

  unfoldable pub list_files : Action (DiskMetadataStore B) (List FileMetadata)
  list_files m =
      let (r, m') = in_view (λ db. decode_all bolt files (bolt.entries files_bucket db)) m in
      (map_ok (sort_slice (by (λ f. f.key))) r, m')

  unfoldable pub add_replica :
      String → String → ReplicaState → Action (DiskMetadataStore B) FileMetadata
  add_replica key node_id state m = change_file key (with_replica m.now node_id state) m

  abbrev pub disk_backend : MetadataBackend (DiskMetadataStore B)
  disk_backend = record {
    upsert_node = upsert_node;
    mark_expired_nodes = mark_expired_nodes;
    healthy_nodes = healthy_nodes;
    nodes = all_nodes;
    begin_file_version = begin_file_version;
    next_version = next_version;
    mark_replica = mark_replica;
    tombstone = tombstone;
    get_file = get_file;
    list_files = list_files;
    add_replica = add_replica;
    now = λ m. m.now;
  }
