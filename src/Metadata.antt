-- ===== src/Metadata.antt =====
-- distributed-fs/metadata.go: the records of nodes, replicas, chunks and files, and the in-memory
-- `MetadataStore`. A value of the model is never shared, so the clones that the source hands out
-- are the values themselves. The clock is read once in each call: it is the field `now`.
pub mod Commands
pub mod Versions
pub mod Nodes
pub mod Replicas
pub mod WellFormed
use go_infra_lab.Common.{
  ℕ, ◌+◌, ◌%◌, ◌^◌, String, Bool, true, false, Option, none, some, List, [], ◌∷◌, ◌==◌,
  if◌then◌else◌, filter, ℤ, negate, Time, add_duration, before,
}
use go_infra_lab.GoMap.{GoMap, get, put, values, update_all}
use go_infra_lab.Sorting.{by, sort_slice}
use go_infra_lab.Action.{Action, ok, err, metadata_not_found, replica_not_found}

pub data ReplicaState : Type 0 where
  pending healthy stale missing deleted : ReplicaState

pub data NodeState : Type 0 where
  healthy down : NodeState

pub record NodeMetadata : Type 0 where
  pub id : String
  pub addr : String
  pub state : NodeState
  pub last_heartbeat : Time

pub record ReplicaMetadata : Type 0 where
  pub node_id : String
  pub state : ReplicaState
  pub updated_at : Time

pub record ChunkMetadata : Type 0 where
  pub index : ℕ
  pub offset : ℕ
  pub size : ℕ
  pub checksum : String

pub record FileMetadata : Type 0 where
  pub key : String
  pub version : ℕ
  pub size : ℕ
  pub checksum : String
  pub primary : String
  pub deleted : Bool
  pub chunks : List ChunkMetadata
  pub replicas : GoMap ReplicaMetadata
  pub created_at : Time
  pub updated_at : Time

pub record MetadataStore : Type 0 where
  pub files : GoMap FileMetadata
  pub nodes : GoMap NodeMetadata
  pub now : Time

unfoldable pub new_metadata_store : Time → MetadataStore
new_metadata_store now = record { files = []; nodes = []; now = now }

-- `node.State == NodeHealthy`
abbrev pub is_node_healthy : NodeMetadata → Bool
is_node_healthy node = elim node.state [ NodeState.healthy ↦ true | NodeState.down ↦ false ]

-- `replica.State == ReplicaHealthy`
abbrev pub is_replica_healthy : ReplicaMetadata → Bool
is_replica_healthy replica = elim replica.state [ ReplicaState.healthy ↦ true | _ ↦ false ]

unfoldable pub upsert_node : String → String → MetadataStore → NodeMetadata × MetadataStore
upsert_node id addr m =
    let node : NodeMetadata = record {
      id = id;
      addr = addr;
      state = NodeState.healthy;
      last_heartbeat = m.now;
    } in
    (node, record m { nodes = put id node m.nodes })

-- The body of the loop of `MarkExpiredNodes`.
unfoldable pub expire_node : Time → NodeMetadata → NodeMetadata
expire_node cutoff node =
    if before node.last_heartbeat cutoff then record node { state = NodeState.down } else node

unfoldable pub mark_expired_nodes : ℤ → MetadataStore → MetadataStore
mark_expired_nodes ttl m =
    let cutoff = add_duration m.now (negate ttl) in
    record m { nodes = update_all (expire_node cutoff) m.nodes }

unfoldable pub healthy_nodes : MetadataStore → List NodeMetadata
healthy_nodes m = sort_slice (by (λ n. n.id)) (filter is_node_healthy (values m.nodes))

unfoldable pub nodes : MetadataStore → List NodeMetadata
nodes m = sort_slice (by (λ n. n.id)) (values m.nodes)

-- `v + 1` of a uint64
abbrev pub next_uint64 : ℕ → ℕ
next_uint64 v = (v + 1) % 2 ^ 64

unfoldable pub next_version_locked : String → Time → MetadataStore → ℕ × Time
next_version_locked key now m = elim (get key m.files) [
  | none ↦ (1, now)
  | some prev ↦ (next_uint64 prev.version, prev.created_at)
]

abbrev pub new_replica : Time → String → ReplicaState → ReplicaMetadata
new_replica now node_id state = record { node_id = node_id; state = state; updated_at = now }

-- The loop of `BeginFileVersion` over the replicas' node IDs.
unfoldable pub record_replicas :
    Time → String → List String → GoMap ReplicaMetadata → GoMap ReplicaMetadata
record_replicas now primary [] replicas = replicas
record_replicas now primary (node_id ∷ rest) replicas =
    let state = if node_id == primary then ReplicaState.healthy else ReplicaState.pending in
    record_replicas now primary rest (put node_id (new_replica now node_id state) replicas)

unfoldable pub begin_file_version :
    String
    → ℕ
    → String
    → List ChunkMetadata
    → String
    → List String
    → MetadataStore
    → FileMetadata × MetadataStore
begin_file_version key size checksum chunks primary replicas m =
    let now = m.now in
    let (version, created_at) = next_version_locked key now m in
    let meta : FileMetadata = record {
      key = key;
      version = version;
      size = size;
      checksum = checksum;
      primary = primary;
      deleted = false;
      chunks = chunks;
      replicas = record_replicas now primary replicas [];
      created_at = created_at;
      updated_at = now;
    } in
    (meta, record m { files = put key meta m.files })

unfoldable pub next_version : String → MetadataStore → ℕ
next_version key m = (next_version_locked key m.now m).0

unfoldable pub mark_replica : String → String → ReplicaState → Action MetadataStore FileMetadata
mark_replica key node_id state m = elim (get key m.files) [
  | none ↦ (err metadata_not_found, m)
  | some meta ↦ elim (get node_id meta.replicas) [
    | none ↦ (err replica_not_found, m)
    | some replica ↦
        let replica' : ReplicaMetadata = record replica { state = state; updated_at = m.now } in
        let meta' : FileMetadata = record meta {
          replicas = put node_id replica' meta.replicas;
          updated_at = m.now;
        } in
        (ok meta', record m { files = put key meta' m.files })
  ]
]

-- The body of the loop of `Tombstone`.
unfoldable pub delete_replica : Time → ReplicaMetadata → ReplicaMetadata
delete_replica now replica = record replica { state = ReplicaState.deleted; updated_at = now }

unfoldable pub tombstone : String → Action MetadataStore FileMetadata
tombstone key m = elim (get key m.files) [
  | none ↦ (err metadata_not_found, m)
  | some meta ↦
      let meta' : FileMetadata = record meta {
        version = next_uint64 meta.version;
        deleted = true;
        updated_at = m.now;
        replicas = update_all (delete_replica m.now) meta.replicas;
      } in
      (ok meta', record m { files = put key meta' m.files })
]

unfoldable pub get_file : String → MetadataStore → Option FileMetadata
get_file key m = get key m.files

unfoldable pub list_files : MetadataStore → List FileMetadata
list_files m = sort_slice (by (λ f. f.key)) (values m.files)

unfoldable pub add_replica : String → String → ReplicaState → Action MetadataStore FileMetadata
add_replica key node_id state m = elim (get key m.files) [
  | none ↦ (err metadata_not_found, m)
  | some meta ↦
      let meta' : FileMetadata = record meta {
        replicas = put node_id (new_replica m.now node_id state) meta.replicas;
        updated_at = m.now;
      } in
      (ok meta', record m { files = put key meta' m.files })
]

unfoldable pub healthy_replicas : FileMetadata → List ReplicaMetadata
healthy_replicas meta =
    sort_slice (by (λ r. r.node_id)) (filter is_replica_healthy (values meta.replicas))
