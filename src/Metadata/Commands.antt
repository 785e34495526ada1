-- ===== src/Metadata/Commands.antt =====
-- distributed-fs/metadata.go: the calls that change a `MetadataStore`, as data, and sequences of
-- them. The clock moves forward between two calls.
use go_infra_lab.Common.{ℕ, ◌+◌, String, Option, none, some, List, [], ◌∷◌, ℤ, Time}
use go_infra_lab.GoMap.{get}
use package.go_infra_lab.Metadata.{
  ReplicaState, ChunkMetadata, ReplicaMetadata, MetadataStore, upsert_node, mark_expired_nodes,
  begin_file_version, mark_replica, tombstone, add_replica, get_file,
}

pub data Command : Type 0 where
  upsert : String → String → Command
  expire : ℤ → Command
  begin : String → ℕ → String → List ChunkMetadata → String → List String → Command
  mark : String → String → ReplicaState → Command
  delete : String → Command
  add : String → String → ReplicaState → Command
  tick : ℕ → Command

-- One call, with its result dropped.
unfoldable pub apply : Command → MetadataStore → MetadataStore
apply (upsert id addr) m = (upsert_node id addr m).1
apply (expire ttl) m = mark_expired_nodes ttl m
apply (begin key size checksum chunks primary replicas) m =
    (begin_file_version key size checksum chunks primary replicas m).1
apply (mark key node_id state) m = (mark_replica key node_id state m).1
apply (delete key) m = (tombstone key m).1
apply (add key node_id state) m = (add_replica key node_id state m).1
apply (tick d) m = record m { now = m.now + d }

unfoldable pub run : List Command → MetadataStore → MetadataStore
run [] m = m
run (c ∷ cs) m = run cs (apply c m)

-- The version of a key, 0 while there is none.
abbrev pub version_of : String → MetadataStore → ℕ
version_of key m = elim (get_file key m) [ none ↦ 0 | some meta ↦ meta.version ]

abbrev pub created_of : String → MetadataStore → Option Time
created_of key m = elim (get_file key m) [ none ↦ none | some meta ↦ some meta.created_at ]

-- The replica of a key on a node, as the metadata has it.
abbrev pub replica_of : String → String → MetadataStore → Option ReplicaMetadata
replica_of key node_id m = elim (get_file key m) [
  | none ↦ none
  | some meta ↦ get node_id meta.replicas
]
