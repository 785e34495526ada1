-- ===== src/Metadata/WellFormed.antt =====
-- distributed-fs/metadata.go: the maps of a store agree with the names that their values carry.
use go_infra_lab.Common.{
  ℕ, String, List, [], ◌∷◌, ◌≡◌, refl, arith, ℤ, Time, Option-cases, inl, inr,
}
use go_infra_lab.GoMap.{GoMap, get, put, HasDistinctKeys, Entries}
use go_infra_lab.GoMap.Laws.{
  put-HasDistinctKeys, update_all-HasDistinctKeys, put-Entries, update_all-Entries, Entries-get,
}
use package.go_infra_lab.Metadata.{
  NodeMetadata, ReplicaMetadata, ReplicaState, ChunkMetadata, FileMetadata, MetadataStore,
  new_metadata_store, upsert_node, expire_node, mark_expired_nodes, record_replicas,
  begin_file_version, mark_replica, delete_replica, tombstone, add_replica,
}
use package.go_infra_lab.Metadata.Commands.{
  Command, upsert, expire, begin, mark, delete, add, tick, apply, run,
}

abbrev pub ReplicaNamed : String → ReplicaMetadata → Type 0
ReplicaNamed node_id replica = replica.node_id ≡ node_id

abbrev pub NodeNamed : String → NodeMetadata → Type 0
NodeNamed id node = node.id ≡ id

-- A file record under a key: it carries the key, and its replicas carry their nodes' IDs.
pub record IsFileOf (key : String) (meta : FileMetadata) : Type 0 where
  pub named : meta.key ≡ key
  pub replicas_distinct : HasDistinctKeys meta.replicas
  pub replicas_named : Entries ReplicaNamed meta.replicas

pub record IsWellFormed (m : MetadataStore) : Type 0 where
  pub files_distinct : HasDistinctKeys m.files
  pub files_named : Entries IsFileOf m.files
  pub nodes_distinct : HasDistinctKeys m.nodes
  pub nodes_named : Entries NodeNamed m.nodes

pub record_replicas_lem :
    (now : Time) (primary : String) (ids : List String) (replicas : GoMap ReplicaMetadata)
    → HasDistinctKeys replicas
    → Entries ReplicaNamed replicas
    → HasDistinctKeys (record_replicas now primary ids replicas)
      × Entries ReplicaNamed (record_replicas now primary ids replicas)
unfolding record_replicas
record_replicas_lem now primary [] replicas d e = (d, e)
record_replicas_lem now primary (id ∷ ids) replicas d e =
    record_replicas_lem now primary ids _ (put-HasDistinctKeys id _ replicas d)
      (put-Entries ReplicaNamed id _ replicas refl e)

-- A file record that is written under its key keeps the store well-formed.
put_file-IsWellFormed :
    {m : MetadataStore} (key : String) (meta : FileMetadata)
    → IsWellFormed m
    → IsFileOf key meta
    → IsWellFormed (record m { files = put key meta m.files })
put_file-IsWellFormed {m} key meta w f = record {
  files_distinct = put-HasDistinctKeys key meta m.files w.files_distinct;
  files_named = put-Entries IsFileOf key meta m.files f w.files_named;
  nodes_distinct = w.nodes_distinct;
  nodes_named = w.nodes_named;
}

put_replica-IsFileOf :
    {key : String} (meta : FileMetadata) (node_id : String) (replica : ReplicaMetadata) (now : Time)
    → IsFileOf key meta
    → replica.node_id ≡ node_id
    → IsFileOf key (record meta { replicas = put node_id replica meta.replicas; updated_at = now })
put_replica-IsFileOf meta node_id replica now f named = record {
  named = f.named;
  replicas_distinct = put-HasDistinctKeys node_id replica meta.replicas f.replicas_distinct;
  replicas_named = put-Entries ReplicaNamed node_id replica meta.replicas named f.replicas_named;
}

expire-IsWellFormed :
    (ttl : ℤ) (m : MetadataStore) → IsWellFormed m → IsWellFormed (mark_expired_nodes ttl m)
unfolding mark_expired_nodes expire_node
expire-IsWellFormed ttl m w = record {
  files_distinct = w.files_distinct;
  files_named = w.files_named;
  nodes_distinct = update_all-HasDistinctKeys _ m.nodes w.nodes_distinct;
  nodes_named = update_all-Entries NodeNamed _ m.nodes (λ id node h. ground arith) w.nodes_named;
}

begin-IsWellFormed :
    (key : String) (size : ℕ) (checksum : String) (chunks : List ChunkMetadata) (primary : String)
    (replicas : List String) (m : MetadataStore)
    → IsWellFormed m
    → IsWellFormed (begin_file_version key size checksum chunks primary replicas m).1
unfolding begin_file_version
begin-IsWellFormed key size checksum chunks primary replicas m w =
    put_file-IsWellFormed key _ w (record {
      named = refl;
      replicas_distinct = (record_replicas_lem m.now primary replicas [] tt tt).0;
      replicas_named = (record_replicas_lem m.now primary replicas [] tt tt).1;
    })

pub mark-IsWellFormed :
    (key node_id : String) (state : ReplicaState) (m : MetadataStore)
    → IsWellFormed m
    → IsWellFormed (mark_replica key node_id state m).1
unfolding mark_replica
mark-IsWellFormed key node_id new m w = elim (Option-cases (get key m.files)) [
  | inl absent ↦ rw (absent, mark_replica) w
  | inr (meta, found) ↦
      let f = Entries-get IsFileOf key m.files w.files_named found in
      elim (Option-cases (get node_id meta.replicas)) [
        | inl absent ↦ rw (found, mark_replica) (rw (absent, mark_replica) w)
        | inr (replica, held) ↦
            rw (found, mark_replica)
              (rw (held, mark_replica)
                (put_file-IsWellFormed key _ w (
                  put_replica-IsFileOf meta node_id _ m.now f
                    (Entries-get ReplicaNamed node_id meta.replicas f.replicas_named held))))
      ]
]

add-IsWellFormed :
    (key node_id : String) (state : ReplicaState) (m : MetadataStore)
    → IsWellFormed m
    → IsWellFormed (add_replica key node_id state m).1
unfolding add_replica
add-IsWellFormed key node_id new m w = elim (Option-cases (get key m.files)) [
  | inl absent ↦ rw (absent, add_replica) w
  | inr (meta, found) ↦
      rw (found, add_replica)
        (put_file-IsWellFormed key _ w (
          put_replica-IsFileOf meta node_id _ m.now
            (Entries-get IsFileOf key m.files w.files_named found) refl))
]

tombstone-IsWellFormed :
    (key : String) (m : MetadataStore) → IsWellFormed m → IsWellFormed (tombstone key m).1
unfolding tombstone delete_replica
tombstone-IsWellFormed key m w = elim (Option-cases (get key m.files)) [
  | inl absent ↦ rw (absent, tombstone) w
  | inr (meta, found) ↦
      let f = Entries-get IsFileOf key m.files w.files_named found in
      rw (found, tombstone)
        (put_file-IsWellFormed key _ w (record {
          named = f.named;
          replicas_distinct = update_all-HasDistinctKeys _ meta.replicas f.replicas_distinct;
          replicas_named =
              update_all-Entries ReplicaNamed _ meta.replicas (λ id r h. h) f.replicas_named;
        }))
]

apply-IsWellFormed : (c : Command) (m : MetadataStore) → IsWellFormed m → IsWellFormed (apply c m)
unfolding apply upsert_node
apply-IsWellFormed (upsert id addr) m w = record {
  files_distinct = w.files_distinct;
  files_named = w.files_named;
  nodes_distinct = put-HasDistinctKeys id _ m.nodes w.nodes_distinct;
  nodes_named = put-Entries NodeNamed id _ m.nodes refl w.nodes_named;
}
apply-IsWellFormed (expire ttl) m w = expire-IsWellFormed ttl m w
apply-IsWellFormed (begin key size checksum chunks primary replicas) m w =
    begin-IsWellFormed key size checksum chunks primary replicas m w
apply-IsWellFormed (mark key node_id new) m w = mark-IsWellFormed key node_id new m w
apply-IsWellFormed (delete key) m w = tombstone-IsWellFormed key m w
apply-IsWellFormed (add key node_id new) m w = add-IsWellFormed key node_id new m w
apply-IsWellFormed (tick d) m w = record {
  files_distinct = w.files_distinct;
  files_named = w.files_named;
  nodes_distinct = w.nodes_distinct;
  nodes_named = w.nodes_named;
}

-- Any sequence of calls keeps a store well-formed: no key stands twice, every file and node stands
-- under its own name, and every replica under its node's ID.
pub run-IsWellFormed :
    (cs : List Command) (m : MetadataStore) → IsWellFormed m → IsWellFormed (run cs m)
unfolding run
run-IsWellFormed [] m w = w
run-IsWellFormed (c ∷ cs) m w = run-IsWellFormed cs (apply c m) (apply-IsWellFormed c m w)

pub new-IsWellFormed : (now : Time) → IsWellFormed (new_metadata_store now)
unfolding new_metadata_store
new-IsWellFormed now = record {
  files_distinct = tt;
  files_named = tt;
  nodes_distinct = tt;
  nodes_named = tt;
}
