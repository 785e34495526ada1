-- ===== src/Coordinator/Writing.antt =====
-- distributed-fs/coordinator.go: `PrepareWrite` and `CommitWrite` over the in-memory backends, and
-- what a read sees right after a write.
use go_infra_lab.Common.{
  ℕ, String, Bool, true, some, List, [], ◌∷◌, ◌≡◌, ◌≢◌, ◌∙◌, refl, ap, arith, ◌==◌, eq_iff, eq_refl,
  if◌then◌else◌, any, map, Time,
}
use go_infra_lab.GoMap.{GoMap, get, put, has}
use go_infra_lab.GoMap.Laws.{get-put}
use go_infra_lab.Action.{ok}
use go_infra_lab.Metadata.{
  NodeMetadata, ReplicaMetadata, ReplicaState, ChunkMetadata, FileMetadata, MetadataStore,
  new_replica, record_replicas, begin_file_version, next_version, get_file, healthy_nodes,
}
use go_infra_lab.Replication.{ReplicationTask, ReplicaPlan, plan, tasks_for_file}
use go_infra_lab.Replication.Queue.{MemoryQueue, enqueue}
use go_infra_lab.Backend.{memory_backend, memory_queue}
use go_infra_lab.Metadata.WellFormed.{IsFileOf, record_replicas_lem}
use go_infra_lab.Replication.Tasks.{tasks_for_file_lem}
use go_infra_lab.Metadata.Versions.{get_file-begin_file_version}
use package.go_infra_lab.Coordinator.Reading.{offers, healthy_at, read_candidates_lem}
use package.go_infra_lab.Coordinator.{
  Coordinator, PreparedWrite, ReadPlan, prepare_write, commit_write, read_candidates,
}

-- Whether a list of node IDs has a node.
abbrev pub lists : String → List String → Bool
lists node_id = any (λ id. id == node_id)

-- The state that a new version gives to a replica.
abbrev pub initial_state : String → String → ReplicaState
initial_state primary node_id =
    if node_id == primary then ReplicaState.healthy else ReplicaState.pending

-- The replicas of a new version: one on each listed node, healthy on the primary and pending
-- elsewhere.
pub get-record_replicas :
    (now : Time) (primary : String) (ids : List String) (m : GoMap ReplicaMetadata) (j : String)
    → get j (record_replicas now primary ids m)
      ≡ (if lists j ids then some (new_replica now j (initial_state primary j)) else get j m)
unfolding record_replicas
get-record_replicas now primary [] m j = refl
get-record_replicas now primary (id ∷ ids) m j = ground (
  arith,
  get-record_replicas now primary ids (put id (new_replica now id (initial_state primary id)) m) j,
  get-put id j (new_replica now id (initial_state primary id)) m,
  eq_iff id j,
)

-- What `PrepareWrite` returns: the placement and the next version, with nothing published.
pub prepare_write_lem :
    (c : Coordinator MetadataStore MemoryQueue) (key : String) (size : ℕ) (checksum : String)
    (chunks : List ChunkMetadata) (p : ReplicaPlan)
    → plan c.planner (healthy_nodes c.metadata) ≡ ok p
    → prepare_write memory_backend memory_queue key size checksum chunks c ≡ (
      ok (record {
        key = key;
        version = next_version key c.metadata;
        size = size;
        checksum = checksum;
        chunks = chunks;
        primary = p.primary;
        replicas = p.replicas;
      }),
      c,
    )
unfolding prepare_write
prepare_write_lem c key size checksum chunks p planned = rw planned

-- The IDs of the nodes that a prepared write has chosen.
abbrev pub chosen : PreparedWrite → List String
chosen w = map (λ (node : NodeMetadata). node.id) w.replicas

-- What `CommitWrite` publishes.
abbrev pub published :
    Coordinator MetadataStore MemoryQueue → PreparedWrite → FileMetadata × MetadataStore
published c w =
    begin_file_version w.key w.size w.checksum w.chunks w.primary.id (chosen w) c.metadata

-- What the published metadata records of the write.
pub published_fields :
    (c : Coordinator MetadataStore MemoryQueue) (w : PreparedWrite)
    → let meta = (published c w).0 in
      (meta.key ≡ w.key)
      × (meta.version ≡ next_version w.key c.metadata)
      × (meta.size ≡ w.size)
      × (meta.checksum ≡ w.checksum)
      × (meta.chunks ≡ w.chunks)
unfolding begin_file_version next_version
published_fields c w = (refl, refl, refl, refl, refl)

published-IsFileOf :
    (c : Coordinator MetadataStore MemoryQueue) (w : PreparedWrite)
    → IsFileOf w.key (published c w).0
unfolding begin_file_version
published-IsFileOf c w =
    let (distinct, named) = record_replicas_lem c.metadata.now w.primary.id (chosen w) [] tt tt in
    record { named = refl; replicas_distinct = distinct; replicas_named = named }

healthy_at-published :
    (c : Coordinator MetadataStore MemoryQueue) (w : PreparedWrite) (i : String)
    → lists w.primary.id (chosen w) ≡ true
    → healthy_at i (published c w).0 ≡ (w.primary.id == i)
unfolding begin_file_version get
healthy_at-published c w i listed = ground (
  arith,
  get-record_replicas c.metadata.now w.primary.id (chosen w) [] i,
  eq_iff i w.primary.id,
  eq_iff w.primary.id i,
)

-- `CommitWrite` publishes the new version and queues the tasks that `TasksForFile` makes for it.
pub commit_write_lem :
    (c : Coordinator MetadataStore MemoryQueue) (w : PreparedWrite)
    → w.primary.id ≢ ""
    → lists w.primary.id (chosen w) ≡ true
    → (ts : List ReplicationTask) × (tasks_for_file (published c w).0 c.metadata.now ≡ ok ts)
      × (commit_write memory_backend memory_queue w c ≡ (
        ok (record {
          metadata = (published c w).0;
          primary = w.primary;
          replicas = w.replicas;
          tasks = ts;
        }),
        record c { metadata = (published c w).1; tasks = enqueue ts c.tasks },
      ))
unfolding commit_write begin_file_version
commit_write_lem c w named listed =
    let meta = (published c w).0 in
    let held : has w.primary.id meta.replicas ≡ true =
      unfold has begin_file_version in
      ground (arith, get-record_replicas c.metadata.now w.primary.id (chosen w) [] w.primary.id) in
    let t = tasks_for_file_lem meta c.metadata.now named held in (t.0, t.1, ground arith)

-- Right after a commit the plan of a read has the published metadata, and offers the primary alone.
pub read_plan-commit_write :
    (c : Coordinator MetadataStore MemoryQueue) (w : PreparedWrite)
    → w.primary.id ≢ ""
    → lists w.primary.id (chosen w) ≡ true
    → let c' = (commit_write memory_backend memory_queue w c).1 in
      (p : ReadPlan) × (read_candidates memory_backend memory_queue w.key c' ≡ (ok p, c'))
      × (p.metadata ≡ (published c w).0)
      × ((i : String) → offers i p.replicas ≡ (w.primary.id == i))
read_plan-commit_write c w named listed =
    let (ts, made, committed) = commit_write_lem c w named listed in
    let meta = (published c w).0 in
    let c' : Coordinator MetadataStore MemoryQueue = record c {
      metadata = (published c w).1;
      tasks = enqueue ts c.tasks;
    } in
    let facts =
      get_file-begin_file_version w.key w.size w.checksum w.chunks w.primary.id (chosen w)
        c.metadata w.key in
    let found : get_file w.key c'.metadata ≡ some meta = ground (arith, facts.0, eq_refl w.key) in
    let (p, read, same, healthy, offered) =
      read_candidates_lem c' w.key meta w.primary.id (published-IsFileOf c w) found facts.4
        (healthy_at-published c w w.primary.id listed ∙ eq_refl w.primary.id) in
    (p, rw committed read, same, λ i. offered i ∙ healthy_at-published c w i listed)

-- For a prepared write whose primary has an ID and is among the replicas: right after it is
-- committed to the in-memory backends, a read of its key finds the next version with the write's
-- checksum, and the primary is the only candidate.
pub read-commit_write :
    (c : Coordinator MetadataStore MemoryQueue) (w : PreparedWrite)
    → w.primary.id ≢ ""
    → lists w.primary.id (chosen w) ≡ true
    → (p : ReadPlan) × ((read_candidates memory_backend memory_queue w.key
          (commit_write memory_backend memory_queue w c).1).0
        ≡ ok p)
      × (p.metadata.version ≡ next_version w.key c.metadata)
      × (p.metadata.checksum ≡ w.checksum)
      × ((i : String) → offers i p.replicas ≡ (w.primary.id == i))
read-commit_write c w named listed =
    let facts =
      get_file-begin_file_version w.key w.size w.checksum w.chunks w.primary.id (chosen w)
        c.metadata w.key in
    let (p, read, same, offered) = read_plan-commit_write c w named listed in
    (p, ap (λ r. r.0) read, rw same facts.1, rw same facts.3, offered)
