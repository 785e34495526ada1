-- ===== src/Coordinator.antt =====
-- distributed-fs/coordinator.go: the `MetadataCoordinator` over any metadata backend and any task
-- queue. The repairs are in the child `Repair`.
pub mod Repair
pub mod Writing
pub mod Primary
pub mod Copies
pub mod Reading
use go_infra_lab.Common.{
  ℕ, String, Option, none, some, List, [], ◌∷◌, ◌++◌, ◌==◌, not, if◌then◌else◌, filter, map, ℤ,
}
use go_infra_lab.GoMap.{GoMap}
use go_infra_lab.Action.{
  Action, Error, Result, ok, err, pure, gets, lift, focus, ◌>>=◌, ◌>>◌, metadata_not_found,
  file_deleted, no_readable_replicas,
}
use go_infra_lab.Metadata.{
  NodeMetadata, ReplicaMetadata, ReplicaState, ChunkMetadata, FileMetadata, healthy_replicas,
}
use go_infra_lab.Replication.{
  ReplicationPlanner, ReplicationTask, new_replication_planner, plan, tasks_for_file,
}
use go_infra_lab.Backend.{MetadataBackend, ReplicationTaskQueue}

pub record WritePlan : Type 0 where
  pub metadata : FileMetadata
  pub primary : NodeMetadata
  pub replicas : List NodeMetadata
  pub tasks : List ReplicationTask

pub record PreparedWrite : Type 0 where
  pub key : String
  pub version : ℕ
  pub size : ℕ
  pub checksum : String
  pub chunks : List ChunkMetadata
  pub primary : NodeMetadata
  pub replicas : List NodeMetadata

pub record ReadPlan : Type 0 where
  pub metadata : FileMetadata
  pub replicas : List ReplicaMetadata

pub record Coordinator (S Q : Type 0) : Type 0 where
  pub metadata : S
  pub planner : ReplicationPlanner
  pub tasks : Q

unfoldable pub new_coordinator : {S Q : Type 0} → ℤ → S → Q → Coordinator S Q
new_coordinator replica_count metadata tasks = record {
  metadata = metadata;
  planner = new_replication_planner replica_count;
  tasks = tasks;
}

module _ {S Q : Type 0} where
  -- A call of the metadata backend, and a call of the queue.
  abbrev pub on_metadata {ℓ} : {A : Type ℓ} → Action S A → Action (Coordinator S Q) A
  on_metadata = focus (λ c. c.metadata) (λ c s. record c { metadata = s })

  abbrev pub on_tasks {ℓ} : {A : Type ℓ} → Action Q A → Action (Coordinator S Q) A
  on_tasks = focus (λ c. c.tasks) (λ c q. record c { tasks = q })

-- The replica of the primary among `replicas`, as the first loop of `prioritizePrimary` finds it.
abbrev pub first_of_node : String → List ReplicaMetadata → List ReplicaMetadata
first_of_node primary [] = []
first_of_node primary (replica ∷ rest) =
    if replica.node_id == primary then replica ∷ [] else first_of_node primary rest

unfoldable pub prioritize_primary : FileMetadata → List ReplicaMetadata → List ReplicaMetadata
prioritize_primary meta [] = []
prioritize_primary meta (replica ∷ rest) =
    let replicas = replica ∷ rest in
    if meta.primary == ""
    then replicas
    else first_of_node meta.primary replicas
      ++ filter (λ r. not (r.node_id == meta.primary)) replicas

-- `ReadCandidates`, once the file has been looked up.
unfoldable pub read_plan : Option FileMetadata → Result ReadPlan
read_plan none = err metadata_not_found
read_plan (some meta) =
    if meta.deleted
    then err file_deleted
    else elim (prioritize_primary meta (healthy_replicas meta)) [
      | [] ↦ err no_readable_replicas
      | replica ∷ rest ↦ ok (record { metadata = meta; replicas = replica ∷ rest })
    ]

module _ {S Q : Type 0} (mb : MetadataBackend S) (tq : ReplicationTaskQueue Q) where
  unfoldable pub register_node : String → String → Action (Coordinator S Q) NodeMetadata
  register_node id addr = on_metadata (mb.upsert_node id addr)

  unfoldable pub prepare_write :
      String → ℕ → String → List ChunkMetadata → Action (Coordinator S Q) PreparedWrite
  prepare_write key size checksum chunks = do
    nodes ← on_metadata mb.healthy_nodes
    planner ← gets (λ c. c.planner)
    chosen ← lift (plan planner nodes)
    version ← on_metadata (mb.next_version key)
    pure (record {
      key = key;
      version = version;
      size = size;
      checksum = checksum;
      chunks = chunks;
      primary = chosen.primary;
      replicas = chosen.replicas;
    })

  unfoldable pub commit_write : PreparedWrite → Action (Coordinator S Q) WritePlan
  commit_write prepared = do
    let replica_ids = map (λ (node : NodeMetadata). node.id) prepared.replicas
    meta ← on_metadata (
        mb.begin_file_version prepared.key prepared.size prepared.checksum prepared.chunks
          prepared.primary.id replica_ids)
    now ← gets (λ c. mb.now c.metadata)
    tasks ← lift (tasks_for_file meta now)
    on_tasks (tq.enqueue tasks)
    pure (record {
      metadata = meta;
      primary = prepared.primary;
      replicas = prepared.replicas;
      tasks = tasks;
    })

  unfoldable pub begin_write : String → ℕ → String → Action (Coordinator S Q) WritePlan
  unfolding prepare_write commit_write
  begin_write key size checksum = do
    prepared ← prepare_write key size checksum []
    commit_write prepared

  unfoldable pub finish_replication :
      String → Action (Coordinator S Q) (FileMetadata × ReplicationTask)
  finish_replication task_id = do
    task ← on_tasks (tq.mark_done task_id)
    meta ← on_metadata (mb.mark_replica task.key task.target ReplicaState.healthy)
    pure (meta, task)

  unfoldable pub start_replication : String → Action (Coordinator S Q) ReplicationTask
  start_replication task_id = on_tasks (tq.mark_running task_id)

  unfoldable pub fail_replication :
      String → Option Error → Action (Coordinator S Q) (FileMetadata × ReplicationTask)
  fail_replication task_id cause = do
    task ← on_tasks (tq.mark_failed task_id cause)
    meta ← on_metadata (mb.mark_replica task.key task.target ReplicaState.missing)
    pure (meta, task)

  unfoldable pub read_candidates : String → Action (Coordinator S Q) ReadPlan
  read_candidates key = do found ← on_metadata (mb.get_file key); lift (read_plan found)

  unfoldable pub delete_file : String → Action (Coordinator S Q) FileMetadata
  delete_file key = on_metadata (mb.tombstone key)

  unfoldable pub pending_tasks : Action (Coordinator S Q) (List ReplicationTask)
  pending_tasks = on_tasks tq.pending

  unfoldable pub requeue_expired_replication_tasks : Action (Coordinator S Q) (List ReplicationTask)
  requeue_expired_replication_tasks = on_tasks tq.requeue_expired_running

  unfoldable pub replication_task_stats : Action (Coordinator S Q) (GoMap ℕ)
  replication_task_stats = on_tasks tq.stats
