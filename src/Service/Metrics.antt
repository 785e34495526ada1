-- ===== src/Service/Metrics.antt =====
-- distributed-fs/managed_file_service.go: `Metrics`.
use go_infra_lab.Common.{ℕ, ◌+◌, String, List, [], ◌∷◌, if◌then◌else◌, length}
use go_infra_lab.GoMap.{GoMap, put, values}
use go_infra_lab.Action.{Action, ok, err, pure, ◌>>=◌}
use go_infra_lab.Metadata.{NodeMetadata, NodeState, ReplicaMetadata, ReplicaState, FileMetadata}
use go_infra_lab.Replication.{ReplicationTask}
use go_infra_lab.Replication.Queue.{counter}
use go_infra_lab.Coordinator.{on_metadata, pending_tasks, replication_task_stats}
use package.go_infra_lab.Service.{Service, Environment, on_coordinator}

pub record ServiceMetrics : Type 0 where
  pub files : ℕ
  pub deleted_files : ℕ
  pub pending_tasks : ℕ
  pub replication_tasks : GoMap ℕ
  pub nodes : GoMap ℕ
  pub replicas : GoMap ℕ

-- `stats[state]++`
abbrev pub bump : String → GoMap ℕ → GoMap ℕ
bump k m = put k (counter k m + 1) m

unfoldable pub node_state_text : NodeState → String
node_state_text NodeState.healthy = "healthy"
node_state_text NodeState.down = "down"

unfoldable pub replica_state_text : ReplicaState → String
replica_state_text ReplicaState.pending = "pending"
replica_state_text ReplicaState.healthy = "healthy"
replica_state_text ReplicaState.stale = "stale"
replica_state_text ReplicaState.missing = "missing"
replica_state_text ReplicaState.deleted = "deleted"

unfoldable pub count_nodes : List NodeMetadata → GoMap ℕ → GoMap ℕ
count_nodes [] counts = counts
count_nodes (node ∷ rest) counts = count_nodes rest (bump (node_state_text node.state) counts)

unfoldable pub count_replicas : List ReplicaMetadata → GoMap ℕ → GoMap ℕ
count_replicas [] counts = counts
count_replicas (replica ∷ rest) counts =
    count_replicas rest (bump (replica_state_text replica.state) counts)

unfoldable pub count_files : List FileMetadata → ServiceMetrics → ServiceMetrics
count_files [] metrics = metrics
count_files (file ∷ rest) metrics = count_files rest (record metrics {
  files = metrics.files + 1;
  deleted_files = if file.deleted then metrics.deleted_files + 1 else metrics.deleted_files;
  replicas = count_replicas (values file.replicas) metrics.replicas;
})

module _ {S Q O : Type 0} (env : Environment S Q O) where
  open env use {metadata as mb, queue as tq, store, sha256, temp, seek_error}

  unfoldable pub metrics : Action (Service S Q O) ServiceMetrics
  metrics = do
    nodes ← on_coordinator (on_metadata mb.nodes)
    files ← on_coordinator (on_metadata mb.list_files)
    task_stats ← on_coordinator (replication_task_stats mb tq)
    waiting ← pending_or_none
    pure (
        count_files files (record {
          files = 0;
          deleted_files = 0;
          pending_tasks = length waiting;
          replication_tasks = task_stats;
          nodes = count_nodes nodes [];
          replicas = [];
        }))
    where
      -- `PendingTasks`, which answers nil on an error
      pending_or_none : Action (Service S Q O) (List ReplicationTask)
      pending_or_none s =
          let (r, s') = on_coordinator (pending_tasks mb tq) s in
          elim r [ err e ↦ (ok [], s') | ok tasks ↦ (ok tasks, s') ]
