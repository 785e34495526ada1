-- ===== src/Service/Counts.antt =====
-- distributed-fs/managed_file_service.go: the numbers that `Metrics` reports, over the in-memory
-- backends.
use go_infra_lab.Common.{
  ℕ, ◌+◌, String, List, [], ◌∷◌, ◌≡◌, ◌∙◌, ap, refl, arith, ◌==◌, eq_iff, if◌then◌else◌, length,
  count,
}
use go_infra_lab.GoMap.{GoMap, get, values}
use go_infra_lab.GoMap.Laws.{get-put}
use go_infra_lab.Action.{ok}
use go_infra_lab.Metadata.{NodeMetadata, ReplicaMetadata, FileMetadata, MetadataStore, list_files}
use go_infra_lab.Metadata
use go_infra_lab.Replication.Queue.{MemoryQueue, counter, state_text, pending, stats}
use go_infra_lab.Replication.Stats.{counter-stats_loop}
use go_infra_lab.Backend.{memory_backend, memory_queue}
use go_infra_lab.Coordinator.{pending_tasks, replication_task_stats}
use package.go_infra_lab.Service.{Service, Environment}
use package.go_infra_lab.Service.Metrics.{
  ServiceMetrics, node_state_text, replica_state_text, count_nodes, count_replicas, count_files,
  metrics,
}

counter-count_nodes :
    (k : String) (nodes : List NodeMetadata) (counts : GoMap ℕ)
    → counter k (count_nodes nodes counts)
      ≡ counter k counts + count (λ n. node_state_text n.state == k) nodes
unfolding count_nodes counter
counter-count_nodes k [] counts = omega arith
counter-count_nodes k (n ∷ nodes) counts =
    grind (arith, get-put, counter-count_nodes k nodes, eq_iff (node_state_text n.state) k)

counter-count_replicas :
    (k : String) (replicas : List ReplicaMetadata) (counts : GoMap ℕ)
    → counter k (count_replicas replicas counts)
      ≡ counter k counts + count (λ r. replica_state_text r.state == k) replicas
unfolding count_replicas counter
counter-count_replicas k [] counts = omega arith
counter-count_replicas k (r ∷ replicas) counts =
    grind (arith, get-put, counter-count_replicas k replicas, eq_iff (replica_state_text r.state) k)

-- How many replicas of a list of files have a state.
abbrev pub replicas_in : String → List FileMetadata → ℕ
replicas_in k [] = 0
replicas_in k (f ∷ files) =
    count (λ (r : ReplicaMetadata). replica_state_text r.state == k) (values f.replicas)
    + replicas_in k files

count_files_lem :
    (k : String) (files : List FileMetadata) (m : ServiceMetrics)
    → let m' = count_files files m in
      (m'.files ≡ m.files + length files)
      × (m'.deleted_files ≡ m.deleted_files + count (λ f. f.deleted) files)
      × (counter k m'.replicas ≡ counter k m.replicas + replicas_in k files)
      × (m'.nodes ≡ m.nodes)
      × (m'.pending_tasks ≡ m.pending_tasks)
      × (m'.replication_tasks ≡ m.replication_tasks)
unfolding count_files
count_files_lem k [] m = ground arith
count_files_lem k (f ∷ files) m =
    let counted : ServiceMetrics = record m {
      files = m.files + 1;
      deleted_files = if f.deleted then m.deleted_files + 1 else m.deleted_files;
      replicas = count_replicas (values f.replicas) m.replicas;
    } in
    ground (
      arith,
      counter-count_replicas k (values f.replicas) m.replicas,
      count_files_lem k files counted,
    )

-- Over the in-memory backends `Metrics` changes nothing, and it reports the number of files,
-- deleted ones included, of deleted files, of tasks that are ready to run, of tasks in each state,
-- of nodes in each state, and of replicas of all files in each state.
pub metrics_lem :
    {O : Type 0} (env : Environment MetadataStore MemoryQueue O)
    (s : Service MetadataStore MemoryQueue O) (k : String)
    → let store = s.coordinator.metadata in
      (m : ServiceMetrics) × (metrics
          (record env { metadata = memory_backend; queue = memory_queue })
          s
        ≡ (ok m, s))
      × (m.files ≡ length (list_files store))
      × (m.deleted_files ≡ count (λ f. f.deleted) (list_files store))
      × (m.pending_tasks ≡ length (pending s.coordinator.tasks))
      × (counter k m.replication_tasks
          ≡ count (λ t. state_text t.state == k) (values s.coordinator.tasks.tasks))
      × (counter k m.nodes ≡ count (λ n. node_state_text n.state == k) (Metadata.nodes store))
      × (counter k m.replicas ≡ replicas_in k (list_files store))
unfolding metrics pending_tasks replication_task_stats counter get stats
metrics_lem env s k =
    let store = s.coordinator.metadata in
    let start : ServiceMetrics = record {
      files = 0;
      deleted_files = 0;
      pending_tasks = length (pending s.coordinator.tasks);
      replication_tasks = stats s.coordinator.tasks;
      nodes = count_nodes (Metadata.nodes store) [];
      replicas = [];
    } in
    let (files, deleted, replicas, nodes, waiting, tasks) =
      count_files_lem k (list_files store) start in
    (
      count_files (list_files store) start,
      refl,
      omega arith,
      omega arith,
      waiting,
      ap (counter k) tasks
          ∙ (counter-stats_loop (values s.coordinator.tasks.tasks) [] k ∙ omega arith),
      ap (counter k) nodes ∙ (counter-count_nodes k (Metadata.nodes store) [] ∙ omega arith),
      omega arith,
    )
