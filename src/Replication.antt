-- ===== src/Replication.antt =====
-- distributed-fs/replication.go: replica placement, the copy tasks and their life cycle. The queue
-- of the tasks is in the child `Queue`.
pub mod Queue
pub mod Placement
pub mod Tasks
pub mod Lifecycle
pub mod Stats
pub mod Enqueue
pub mod Retry
pub mod Order
use go_infra_lab.Common.{
  ℕ, ◌+◌, ◌*◌, ◌^◌, ◌%◌, String, Bool, true, false, Option, none, some, List, [], ◌∷◌, ◌==◌, ◌||◌,
  not, if◌then◌else◌, filter, length, take, ltb, eqb, ℤ, pos, negsuc, of_bits, at_least, Time,
  zero_time, is_zero, add_duration, before, second, str_lt, show_uint64,
}
use Prim.Native.String.{◌++◌}
use go_infra_lab.GoMap.{get, has, keys}
use go_infra_lab.Sorting.{by, sort_slice}
use go_infra_lab.Action.{
  Error, error_text, Result, ok, err, no_healthy_nodes, primary_unavailable, panic,
}
use go_infra_lab.Metadata.{NodeMetadata, ChunkMetadata, FileMetadata, ReplicaState, is_node_healthy}

pub data ReplicationTaskState : Type 0 where
  pending running done failed dead : ReplicationTaskState

pub record ReplicaPlan : Type 0 where
  pub primary : NodeMetadata
  pub replicas : List NodeMetadata

pub record ReplicationTask : Type 0 where
  pub id : String
  pub key : String
  pub version : ℕ
  pub checksum : String
  pub chunks : List ChunkMetadata
  pub source : String
  pub target : String
  pub state : ReplicationTaskState
  pub attempts : ℤ
  pub last_error : String
  pub run_after : Time
  pub lease_until : Time
  pub created_at : Time
  pub updated_at : Time

pub record ReplicationPlanner : Type 0 where
  pub replica_count : ℤ

unfoldable pub new_replication_planner : ℤ → ReplicationPlanner
new_replication_planner (pos n) =
    if eqb n 0 then record { replica_count = pos 3 } else record { replica_count = pos n }
new_replication_planner (negsuc n) = record { replica_count = negsuc n }

-- `replicas[0]` of the slice of the first `count` nodes
abbrev pub plan_of : List NodeMetadata → Result ReplicaPlan
plan_of [] = err panic
plan_of (node ∷ rest) = ok (record { primary = node; replicas = node ∷ rest })

-- The rest of `Plan`, on the sorted healthy nodes. `make` panics at a negative length.
unfoldable pub plan_sorted : ℤ → List NodeMetadata → Result ReplicaPlan
plan_sorted (pos n) healthy =
    let count = if ltb (length healthy) n then length healthy else n in plan_of (take count healthy)
plan_sorted (negsuc n) healthy = err panic

unfoldable pub plan : ReplicationPlanner → List NodeMetadata → Result ReplicaPlan
plan p nodes =
    let healthy = filter is_node_healthy nodes in
    if eqb (length healthy) 0
    then err no_healthy_nodes
    else plan_sorted p.replica_count (sort_slice (by (λ n. n.id)) healthy)

unfoldable pub replication_task_id : String → ℕ → String → String → String
replication_task_id key version source target =
    key ++ ":" ++ show_uint64 version ++ ":" ++ source ++ ":" ++ target

-- The task literal that `TasksForFile` and the repairs build.
unfoldable pub copy_task : FileMetadata → String → String → Time → ReplicationTask
copy_task meta source target now = record {
  id = replication_task_id meta.key meta.version source target;
  key = meta.key;
  version = meta.version;
  checksum = meta.checksum;
  chunks = meta.chunks;
  source = source;
  target = target;
  state = ReplicationTaskState.pending;
  attempts = pos 0;
  last_error = "";
  run_after = zero_time;
  lease_until = zero_time;
  created_at = now;
  updated_at = now;
}

-- `state == ReplicaPending || state == ReplicaStale || state == ReplicaMissing`
abbrev pub wants_copy : ReplicaState → Bool
wants_copy state = elim state [
  | ReplicaState.pending ↦ true
  | ReplicaState.healthy ↦ false
  | ReplicaState.stale ↦ true
  | ReplicaState.missing ↦ true
  | ReplicaState.deleted ↦ false
]

-- Whether the loop of `TasksForFile` makes a task for a node.
unfoldable pub is_task_target : FileMetadata → String → Bool
is_task_target meta node_id =
    if node_id == meta.primary
    then false
    else elim (get node_id meta.replicas) [ none ↦ false | some replica ↦ wants_copy replica.state ]

-- The loop of `TasksForFile`.
unfoldable pub tasks_loop : FileMetadata → Time → List String → List ReplicationTask
tasks_loop meta now [] = []
tasks_loop meta now (node_id ∷ rest) =
    let tasks = tasks_loop meta now rest in
    if is_task_target meta node_id then copy_task meta meta.primary node_id now ∷ tasks else tasks

unfoldable pub tasks_for_file : FileMetadata → Time → Result (List ReplicationTask)
tasks_for_file meta now =
    if meta.primary == ""
    then err primary_unavailable
    else if has meta.primary meta.replicas
    then ok (tasks_loop meta now (sort_slice str_lt (keys meta.replicas)))
    else err primary_unavailable

abbrev pub task_lease : ℕ
task_lease = 30 * second

abbrev pub max_attempts : ℕ
max_attempts = 5

abbrev pub max_backoff : ℕ
max_backoff = 60 * second

unfoldable pub ready_to_run : ReplicationTask → Time → Bool
ready_to_run task now = is_zero task.run_after || not (before now task.run_after)

-- `time.Second * time.Duration(1<<attempts)`, in 64 bits
abbrev pub shifted_second : ℤ → ℤ
shifted_second (pos n) = of_bits ((second * 2 ^ n) % 2 ^ 64)
shifted_second (negsuc n) = pos 0

abbrev pub longer_than_max : ℤ → Bool
longer_than_max (pos n) = ltb max_backoff n
longer_than_max (negsuc n) = false

unfoldable pub replication_backoff : ℤ → ℤ
replication_backoff attempts =
    let attempts' = if at_least 1 attempts then attempts else pos 1 in
    let backoff = shifted_second attempts' in
    if longer_than_max backoff then pos max_backoff else backoff

unfoldable pub fail_replication_task : ReplicationTask → Time → Option Error → ReplicationTask
fail_replication_task task now cause =
    let message : String = elim cause [ none ↦ "" | some e ↦ error_text e ] in
    if at_least max_attempts task.attempts
    then record task {
      lease_until = zero_time;
      last_error = message;
      state = ReplicationTaskState.dead;
      run_after = zero_time;
      updated_at = now;
    }
    else record task {
      lease_until = zero_time;
      last_error = message;
      state = ReplicationTaskState.pending;
      run_after = add_duration now (replication_backoff task.attempts);
      updated_at = now;
    }

unfoldable pub expire_replication_task : ReplicationTask → Time → ReplicationTask
expire_replication_task task now =
    if at_least max_attempts task.attempts
    then record task {
      lease_until = zero_time;
      last_error = "replication task lease expired";
      state = ReplicationTaskState.dead;
      run_after = zero_time;
      updated_at = now;
    }
    else record task {
      lease_until = zero_time;
      last_error = "replication task lease expired";
      state = ReplicationTaskState.pending;
      run_after = now;
      updated_at = now;
    }

-- The comparison of `sortReplicationTasks`.
unfoldable pub task_less : ReplicationTask → ReplicationTask → Bool
task_less a b =
    if eqb a.run_after b.run_after
    then str_lt a.id b.id
    else if is_zero a.run_after
    then true
    else if is_zero b.run_after
    then false
    else before a.run_after b.run_after

unfoldable pub sort_replication_tasks : List ReplicationTask → List ReplicationTask
sort_replication_tasks = sort_slice task_less
