-- ===== src/Replication/Tasks.antt =====
-- distributed-fs/replication.go: the copy tasks that `TasksForFile` makes for a file.
use mathlib.Core.List.{Perm}
use Prim.Native.String.{◌++◌}
use go_infra_lab.Common.{
  Bool, not, ◌==◌, ◌&&◌, pos, show_uint64, String, true, false, none, some, List, [], ◌∷◌, ◌≡◌, ◌≢◌,
  refl, arith, map, eq_iff, filter, All, Time, str_lt, str_lt_asym, not_lt_trans, Bool-cases, inl,
  inr, ◌⊎◌,
}
use go_infra_lab.GoMap.{get, has, keys}
use go_infra_lab.Sorting.{
  IsOrder, IsSorted, sort_slice, sort_slice-perm, sort_slice-IsSorted, filter-perm, filter-IsSorted,
}
use go_infra_lab.Action.{ok, err, primary_unavailable}
use go_infra_lab.Metadata.{FileMetadata, ReplicaState}
use package.go_infra_lab.Replication.{
  ReplicationTask, ReplicationTaskState, replication_task_id, copy_task, is_task_target, tasks_loop,
  tasks_for_file,
}

-- `sort.Strings`
str_lt-IsOrder : IsOrder str_lt
str_lt-IsOrder = record { asym = str_lt_asym; not_less_trans = not_lt_trans }

-- A task that is to copy the version of a file that `meta` records from one node to another, and
-- has not been tried yet.
pub record IsCopyOf (meta : FileMetadata) (source : String) (now : Time) (t : ReplicationTask)
    : Type 0 where
  pub id : t.id ≡ meta.key ++ ":" ++ show_uint64 meta.version ++ ":" ++ source ++ ":" ++ t.target
  pub key : t.key ≡ meta.key
  pub version : t.version ≡ meta.version
  pub checksum : t.checksum ≡ meta.checksum
  pub chunks : t.chunks ≡ meta.chunks
  pub from_source : t.source ≡ source
  pub waiting : t.state ≡ ReplicationTaskState.pending
  pub untried : t.attempts ≡ pos 0
  pub no_delay : t.run_after ≡ 0
  pub no_lease : t.lease_until ≡ 0
  pub made : t.created_at ≡ now

pub copy_task-IsCopyOf :
    (meta : FileMetadata) (source target : String) (now : Time)
    → IsCopyOf meta source now (copy_task meta source target now)
unfolding copy_task replication_task_id
copy_task-IsCopyOf meta source target now = record {
  id = refl;
  key = refl;
  version = refl;
  checksum = refl;
  chunks = refl;
  from_source = refl;
  waiting = refl;
  untried = refl;
  no_delay = refl;
  no_lease = refl;
  made = refl;
}

-- The replicas that a new version leaves to be copied: pending, stale or missing ones.
abbrev pub is_behind : ReplicaState → Bool
is_behind ReplicaState.pending = true
is_behind ReplicaState.healthy = false
is_behind ReplicaState.stale = true
is_behind ReplicaState.missing = true
is_behind ReplicaState.deleted = false

-- A node other than the primary whose replica is behind.
abbrev pub lags : FileMetadata → String → Bool
lags meta node_id =
    not (node_id == meta.primary)
    && (elim (get node_id meta.replicas) [ none ↦ false | some r ↦ is_behind r.state ])

target_lags : (meta : FileMetadata) (id : String) → is_task_target meta id ≡ lags meta id
unfolding is_task_target
target_lags meta id = ground arith

target-tasks_loop :
    (meta : FileMetadata) (now : Time) (ids : List String)
    → map (λ (t : ReplicationTask). t.target) (tasks_loop meta now ids) ≡ filter (lags meta) ids
unfolding tasks_loop copy_task
target-tasks_loop meta now [] = refl
target-tasks_loop meta now (id ∷ ids) =
    ground (arith, target-tasks_loop meta now ids, target_lags meta id)

tasks_loop-IsCopyOf :
    (meta : FileMetadata) (now : Time) (ids : List String)
    → All (IsCopyOf meta meta.primary now) (tasks_loop meta now ids)
unfolding tasks_loop
tasks_loop-IsCopyOf meta now [] = tt
tasks_loop-IsCopyOf meta now (id ∷ ids) = elim (Bool-cases (is_task_target meta id)) [
  | inl target ↦
      rw target (copy_task-IsCopyOf meta meta.primary id now, tasks_loop-IsCopyOf meta now ids)
  | inr other ↦ rw other (tasks_loop-IsCopyOf meta now ids)
]

-- For a file whose primary has an ID and is among its replicas, `TasksForFile` succeeds. It makes
-- an untried task to copy the recorded version, with its checksum and chunks, from the primary to
-- each other node whose replica is pending, stale or missing, and none to another node, in the
-- order of the node IDs.
pub tasks_for_file_lem :
    (meta : FileMetadata) (now : Time)
    → meta.primary ≢ ""
    → has meta.primary meta.replicas ≡ true
    → (ts : List ReplicationTask) × (tasks_for_file meta now ≡ ok ts)
      × All (IsCopyOf meta meta.primary now) ts
      × Perm (map (λ (t : ReplicationTask). t.target) ts) (filter (lags meta) (keys meta.replicas))
      × IsSorted str_lt (map (λ (t : ReplicationTask). t.target) ts)
unfolding tasks_for_file
tasks_for_file_lem meta now named held =
    let ids = sort_slice str_lt (keys meta.replicas) in
    let p = lags meta in
    (
      tasks_loop meta now ids,
      ground (arith, eq_iff meta.primary ""),
      tasks_loop-IsCopyOf meta now ids,
      rw target-tasks_loop (filter-perm p (sort_slice-perm str_lt (keys meta.replicas))),
      rw target-tasks_loop (
          filter-IsSorted p str_lt ids
            (sort_slice-IsSorted str_lt str_lt-IsOrder (keys meta.replicas))),
    )

-- Without a primary, or with one that holds no replica, it makes no task and reports that.
pub tasks_for_file_unavailable :
    (meta : FileMetadata) (now : Time)
    → (meta.primary ≡ "") ⊎ (has meta.primary meta.replicas ≡ false)
    → tasks_for_file meta now ≡ err primary_unavailable
unfolding tasks_for_file
tasks_for_file_unavailable meta now h = ground (arith, eq_iff meta.primary "")
