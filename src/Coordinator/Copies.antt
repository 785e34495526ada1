-- ===== src/Coordinator/Copies.antt =====
-- distributed-fs/coordinator.go: `StartReplication`, `FinishReplication` and `FailReplication` over
-- the in-memory backends: what they do to the task and to the replica that it was to fill.
use go_infra_lab.Common.{
  String, true, false, Option, none, some, ◌≡◌, ◌≢◌, ◌∙◌, ap, Time, arith, eq_refl,
}
use go_infra_lab.GoMap.{get, put}
use go_infra_lab.GoMap.Laws.{get-put, get-put_self, Entries-get}
use go_infra_lab.Metadata.WellFormed.{IsWellFormed, IsFileOf, mark-IsWellFormed}
use go_infra_lab.Action.{ok, err, Error, Result}
use go_infra_lab.Metadata.{
  ReplicaMetadata, ReplicaState, FileMetadata, MetadataStore, get_file, mark_replica,
}
use go_infra_lab.Metadata.Commands.{replica_of, version_of}
use go_infra_lab.Replication.{ReplicationTask, fail_replication_task}
use go_infra_lab.Replication.Queue.{MemoryQueue, finish_task, mark_done, mark_failed, update_task}
use go_infra_lab.Replication.Enqueue.{find_in}
use go_infra_lab.Backend.{memory_backend, memory_queue}
use package.go_infra_lab.Coordinator.Reading.{offers, healthy_at, read_candidates_lem}
use package.go_infra_lab.Coordinator.{
  Coordinator, ReadPlan, read_candidates, finish_replication, fail_replication,
}

-- The task that a call returns, if it returns no error.
abbrev pub task_of : Result (FileMetadata × ReplicationTask) → Option ReplicationTask
task_of (ok (meta, task)) = some task
task_of (err e) = none

-- A finished copy of a task in the queue, for a file whose metadata has a replica on the target:
-- the task is done, and that replica is healthy. The version of the file is not looked at: this is
-- so whatever version the task copied.
pub finish_replication_lem :
    (c : Coordinator MetadataStore MemoryQueue) (id : String) (t : ReplicationTask)
    (r : ReplicaMetadata)
    → find_in id c.tasks ≡ some t
    → replica_of t.key t.target c.metadata ≡ some r
    → let (result, c') = finish_replication memory_backend memory_queue id c in
      (find_in id c'.tasks ≡ some (finish_task c.tasks.now t))
      × (replica_of t.key t.target c'.metadata
          ≡ some (record r { state = ReplicaState.healthy; updated_at = c.metadata.now }))
      × (version_of t.key c'.metadata ≡ version_of t.key c.metadata)
      × (task_of result ≡ some (finish_task c.tasks.now t))
unfolding finish_replication mark_done update_task finish_task mark_replica get_file
finish_replication_lem c id t r found held =
    grind (arith, get-put, eq_refl id, eq_refl t.key, eq_refl t.target, eq_refl t.id)

fail_keeps_place :
    (t : ReplicationTask) (now : Time) (cause : Option Error)
    → ((fail_replication_task t now cause).key ≡ t.key)
      × ((fail_replication_task t now cause).target ≡ t.target)
unfolding fail_replication_task
fail_keeps_place t now cause = ground arith

-- A failed copy: the task is retried or dead, as `failReplicationTask` decides, and the replica is
-- missing, so that a repair will look at it; the version of the file stays.
pub fail_replication_lem :
    (c : Coordinator MetadataStore MemoryQueue) (id : String) (cause : Option Error)
    (t : ReplicationTask) (r : ReplicaMetadata)
    → find_in id c.tasks ≡ some t
    → replica_of t.key t.target c.metadata ≡ some r
    → let (result, c') = fail_replication memory_backend memory_queue id cause c in
      (find_in id c'.tasks ≡ some (fail_replication_task t c.tasks.now cause))
      × (replica_of t.key t.target c'.metadata
          ≡ some (record r { state = ReplicaState.missing; updated_at = c.metadata.now }))
      × (version_of t.key c'.metadata ≡ version_of t.key c.metadata)
      × (task_of result ≡ some (fail_replication_task t c.tasks.now cause))
unfolding fail_replication mark_failed update_task mark_replica get_file
fail_replication_lem c id cause t r found held = grind (
  arith,
  get-put,
  eq_refl id,
  eq_refl t.key,
  eq_refl t.target,
  fail_keeps_place t c.tasks.now cause,
)

-- The metadata of a file after its replica on a node was marked healthy.
abbrev healed : FileMetadata → String → ReplicaMetadata → Time → FileMetadata
healed meta node_id r now = record meta {
  replicas =
      put node_id (record r { state = ReplicaState.healthy; updated_at = now }) meta.replicas;
  updated_at = now;
}

get_file-mark_replica :
    (key node_id : String) (m : MetadataStore) (meta : FileMetadata) (r : ReplicaMetadata)
    → get_file key m ≡ some meta
    → get node_id meta.replicas ≡ some r
    → get_file key (mark_replica key node_id ReplicaState.healthy m).1
      ≡ some (healed meta node_id r m.now)
unfolding mark_replica get_file
get_file-mark_replica key node_id m meta r found held =
    rw (found, mark_replica) (rw (held, mark_replica) (get-put_self key _ m.files))

metadata-finish_replication :
    (c : Coordinator MetadataStore MemoryQueue) (id : String) (t : ReplicationTask)
    → find_in id c.tasks ≡ some t
    → (finish_replication memory_backend memory_queue id c).1.metadata
      ≡ (mark_replica t.key t.target ReplicaState.healthy c.metadata).1
unfolding finish_replication mark_done update_task finish_task
metadata-finish_replication c id t found = ground arith

-- In a well-formed store, for a file that is not deleted and has a replica on the target of a
-- queued task: when `FinishReplication` ends the copy of a version other than the current one, its
-- target becomes a candidate for reads of the current version all the same.
pub stale_copy_is_offered :
    (c : Coordinator MetadataStore MemoryQueue) (id : String) (t : ReplicationTask)
    (meta : FileMetadata) (r : ReplicaMetadata)
    → find_in id c.tasks ≡ some t
    → IsWellFormed c.metadata
    → get_file t.key c.metadata ≡ some meta
    → get t.target meta.replicas ≡ some r
    → meta.deleted ≡ false
    → t.version ≢ meta.version
    → let c' = (finish_replication memory_backend memory_queue id c).1 in
      (p : ReadPlan) × ((read_candidates memory_backend memory_queue t.key c').0 ≡ ok p)
      × (p.metadata.version ≡ meta.version)
      × (offers t.target p.replicas ≡ true)
stale_copy_is_offered c id t meta r queued w found held alive stale =
    let c' = (finish_replication memory_backend memory_queue id c).1 in
    let m' = (mark_replica t.key t.target ReplicaState.healthy c.metadata).1 in
    let meta' = healed meta t.target r c.metadata.now in
    let there : get_file t.key c'.metadata ≡ some meta' =
      rw (metadata-finish_replication c id t queued)
        (get_file-mark_replica t.key t.target c.metadata meta r found held) in
    let w' : IsWellFormed c'.metadata =
      rw (metadata-finish_replication c id t queued)
        (mark-IsWellFormed t.key t.target ReplicaState.healthy c.metadata w) in
    let f : IsFileOf t.key meta' =
      unfold get_file in Entries-get IsFileOf t.key c'.metadata.files w'.files_named there in
    let healthy : healthy_at t.target meta' ≡ true = ground (
      arith,
      get-put_self t.target (record r { state = ReplicaState.healthy; updated_at = c.metadata.now })
          meta.replicas,
    ) in
    let (p, read, same, good, offered) =
      read_candidates_lem c' t.key meta' t.target f there alive healthy in
    (p, ap (λ x. x.0) read, rw same, offered t.target ∙ healthy)
