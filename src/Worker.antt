-- ===== src/Worker.antt =====
-- distributed-fs/worker.go: a `ReplicationWorker` runs one pending copy task. The replicator acts
-- on objects that the worker does not see, of type `O`.
pub mod Outcomes
use go_infra_lab.Common.{some, List, [], ◌∷◌}
use go_infra_lab.Action.{Action, Error, Result, ok, err, no_pending_tasks}
use go_infra_lab.Replication.{ReplicationTask}
use go_infra_lab.Backend.{MetadataBackend, ReplicationTaskQueue}
use go_infra_lab.Coordinator.{
  Coordinator, pending_tasks, start_replication, finish_replication, fail_replication,
}

pub record ObjectReplicator (O : Type 0) : Type 0 where
  pub replicate : ReplicationTask → Action O (Unit {0})

pub record ReplicationWorker (S Q O : Type 0) : Type 0 where
  pub coordinator : Coordinator S Q
  pub objects : O

-- The task and the error that `WorkOnce` returns: a copy that failed returns both.
pub data WorkResult : Type 0 where
  finished : ReplicationTask → WorkResult
  copy_failed : ReplicationTask → Error → WorkResult
  stopped : Error → WorkResult

module _ {S Q O : Type 0} (mb : MetadataBackend S) (tq : ReplicationTaskQueue Q)
    (replicator : ObjectReplicator O) where
  -- What follows the copy.
  unfoldable pub settle :
      ReplicationTask
      → Result (Unit {0}) × O
      → Coordinator S Q
      → WorkResult × ReplicationWorker S Q O
  settle task (ok _, objects) c =
      let (result, c') = finish_replication mb tq task.id c in
      (
        elim result [ ok (_, done_task) ↦ finished done_task | err e ↦ stopped e ],
        record { coordinator = c'; objects = objects },
      )
  settle task (err e, objects) c =
      let (result, c') = fail_replication mb tq task.id (some e) c in
      (
        elim result [ ok (_, failed_task) ↦ copy_failed failed_task e | err e' ↦ stopped e' ],
        record { coordinator = c'; objects = objects },
      )

  -- The first pending task is started and copied.
  unfoldable pub run_first :
      Result (List ReplicationTask) → ReplicationWorker S Q O → WorkResult × ReplicationWorker S Q O
  run_first (err e) w = (stopped e, w)
  run_first (ok []) w = (stopped no_pending_tasks, w)
  run_first (ok (first ∷ rest)) w =
      let (started, c) = start_replication mb tq first.id w.coordinator in
      elim started [
        | err e ↦ (stopped e, record w { coordinator = c })
        | ok task ↦ settle task (replicator.replicate task w.objects) c
      ]

  unfoldable pub work_once : ReplicationWorker S Q O → WorkResult × ReplicationWorker S Q O
  unfolding run_first settle
  work_once w =
      let (pending, c) = pending_tasks mb tq w.coordinator in
      run_first pending (record w { coordinator = c })
