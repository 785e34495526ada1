-- ===== src/Tests/OfWorker.antt =====
-- The worker theorems on the small cluster.
use go_infra_lab.Common.{
  ◌<◌, ◌≤◌, ◌+◌, ◌*◌, ◌⊎◌, pos, second, arith, String, some, List, [], ◌∷◌, ◌≡◌, refl,
}
use go_infra_lab.GoMap.{get}
use go_infra_lab.Sorting.{sort_slice}
use go_infra_lab.Action.{ok, err, error_text, no_readable_replicas}
use go_infra_lab.Metadata.{ReplicaMetadata, ReplicaState, MetadataStore, get_file}
use go_infra_lab.Metadata.Commands.{replica_of}
use go_infra_lab.Replication.{
  ReplicationTask, ReplicationTaskState, ready_to_run, sort_replication_tasks,
}
use go_infra_lab.Replication.Queue.{MemoryQueue, pending}
use go_infra_lab.Replication.Enqueue.{find_in}
use go_infra_lab.Backend.{memory_backend, memory_queue}
use go_infra_lab.Worker.{ObjectReplicator, ReplicationWorker, finished, copy_failed, work_once}
use go_infra_lab.Worker.Outcomes.{work_once_done, work_once_failed}
use package.go_infra_lab.Tests.{replica, copy_report, queue, manager}
use package.go_infra_lab.Tests.OfReplication.{copy_report-IsQueue}

-- The objects are the IDs of the tasks that were copied.
abbrev copying : ObjectReplicator (List String)
copying = record { replicate = λ task copied. (ok tt, task.id ∷ copied) }

abbrev refusing : ObjectReplicator (List String)
refusing = record { replicate = λ task copied. (err no_readable_replicas, copied) }

abbrev worker : ReplicationWorker MetadataStore MemoryQueue (List String)
worker = record { coordinator = manager copy_report; objects = [] }

abbrev target : ReplicaMetadata
target = replica "n2" ReplicaState.pending

copy_is_ready : pending (queue copy_report) ≡ copy_report ∷ []
unfolding pending sort_replication_tasks sort_slice ready_to_run
copy_is_ready = refl

target_held : replica_of "report" "n2" (manager copy_report).metadata ≡ some target
unfolding get_file get
target_held = refl

work_once_done_example :
    let (result, w') = work_once memory_backend memory_queue copying worker in
    let done : ReplicationTask = record copy_report {
      state = ReplicationTaskState.done;
      attempts = pos 1;
      last_error = "";
      run_after = 0;
      lease_until = 0;
      updated_at = 40 * second;
    } in
    (result ≡ finished done)
    × (find_in "report:2:n1:n2" w'.coordinator.tasks ≡ some done)
    × (replica_of "report" "n2" w'.coordinator.metadata
        ≡ some (record target { state = ReplicaState.healthy; updated_at = 1000 }))
    × (w'.objects ≡ "report:2:n1:n2" ∷ [])
work_once_done_example =
    work_once_done copying worker copy_report [] target copy_is_ready copy_report-IsQueue
      target_held ("report:2:n1:n2" ∷ []) refl

work_once_failed_example :
    let (result, w') = work_once memory_backend memory_queue refusing worker in
    (failed : ReplicationTask) × (result ≡ copy_failed failed no_readable_replicas)
    × (find_in "report:2:n1:n2" w'.coordinator.tasks ≡ some failed)
    × (failed ≡ record copy_report {
      state = failed.state;
      attempts = pos 1;
      last_error = error_text no_readable_replicas;
      run_after = failed.run_after;
      lease_until = 0;
      updated_at = 40 * second;
    })
    × (((1 < 5)
          × (failed.state ≡ ReplicationTaskState.pending)
          × (40 * second + 2 * second ≤ failed.run_after)
          × (failed.run_after ≤ 40 * second + 60 * second))
        ⊎ ((5 ≤ 1) × (failed.state ≡ ReplicationTaskState.dead) × (failed.run_after ≡ 0)))
    × (replica_of "report" "n2" w'.coordinator.metadata
        ≡ some (record target { state = ReplicaState.missing; updated_at = 1000 }))
    × (w'.objects ≡ [])
work_once_failed_example =
    work_once_failed refusing worker copy_report [] target copy_is_ready copy_report-IsQueue
      target_held [] no_readable_replicas 0 refl (omega arith) refl
