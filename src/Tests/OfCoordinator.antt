-- ===== src/Tests/OfCoordinator.antt =====
-- The coordinator theorems on the small cluster.
use go_infra_lab.Common.{String, true, some, [], ◌∷◌, ◌≡◌, refl, arith, All, pos, filter, map}
use go_infra_lab.GoMap.{get, keys}
use go_infra_lab.Replication.Tasks.{IsCopyOf}
use go_infra_lab.Action.{ok}
use go_infra_lab.Metadata.{FileMetadata, ReplicaState, MetadataStore, get_file, is_replica_healthy}
use go_infra_lab.Metadata.WellFormed.{IsFileOf}
use go_infra_lab.Replication.{ReplicationTask, ReplicationTaskState}
use go_infra_lab.Replication.Queue.{MemoryQueue}
use go_infra_lab.Replication.Enqueue.{find_in}
use go_infra_lab.Backend.{memory_backend, memory_queue}
use go_infra_lab.Coordinator.{Coordinator, ReadPlan, read_candidates, finish_replication}
use go_infra_lab.Coordinator.Reading.{offers, healthy_at, read_candidates_lem}
use go_infra_lab.Coordinator.Copies.{stale_copy_is_offered}
use go_infra_lab.Coordinator.Repair.{plan_repair, repair_existing_replicas, repair_missing_replicas}
use go_infra_lab.Coordinator.Repair.Laws.{
  IsRepair, needs_repair, repair_missing_replicas-IsRepair, repair_existing_replicas_lem,
  find-plan_repair,
}
use package.go_infra_lab.Tests.{node, replica, report, cluster, copy_report, old_copy, manager}
use package.go_infra_lab.Tests.OfMetadata.{cluster-IsWellFormed}

report-IsFileOf : IsFileOf "report" report
report-IsFileOf = cluster-IsWellFormed.files_named.0

read_candidates_lem_example :
    (p : ReadPlan) × (read_candidates memory_backend memory_queue "report" (manager copy_report)
      ≡ (ok p, manager copy_report))
    × (p.metadata ≡ report)
    × All (λ r. is_replica_healthy r ≡ true) p.replicas
    × ((i : String) → offers i p.replicas ≡ healthy_at i report)
read_candidates_lem_example =
    read_candidates_lem (manager copy_report) "report" report "n1" report-IsFileOf
      (unfold get_file get in refl) refl (unfold get in refl)

abbrev lost : FileMetadata
lost = record report { replicas = ("n1", replica "n1" ReplicaState.missing) ∷ [] }

abbrev lossy : Coordinator MetadataStore MemoryQueue
lossy = record (manager copy_report) { metadata = record cluster { files = ("report", lost) ∷ [] } }

stale_copy_is_offered_example :
    (p : ReadPlan) × ((read_candidates memory_backend memory_queue "report"
        (finish_replication memory_backend memory_queue "report:1:n1:n2" (manager old_copy)).1).0
      ≡ ok p)
    × (p.metadata.version ≡ 2)
    × (offers "n2" p.replicas ≡ true)
stale_copy_is_offered_example =
    stale_copy_is_offered (manager old_copy) "report:1:n1:n2" old_copy report
      (replica "n2" ReplicaState.pending) (unfold get in refl) cluster-IsWellFormed
      (unfold get_file get in refl) (unfold get in refl) refl (omega arith)

repair_missing_replicas-IsRepair_example :
    IsRepair lost "n1" lossy
      (repair_missing_replicas memory_backend memory_queue lost "n1" (node "n2" 950 ∷ []) lossy)
repair_missing_replicas-IsRepair_example =
    repair_missing_replicas-IsRepair memory_backend memory_queue lost "n1" (node "n2" 950 ∷ [])
      lossy

repair_existing_replicas_lem_example :
    All (IsCopyOf report "n1" 1000) (repair_existing_replicas report "n1" 1000)
    × (map (λ (t : ReplicationTask). t.target) (repair_existing_replicas report "n1" 1000)
        ≡ keys (filter (needs_repair "n1") report.replicas))
repair_existing_replicas_lem_example = repair_existing_replicas_lem report "n1" 1000

abbrev done_copy : ReplicationTask
done_copy = record copy_report { state = ReplicationTaskState.done; attempts = pos 1 }

find-plan_repair_example :
    find_in "report:2:n1:n2" (plan_repair memory_backend memory_queue (manager done_copy)).1.tasks
    ≡ some done_copy
find-plan_repair_example =
    find-plan_repair memory_backend (manager done_copy) "report:2:n1:n2" done_copy
      (unfold get in refl)
