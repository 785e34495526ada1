-- ===== src/Tests/OfReplication.antt =====
-- The replication theorems on the small cluster.
use mathlib.Core.List.{Perm}
use go_infra_lab.Common.{
  ◌==◌, count, ◌+◌, ◌*◌, ◌≤◌, ◌<◌, false, some, none, List, [], ◌∷◌, ◌≡◌, ◌⊎◌, refl, arith, All,
  pos, if◌then◌else◌, eq_iff, second, zero_time, filter, map, str_lt,
}
use go_infra_lab.GoMap.{get, values, keys, has}
use go_infra_lab.Sorting.{IsSorted}
use go_infra_lab.Action.{ok, task_not_found, other}
use go_infra_lab.Metadata.{NodeMetadata}
use go_infra_lab.Replication.{
  ReplicationTask, ReplicationTaskState, ReplicaPlan, plan, tasks_for_file, fail_replication_task,
  max_backoff,
}
use go_infra_lab.Replication.Queue.{pending, requeue_expired_running}
use go_infra_lab.Replication.Placement.{IsPlacement, plan-IsPlacement}
use go_infra_lab.Replication.Tasks.{IsCopyOf, lags, tasks_for_file_lem}
use go_infra_lab.Replication.Retry.{fail_replication_task_lem}
use go_infra_lab.Replication.Enqueue.{find_in, is_overdue, recovered, requeue_expired_running_lem}
use go_infra_lab.Replication.Lifecycle.{
  Call, offer, start, abort, requeue, tick, IsQueue, run, run-IsQueue, running_recovers,
}
use package.go_infra_lab.Tests.{node, report, copy_report, lost_copy, queue}

abbrev three : List NodeMetadata
three = node "n2" 950 ∷ node "n1" 990 ∷ node "n3" 700 ∷ []

plan-IsPlacement_example :
    (p : ReplicaPlan) × (plan (record { replica_count = pos 2 }) three ≡ ok p)
    × IsPlacement 2 three p
plan-IsPlacement_example = plan-IsPlacement 2 three (omega arith) (omega arith)

tasks_for_file_lem_example :
    (ts : List ReplicationTask) × (tasks_for_file report 1000 ≡ ok ts)
    × All (IsCopyOf report "n1" 1000) ts
    × Perm
        (map (λ (t : ReplicationTask). t.target) ts)
        (filter (lags report) (keys report.replicas))
    × IsSorted str_lt (map (λ (t : ReplicationTask). t.target) ts)
tasks_for_file_lem_example =
    tasks_for_file_lem report 1000 (ground (arith, eq_iff "n1" "")) (unfold has get in refl)

fail_replication_task_lem_example :
    let t = fail_replication_task lost_copy 200 (some task_not_found) in
    (t.lease_until ≡ zero_time)
    × (t.attempts ≡ pos 1)
    × (((1 < 5)
          × (t.state ≡ ReplicationTaskState.pending)
          × (200 + 2 * second ≤ t.run_after)
          × (t.run_after ≤ 200 + max_backoff))
        ⊎ ((5 ≤ 1) × (t.state ≡ ReplicationTaskState.dead) × (t.run_after ≡ zero_time)))
fail_replication_task_lem_example =
    fail_replication_task_lem lost_copy 200 (some task_not_found) 1 refl

requeue_expired_running_lem_example :
    let q = queue lost_copy in
    let (requeued, q') = requeue_expired_running q in
    (find_in "report:2:n1:n2" q' ≡ elim (find_in "report:2:n1:n2" q) [
      | none ↦ none
      | some t ↦ some (if is_overdue q.now t then recovered q.now t else t)
    ])
    × Perm requeued (map (recovered q.now) (filter (is_overdue q.now) (values q.tasks)))
    × All (λ t. is_overdue q.now t ≡ false) (values q'.tasks)
requeue_expired_running_lem_example = requeue_expired_running_lem (queue lost_copy) "report:2:n1:n2"

pub lost_copy-IsQueue : IsQueue (queue lost_copy)
unfolding get
lost_copy-IsQueue = record {
  distinct = (refl, tt);
  tasks_ok = (record { named = refl; in_state = refl }, tt);
}

pub copy_report-IsQueue : IsQueue (queue copy_report)
unfolding get
copy_report-IsQueue = record {
  distinct = (refl, tt);
  tasks_ok = (record { named = refl; in_state = refl }, tt);
}

abbrev calls : List Call
calls =
    requeue
    ∷ start "report:2:n1:n2"
    ∷ abort "report:2:n1:n2" (some (other "connection refused"))
    ∷ tick 5
    ∷ offer (record { meta = report; source = "n1"; target = "n3"; made = 900 } ∷ [])
    ∷ []

run-IsQueue_example : IsQueue (run calls (queue lost_copy))
run-IsQueue_example = run-IsQueue calls (queue lost_copy) lost_copy-IsQueue

running_recovers_example :
    let q' = (requeue_expired_running (queue lost_copy)).1 in
    (find_in "report:2:n1:n2" q'
      ≡ some (record lost_copy {
        state = ReplicationTaskState.pending;
        lease_until = 0;
        run_after = 40 * second;
        last_error = "replication task lease expired";
        updated_at = 40 * second;
      }))
    × (0 < count (λ x. x.id == "report:2:n1:n2") (pending q'))
running_recovers_example =
    running_recovers (queue lost_copy) "report:2:n1:n2" lost_copy 1 lost_copy-IsQueue
      (unfold get in refl) refl (omega arith) refl (omega arith)
