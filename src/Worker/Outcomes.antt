-- ===== src/Worker/Outcomes.antt =====
-- distributed-fs/worker.go: the outcomes of `WorkOnce` over the in-memory backends.
use go_infra_lab.Common.{
  ℕ, suc, ◌+◌, ◌*◌, ◌-◌, ◌^◌, ◌<◌, ◌≤◌, ◌⊎◌, pos, increment, second, some, List, [], ◌∷◌, ◌≡◌,
  arith, eq_iff, eq_refl, All, All-mono, All-filter, subst,
}
use go_infra_lab.GoMap.{GoMap, get, values, HasDistinctKeys, Entries}
use go_infra_lab.Sorting.{sort_slice-All}
use go_infra_lab.Action.{ok, err, Error, error_text, no_pending_tasks}
use go_infra_lab.Metadata.{ReplicaMetadata, ReplicaState, MetadataStore}
use go_infra_lab.Metadata.Commands.{replica_of}
use go_infra_lab.Replication.{
  ReplicationTask, ReplicationTaskState, fail_replication_task, task_less, sort_replication_tasks,
}
use go_infra_lab.Replication.Queue.{
  MemoryQueue, pending, start_task, finish_task, mark_running, update_task, is_ready,
}
use go_infra_lab.Replication.Enqueue.{find_in, find-update_task}
use go_infra_lab.Replication.Lifecycle.{IsQueue, IsTaskAt}
use go_infra_lab.Replication.Retry.{fail_replication_task_lem}
use go_infra_lab.Backend.{memory_backend, memory_queue}
use go_infra_lab.Coordinator.{Coordinator, pending_tasks, start_replication}
use go_infra_lab.Coordinator.Copies.{finish_replication_lem, fail_replication_lem}
use package.go_infra_lab.Worker.{
  ObjectReplicator, ReplicationWorker, finished, copy_failed, stopped, settle, run_first, work_once,
}

values_found :
    (m : GoMap ReplicationTask)
    → HasDistinctKeys m
    → Entries IsTaskAt m
    → All (λ t. get t.id m ≡ some t) (values m)
unfolding get
values_found [] distinct named = tt
values_found ((id, t) ∷ m) distinct named = (
  ground (arith, named.0.named, eq_refl id),
  All-mono (λ x. get x.id m ≡ some x) (λ x. get x.id ((id, t) ∷ m) ≡ some x)
      (λ x found. ground (arith, eq_iff id x.id)) (values m) (values_found m distinct.1 named.1),
)

-- A task that `Pending` returns is in the queue under its own ID.
pub pending_found : (q : MemoryQueue) → IsQueue q → All (λ t. find_in t.id q ≡ some t) (pending q)
unfolding pending sort_replication_tasks
pending_found q h =
    sort_slice-All task_less (λ t. find_in t.id q ≡ some t) _
      (All-filter (λ t. find_in t.id q ≡ some t) (is_ready q.now) (values q.tasks)
        (values_found q.tasks h.distinct h.tasks_ok))

module _ {O : Type 0} (replicator : ObjectReplicator O)
    (w : ReplicationWorker MetadataStore MemoryQueue O) where
  -- With nothing ready, `WorkOnce` says so and changes nothing.
  pub work_once_idle :
      pending w.coordinator.tasks ≡ []
      → work_once memory_backend memory_queue replicator w ≡ (stopped no_pending_tasks, w)
  unfolding work_once run_first pending_tasks
  work_once_idle idle = rw idle

  module _ (t : ReplicationTask) (rest : List ReplicationTask) (r : ReplicaMetadata)
      (ready : pending w.coordinator.tasks ≡ t ∷ rest) (queue_ok : IsQueue w.coordinator.tasks)
      (held : replica_of t.key t.target w.coordinator.metadata ≡ some r) where
    abbrev started : ReplicationTask
    started = start_task w.coordinator.tasks.now t

    found : find_in t.id w.coordinator.tasks ≡ some t
    found =
        (subst (All (λ x. find_in x.id w.coordinator.tasks ≡ some x)) ready
          (pending_found w.coordinator.tasks queue_ok)).0

    -- The coordinator once the task is running.
    abbrev running : Coordinator MetadataStore MemoryQueue
    running = record w.coordinator { tasks = (mark_running t.id w.coordinator.tasks).1 }

    work_once-settle :
        work_once memory_backend memory_queue replicator w
        ≡ settle memory_backend memory_queue replicator started
            (replicator.replicate started w.objects)
            running
    unfolding work_once run_first pending_tasks start_replication mark_running
    work_once-settle = ground (
      arith,
      found,
      find-update_task t.id (start_task w.coordinator.tasks.now) w.coordinator.tasks t.id,
    )

    found_running : find_in t.id running.tasks ≡ some started
    unfolding mark_running
    found_running = ground (
      arith,
      found,
      eq_refl t.id,
      find-update_task t.id (start_task w.coordinator.tasks.now) w.coordinator.tasks t.id,
    )

    now_running : running.tasks.now ≡ w.coordinator.tasks.now
    unfolding mark_running update_task
    now_running = ground arith

    work_once-finish :
        (objects : O)
        → replicator.replicate started w.objects ≡ (ok tt, objects)
        → let (result, w') = work_once memory_backend memory_queue replicator w in
          let done = finish_task w.coordinator.tasks.now started in
          (result ≡ finished done)
          × (find_in t.id w'.coordinator.tasks ≡ some done)
          × (replica_of t.key t.target w'.coordinator.metadata
              ≡ some (record r {
                state = ReplicaState.healthy;
                updated_at = w.coordinator.metadata.now;
              }))
          × (w'.objects ≡ objects)
    unfolding settle start_task
    work_once-finish objects copied = rw work_once-settle (
        rw (copied, settle)
          (ground
            (arith, finish_replication_lem running t.id started r found_running held, now_running)))

    work_once-fail :
        (objects : O) (e : Error)
        → replicator.replicate started w.objects ≡ (err e, objects)
        → let (result, w') = work_once memory_backend memory_queue replicator w in
          let failed = fail_replication_task started w.coordinator.tasks.now (some e) in
          (result ≡ copy_failed failed e)
          × (find_in t.id w'.coordinator.tasks ≡ some failed)
          × (replica_of t.key t.target w'.coordinator.metadata
              ≡ some (record r {
                state = ReplicaState.missing;
                updated_at = w.coordinator.metadata.now;
              }))
          × (w'.objects ≡ objects)
    unfolding settle start_task
    work_once-fail objects e copied = rw work_once-settle (
        rw (copied, settle)
          (ground (
            arith,
            fail_replication_lem running t.id (some e) started r found_running held,
            now_running,
          )))

    -- The task as the copy gets it: running, with one attempt more and a lease of 30 seconds.
    abbrev pub handed_over : ReplicationTask
    handed_over = record t {
      state = ReplicationTaskState.running;
      attempts = increment t.attempts;
      lease_until = w.coordinator.tasks.now + 30 * second;
      updated_at = w.coordinator.tasks.now;
    }

    -- Over the stores in memory, in a queue that keeps the life cycle, for a file with a replica on
    -- the target of the first ready task: when the copy of this task, running with one attempt more
    -- and a lease of 30 seconds, succeeds, `WorkOnce` returns the task as done, without lease,
    -- delay or error, the queue holds it so, and the replica on its target is healthy.
    pub work_once_done :
        (objects : O)
        → replicator.replicate handed_over w.objects ≡ (ok tt, objects)
        → let (result, w') = work_once memory_backend memory_queue replicator w in
          let done : ReplicationTask = record t {
            state = ReplicationTaskState.done;
            attempts = increment t.attempts;
            last_error = "";
            run_after = 0;
            lease_until = 0;
            updated_at = w.coordinator.tasks.now;
          } in
          (result ≡ finished done)
          × (find_in t.id w'.coordinator.tasks ≡ some done)
          × (replica_of t.key t.target w'.coordinator.metadata
              ≡ some (record r {
                state = ReplicaState.healthy;
                updated_at = w.coordinator.metadata.now;
              }))
          × (w'.objects ≡ objects)
    unfolding start_task finish_task
    work_once_done objects copied = work_once-finish objects copied

    -- Over the stores in memory, in a queue that keeps the life cycle, for a file with a replica on
    -- the target of the first ready task, which has had `n` attempts, fewer than 2 ^ 63 - 1: when
    -- the copy of this task, running with one attempt more and a lease of 30 seconds, fails,
    -- `WorkOnce` returns the error with the task. This has one attempt more, the text of the error
    -- and no lease; it is pending with a delay between two seconds and a minute, or dead at five
    -- attempts; the queue holds it so, and the replica is missing.
    pub work_once_failed :
        (objects : O) (e : Error) (n : ℕ)
        → t.attempts ≡ pos n
        → n < 2 ^ 63 - 1
        → replicator.replicate handed_over w.objects ≡ (err e, objects)
        → let (result, w') = work_once memory_backend memory_queue replicator w in
          let now = w.coordinator.tasks.now in
          (failed : ReplicationTask) × (result ≡ copy_failed failed e)
          × (find_in t.id w'.coordinator.tasks ≡ some failed)
          × (failed ≡ record t {
            state = failed.state;
            attempts = pos (suc n);
            last_error = error_text e;
            run_after = failed.run_after;
            lease_until = 0;
            updated_at = now;
          })
          × (((suc n < 5)
                × (failed.state ≡ ReplicationTaskState.pending)
                × (now + 2 * second ≤ failed.run_after)
                × (failed.run_after ≤ now + 60 * second))
              ⊎ ((5 ≤ suc n) × (failed.state ≡ ReplicationTaskState.dead) × (failed.run_after ≡ 0)))
          × (replica_of t.key t.target w'.coordinator.metadata
              ≡ some (record r {
                state = ReplicaState.missing;
                updated_at = w.coordinator.metadata.now;
              }))
          × (w'.objects ≡ objects)
    unfolding start_task
    work_once_failed objects e n tried room copied =
        let now = w.coordinator.tasks.now in
        let failed = fail_replication_task started now (some e) in
        let counted : started.attempts ≡ pos (suc n) = ground (arith, tried) in
        let (returned, queued, missing, stored) = work_once-fail objects e copied in
        let (lease, attempts, outcome) =
          fail_replication_task_lem started now (some e) (suc n) counted in
        (
          failed,
          returned,
          queued,
          unfold fail_replication_task in ground (arith, counted),
          outcome,
          missing,
          stored,
        )
