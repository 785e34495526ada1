-- ===== src/Replication/Queue.antt =====
-- distributed-fs/replication.go: `MemoryReplicationTaskQueue`. The clock is the field `now`.
use go_infra_lab.Common.{
  ℕ, ◌+◌, String, Bool, true, false, Option, none, some, List, [], ◌∷◌, ◌&&◌, ◌||◌, not,
  if◌then◌else◌, filter, increment, Time, zero_time, is_zero, before,
}
use go_infra_lab.GoMap.{GoMap, get, has, put, values}
use go_infra_lab.Action.{Action, Error, ok, err, task_not_found}
use package.go_infra_lab.Replication.{
  ReplicationTask, ReplicationTaskState, task_lease, ready_to_run, fail_replication_task,
  expire_replication_task, sort_replication_tasks,
}

pub record MemoryQueue : Type 0 where
  pub tasks : GoMap ReplicationTask
  pub now : Time

unfoldable pub new_memory_queue : Time → MemoryQueue
new_memory_queue now = record { tasks = []; now = now }

-- The text of a state, the key of `Stats`.
unfoldable pub state_text : ReplicationTaskState → String
state_text ReplicationTaskState.pending = "pending"
state_text ReplicationTaskState.running = "running"
state_text ReplicationTaskState.done = "done"
state_text ReplicationTaskState.failed = "failed"
state_text ReplicationTaskState.dead = "dead"

abbrev pub is_pending : ReplicationTask → Bool
is_pending task = elim task.state [ ReplicationTaskState.pending ↦ true | _ ↦ false ]

abbrev pub is_running : ReplicationTask → Bool
is_running task = elim task.state [ ReplicationTaskState.running ↦ true | _ ↦ false ]

unfoldable pub enqueue_loop : List ReplicationTask → GoMap ReplicationTask → GoMap ReplicationTask
enqueue_loop [] queued = queued
enqueue_loop (task ∷ rest) queued =
    enqueue_loop rest (if has task.id queued then queued else put task.id task queued)

unfoldable pub enqueue : List ReplicationTask → MemoryQueue → MemoryQueue
enqueue new q = record q { tasks = enqueue_loop new q.tasks }

abbrev pub is_ready : Time → ReplicationTask → Bool
is_ready now task = is_pending task && ready_to_run task now

unfoldable pub pending : MemoryQueue → List ReplicationTask
pending q = sort_replication_tasks (filter (is_ready q.now) (values q.tasks))

-- What `MarkRunning` writes.
unfoldable pub start_task : Time → ReplicationTask → ReplicationTask
start_task now task = record task {
  state = ReplicationTaskState.running;
  attempts = increment task.attempts;
  lease_until = now + task_lease;
  updated_at = now;
}

-- What `MarkDone` writes.
unfoldable pub finish_task : Time → ReplicationTask → ReplicationTask
finish_task now task = record task {
  state = ReplicationTaskState.done;
  lease_until = zero_time;
  run_after = zero_time;
  last_error = "";
  updated_at = now;
}

-- The common shape of the three marks: look the task up, change it, write it back.
unfoldable pub update_task :
    String → (ReplicationTask → ReplicationTask) → Action MemoryQueue ReplicationTask
update_task id change q = elim (get id q.tasks) [
  | none ↦ (err task_not_found, q)
  | some task ↦ (ok (change task), record q { tasks = put id (change task) q.tasks })
]

unfoldable pub mark_running : String → Action MemoryQueue ReplicationTask
mark_running id q = update_task id (start_task q.now) q

unfoldable pub mark_done : String → Action MemoryQueue ReplicationTask
mark_done id q = update_task id (finish_task q.now) q

unfoldable pub mark_failed : String → Option Error → Action MemoryQueue ReplicationTask
mark_failed id cause q = update_task id (λ task. fail_replication_task task q.now cause) q

-- The test of the loop of `RequeueExpiredRunning`: a running task with a lease that has run out.
unfoldable pub lease_expired : Time → ReplicationTask → Bool
lease_expired now task =
    not (not (is_running task) || is_zero task.lease_until || before now task.lease_until)

-- The loop of `RequeueExpiredRunning`: the tasks as written back, and those that were requeued.
unfoldable pub requeue_loop :
    Time → GoMap ReplicationTask → GoMap ReplicationTask × List ReplicationTask
requeue_loop now [] = ([], [])
requeue_loop now ((id, task) ∷ rest) =
    let (written, requeued) = requeue_loop now rest in
    let task' = expire_replication_task task now in
    if lease_expired now task
    then ((id, task') ∷ written, task' ∷ requeued)
    else ((id, task) ∷ written, requeued)

unfoldable pub requeue_expired_running : MemoryQueue → List ReplicationTask × MemoryQueue
requeue_expired_running q =
    let (written, requeued) = requeue_loop q.now q.tasks in
    (sort_replication_tasks requeued, record q { tasks = written })

-- `stats[state]`, which is 0 for a missing key
unfoldable pub counter : String → GoMap ℕ → ℕ
counter k stats = elim (get k stats) [ none ↦ 0 | some n ↦ n ]

unfoldable pub stats_loop : List ReplicationTask → GoMap ℕ → GoMap ℕ
stats_loop [] stats = stats
stats_loop (task ∷ rest) stats =
    let state = state_text task.state in stats_loop rest (put state (counter state stats + 1) stats)

unfoldable pub stats : MemoryQueue → GoMap ℕ
stats q = stats_loop (values q.tasks) []
