-- ===== src/Disk/Queue.antt =====
-- distributed-fs/replication_disk.go: `DiskReplicationTaskQueue`. Its clock is the field `now`.
use go_infra_lab.Common.{
  ℕ, String, true, false, Option, none, some, List, [], ◌∷◌, filter, Time, zero_time,
}
use go_infra_lab.GoMap.{GoMap}
use go_infra_lab.Action.{Action, Error, Result, ok, err, task_not_found}
use go_infra_lab.Action.Results.{◌>>=◌, map_ok}
use go_infra_lab.Replication.{
  ReplicationTask, ReplicationTaskState, fail_replication_task, expire_replication_task,
  sort_replication_tasks,
}
use go_infra_lab.Replication.Queue.{is_ready, start_task, finish_task, lease_expired, stats_loop}
use go_infra_lab.Backend.{ReplicationTaskQueue}
use package.go_infra_lab.Disk.{Bolt, Codec, put_json, decode_all, rewrite_all}

pub record DiskQueue (B : Type 0) : Type 0 where
  pub db : B
  pub now : Time

abbrev pub tasks_bucket : String
tasks_bucket = "replication_tasks"

-- What `restoreRetryableTasks` writes for a task that it restores.
unfoldable pub restart_task : Time → ReplicationTask → ReplicationTask
restart_task now task = record task {
  state = ReplicationTaskState.pending;
  lease_until = zero_time;
  run_after = zero_time;
  updated_at = now;
}

-- `task.State != ReplicationTaskRunning && task.State != ReplicationTaskFailed`, and what follows.
abbrev pub restored : Time → ReplicationTask → Option ReplicationTask
restored now task = elim task.state [
  | ReplicationTaskState.pending ↦ none
  | ReplicationTaskState.running ↦ some (restart_task now task)
  | ReplicationTaskState.done ↦ none
  | ReplicationTaskState.failed ↦ some (restart_task now task)
  | ReplicationTaskState.dead ↦ none
]

-- What `RequeueExpiredRunning` writes for a task whose lease has run out.
abbrev pub expired : Time → ReplicationTask → Option ReplicationTask
expired now task = elim (lease_expired now task) [
  | true ↦ some (expire_replication_task task now)
  | false ↦ none
]

module _ {B R : Type 0} (bolt : Bolt B R) (tasks : Codec ReplicationTask R) where
  abbrev pub in_update : {A : Type 0} → (B → Result (A × B)) → Action (DiskQueue B) A
  in_update f q = let (r, db) = bolt.update f q.db in (r, record q { db = db })

  abbrev pub in_view : {A : Type 0} → (B → Result A) → Action (DiskQueue B) A
  in_view f q = let (r, db) = bolt.view f q.db in (r, record q { db = db })

  unfoldable pub init : Action (DiskQueue B) (Unit {0})
  init = in_update (λ db. do db' ← bolt.create_bucket tasks_bucket db; ok (tt, db'))

  unfoldable pub restore_retryable_tasks : Action (DiskQueue B) (Unit {0})
  restore_retryable_tasks q =
      in_update
        (λ db. do (_, db') ← rewrite_all bolt tasks tasks_bucket (restored q.now) db; ok (tt, db'))
        q

  -- `NewDiskReplicationTaskQueue`
  unfoldable pub open_queue : B → Time → Result (DiskQueue B)
  open_queue db now =
      let (created, q) = init (record { db = db; now = now }) in
      elim created [
        | err e ↦ err e
        | ok _ ↦
            let (restored?, q') = restore_retryable_tasks q in
            elim restored? [ err e ↦ err e | ok _ ↦ ok q' ]
      ]

  unfoldable pub enqueue_loop : List ReplicationTask → B → Result B
  enqueue_loop [] db = ok db
  enqueue_loop (task ∷ rest) db = elim (bolt.get tasks_bucket task.id db) [
    | some _ ↦ enqueue_loop rest db
    | none ↦ elim (put_json bolt tasks tasks_bucket task.id task db) [
      | err e ↦ err e
      | ok db' ↦ enqueue_loop rest db'
    ]
  ]

  unfoldable pub enqueue : List ReplicationTask → Action (DiskQueue B) (Unit {0})
  enqueue new = in_update (λ db. do db' ← enqueue_loop new db; ok (tt, db'))

  unfoldable pub pending : Action (DiskQueue B) (List ReplicationTask)
  pending q =
      let (r, q') = in_view (λ db. decode_all bolt tasks (bolt.entries tasks_bucket db)) q in
      (map_ok (λ all. sort_replication_tasks (filter (is_ready q.now) all)) r, q')

  unfoldable pub update_task :
      String → (ReplicationTask → ReplicationTask) → Action (DiskQueue B) ReplicationTask
  update_task id change = in_update (λ db. elim (bolt.get tasks_bucket id db) [
    | none ↦ err task_not_found
    | some raw ↦ do
      task ← tasks.decode raw
      db' ← put_json bolt tasks tasks_bucket id (change task) db
      ok (change task, db')
  ])

  unfoldable pub mark_running : String → Action (DiskQueue B) ReplicationTask
  mark_running id q = update_task id (start_task q.now) q

  unfoldable pub mark_done : String → Action (DiskQueue B) ReplicationTask
  mark_done id q = update_task id (finish_task q.now) q

  unfoldable pub mark_failed : String → Option Error → Action (DiskQueue B) ReplicationTask
  mark_failed id cause q = update_task id (λ task. fail_replication_task task q.now cause) q

  unfoldable pub requeue_expired_running : Action (DiskQueue B) (List ReplicationTask)
  requeue_expired_running q =
      let (r, q') = in_update (rewrite_all bolt tasks tasks_bucket (expired q.now)) q in
      (map_ok sort_replication_tasks r, q')

  unfoldable pub stats : Action (DiskQueue B) (GoMap ℕ)
  stats =
      in_view (λ db. do
        all ← decode_all bolt tasks (bolt.entries tasks_bucket db)
        ok (stats_loop all []))

  abbrev pub disk_queue : ReplicationTaskQueue (DiskQueue B)
  disk_queue = record {
    enqueue = enqueue;
    pending = pending;
    mark_running = mark_running;
    mark_done = mark_done;
    mark_failed = mark_failed;
    requeue_expired_running = requeue_expired_running;
    stats = stats;
  }
