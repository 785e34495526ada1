-- ===== src/Disk/Restart.antt =====
-- distributed-fs/replication_disk.go: what `NewDiskReplicationTaskQueue` makes of the tasks that an
-- earlier run of the program left in the database.
use go_infra_lab.Common.{String, Bool, true, false, Time}
use go_infra_lab.GoMap.{GoMap}
use go_infra_lab.Action.{Result, ok}
use go_infra_lab.Action.Results.{◌>>=◌}
use go_infra_lab.Replication.{ReplicationTask, ReplicationTaskState}
use package.go_infra_lab.Disk.{Bolt, Codec, IsBuckets, IsReliable, rewrite_all}
use package.go_infra_lab.Disk.Reads.{IsFaithful}
use package.go_infra_lab.Disk.Queue.{tasks_bucket, restored}

-- A task as the opened queue has it.
abbrev pub restarted : Time → ReplicationTask → ReplicationTask
restarted now task =
    let again : ReplicationTask = record task {
      state = ReplicationTaskState.pending;
      lease_until = 0;
      run_after = 0;
      updated_at = now;
    } in
    elim task.state [
      | ReplicationTaskState.pending ↦ task
      | ReplicationTaskState.running ↦ again
      | ReplicationTaskState.done ↦ task
      | ReplicationTaskState.failed ↦ again
      | ReplicationTaskState.dead ↦ task
    ]

abbrev pub is_failed : ReplicationTask → Bool
is_failed task = elim task.state [ ReplicationTaskState.failed ↦ true | _ ↦ false ]

module _ {B R : Type 0} (bolt : Bolt B R) (accepts : String → Bool) (buckets : IsBuckets bolt)
    (reliable : IsReliable bolt accepts) (tasks : Codec ReplicationTask R)
    (faithful : IsFaithful tasks) where
  abbrev create_step : B → Result (Unit {0} × B)
  create_step db = do db' ← bolt.create_bucket tasks_bucket db; ok (tt, db')

  abbrev restore_step : Time → B → Result (Unit {0} × B)
  restore_step now db = do
    (_, db') ← rewrite_all bolt tasks tasks_bucket (restored now) db
    ok (tt, db')
