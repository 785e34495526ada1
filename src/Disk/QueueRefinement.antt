-- ===== src/Disk/QueueRefinement.antt =====
-- distributed-fs/replication_disk.go: on a disk that works, `DiskReplicationTaskQueue` behaves as
-- the queue in memory.
use go_infra_lab.Common.{
  ℕ, String, Bool, true, false, some, List, [], ◌∷◌, ◌≡◌, refl, sym, subst, arith, ◌==◌, Time, All,
  str_lt_total,
}
use go_infra_lab.GoMap.{GoMap, values}
use go_infra_lab.GoMap.Select.{select, sort_slice-select, sort_slice-filter-values, count-values}
use go_infra_lab.Action.{ok}
use go_infra_lab.Replication.{
  ReplicationTask, task_less, sort_replication_tasks, fail_replication_task,
  expire_replication_task,
}
use go_infra_lab.Replication.Order.{task_less-IsOrder}
use go_infra_lab.Replication.Queue
use go_infra_lab.Replication.Queue.{
  MemoryQueue, is_ready, start_task, finish_task, requeue_loop, stats_loop, counter, state_text,
}
use go_infra_lab.Replication.Enqueue.{get-requeue_loop}
use go_infra_lab.Replication.Lifecycle.{requeue_loop-distinct}
use go_infra_lab.Replication.Stats.{counter-stats_loop}
use go_infra_lab.Backend.{memory_queue}
use go_infra_lab.Backend.Refines.{Related, QueueRefines}
use package.go_infra_lab.Disk.{Bolt, Codec, IsBuckets, IsReliable, VisitsSnapshot, rewrite_all}
use package.go_infra_lab.Disk.Reads.{IsFaithful, decode_entries}
use package.go_infra_lab.Disk.Rewrites.{rewrite_all_lem}
use package.go_infra_lab.Disk.Queue as OnDisk
use package.go_infra_lab.Disk.Queue.{DiskQueue, tasks_bucket, expired, disk_queue}
use package.go_infra_lab.Disk.Tasks.{
  MirrorsQueue, AreNamed, done-Related, view-Related, enqueue_loop-Agree, update_task_related,
}

task_less-tells_apart :
    (a b : ReplicationTask) → task_less a b ≡ false → task_less b a ≡ false → a.id ≡ b.id
unfolding task_less
task_less-tells_apart a b below above = ground (arith, str_lt_total a.id b.id)

selected-expired :
    (now : ℕ) (m : GoMap ReplicationTask) → (requeue_loop now m).1 ≡ select (expired now) m
unfolding requeue_loop
selected-expired now [] = refl
selected-expired now ((k, t) ∷ m) = ground (arith, selected-expired now m)

requeue_loop-AreNamed :
    (now : ℕ) (m : GoMap ReplicationTask) → AreNamed m → AreNamed (requeue_loop now m).0
unfolding requeue_loop expire_replication_task
requeue_loop-AreNamed now [] h = tt
requeue_loop-AreNamed now ((k, t) ∷ m) h = ground (arith, requeue_loop-AreNamed now m h.1)

-- An expired task keeps its ID.
expired_id : (now : ℕ) (t w : ReplicationTask) → expired now t ≡ some w → w.id ≡ t.id
unfolding expire_replication_task
expired_id now t w e = ground arith

module _ {B R : Type 0} (bolt : Bolt B R) (accepts : String → Bool) (buckets : IsBuckets bolt)
    (reliable : IsReliable bolt accepts) (tasks : Codec ReplicationTask R)
    (faithful : IsFaithful tasks) where
  abbrev Agree : DiskQueue B → MemoryQueue → Type 0
  Agree = MirrorsQueue bolt tasks

  enqueue_related :
      (new : List ReplicationTask) (d : DiskQueue B) (q : MemoryQueue)
      → All (λ task. accepts task.id ≡ true) new
      → Agree d q
      → Related Agree (OnDisk.enqueue bolt tasks new d) (memory_queue.enqueue new q)
  unfolding OnDisk.enqueue Queue.enqueue
  enqueue_related new d q accepted h =
      let (db', done, after) =
        enqueue_loop-Agree bolt accepts buckets reliable tasks faithful new d q accepted h in
      done-Related bolt accepts buckets reliable tasks faithful _ tt d db'
        (record q { tasks = Queue.enqueue_loop new q.tasks }) (ground (arith, done)) after

  pending_related :
      (d : DiskQueue B) (q : MemoryQueue)
      → Agree d q
      → Related Agree (OnDisk.pending bolt tasks d) (memory_queue.pending q)
  unfolding OnDisk.pending Queue.pending sort_replication_tasks
  pending_related d q h =
      let (found, contents, all) =
        decode_entries bolt accepts buckets reliable tasks faithful tasks_bucket d.db q.tasks
          h.holds in
      let sorted =
        sort_slice-filter-values (λ (t : ReplicationTask). t.id) q.tasks found h.distinct
          contents.distinct h.named (λ k. sym (contents.contents k)) task_less task_less-IsOrder
          task_less-tells_apart (is_ready q.now) in
      let read =
        view-Related bolt accepts buckets reliable tasks faithful _ (ok (values found)) d q all h in
      let same = h.same_now in (ground (arith, read.0, sorted, same), read.1)

  stats_related :
      (d : DiskQueue B) (q : MemoryQueue)
      → Agree d q
      → (m m' : GoMap ℕ) × ((OnDisk.stats bolt tasks d).0 ≡ ok m)
        × ((memory_queue.stats q).0 ≡ ok m')
        × ((k : String) → counter k m ≡ counter k m')
        × Agree (OnDisk.stats bolt tasks d).1 (memory_queue.stats q).1
  unfolding OnDisk.stats Queue.stats
  stats_related d q h =
      let (found, contents, all) =
        decode_entries bolt accepts buckets reliable tasks faithful tasks_bucket d.db q.tasks
          h.holds in
      let same_counters : (k : String)
          → counter k (stats_loop (values found) []) ≡ counter k (stats_loop (values q.tasks) []) =
        λ k. omega (
          arith,
          counter-stats_loop (values found) [] k,
          counter-stats_loop (values q.tasks) [] k,
          count-values (λ (t : ReplicationTask). t.id) q.tasks found h.distinct contents.distinct
              h.named (λ j. sym (contents.contents j)) (λ t. state_text t.state == k),
        ) in
      let read =
        view-Related bolt accepts buckets reliable tasks faithful _
          (ok (stats_loop (values found) [])) d q (ground (arith, all)) h in
      (
        stats_loop (values found) [],
        stats_loop (values q.tasks) [],
        read.0,
        refl,
        same_counters,
        read.1,
      )

  -- On a disk that works, `RequeueExpiredRunning` of the persistent queue does what that of the
  -- queue in memory does, under an assumption that bbolt does not document: that a `ForEach` which
  -- puts into the bucket it visits goes on with what the bucket held before.
  pub requeue_expired_running_related :
      VisitsSnapshot bolt
      → (d : DiskQueue B) (q : MemoryQueue) → Agree d q
      → Related Agree
          (OnDisk.requeue_expired_running bolt tasks d)
          (memory_queue.requeue_expired_running q)
  unfolding OnDisk.requeue_expired_running Queue.requeue_expired_running sort_replication_tasks
  requeue_expired_running_related snapshot d q h =
      let (found, db', contents, done, reads, _) =
        rewrite_all_lem bolt accepts buckets reliable tasks faithful snapshot tasks_bucket
          (expired q.now) d.db q.tasks h.holds in
      let same = h.same_now in
      let read =
        done-Related bolt accepts buckets reliable tasks faithful
          (rewrite_all bolt tasks tasks_bucket (expired d.now)) (select (expired q.now) found) d db'
          (record q { tasks = (requeue_loop q.now q.tasks).0 }) (ground (arith, done, same))
          (record {
            holds = λ j. ground (arith, reads j, h.holds j, get-requeue_loop q.now q.tasks j);
            same_now = same;
            distinct = requeue_loop-distinct q.now q.tasks h.distinct;
            named = requeue_loop-AreNamed q.now q.tasks h.named;
          }) in
      let sorted =
        sort_slice-select (λ (t : ReplicationTask). t.id) (λ (t : ReplicationTask). t.id)
          (expired q.now) (expired_id q.now) task_less task_less-IsOrder task_less-tells_apart
          q.tasks found h.distinct contents.distinct h.named (λ k. sym (contents.contents k)) in
      (ground (arith, read.0, sorted, selected-expired q.now q.tasks), read.1)

  mark_related :
      (id : String) (change : Time → ReplicationTask → ReplicationTask) (d : DiskQueue B)
      (q : MemoryQueue)
      → ((now : Time) (t : ReplicationTask) → (change now t).id ≡ t.id)
      → Agree d q
      → Related Agree
          (OnDisk.update_task bolt tasks id (change d.now) d)
          (Queue.update_task id (change q.now) q)
  mark_related id change d q keeps h =
      subst
        (λ t.
          Related Agree (OnDisk.update_task bolt tasks id (change t) d)
            (Queue.update_task id (change q.now) q))
        (sym h.same_now)
        (update_task_related bolt accepts buckets reliable tasks faithful id (change q.now) d q
          (keeps q.now) h)

  -- On a disk that works, the persistent task queue behaves as the queue in memory: every operation
  -- but `RequeueExpiredRunning` returns the same result, errors included, and keeps the two in
  -- agreement; of `Stats`, the counters are equal. A new task must have an ID that the database
  -- accepts as a key.
  pub disk_queue-QueueRefines : QueueRefines accepts Agree (disk_queue bolt tasks) memory_queue
  unfolding OnDisk.mark_running OnDisk.mark_done OnDisk.mark_failed Queue.mark_running
      Queue.mark_done Queue.mark_failed
  disk_queue-QueueRefines = record {
    enqueue = enqueue_related;
    pending = pending_related;
    mark_running =
        λ id d q h. mark_related id start_task d q (λ now t. unfold start_task in refl) h;
    mark_done = λ id d q h. mark_related id finish_task d q (λ now t. unfold finish_task in refl) h;
    mark_failed = λ id cause d q h.
        mark_related id (λ now t. fail_replication_task t now cause) d q
          (λ now t. unfold fail_replication_task in ground arith) h;
    stats = stats_related;
  }
