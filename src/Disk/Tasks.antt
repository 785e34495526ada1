-- ===== src/Disk/Tasks.antt =====
-- distributed-fs/replication_disk.go: when a `DiskReplicationTaskQueue` holds the tasks of a queue
-- in memory, and the transactions that keep it so.
use go_infra_lab.Common.{
  String, Bool, true, false, none, some, List, [], ◌∷◌, ◌≡◌, ◌∙◌, refl, arith, Option-cases, inl,
  inr, All,
}
use go_infra_lab.GoMap.{GoMap, get, has, put, HasDistinctKeys, Entries}
use go_infra_lab.GoMap.Laws.{put-HasDistinctKeys, put-Entries, Entries-get}
use go_infra_lab.Action.{Error, Result, ok, err, task_not_found}
use go_infra_lab.Replication.{ReplicationTask}
use go_infra_lab.Replication.Queue
use go_infra_lab.Replication.Queue.{MemoryQueue}
use go_infra_lab.Backend.Refines.{Related}
use package.go_infra_lab.Disk.{Bolt, Codec, IsBuckets, IsReliable, read_json, put_json}
use package.go_infra_lab.Disk.Reads.{IsFaithful, Holds, put_json-Holds}
use package.go_infra_lab.Disk.Queue as OnDisk
use package.go_infra_lab.Disk.Queue.{DiskQueue, tasks_bucket, in_update, in_view}

-- Every task stands under its ID.
abbrev pub AreNamed : GoMap ReplicationTask → Type 0
AreNamed = Entries (λ k t. t.id ≡ k)

module _ {B R : Type 0} (bolt : Bolt B R) (tasks : Codec ReplicationTask R) where
  -- The database holds the tasks of the queue in memory.
  pub record MirrorsQueue (d : DiskQueue B) (q : MemoryQueue) : Type 0 where
    pub holds : Holds bolt tasks tasks_bucket d.db q.tasks
    pub same_now : d.now ≡ q.now
    pub distinct : HasDistinctKeys q.tasks
    pub named : AreNamed q.tasks

module _ {B R : Type 0} (bolt : Bolt B R) (accepts : String → Bool) (buckets : IsBuckets bolt)
    (reliable : IsReliable bolt accepts) (tasks : Codec ReplicationTask R)
    (faithful : IsFaithful tasks) where
  abbrev Agree : DiskQueue B → MemoryQueue → Type 0
  Agree = MirrorsQueue bolt tasks

  pub done-Related :
      {A : Type 0} (f : B → Result (A × B)) (a : A) (d : DiskQueue B) (db' : B) (q' : MemoryQueue)
      → f d.db ≡ ok (a, db')
      → Agree (record d { db = db' }) q'
      → Related Agree (in_update bolt tasks f d) (ok a, q')
  done-Related f a d db' q' h after = rw (reliable.update_ok f a d.db db' h) (refl, after)

  pub view-Related :
      {A : Type 0} (f : B → Result A) (r : Result A) (d : DiskQueue B) (q : MemoryQueue)
      → f d.db ≡ r
      → Agree d q
      → Related Agree (in_view bolt tasks f d) (r, q)
  view-Related f r d q h before = rw (reliable.view_lem f d.db) (h, before)

  put_task-Agree :
      (id : String) (task : ReplicationTask) (d : DiskQueue B) (q : MemoryQueue)
      → accepts id ≡ true
      → task.id ≡ id
      → Agree d q
      → (db' : B) × (put_json bolt tasks tasks_bucket id task d.db ≡ ok db')
        × Agree (record d { db = db' }) (record q { tasks = put id task q.tasks })
  put_task-Agree id task d q accepted same_id h =
      let (db', done, holds, _) =
        put_json-Holds bolt accepts buckets reliable tasks faithful tasks_bucket id task d.db
          q.tasks accepted h.holds in
      (
        db',
        done,
        record {
          holds = holds;
          same_now = h.same_now;
          distinct = put-HasDistinctKeys id task q.tasks h.distinct;
          named = put-Entries (λ k (t : ReplicationTask). t.id ≡ k) id task q.tasks same_id h.named;
        },
      )

  -- A value of the bucket is a value of the map.
  stored_as :
      (id : String) (raw : R) (d : DiskQueue B) (q : MemoryQueue)
      → Agree d q
      → bolt.get tasks_bucket id d.db ≡ some raw
      → (t : ReplicationTask) × (tasks.decode raw ≡ ok t) × (get id q.tasks ≡ some t)
  unfolding read_json
  stored_as id raw d q h there = decoding (tasks.decode raw) refl
    where
      decoding :
          (r : Result ReplicationTask)
          → tasks.decode raw ≡ r
          → (t : ReplicationTask) × (r ≡ ok t) × (get id q.tasks ≡ some t)
      decoding (ok t) e = (t, refl, ground (arith, h.holds id))
      decoding (err x) e = ground (arith, h.holds id)

  -- A key of the bucket is a key of the map.
  has-get :
      (id : String) (d : DiskQueue B) (q : MemoryQueue)
      → Agree d q
      → has id q.tasks ≡ elim (bolt.get tasks_bucket id d.db) [ none ↦ false | some _ ↦ true ]
  unfolding has read_json
  has-get id d q h = elim (Option-cases (bolt.get tasks_bucket id d.db)) [
    | inl absent ↦ ground (arith, h.holds id)
    | inr (raw, there) ↦ let (t, decodes, found) = stored_as id raw d q h there in ground arith
  ]

  pub enqueue_loop-Agree :
      (new : List ReplicationTask) (d : DiskQueue B) (q : MemoryQueue)
      → All (λ task. accepts task.id ≡ true) new
      → Agree d q
      → (db' : B) × (OnDisk.enqueue_loop bolt tasks new d.db ≡ ok db')
        × Agree (record d { db = db' }) (record q { tasks = Queue.enqueue_loop new q.tasks })
  unfolding OnDisk.enqueue_loop Queue.enqueue_loop
  enqueue_loop-Agree [] d q accepted h = (d.db, refl, h)
  enqueue_loop-Agree (task ∷ new) d q accepted h =
      let known = has-get task.id d q h in
      elim (Option-cases (bolt.get tasks_bucket task.id d.db)) [
        | inl absent ↦
            let (db₁, put_ok, after) = put_task-Agree task.id task d q accepted.0 refl h in
            let (db', done, agree) =
              enqueue_loop-Agree new (record d { db = db₁ })
                (record q { tasks = put task.id task q.tasks }) accepted.1 after in
            let fresh : has task.id q.tasks ≡ false = ground arith in
            (db', ground (arith, put_ok, done), rw fresh agree)
        | inr (raw, there) ↦
            let (db', done, agree) = enqueue_loop-Agree new d q accepted.1 h in
            let old : has task.id q.tasks ≡ true = ground arith in
            (db', ground (arith, done), rw old agree)
      ]

  refused-Related :
      {A : Type 0} (f : B → Result (A × B)) (e : Error) (d : DiskQueue B) (q : MemoryQueue)
      → f d.db ≡ err e
      → Agree d q
      → Related Agree (in_update bolt tasks f d) (err e, q)
  refused-Related f e d q h before = rw (reliable.update_err f e d.db h) (refl, before)

  pub update_task_related :
      (id : String) (change : ReplicationTask → ReplicationTask) (d : DiskQueue B) (q : MemoryQueue)
      → ((t : ReplicationTask) → (change t).id ≡ t.id)
      → Agree d q
      → Related Agree (OnDisk.update_task bolt tasks id change d) (Queue.update_task id change q)
  unfolding OnDisk.update_task Queue.update_task
  update_task_related id change d q keeps h = elim (Option-cases (bolt.get tasks_bucket id d.db)) [
    | inl absent ↦
        let lost : get id q.tasks ≡ none = unfold read_json in ground (arith, h.holds id) in
        rw (lost, Queue.update_task) (refused-Related _ task_not_found d q (ground arith) h)
    | inr (raw, there) ↦
        let (t, decodes, found) = stored_as id raw d q h there in
        let named = Entries-get (λ k (t : ReplicationTask). t.id ≡ k) id q.tasks h.named found in
        let (db', put_ok, after) =
          put_task-Agree id (change t) d q (reliable.accepted tasks_bucket id raw d.db there)
            (keeps t ∙ named) h in
        rw (found, Queue.update_task)
          (done-Related _ (change t) d db' (record q { tasks = put id (change t) q.tasks })
            (ground (arith, decodes, put_ok)) after)
  ]
