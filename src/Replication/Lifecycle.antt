-- ===== src/Replication/Lifecycle.antt =====
-- distributed-fs/replication.go: the life cycle of the tasks in a `MemoryReplicationTaskQueue`,
-- over any sequence of calls.
use go_infra_lab.Sorting.Unique.{count-sort_slice}
use go_infra_lab.Common.{
  ◌<◌, ◌==◌, sym, eq_refl, pos, count, filter, ℕ, ◌+◌, ◌≤◌, String, true, Option, some, List, [],
  ◌∷◌, ◌≡◌, refl, arith, All, All-map_of_forall, map, Time, zero_time, at_least, Bool-cases,
  Option-cases, inl, inr, subst,
}
use go_infra_lab.GoMap.{GoMap, get, put, has, HasDistinctKeys, Entries, values}
use go_infra_lab.GoMap.Laws.{put-HasDistinctKeys, put-Entries, Entries-get}
use go_infra_lab.Action.{Error}
use go_infra_lab.Metadata.{FileMetadata}
use package.go_infra_lab.Replication.{
  ReplicationTask, ReplicationTaskState, task_lease, max_attempts, fail_replication_task,
  expire_replication_task, copy_task, ready_to_run, task_less, sort_replication_tasks,
}
use package.go_infra_lab.Replication.Queue.{
  MemoryQueue, new_memory_queue, enqueue_loop, enqueue, start_task, finish_task, update_task,
  mark_running, mark_done, mark_failed, pending, is_ready, lease_expired, requeue_loop,
  requeue_expired_running,
}
use package.go_infra_lab.Replication.Enqueue.{
  find_in, get-requeue_loop, find-requeue_expired_running,
}

-- What is known of a task by its state. A running task always holds a lease; a pending one holds
-- none; one that is done or dead is never delayed, and a dead one has used its attempts. Nothing is
-- ever marked failed: a failed copy goes back to pending or is dead.
abbrev pub InState : ReplicationTaskState → ReplicationTask → Type 0
InState ReplicationTaskState.pending t = t.lease_until ≡ zero_time
InState ReplicationTaskState.running t = t.lease_until ≡ t.updated_at + task_lease
InState ReplicationTaskState.done t = (t.lease_until ≡ zero_time) × (t.run_after ≡ zero_time)
InState ReplicationTaskState.failed t = ⊥
InState ReplicationTaskState.dead t =
    (t.lease_until ≡ zero_time)
    × (t.run_after ≡ zero_time)
    × (at_least max_attempts t.attempts ≡ true)

pub record IsTaskAt (id : String) (t : ReplicationTask) : Type 0 where
  pub named : t.id ≡ id
  pub in_state : InState t.state t

pub record IsQueue (q : MemoryQueue) : Type 0 where
  pub distinct : HasDistinctKeys q.tasks
  pub tasks_ok : Entries IsTaskAt q.tasks

-- A task as the program builds it, before it is queued.
abbrev IsNew : ReplicationTask → Type 0
IsNew t = IsTaskAt t.id t

copy_task-IsNew :
    (meta : FileMetadata) (source target : String) (now : Time)
    → IsNew (copy_task meta source target now)
unfolding copy_task
copy_task-IsNew meta source target now = record { named = refl; in_state = refl }

-- The file, source, target and time of a copy task: the coordinator queues no other tasks.
pub record Copy : Type 0 where
  pub meta : FileMetadata
  pub source : String
  pub target : String
  pub made : Time

abbrev pub queued_task : Copy → ReplicationTask
queued_task c = copy_task c.meta c.source c.target c.made

pub data Call : Type 0 where
  offer : List Copy → Call
  start : String → Call
  finish : String → Call
  abort : String → Option Error → Call
  requeue : Call
  tick : ℕ → Call

unfoldable pub apply : Call → MemoryQueue → MemoryQueue
apply (offer copies) q = enqueue (map queued_task copies) q
apply (start id) q = (mark_running id q).1
apply (finish id) q = (mark_done id q).1
apply (abort id cause) q = (mark_failed id cause q).1
apply requeue q = (requeue_expired_running q).1
apply (tick d) q = record q { now = q.now + d }

unfoldable pub run : List Call → MemoryQueue → MemoryQueue
run [] q = q
run (c ∷ cs) q = run cs (apply c q)

start-IsTaskAt :
    {id : String} (now : Time) (t : ReplicationTask)
    → IsTaskAt id t
    → IsTaskAt id (start_task now t)
unfolding start_task
start-IsTaskAt now t h = record { named = h.named; in_state = refl }

finish-IsTaskAt :
    {id : String} (now : Time) (t : ReplicationTask)
    → IsTaskAt id t
    → IsTaskAt id (finish_task now t)
unfolding finish_task
finish-IsTaskAt now t h = record { named = h.named; in_state = (refl, refl) }

fail-IsTaskAt :
    {id : String} (now : Time) (cause : Option Error) (t : ReplicationTask)
    → IsTaskAt id t
    → IsTaskAt id (fail_replication_task t now cause)
unfolding fail_replication_task
fail-IsTaskAt now cause t h = elim (Bool-cases (at_least max_attempts t.attempts)) [
  | inl last ↦ rw last (record { named = h.named; in_state = (refl, refl, last) })
  | inr again ↦ rw again (record { named = h.named; in_state = refl })
]

expire-IsTaskAt :
    {id : String} (now : Time) (t : ReplicationTask)
    → IsTaskAt id t
    → IsTaskAt id (expire_replication_task t now)
unfolding expire_replication_task
expire-IsTaskAt now t h = elim (Bool-cases (at_least max_attempts t.attempts)) [
  | inl last ↦ rw last (record { named = h.named; in_state = (refl, refl, last) })
  | inr again ↦ rw again (record { named = h.named; in_state = refl })
]

update-IsQueue :
    (id : String) (change : ReplicationTask → ReplicationTask) (q : MemoryQueue)
    → ((t : ReplicationTask) → IsTaskAt id t → IsTaskAt id (change t))
    → IsQueue q
    → IsQueue (update_task id change q).1
unfolding update_task
update-IsQueue id change q keep h = elim (Option-cases (get id q.tasks)) [
  | inl absent ↦ rw (absent, update_task) h
  | inr (t, found) ↦
      rw (found, update_task)
        (record {
          distinct = put-HasDistinctKeys id (change t) q.tasks h.distinct;
          tasks_ok =
              put-Entries IsTaskAt id (change t) q.tasks
                (keep t (Entries-get IsTaskAt id q.tasks h.tasks_ok found)) h.tasks_ok;
        })
]

enqueue_loop-IsQueue :
    (ts : List ReplicationTask) (q : MemoryQueue)
    → All IsNew ts
    → IsQueue q
    → IsQueue (record q { tasks = enqueue_loop ts q.tasks })
unfolding enqueue_loop
enqueue_loop-IsQueue [] q new h = h
enqueue_loop-IsQueue (t ∷ ts) q new h = elim (Bool-cases (has t.id q.tasks)) [
  | inl known ↦ rw known (enqueue_loop-IsQueue ts q new.1 h)
  | inr fresh ↦ rw fresh (
      enqueue_loop-IsQueue ts (record q { tasks = put t.id t q.tasks }) new.1
        (record {
          distinct = put-HasDistinctKeys t.id t q.tasks h.distinct;
          tasks_ok = put-Entries IsTaskAt t.id t q.tasks new.0 h.tasks_ok;
        }))
]

pub requeue_loop-distinct :
    (now : Time) (m : GoMap ReplicationTask)
    → HasDistinctKeys m
    → HasDistinctKeys (requeue_loop now m).0
unfolding requeue_loop
requeue_loop-distinct now [] h = tt
requeue_loop-distinct now ((id, t) ∷ m) h =
    ground (arith, get-requeue_loop now m id, requeue_loop-distinct now m)

requeue_loop-Entries :
    (now : Time) (m : GoMap ReplicationTask)
    → Entries IsTaskAt m
    → Entries IsTaskAt (requeue_loop now m).0
unfolding requeue_loop
requeue_loop-Entries now [] h = tt
requeue_loop-Entries now ((id, t) ∷ m) h = elim (Bool-cases (lease_expired now t)) [
  | inl old ↦ rw old (expire-IsTaskAt now t h.0, requeue_loop-Entries now m h.1)
  | inr fresh ↦ rw fresh (h.0, requeue_loop-Entries now m h.1)
]

apply-IsQueue : (c : Call) (q : MemoryQueue) → IsQueue q → IsQueue (apply c q)
unfolding apply enqueue mark_running mark_done mark_failed requeue_expired_running
apply-IsQueue (offer copies) q h =
    enqueue_loop-IsQueue (map queued_task copies) q
      (All-map_of_forall IsNew queued_task (λ c. copy_task-IsNew c.meta c.source c.target c.made)
        copies)
      h
apply-IsQueue (start id) q h = update-IsQueue id _ q (start-IsTaskAt q.now) h
apply-IsQueue (finish id) q h = update-IsQueue id _ q (finish-IsTaskAt q.now) h
apply-IsQueue (abort id cause) q h = update-IsQueue id _ q (fail-IsTaskAt q.now cause) h
apply-IsQueue requeue q h = record {
  distinct = requeue_loop-distinct q.now q.tasks h.distinct;
  tasks_ok = requeue_loop-Entries q.now q.tasks h.tasks_ok;
}
apply-IsQueue (tick d) q h = record { distinct = h.distinct; tasks_ok = h.tasks_ok }

-- Any sequence of calls keeps the life cycle: every task stands under its own ID, a running task
-- holds a lease, no other does, a dead task has used its attempts, and no task is ever in state
-- failed.
pub run-IsQueue : (cs : List Call) (q : MemoryQueue) → IsQueue q → IsQueue (run cs q)
unfolding run
run-IsQueue [] q h = h
run-IsQueue (c ∷ cs) q h = run-IsQueue cs (apply c q) (apply-IsQueue c q h)

pub new-IsQueue : (now : Time) → IsQueue (new_memory_queue now)
unfolding new_memory_queue
new-IsQueue now = record { distinct = tt; tasks_ok = tt }

-- A ready task in the queue is among those that `Pending` returns.
offered :
    (now : Time) (id : String) (t : ReplicationTask) (m : GoMap ReplicationTask)
    → get id m ≡ some t
    → t.id ≡ id
    → is_ready now t ≡ true
    → 0 < count (λ x. x.id == id) (filter (is_ready now) (values m))
unfolding get
offered now id t [] found named ready = absurd (ground arith)
offered now id t ((j, x) ∷ m) found named ready = elim (Bool-cases (j == id)) [
  | inl here ↦
      let same : x ≡ t = ground arith in
      subst (λ y. 0 < count (λ x. x.id == id) (filter (is_ready now) (values ((j, y) ∷ m))))
        (sym same) (ground (arith, eq_refl id))
  | inr other ↦ ground (arith, offered now id t m (ground arith) named ready)
]

-- No copy is lost with its worker: in a queue that keeps the life cycle, `RequeueExpiredRunning`
-- makes a running task whose lease time has passed pending again, without lease or delay, if it has
-- had fewer than five attempts; and `Pending` then offers it.
pub running_recovers :
    (q : MemoryQueue) (id : String) (t : ReplicationTask) (n : ℕ)
    → IsQueue q
    → find_in id q ≡ some t
    → t.state ≡ ReplicationTaskState.running
    → t.lease_until ≤ q.now
    → t.attempts ≡ pos n
    → n < 5
    → let q' = (requeue_expired_running q).1 in
      (find_in id q'
        ≡ some (record t {
          state = ReplicationTaskState.pending;
          lease_until = 0;
          run_after = q.now;
          last_error = "replication task lease expired";
          updated_at = q.now;
        }))
      × (0 < count (λ x. x.id == id) (pending q'))
unfolding pending sort_replication_tasks ready_to_run requeue_expired_running
running_recovers q id t n h found running over tried few =
    let good = Entries-get IsTaskAt id q.tasks h.tasks_ok found in
    let lease : t.lease_until ≡ t.updated_at + task_lease =
      subst (λ s. InState s t) running good.in_state in
    let again : ReplicationTask = record t {
      state = ReplicationTaskState.pending;
      lease_until = 0;
      run_after = q.now;
      last_error = "replication task lease expired";
      updated_at = q.now;
    } in
    let there : find_in id (requeue_expired_running q).1 ≡ some again =
      ground (arith, find-requeue_expired_running q id) in
    let some_offered =
      offered q.now id again (requeue_loop q.now q.tasks).0 there good.named (ground arith) in
    (there, rw (count-sort_slice task_less (λ (x : ReplicationTask). x.id == id)) some_offered)
