-- ===== src/Replication/Enqueue.antt =====
-- distributed-fs/replication.go: what `Enqueue`, the marks and `RequeueExpiredRunning` do to the
-- tasks that later calls find in the queue.
use mathlib.Core.List.{Perm}
use go_infra_lab.Sorting.{sort_slice-perm}
use go_infra_lab.Common.{
  String, true, false, Option, none, some, List, [], ◌∷◌, ◌≡◌, refl, arith, ◌==◌, eq_iff,
  if◌then◌else◌, Bool, not, ◌&&◌, eqb, leb, at_least, All, Time, Bool-cases, inl, inr, map, filter,
  ap, eq_refl,
}
use go_infra_lab.GoMap.{GoMap, get, put, has, values}
use go_infra_lab.GoMap.Laws.{get-put}
use go_infra_lab.Action.{ok, err, task_not_found}
use package.go_infra_lab.Replication.{
  ReplicationTask, ReplicationTaskState, expire_replication_task, sort_replication_tasks, task_less,
}
use package.go_infra_lab.Replication.Queue.{
  MemoryQueue, enqueue_loop, enqueue, update_task, lease_expired, requeue_loop,
  requeue_expired_running,
}

-- The first task with an ID.
abbrev pub find_task : String → List ReplicationTask → Option ReplicationTask
find_task id [] = none
find_task id (t ∷ ts) = if t.id == id then some t else find_task id ts

abbrev pub find_in : String → MemoryQueue → Option ReplicationTask
find_in id q = get id q.tasks

get-enqueue_loop :
    (ts : List ReplicationTask) (m : GoMap ReplicationTask) (id : String)
    → get id (enqueue_loop ts m) ≡ elim (get id m) [ some t ↦ some t | none ↦ find_task id ts ]
unfolding enqueue_loop has
get-enqueue_loop [] m id = ground arith
get-enqueue_loop (t ∷ ts) m id = ground (
  arith,
  get-enqueue_loop ts (if has t.id m then m else put t.id t m) id,
  get-put t.id id t m,
  eq_iff t.id id,
)

-- `Enqueue` never replaces a task: a task that is in the queue under an ID stays as it is, whatever
-- its state, and a new ID gets the first of the tasks that carry it.
pub find-enqueue :
    (ts : List ReplicationTask) (q : MemoryQueue) (id : String)
    → find_in id (enqueue ts q) ≡ elim (find_in id q) [ some t ↦ some t | none ↦ find_task id ts ]
unfolding enqueue
find-enqueue ts q id = get-enqueue_loop ts q.tasks id

present_of_find :
    (ts : List ReplicationTask) (m : GoMap ReplicationTask)
    → All (λ t. has t.id m ≡ true) ts
    → enqueue_loop ts m ≡ m
unfolding enqueue_loop
present_of_find [] m h = refl
present_of_find (t ∷ ts) m h = rw h.0 (present_of_find ts m h.1)

every_present :
    (ts : List ReplicationTask) (m : GoMap ReplicationTask)
    → All (λ t. has t.id (enqueue_loop ts m) ≡ true) ts
unfolding enqueue_loop has
every_present [] m = tt
every_present (t ∷ ts) m =
    let m' = if has t.id m then m else put t.id t m in
    (
      ground (arith, get-enqueue_loop ts m' t.id, get-put t.id t.id t m, eq_refl t.id),
      every_present ts m',
    )

-- Offering the same tasks a second time changes nothing.
pub enqueue_twice :
    (ts : List ReplicationTask) (q : MemoryQueue) → enqueue ts (enqueue ts q) ≡ enqueue ts q
unfolding enqueue
enqueue_twice ts q =
    ap (λ m. record q { tasks = m })
      (present_of_find ts (enqueue_loop ts q.tasks) (every_present ts q.tasks))

-- The three marks change the task with the given ID and no other; without such a task they report
-- it and leave the queue as it was.
pub find-update_task :
    (id : String) (change : ReplicationTask → ReplicationTask) (q : MemoryQueue) (j : String)
    → let (r, q') = update_task id change q in
      (r ≡ elim (find_in id q) [ none ↦ err task_not_found | some t ↦ ok (change t) ])
      × (find_in j q' ≡ (
          if id == j
          then (elim (find_in id q) [ none ↦ none | some t ↦ some (change t) ])
          else find_in j q))
unfolding update_task
find-update_task id change q j = grind (arith, get-put, eq_iff id j)

pub get-requeue_loop :
    (now : Time) (m : GoMap ReplicationTask) (id : String)
    → get id (requeue_loop now m).0 ≡ elim (get id m) [
      | none ↦ none
      | some t ↦ some (if lease_expired now t then expire_replication_task t now else t)
    ]
unfolding requeue_loop get
get-requeue_loop now [] id = refl
get-requeue_loop now ((j, t) ∷ m) id = ground (arith, get-requeue_loop now m id)

-- A running task with a lease that has run out.
abbrev pub is_overdue : Time → ReplicationTask → Bool
is_overdue now task = elim task.state [
  | ReplicationTaskState.pending ↦ false
  | ReplicationTaskState.running ↦ not (eqb task.lease_until 0) && leb task.lease_until now
  | ReplicationTaskState.done ↦ false
  | ReplicationTaskState.failed ↦ false
  | ReplicationTaskState.dead ↦ false
]

-- An overdue task once it was requeued: pending and ready at once, or dead after five attempts.
abbrev pub recovered : Time → ReplicationTask → ReplicationTask
recovered now task = record task {
  lease_until = 0;
  last_error = "replication task lease expired";
  state =
      if at_least 5 task.attempts then ReplicationTaskState.dead else ReplicationTaskState.pending;
  run_after = if at_least 5 task.attempts then 0 else now;
  updated_at = now;
}

lease_expired_overdue : (now : Time) (t : ReplicationTask) → lease_expired now t ≡ is_overdue now t
unfolding lease_expired
lease_expired_overdue now t = ground arith

pub expire_recovered :
    (now : Time) (t : ReplicationTask) → expire_replication_task t now ≡ recovered now t
unfolding expire_replication_task
expire_recovered now t = ground arith

pub find-requeue_expired_running :
    (q : MemoryQueue) (id : String)
    → find_in id (requeue_expired_running q).1 ≡ elim (find_in id q) [
      | none ↦ none
      | some t ↦ some (if is_overdue q.now t then recovered q.now t else t)
    ]
unfolding requeue_expired_running
find-requeue_expired_running q id =
    grind (arith, get-requeue_loop, lease_expired_overdue, expire_recovered)

requeued-recovered :
    (now : Time) (m : GoMap ReplicationTask)
    → (requeue_loop now m).1 ≡ map (recovered now) (filter (is_overdue now) (values m))
unfolding requeue_loop
requeued-recovered now [] = refl
requeued-recovered now ((j, t) ∷ m) =
    ground (arith, requeued-recovered now m, lease_expired_overdue now t, expire_recovered now t)

none_overdue :
    (now : Time) (m : GoMap ReplicationTask)
    → All (λ t. is_overdue now t ≡ false) (values (requeue_loop now m).0)
unfolding requeue_loop expire_replication_task
none_overdue now [] = tt
none_overdue now ((j, t) ∷ m) = elim (Bool-cases (lease_expired now t)) [
  | inl old ↦ rw old (ground arith, none_overdue now m)
  | inr fresh ↦ rw fresh (ground (arith, lease_expired_overdue now t), none_overdue now m)
]

-- `RequeueExpiredRunning` makes every running task whose lease has run out pending and ready at
-- once, or dead if it has used its five attempts, without a lease, and changes no other; it returns
-- the tasks that it changed; and afterwards no task in the queue is running with a lease that has
-- run out.
pub requeue_expired_running_lem :
    (q : MemoryQueue) (id : String)
    → let (requeued, q') = requeue_expired_running q in
      (find_in id q' ≡ elim (find_in id q) [
        | none ↦ none
        | some t ↦ some (if is_overdue q.now t then recovered q.now t else t)
      ])
      × Perm requeued (map (recovered q.now) (filter (is_overdue q.now) (values q.tasks)))
      × All (λ t. is_overdue q.now t ≡ false) (values q'.tasks)
unfolding requeue_expired_running sort_replication_tasks
requeue_expired_running_lem q id = (
  find-requeue_expired_running q id,
  rw (← requeued-recovered q.now q.tasks) (sort_slice-perm task_less _),
  none_overdue q.now q.tasks,
)
