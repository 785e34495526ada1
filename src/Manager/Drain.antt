-- ===== src/Manager/Drain.antt =====
-- distributed-fs/main.go: the inner loop of `managerLoop` ends.
use go_infra_lab.Common.{
  ℕ, zero, suc, ◌+◌, ◌<◌, String, Bool, true, false, Option, some, List, [], ◌∷◌, ◌≡◌, refl, ap,
  sym, subst, ◌∙◌, arith, if◌then◌else◌, All, count,
}
use go_infra_lab.GoMap.{GoMap, get, put, values}
use go_infra_lab.GoMap.Laws.{get-put_self}
use go_infra_lab.Action.{Error, Result, ok, err}
use go_infra_lab.Metadata.{MetadataStore}
use go_infra_lab.Replication.{ReplicationTask, ReplicationTaskState}
use go_infra_lab.Replication.Queue.{
  MemoryQueue, pending, is_ready, start_task, finish_task, update_task, mark_running, mark_done,
}
use go_infra_lab.Replication.Enqueue.{find_in}
use go_infra_lab.Replication.Order.{pending_lem}
use go_infra_lab.Replication.Lifecycle.{IsQueue, start, finish, apply, run, run-IsQueue}
use go_infra_lab.Backend.{memory_backend, memory_queue}
use go_infra_lab.Coordinator.{Coordinator, pending_tasks, start_replication, finish_replication}
use go_infra_lab.Worker.{
  ObjectReplicator, ReplicationWorker, WorkResult, finished, copy_failed, stopped, settle,
  run_first, work_once,
}
use go_infra_lab.Worker.Outcomes.{pending_found}
use go_infra_lab.Service.{Service, Environment}
use go_infra_lab.Service.Files.{run_replication_once, local_replicator}
use go_infra_lab.Objects.{ObjectStore}
use go_infra_lab.Staging.{TempFiles}
use package.go_infra_lab.Manager.{drain}

-- The tasks that are not done.
abbrev pub is_open : ReplicationTask → Bool
is_open task = elim task.state [ ReplicationTaskState.done ↦ false | _ ↦ true ]

abbrev pub open_tasks : MemoryQueue → ℕ
open_tasks q = count is_open (values q.tasks)

-- A changed task is counted for the one that it replaces.
count-put :
    (p : ReplicationTask → Bool) (id : String) (t t' : ReplicationTask) (m : GoMap ReplicationTask)
    → get id m ≡ some t
    → count p (values (put id t' m)) + (if p t then 1 else 0)
      ≡ count p (values m) + (if p t' then 1 else 0)
unfolding get put
count-put p id t t' [] found = ground arith
count-put p id t t' ((j, u) ∷ m) found = ground (arith, count-put p id t t' m)

open-update_task :
    (id : String) (change : ReplicationTask → ReplicationTask) (t : ReplicationTask)
    (q : MemoryQueue)
    → find_in id q ≡ some t
    → (find_in id (update_task id change q).1 ≡ some (change t))
      × (open_tasks (update_task id change q).1 + (if is_open t then 1 else 0)
          ≡ open_tasks q + (if is_open (change t) then 1 else 0))
unfolding update_task
open-update_task id change t q found =
    ground
      (arith, count-put is_open id t (change t) q.tasks found, get-put_self id (change t) q.tasks)

-- What starting and finishing a task do to the queue.
abbrev completed : String → MemoryQueue → MemoryQueue
completed id q = (mark_done id (mark_running id q).1).1

completed-IsQueue : (id : String) (q : MemoryQueue) → IsQueue q → IsQueue (completed id q)
unfolding run apply
completed-IsQueue id q h = run-IsQueue (start id ∷ finish id ∷ []) q h

open-completed :
    (id : String) (t : ReplicationTask) (q : MemoryQueue)
    → find_in id q ≡ some t
    → is_open t ≡ true
    → suc (open_tasks (completed id q)) ≡ open_tasks q
unfolding mark_running mark_done start_task finish_task
open-completed id t q found still_open =
    let started = open-update_task id (start_task q.now) t q found in
    let q' = (update_task id (start_task q.now) q).1 in
    let ended = open-update_task id (finish_task q'.now) (start_task q.now t) q' started.0 in
    ground (arith, started.1, ended.1)

module _ {O : Type 0} (replicator : ObjectReplicator O) where
  settled :
      (t task : ReplicationTask) (r : Result (Unit {0}) × O)
      (c : Coordinator MetadataStore MemoryQueue)
      → (settle memory_backend memory_queue replicator t r c).0 ≡ finished task
      → (settle memory_backend memory_queue replicator t r c).1.coordinator.tasks
        ≡ (mark_done t.id c.tasks).1
  unfolding settle finish_replication
  settled t task (ok _, o) c h = ground arith
  settled t task (err e, o) c h = ground arith

  started_lem :
      (t : ReplicationTask) (rest : List ReplicationTask)
      (w : ReplicationWorker MetadataStore MemoryQueue O)
      → find_in t.id w.coordinator.tasks ≡ some t
      → run_first memory_backend memory_queue replicator (ok (t ∷ rest)) w ≡ (
          let t' = start_task w.coordinator.tasks.now t in
          settle memory_backend memory_queue replicator t'
            (replicator.replicate t' w.objects)
            (record w.coordinator { tasks = (mark_running t.id w.coordinator.tasks).1 }))
  unfolding run_first start_replication mark_running update_task
  started_lem t rest w found = ground (arith, found)

  -- A copy that succeeded has completed one task of the queue.
  finished_lem :
      (task : ReplicationTask) (w : ReplicationWorker MetadataStore MemoryQueue O)
      → IsQueue w.coordinator.tasks
      → (work_once memory_backend memory_queue replicator w).0 ≡ finished task
      → (id : String) × (t : ReplicationTask) × (find_in id w.coordinator.tasks ≡ some t)
        × (is_open t ≡ true)
        × ((work_once memory_backend memory_queue replicator w).1.coordinator.tasks
            ≡ completed id w.coordinator.tasks)
  unfolding work_once run_first pending_tasks start_task
  finished_lem task w h ends = listed (pending w.coordinator.tasks) refl ends
    where
      listed :
          (ready : List ReplicationTask)
          → pending w.coordinator.tasks ≡ ready
          → (run_first memory_backend memory_queue replicator (ok ready) w).0 ≡ finished task
          → (id : String) × (t : ReplicationTask) × (find_in id w.coordinator.tasks ≡ some t)
            × (is_open t ≡ true)
            × ((run_first memory_backend memory_queue replicator
                  (ok (pending w.coordinator.tasks))
                  w).1.coordinator.tasks
                ≡ completed id w.coordinator.tasks)
      listed [] e bad = ground arith
      listed (t ∷ rest) e good =
          let q = w.coordinator.tasks in
          let found = (subst (All (λ x. find_in x.id q ≡ some x)) e (pending_found q h)).0 in
          let ready = (subst (All (λ x. is_ready q.now x ≡ true)) e (pending_lem q).1).0 in
          let t' = start_task q.now t in
          let c : Coordinator MetadataStore MemoryQueue = record w.coordinator {
            tasks = (mark_running t.id q).1;
          } in
          let same = started_lem t rest w found in
          let ends_so = ap (λ x. x.0) (sym same) ∙ good in
          let tasks = settled t' task (replicator.replicate t' w.objects) c ends_so in
          (
            t.id,
            t,
            found,
            ground (arith, ready),
            subst
                (λ l.
                  (run_first memory_backend memory_queue replicator (ok l) w).1.coordinator.tasks
                  ≡ completed t.id q)
                (sym e) (ap (λ x. x.1.coordinator.tasks) same ∙ tasks),
          )

module _ {O : Type 0} (store : ObjectStore O) (sha256 : List ℕ → String) (temp : TempFiles)
    (seek_error : ℕ → Option Error) where
  -- The service over the stores in memory.
  abbrev pub in_memory : Environment MetadataStore MemoryQueue O
  in_memory = record {
    metadata = memory_backend;
    queue = memory_queue;
    store = store;
    sha256 = sha256;
    temp = temp;
    seek_error = seek_error;
  }

  run_finished :
      (task : ReplicationTask) (s : Service MetadataStore MemoryQueue O)
      → IsQueue s.coordinator.tasks
      → (run_replication_once in_memory s).0 ≡ finished task
      → IsQueue (run_replication_once in_memory s).1.coordinator.tasks
        × (suc (open_tasks (run_replication_once in_memory s).1.coordinator.tasks)
            ≡ open_tasks s.coordinator.tasks)
  unfolding run_replication_once
  run_finished task s h ends =
      let q = s.coordinator.tasks in
      let w : ReplicationWorker MetadataStore MemoryQueue O = record {
        coordinator = s.coordinator;
        objects = s.objects;
      } in
      let (id, t, found, still_open, tasks) =
        finished_lem (local_replicator in_memory) task w h ends in
      subst (λ (x : MemoryQueue). IsQueue x × (suc (open_tasks x) ≡ open_tasks q)) (sym tasks)
        (completed-IsQueue id q h, open-completed id t q found still_open)

  -- Over the stores in memory, in a queue that keeps the life cycle, the inner loop of
  -- `managerLoop` ends with the error of some call: it makes at most as many successful calls as
  -- there are tasks that are not done, whatever the object store does.
  pub drain_ends :
      (fuel : ℕ) (s : Service MetadataStore MemoryQueue O)
      → IsQueue s.coordinator.tasks
      → open_tasks s.coordinator.tasks < fuel
      → (e : Error) × (s' : Service MetadataStore MemoryQueue O) × (drain in_memory fuel s
          ≡ some (e, s'))
  unfolding drain
  drain_ends zero s h enough = let absurd : ⊥ = omega arith in elim absurd [ ]
  drain_ends (suc fuel) s h enough =
      ended (λ s₁ h₁ fewer. drain_ends fuel s₁ h₁ fewer) (run_replication_once in_memory s).0 refl
    where
      ended :
          ((s₁ : Service MetadataStore MemoryQueue O)
            → IsQueue s₁.coordinator.tasks
            → open_tasks s₁.coordinator.tasks < fuel
            → (e : Error) × (s' : Service MetadataStore MemoryQueue O) × (drain in_memory fuel s₁
                ≡ some (e, s')))
          → (result : WorkResult) → (run_replication_once in_memory s).0 ≡ result
          → (e : Error) × (s' : Service MetadataStore MemoryQueue O) × (drain in_memory (suc fuel) s
              ≡ some (e, s'))
      ended again (finished task) ends =
          let s₁ = (run_replication_once in_memory s).1 in
          let after = run_finished task s h ends in
          let (e, s', stops) = again s₁ after.0 (omega (arith, after.1)) in
          (e, s', rw (ends, drain) stops)
      ended again (copy_failed task e) ends =
          (e, (run_replication_once in_memory s).1, ground (arith, ends))
      ended again (stopped e) ends = (e, (run_replication_once in_memory s).1, ground (arith, ends))
