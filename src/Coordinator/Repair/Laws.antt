-- ===== src/Coordinator/Repair/Laws.antt =====
-- distributed-fs/coordinator.go: which copies the repairs ask for, over any metadata backend.
use go_infra_lab.Common.{
  ℕ, suc, ◌+◌, ◌-◌, ◌≤◌, String, Bool, false, some, List, [], ◌∷◌, ◌++◌, ◌≡◌, ◌∙◌, ◌⊎◌, inl, inr,
  refl, arith, ◌==◌, ◌||◌, ◌&&◌, not, length, filter, map, All, All-append, Time, ℤ, pos, negsuc,
  Bool-cases, length-append,
}
use go_infra_lab.GoMap.{GoMap, has, keys}
use go_infra_lab.Action.{Error, Result, ok, err}
use go_infra_lab.Metadata.{NodeMetadata, ReplicaMetadata, ReplicaState, FileMetadata}
use go_infra_lab.Replication.{ReplicationTask, copy_task}
use go_infra_lab.Replication.Tasks.{IsCopyOf, copy_task-IsCopyOf, is_behind}
use go_infra_lab.Replication.Queue.{MemoryQueue}
use go_infra_lab.Replication.Enqueue.{find_in, find-enqueue}
use go_infra_lab.Backend.{MetadataBackend, ReplicationTaskQueue, memory_queue}
use go_infra_lab.Coordinator.{Coordinator}
use package.go_infra_lab.Coordinator.Repair.{
  existing_loop, repair_existing_replicas, reaches, missing_loop, repair_missing_replicas,
  first_healthy_replica, repair_loop, plan_repair,
}

-- A replica that a repair copies again: neither the source, nor healthy, nor deleted.
abbrev pub needs_repair : String → String × ReplicaMetadata → Bool
needs_repair source (node_id, replica) = not (node_id == source) && is_behind replica.state

existing_loop_lem :
    (meta : FileMetadata) (source : String) (now : Time) (m : GoMap ReplicaMetadata)
    → map (λ (t : ReplicationTask). t.target) (existing_loop meta source now m)
      ≡ keys (filter (needs_repair source) m)
unfolding existing_loop copy_task
existing_loop_lem meta source now [] = refl
existing_loop_lem meta source now ((id, r) ∷ m) =
    ground (arith, existing_loop_lem meta source now m)

existing_loop-IsCopyOf :
    (meta : FileMetadata) (source : String) (now : Time) (m : GoMap ReplicaMetadata)
    → All (IsCopyOf meta source now) (existing_loop meta source now m)
unfolding existing_loop
existing_loop-IsCopyOf meta source now [] = tt
existing_loop-IsCopyOf meta source now ((id, r) ∷ m) =
    grind (arith, copy_task-IsCopyOf meta source id now, existing_loop-IsCopyOf meta source now m)

-- `repairExistingReplicas` asks for exactly one untried copy of the recorded version, with its
-- checksum and chunks, from the source, to each node other than the source whose replica is neither
-- healthy nor deleted, in the order in which it visits the replicas.
pub repair_existing_replicas_lem :
    (meta : FileMetadata) (source : String) (now : Time)
    → All (IsCopyOf meta source now) (repair_existing_replicas meta source now)
      × (map (λ (t : ReplicationTask). t.target) (repair_existing_replicas meta source now)
          ≡ keys (filter (needs_repair source) meta.replicas))
unfolding repair_existing_replicas
repair_existing_replicas_lem meta source now = (
  existing_loop-IsCopyOf meta source now meta.replicas,
  existing_loop_lem meta source now meta.replicas,
)

-- A copy of the current version of a file from the source to a node without a replica of it.
pub record IsNewCopy (meta : FileMetadata) (source : String) (t : ReplicationTask) : Type 0 where
  pub from_source : t.source ≡ source
  pub of_version : t.version ≡ meta.version
  pub of_key : t.key ≡ meta.key
  pub to_new_node : has t.target meta.replicas ≡ false

copy_task-IsNewCopy :
    (meta : FileMetadata) (source target : String) (now : Time)
    → has target meta.replicas ≡ false
    → IsNewCopy meta source (copy_task meta source target now)
unfolding copy_task
copy_task-IsNewCopy meta source target now absent = record {
  from_source = refl;
  of_version = refl;
  of_key = refl;
  to_new_node = absent;
}

-- How many replicas are missing from the replica count.
abbrev pub room : ℤ → ℕ → ℕ
room (pos count) n = count - n
room (negsuc k) n = 0

-- The tasks and the coordinator that a repair of a file leaves: new copies, no more than there is
-- room for, and nothing queued yet.
pub record IsRepair {S Q : Type 0} (meta : FileMetadata) (source : String) (c : Coordinator S Q)
    (r : List ReplicationTask × Coordinator S Q) : Type 0 where
  pub new_copies : All (IsNewCopy meta source) r.0
  pub bounded : length r.0 ≤ room c.planner.replica_count (length meta.replicas)
  pub queue_kept : r.1.tasks ≡ c.tasks
  pub planner_kept : r.1.planner ≡ c.planner

room_left : (count : ℤ) (n k : ℕ) → reaches (n + k) count ≡ false → suc k ≤ room count n
room_left (pos count) n k h = ground arith
room_left (negsuc j) n k h = cc

Result-cases {ℓ} :
    {A : Type ℓ} (r : Result A) → ((e : Error) × (r ≡ err e)) ⊎ ((a : A) × (r ≡ ok a))
Result-cases (ok a) = inr (a, refl)
Result-cases (err e) = inl (e, refl)

module _ {S Q : Type 0} (mb : MetadataBackend S) (tq : ReplicationTaskQueue Q) (meta : FileMetadata)
    (source : String) where
  missing_loop_lem :
      (nodes : List NodeMetadata) (ts : List ReplicationTask) (c : Coordinator S Q)
      → All (IsNewCopy meta source) ts
      → length ts ≤ room c.planner.replica_count (length meta.replicas)
      → IsRepair meta source c (missing_loop mb tq meta source nodes ts c)
  unfolding missing_loop
  missing_loop_lem [] ts c new fits = record {
    new_copies = new;
    bounded = fits;
    queue_kept = refl;
    planner_kept = refl;
  }
  missing_loop_lem (node ∷ rest) ts c new fits =
      elim (Bool-cases (reaches (length meta.replicas + length ts) c.planner.replica_count)) [
        | inl full ↦
            rw (full, missing_loop)
              (record { new_copies = new; bounded = fits; queue_kept = refl; planner_kept = refl })
        | inr free ↦ elim (Bool-cases (has node.id meta.replicas)) [
          | inl held ↦
              rw (free, missing_loop)
                (rw (held, missing_loop) (missing_loop_lem rest ts c new fits))
          | inr absent ↦
              let call = mb.add_replica meta.key node.id ReplicaState.pending c.metadata in
              let c' : Coordinator S Q = record c { metadata = call.1 } in
              let task = copy_task meta source node.id (mb.now c'.metadata) in
              let more = ts ++ task ∷ [] in
              let unchanged = missing_loop_lem rest ts c' new fits in
              let extended =
                missing_loop_lem rest more c'
                  (All-append (IsNewCopy meta source) ts (task ∷ []) new
                    (copy_task-IsNewCopy meta source node.id (mb.now c'.metadata) absent, tt))
                  (omega (
                    arith,
                    length-append ts (task ∷ []),
                    room_left c.planner.replica_count (length meta.replicas) (length ts) free,
                  )) in
              elim (Result-cases call.0) [
                | inl (e, failed) ↦
                    rw (free, missing_loop)
                      (rw (absent, missing_loop) (rw (failed, missing_loop) (weaken unchanged)))
                | inr (added, done) ↦
                    rw (free, missing_loop)
                      (rw (absent, missing_loop) (rw (done, missing_loop) (weaken extended)))
              ]
        ]
      ]
    where
      weaken :
          {s : S} {r : List ReplicationTask × Coordinator S Q}
          → IsRepair meta source (record c { metadata = s }) r
          → IsRepair meta source c r
      weaken h = record {
        new_copies = h.new_copies;
        bounded = h.bounded;
        queue_kept = h.queue_kept;
        planner_kept = h.planner_kept;
      }

  -- `repairMissingReplicas` asks for copies of the current version from the source, only to nodes
  -- that have no replica of the file, and never for more replicas than the replica count; it does
  -- not touch the queue. This holds for every metadata backend, also one that fails.
  pub repair_missing_replicas-IsRepair :
      (nodes : List NodeMetadata) (c : Coordinator S Q)
      → IsRepair meta source c (repair_missing_replicas mb tq meta source nodes c)
  unfolding repair_missing_replicas
  repair_missing_replicas-IsRepair nodes c =
      elim (Bool-cases (reaches (length meta.replicas) c.planner.replica_count)) [
        | inl full ↦ rw full (record {
          new_copies = tt;
          bounded = omega arith;
          queue_kept = refl;
          planner_kept = refl;
        })
        | inr free ↦ rw free (missing_loop_lem nodes [] c tt (omega arith))
      ]

-- The loop over the files leaves the queue alone.
tasks-repair_loop :
    {S Q : Type 0} (mb : MetadataBackend S) (tq : ReplicationTaskQueue Q)
    (nodes : List NodeMetadata) (files : List FileMetadata) (ts : List ReplicationTask)
    (c : Coordinator S Q)
    → (repair_loop mb tq nodes files ts c).1.tasks ≡ c.tasks
unfolding repair_loop
tasks-repair_loop mb tq nodes [] ts c = refl
tasks-repair_loop mb tq nodes (meta ∷ rest) ts c =
    let source = first_healthy_replica meta in
    elim (Bool-cases (meta.deleted || source == "")) [
      | inl skipped ↦ rw (skipped, repair_loop) (tasks-repair_loop mb tq nodes rest ts c)
      | inr scanned ↦
          let existing = repair_existing_replicas meta source (mb.now c.metadata) in
          let r = repair_missing_replicas mb tq meta source nodes c in
          rw (scanned, repair_loop)
            (tasks-repair_loop mb tq nodes rest ((ts ++ existing) ++ r.0) r.1
              ∙ (repair_missing_replicas-IsRepair mb tq meta source nodes c).queue_kept)
    ]

-- A repair never revives a task: a task that is in the queue under some ID, done or dead for
-- example, is still there unchanged after `PlanRepair`.
pub find-plan_repair :
    {S : Type 0} (mb : MetadataBackend S) (c : Coordinator S MemoryQueue) (id : String)
    (old : ReplicationTask)
    → find_in id c.tasks ≡ some old
    → find_in id (plan_repair mb memory_queue c).1.tasks ≡ some old
unfolding plan_repair
find-plan_repair mb c id old queued = grind (arith, tasks-repair_loop, find-enqueue)
