-- ===== src/Coordinator/Repair.antt =====
-- distributed-fs/coordinator.go: `PlanRepair` and the two repairs of one file.
pub mod Laws
use go_infra_lab.Common.{
  ℕ, ◌+◌, String, Bool, true, false, List, [], ◌∷◌, ◌++◌, ◌==◌, ◌||◌, if◌then◌else◌, length, leb, ℤ,
  pos, negsuc, Time,
}
use go_infra_lab.GoMap.{GoMap, has}
use go_infra_lab.Action.{Action, ok, err, pure, ◌>>=◌, ◌>>◌}
use go_infra_lab.Metadata.{
  NodeMetadata, ReplicaMetadata, ReplicaState, FileMetadata, healthy_replicas, is_replica_healthy,
}
use go_infra_lab.Replication.{ReplicationTask, copy_task}
use go_infra_lab.Backend.{MetadataBackend, ReplicationTaskQueue}
use package.go_infra_lab.Coordinator.{Coordinator, on_metadata, on_tasks}

-- `replicas[0].NodeID`, or "" if there is no healthy replica
unfoldable pub first_healthy_replica : FileMetadata → String
first_healthy_replica meta = elim (healthy_replicas meta) [
  | [] ↦ ""
  | replica ∷ rest ↦ replica.node_id
]

abbrev pub is_replica_deleted : ReplicaMetadata → Bool
is_replica_deleted replica = elim replica.state [ ReplicaState.deleted ↦ true | _ ↦ false ]

-- The loop of `repairExistingReplicas` over the entries of `meta.Replicas`.
unfoldable pub existing_loop :
    FileMetadata → String → Time → GoMap ReplicaMetadata → List ReplicationTask
existing_loop meta source now [] = []
existing_loop meta source now ((node_id, replica) ∷ rest) =
    let tasks = existing_loop meta source now rest in
    if node_id == source || is_replica_healthy replica || is_replica_deleted replica
    then tasks
    else copy_task meta source node_id now ∷ tasks

unfoldable pub repair_existing_replicas : FileMetadata → String → Time → List ReplicationTask
repair_existing_replicas meta source now = existing_loop meta source now meta.replicas

-- `n >= c.planner.ReplicaCount`
abbrev pub reaches : ℕ → ℤ → Bool
reaches n (pos count) = leb count n
reaches n (negsuc k) = true

module _ {S Q : Type 0} (mb : MetadataBackend S) (tq : ReplicationTaskQueue Q) where
  -- The loop of `repairMissingReplicas`; `tasks` are those built so far.
  unfoldable pub missing_loop :
      FileMetadata
      → String
      → List NodeMetadata
      → List ReplicationTask
      → Coordinator S Q
      → List ReplicationTask × Coordinator S Q
  missing_loop meta source [] tasks c = (tasks, c)
  missing_loop meta source (node ∷ rest) tasks c =
      elim (reaches (length meta.replicas + length tasks) c.planner.replica_count) [
        | true ↦ (tasks, c)
        | false ↦ elim (has node.id meta.replicas) [
          | true ↦ missing_loop meta source rest tasks c
          | false ↦
              let (added, c') =
                on_metadata (mb.add_replica meta.key node.id ReplicaState.pending) c in
              elim added [
                | err e ↦ missing_loop meta source rest tasks c'
                | ok meta' ↦
                    let task = copy_task meta source node.id (mb.now c'.metadata) in
                    missing_loop meta source rest (tasks ++ task ∷ []) c'
              ]
        ]
      ]

  unfoldable pub repair_missing_replicas :
      FileMetadata
      → String
      → List NodeMetadata
      → Coordinator S Q
      → List ReplicationTask × Coordinator S Q
  repair_missing_replicas meta source nodes c =
      if reaches (length meta.replicas) c.planner.replica_count
      then ([], c)
      else missing_loop meta source nodes [] c

  -- The loop of `PlanRepair` over the files.
  unfoldable pub repair_loop :
      List NodeMetadata
      → List FileMetadata
      → List ReplicationTask
      → Coordinator S Q
      → List ReplicationTask × Coordinator S Q
  repair_loop nodes [] tasks c = (tasks, c)
  repair_loop nodes (meta ∷ rest) tasks c =
      let source = first_healthy_replica meta in
      elim (meta.deleted || source == "") [
        | true ↦ repair_loop nodes rest tasks c
        | false ↦
            let existing = repair_existing_replicas meta source (mb.now c.metadata) in
            let (missing, c') = repair_missing_replicas meta source nodes c in
            repair_loop nodes rest ((tasks ++ existing) ++ missing) c'
      ]

  abbrev pub repair_files :
      List NodeMetadata → List FileMetadata → Action (Coordinator S Q) (List ReplicationTask)
  repair_files nodes files c = let (tasks, c') = repair_loop nodes files [] c in (ok tasks, c')

  unfoldable pub plan_repair : Action (Coordinator S Q) (List ReplicationTask)
  plan_repair = do
    nodes ← on_metadata mb.healthy_nodes
    elim nodes [
      | [] ↦ pure []
      | node ∷ others ↦ do
        files ← on_metadata mb.list_files
        tasks ← repair_files (node ∷ others) files
        on_tasks (tq.enqueue tasks)
        pure tasks
    ]
