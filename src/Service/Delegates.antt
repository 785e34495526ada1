-- ===== src/Service/Delegates.antt =====
-- distributed-fs/managed_file_service.go: the methods that only pass a call on.
use go_infra_lab.Common.{String, Option, List, ℤ}
use go_infra_lab.Action.{Action}
use go_infra_lab.Metadata.{NodeMetadata, FileMetadata}
use go_infra_lab.Replication.{ReplicationTask}
use go_infra_lab.Coordinator
use go_infra_lab.Coordinator.Repair
use go_infra_lab.Coordinator.{on_metadata}
use package.go_infra_lab.Service.{Service, Environment, on_coordinator}

module _ {S Q O : Type 0} (env : Environment S Q O) where
  open env use {metadata as mb, queue as tq}

  unfoldable pub register_node : String → String → Action (Service S Q O) NodeMetadata
  register_node id addr = on_coordinator (Coordinator.register_node mb tq id addr)

  unfoldable pub metadata_of : String → Action (Service S Q O) (Option FileMetadata)
  metadata_of key = on_coordinator (on_metadata (mb.get_file key))

  unfoldable pub plan_repair : Action (Service S Q O) (List ReplicationTask)
  plan_repair = on_coordinator (Repair.plan_repair mb tq)

  unfoldable pub requeue_expired_replication_tasks : Action (Service S Q O) (List ReplicationTask)
  requeue_expired_replication_tasks =
      on_coordinator (Coordinator.requeue_expired_replication_tasks mb tq)

  unfoldable pub mark_expired_nodes : ℤ → Action (Service S Q O) (Unit {0})
  mark_expired_nodes ttl = on_coordinator (on_metadata (mb.mark_expired_nodes ttl))

  unfoldable pub nodes : Action (Service S Q O) (List NodeMetadata)
  nodes = on_coordinator (on_metadata mb.nodes)
