-- ===== src/Tests.antt =====
-- A small cluster, on which the theorems are applied at concrete inputs in the modules below.
mod OfMetadata
mod OnMaps
mod Paths
mod OfReplication
mod OfCoordinator
mod OfWorker
mod OfStaging
mod OfService
mod OfPut
mod OfDisk
mod OfHttp
mod OfRemote
mod OfManager
mod OfEncryption
mod OfStore
mod OfPeer
mod OfFetch
mod OfCommand
use go_infra_lab.Common.{ℕ, String, false, [], ◌∷◌, pos, zero_time, second, ◌+◌, ◌*◌}
use go_infra_lab.Metadata.{
  NodeMetadata, NodeState, ReplicaMetadata, ReplicaState, FileMetadata, MetadataStore,
}
use go_infra_lab.Replication.{ReplicationTask, ReplicationTaskState}
use go_infra_lab.Replication.Queue.{MemoryQueue}
use go_infra_lab.Coordinator.{Coordinator, PreparedWrite}

abbrev node : String → ℕ → NodeMetadata
node id seen = record { id = id; addr = "host"; state = NodeState.healthy; last_heartbeat = seen }

abbrev replica : String → ReplicaState → ReplicaMetadata
replica id state = record { node_id = id; state = state; updated_at = 900 }

-- A file at version 2, with its primary on n1 and a copy to be made on n2.
abbrev report : FileMetadata
report = record {
  key = "report";
  version = 2;
  size = 3;
  checksum = "c0ffee";
  primary = "n1";
  deleted = false;
  chunks = [];
  replicas =
      ("n1", replica "n1" ReplicaState.healthy) ∷ ("n2", replica "n2" ReplicaState.pending) ∷ [];
  created_at = 800;
  updated_at = 900;
}

abbrev cluster : MetadataStore
cluster = record {
  files = ("report", report) ∷ [];
  nodes = ("n2", node "n2" 950) ∷ ("n1", node "n1" 990) ∷ ("n3", node "n3" 700) ∷ [];
  now = 1000;
}

abbrev copy_report : ReplicationTask
copy_report = record {
  id = "report:2:n1:n2";
  key = "report";
  version = 2;
  checksum = "c0ffee";
  chunks = [];
  source = "n1";
  target = "n2";
  state = ReplicationTaskState.pending;
  attempts = pos 0;
  last_error = "";
  run_after = zero_time;
  lease_until = zero_time;
  created_at = 900;
  updated_at = 900;
}

-- A copy of version 1, left over from before the last write.
abbrev old_copy : ReplicationTask
old_copy = record copy_report { id = "report:1:n1:n2"; version = 1 }

-- A copy that a worker started at time 100 and never finished.
abbrev lost_copy : ReplicationTask
lost_copy = record copy_report {
  state = ReplicationTaskState.running;
  attempts = pos 1;
  lease_until = 100 + 30 * second;
  updated_at = 100;
}

abbrev queue : ReplicationTask → MemoryQueue
queue task = record { tasks = (task.id, task) ∷ []; now = 40 * second }

abbrev manager : ReplicationTask → Coordinator MetadataStore MemoryQueue
manager task = record {
  metadata = cluster;
  planner = record { replica_count = pos 2 };
  tasks = queue task;
}

abbrev new_report : PreparedWrite
new_report = record {
  key = "report";
  version = 3;
  size = 5;
  checksum = "beef";
  chunks = [];
  primary = node "n1" 990;
  replicas = node "n1" 990 ∷ node "n2" 950 ∷ [];
}
