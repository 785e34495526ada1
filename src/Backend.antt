-- ===== src/Backend.antt =====
-- distributed-fs/metadata_backend.go and the interface of the task queue: what the coordinator
-- calls, and the in-memory implementations of it.
pub mod Refines
use go_infra_lab.Common.{ℕ, String, Option, List, ℤ, Time}
use go_infra_lab.GoMap.{GoMap}
use go_infra_lab.Action.{Action, Error, ok, gets}
use go_infra_lab.Metadata
use go_infra_lab.Metadata.{ReplicaState, NodeMetadata, ChunkMetadata, FileMetadata, MetadataStore}
use go_infra_lab.Replication.{ReplicationTask}
use go_infra_lab.Replication.Queue
use go_infra_lab.Replication.Queue.{MemoryQueue}

pub record MetadataBackend (S : Type 0) : Type 0 where
  pub upsert_node : String → String → Action S NodeMetadata
  pub mark_expired_nodes : ℤ → Action S (Unit {0})
  pub healthy_nodes : Action S (List NodeMetadata)
  pub nodes : Action S (List NodeMetadata)
  pub begin_file_version :
      String → ℕ → String → List ChunkMetadata → String → List String → Action S FileMetadata
  pub next_version : String → Action S ℕ
  pub mark_replica : String → String → ReplicaState → Action S FileMetadata
  pub tombstone : String → Action S FileMetadata
  pub get_file : String → Action S (Option FileMetadata)
  pub list_files : Action S (List FileMetadata)
  pub add_replica : String → String → ReplicaState → Action S FileMetadata
  pub now : S → Time

-- `MemoryMetadataBackend`: the store's methods, of which those without an error return nil.
abbrev pub memory_backend : MetadataBackend MetadataStore
memory_backend = record {
  upsert_node = λ id addr s. let (node, s') = Metadata.upsert_node id addr s in (ok node, s');
  mark_expired_nodes = λ ttl s. (ok tt, Metadata.mark_expired_nodes ttl s);
  healthy_nodes = gets Metadata.healthy_nodes;
  nodes = gets Metadata.nodes;
  begin_file_version = λ key size checksum chunks primary replicas s.
      let (meta, s') = Metadata.begin_file_version key size checksum chunks primary replicas s in
      (ok meta, s');
  next_version = λ key. gets (Metadata.next_version key);
  mark_replica = Metadata.mark_replica;
  tombstone = Metadata.tombstone;
  get_file = λ key. gets (Metadata.get_file key);
  list_files = gets Metadata.list_files;
  add_replica = Metadata.add_replica;
  now = λ s. s.now;
}

pub record ReplicationTaskQueue (Q : Type 0) : Type 0 where
  pub enqueue : List ReplicationTask → Action Q (Unit {0})
  pub pending : Action Q (List ReplicationTask)
  pub mark_running : String → Action Q ReplicationTask
  pub mark_done : String → Action Q ReplicationTask
  pub mark_failed : String → Option Error → Action Q ReplicationTask
  pub requeue_expired_running : Action Q (List ReplicationTask)
  pub stats : Action Q (GoMap ℕ)

abbrev pub memory_queue : ReplicationTaskQueue MemoryQueue
memory_queue = record {
  enqueue = λ tasks q. (ok tt, Queue.enqueue tasks q);
  pending = gets Queue.pending;
  mark_running = Queue.mark_running;
  mark_done = Queue.mark_done;
  mark_failed = Queue.mark_failed;
  requeue_expired_running =
      λ q. let (tasks, q') = Queue.requeue_expired_running q in (ok tasks, q');
  stats = gets Queue.stats;
}
