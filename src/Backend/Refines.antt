-- ===== src/Backend/Refines.antt =====
-- When one backend behaves as another: each call but `MarkExpiredNodes` and
-- `RequeueExpiredRunning`, which change many entries at once, gives the same result, and leaves
-- related states related. A call that may store a new key or ID is only asked for those that
-- `accepts` holds of.
use go_infra_lab.Common.{ℕ, String, Bool, true, Option, List, ◌≡◌, All}
use go_infra_lab.GoMap.{GoMap}
use go_infra_lab.Action.{Error, Result, ok}
use go_infra_lab.Metadata.{ReplicaState, ChunkMetadata}
use go_infra_lab.Replication.{ReplicationTask}
use go_infra_lab.Replication.Queue.{counter}
use package.go_infra_lab.Backend.{MetadataBackend, ReplicationTaskQueue}

-- The same result and related states.
abbrev pub Related : {S T A : Type 0} → (S → T → Type 0) → Result A × S → Result A × T → Type 0
Related R x y = (x.0 ≡ y.0) × R x.1 y.1

module _ {S T : Type 0} (accepts : String → Bool) (R : S → T → Type 0) where
  -- All but `MarkExpiredNodes`.
  pub record BackendRefines (a : MetadataBackend S) (b : MetadataBackend T) : Type 0 where
    pub upsert_node :
        (id addr : String) (s : S) (t : T)
        → accepts id ≡ true
        → R s t
        → Related R (a.upsert_node id addr s) (b.upsert_node id addr t)
    pub healthy_nodes : (s : S) (t : T) → R s t → Related R (a.healthy_nodes s) (b.healthy_nodes t)
    pub nodes : (s : S) (t : T) → R s t → Related R (a.nodes s) (b.nodes t)
    pub begin_file_version :
        (key : String) (size : ℕ) (checksum : String) (chunks : List ChunkMetadata)
        (primary : String) (replicas : List String) (s : S) (t : T)
        → accepts key ≡ true
        → R s t
        → Related R
            (a.begin_file_version key size checksum chunks primary replicas s)
            (b.begin_file_version key size checksum chunks primary replicas t)
    pub next_version :
        (key : String) (s : S) (t : T)
        → R s t
        → Related R (a.next_version key s) (b.next_version key t)
    pub mark_replica :
        (key node_id : String) (state : ReplicaState) (s : S) (t : T)
        → R s t
        → Related R (a.mark_replica key node_id state s) (b.mark_replica key node_id state t)
    pub tombstone :
        (key : String) (s : S) (t : T) → R s t → Related R (a.tombstone key s) (b.tombstone key t)
    pub get_file :
        (key : String) (s : S) (t : T) → R s t → Related R (a.get_file key s) (b.get_file key t)
    pub list_files : (s : S) (t : T) → R s t → Related R (a.list_files s) (b.list_files t)
    pub add_replica :
        (key node_id : String) (state : ReplicaState) (s : S) (t : T)
        → R s t
        → Related R (a.add_replica key node_id state s) (b.add_replica key node_id state t)
    pub now : (s : S) (t : T) → R s t → a.now s ≡ b.now t

  -- All but `RequeueExpiredRunning`. The counters of `Stats` agree; the order of their map does not
  -- matter.
  pub record QueueRefines (a : ReplicationTaskQueue S) (b : ReplicationTaskQueue T) : Type 0 where
    pub enqueue :
        (new : List ReplicationTask) (s : S) (t : T)
        → All (λ task. accepts task.id ≡ true) new
        → R s t
        → Related R (a.enqueue new s) (b.enqueue new t)
    pub pending : (s : S) (t : T) → R s t → Related R (a.pending s) (b.pending t)
    pub mark_running :
        (id : String) (s : S) (t : T)
        → R s t
        → Related R (a.mark_running id s) (b.mark_running id t)
    pub mark_done :
        (id : String) (s : S) (t : T) → R s t → Related R (a.mark_done id s) (b.mark_done id t)
    pub mark_failed :
        (id : String) (cause : Option Error) (s : S) (t : T)
        → R s t
        → Related R (a.mark_failed id cause s) (b.mark_failed id cause t)
    pub stats :
        (s : S) (t : T)
        → R s t
        → (m m' : GoMap ℕ) × ((a.stats s).0 ≡ ok m)
          × ((b.stats t).0 ≡ ok m')
          × ((k : String) → counter k m ≡ counter k m')
          × R (a.stats s).1 (b.stats t).1
