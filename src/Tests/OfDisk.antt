-- ===== src/Tests/OfDisk.antt =====
-- The theorems on the persistent stores, applied to a database that is a map of maps.
use go_infra_lab.Common.{second, ◌*◌, ◌==◌, if◌then◌else◌, [], ◌∷◌}
use go_infra_lab.GoMap.{GoMap}
use go_infra_lab.Replication.{ReplicationTask}
use go_infra_lab.Replication.Queue.{MemoryQueue}
use go_infra_lab.Backend.{memory_backend, memory_queue}
use go_infra_lab.Backend.Refines.{BackendRefines, QueueRefines}
use go_infra_lab.Disk.Metadata.{DiskMetadataStore, disk_backend}
use go_infra_lab.Disk.Queue.{DiskQueue, disk_queue}
use go_infra_lab.Disk.Mirrors.{Mirrors}
use go_infra_lab.Disk.Tasks.{MirrorsQueue}
use go_infra_lab.Disk.Refinement.{disk_backend-BackendRefines}
use go_infra_lab.Disk.QueueRefinement.{disk_queue-QueueRefines}
use package.go_infra_lab.Tests.{old_copy, lost_copy, node, report}
use package.go_infra_lab.Tests.OnMaps.{
  Db, of_task, maps, accepts, nodes, files, tasks, maps-IsBuckets, maps-IsReliable, of_node,
  of_file, nodes-IsFaithful, files-IsFaithful, tasks-IsFaithful,
}

disk_backend-BackendRefines_example :
    BackendRefines accepts (Mirrors maps files nodes) (disk_backend maps files nodes) memory_backend
disk_backend-BackendRefines_example =
    disk_backend-BackendRefines maps accepts maps-IsBuckets maps-IsReliable files files-IsFaithful
      nodes nodes-IsFaithful

disk_queue-QueueRefines_example :
    QueueRefines accepts (MirrorsQueue maps tasks) (disk_queue maps tasks) memory_queue
disk_queue-QueueRefines_example =
    disk_queue-QueueRefines maps accepts maps-IsBuckets maps-IsReliable tasks tasks-IsFaithful

-- A copy that was running when the program ended, and one that was pending.
abbrev left_over : GoMap ReplicationTask
left_over = (old_copy.id, old_copy) ∷ (lost_copy.id, lost_copy) ∷ []

abbrev left_db : Db
left_db _ = (lost_copy.id, of_task lost_copy) ∷ (old_copy.id, of_task old_copy) ∷ []

abbrev cluster_db : Db
cluster_db b =
    if b == "files"
    then ("report", of_file report) ∷ []
    else ("n3", of_node (node "n3" 700))
      ∷ ("n1", of_node (node "n1" 990))
      ∷ ("n2", of_node (node "n2" 950))
      ∷ []

abbrev on_disk : DiskQueue Db
on_disk = record { db = left_db; now = 40 * second }

abbrev in_memory : MemoryQueue
in_memory = record { tasks = left_over; now = 40 * second }

abbrev disk_cluster : DiskMetadataStore Db
disk_cluster = record { db = cluster_db; now = 1000 }
