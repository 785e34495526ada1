-- ===== src/Tests/OfManager.antt =====
-- The theorem on the loop of the manager process on the small cluster.
use go_infra_lab.Common.{String, some, none, List, ◌≡◌, arith, length, show_uint64}
use go_infra_lab.Action.{Error}
use go_infra_lab.Metadata.{MetadataStore}
use go_infra_lab.Replication.Queue.{MemoryQueue}
use go_infra_lab.Service.{Service}
use go_infra_lab.Manager.{drain}
use go_infra_lab.Manager.Drain.{in_memory, drain_ends}
use package.go_infra_lab.Tests.OfReplication.{copy_report-IsQueue}
use package.go_infra_lab.Tests.OfService.{names, environment, service}

drain_ends_example :
    (e : Error) × (s' : Service MetadataStore MemoryQueue (List String)) × (drain
        (in_memory names (λ bytes. show_uint64 (length bytes)) environment.temp (λ offset. none))
        2
        service
      ≡ some (e, s'))
drain_ends_example =
    drain_ends names (λ bytes. show_uint64 (length bytes)) environment.temp (λ offset. none) 2
      service copy_report-IsQueue (omega arith)
