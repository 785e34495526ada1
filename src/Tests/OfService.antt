-- ===== src/Tests/OfService.antt =====
-- A service on the small cluster, over a store of names, for the tests of the handlers and the
-- manager.
use go_infra_lab.Common.{String, none, List, [], ◌∷◌, ◌==◌, length, any, show_uint64}
use go_infra_lab.Action.{ok}
use go_infra_lab.Metadata.{MetadataStore}
use go_infra_lab.Replication.Queue.{MemoryQueue}
use go_infra_lab.Backend.{memory_backend, memory_queue}
use go_infra_lab.Objects.{ObjectStore}
use go_infra_lab.Service.{Service, Environment}
use package.go_infra_lab.Tests.{copy_report, manager}

-- A store of the names of its objects; each object has no bytes.
abbrev pub names : ObjectStore (List String)
names = record {
  write_object = λ node key version bytes e objects.
      (ok (record { count = length bytes; consumed = length bytes }), key ∷ objects);
  read_object = λ node key version objects.
      (ok (0, record { bytes = []; read_error = none; close_error = none }), objects);
  delete_object = λ node key version objects. (ok tt, objects);
  has_object = λ node key version objects. any (λ k. k == key) objects;
}

abbrev pub environment : Environment MetadataStore MemoryQueue (List String)
environment = record {
  metadata = memory_backend;
  queue = memory_queue;
  store = names;
  sha256 = λ bytes. show_uint64 (length bytes);
  temp = record { create_error = none; write_error = λ file piece. none };
  seek_error = λ offset. none;
}

abbrev pub service : Service MetadataStore MemoryQueue (List String)
service = record { coordinator = manager copy_report; objects = [] }
