-- ===== src/Tests/OfPut.antt =====
-- The theorems on `Put` and `Get` on the small cluster, over an object store that keeps everything.
use go_infra_lab.Common.{
  ℕ, ◌≡◌, ◌<◌, ◌≢◌, refl, All, filter, str_lt, arith, String, true, false, Option, none, some, List,
  [], ◌∷◌, length, eq_refl, if◌then◌else◌, show_uint64,
}
use go_infra_lab.Action.{Error, err, ok, other}
use go_infra_lab.Sorting.{sort_slice}
use go_infra_lab.Metadata.{
  NodeMetadata, FileMetadata, is_node_healthy, healthy_nodes, MetadataStore, next_version,
}
use go_infra_lab.Replication.Queue.{MemoryQueue}
use go_infra_lab.Objects.{ObjectStore, Written}
use go_infra_lab.Objects.Contract.{IsObjectStore, same_object, stream_of}
use go_infra_lab.Staging.{Reader, TempFiles, more, eof}
use go_infra_lab.Service.{Environment}
use go_infra_lab.Service.Files.{put_file, get_contents}
use go_infra_lab.Service.Putting.{Manager, in_memory}
use go_infra_lab.Service.RoundTrip.{get-put_file}
use go_infra_lab.Service.Success.{put_file_succeeds}
use package.go_infra_lab.Tests.{copy_report, manager}

-- What each node has under each key at each version.
abbrev pub Kept : Type 0
Kept = String → String → ℕ → Option (List ℕ)

abbrev change : String → String → ℕ → Option (List ℕ) → Kept → Kept
change node key version value o = λ node' key' version'.
    if same_object node key version node' key' version' then value else o node' key' version'

abbrev pub kept : ObjectStore Kept
kept = record {
  write_object = λ node key version bytes e o. (
    ok (record { count = length bytes; consumed = length bytes }),
    change node key version (some bytes) o,
  );
  read_object = λ node key version o. elim (o node key version) [
    | none ↦ (err (other "not found"), o)
    | some bytes ↦ (ok (length bytes, stream_of bytes), o)
  ];
  delete_object = λ node key version o. (ok tt, change node key version none o);
  has_object = λ node key version o. elim (o node key version) [ none ↦ false | some b ↦ true ];
}

abbrev pub contents : String → String → ℕ → Kept → Option (List ℕ)
contents node key version o = o node key version

change_others :
    (node key : String) (version : ℕ) (value : Option (List ℕ)) (o : Kept) (node' key' : String)
    (version' : ℕ)
    → same_object node key version node' key' version' ≡ false
    → change node key version value o node' key' version' ≡ o node' key' version'
change_others node key version value o node' key' version' differs = rw differs

pub kept-IsObjectStore : IsObjectStore kept contents
kept-IsObjectStore = record {
  write_lem =
      λ node key version bytes w o done. (ground arith, ground (arith, eq_refl node, eq_refl key));
  write_others = λ node key version bytes. change_others node key version (some bytes);
  delete_others = λ node key version. change_others node key version none;
  read_lem = λ node key version bytes o held. rw held;
}

-- The same with a disk that is full.
abbrev full : ObjectStore Kept
full = record kept {
  write_object = λ node key version bytes e o. (err (other "no space left on device"), o);
}

abbrev pub temp : TempFiles
temp = record { create_error = none; write_error = λ file piece. none }

abbrev pub sum : List ℕ → String
sum bytes = show_uint64 (length bytes)

abbrev pub no_seek_error : ℕ → Option Error
no_seek_error offset = none

abbrev reads : Reader
reads = (1 ∷ 2 ∷ 3 ∷ [], more) ∷ (4 ∷ 5 ∷ [], eof) ∷ []

abbrev pub bytes : List ℕ
bytes = 1 ∷ 2 ∷ 3 ∷ 4 ∷ 5 ∷ []

abbrev pub service : Manager Kept
service = record { coordinator = manager copy_report; objects = λ node key version. none }

abbrev pub working : Environment MetadataStore MemoryQueue Kept
working = in_memory kept sum temp no_seek_error

abbrev full_disk : Environment MetadataStore MemoryQueue Kept
full_disk = in_memory full sum temp no_seek_error

each_has_id : All (λ (n : NodeMetadata). n.id ≢ "") (healthy_nodes service.coordinator.metadata)
unfolding healthy_nodes sort_slice str_lt
each_has_id = (λ e. cc, (λ e. cc, (λ e. cc, tt)))

some_healthy : 0 < length (filter is_node_healthy (healthy_nodes service.coordinator.metadata))
unfolding healthy_nodes sort_slice str_lt
some_healthy = omega arith

kept_stores :
    (node key : String) (version : ℕ) (bytes : List ℕ) (o : Kept)
    → (w : Written) × ((kept.write_object node key version bytes none o).0 ≡ ok w)
kept_stores node key version bytes o =
    (record { count = length bytes; consumed = length bytes }, refl)

-- An empty file.
put_file_succeeds_example :
    (meta : FileMetadata) × ((put_file working "memo" [] service).0 ≡ ok meta)
put_file_succeeds_example =
    put_file_succeeds kept contents kept-IsObjectStore sum temp no_seek_error (λ n. refl) refl
      (λ file piece. refl) kept_stores 2 "memo" [] [] service refl (omega arith) refl (omega arith)
      some_healthy each_has_id

put_report : (meta : FileMetadata) × ((put_file working "report" reads service).0 ≡ ok meta)
put_report =
    put_file_succeeds kept contents kept-IsObjectStore sum temp no_seek_error (λ n. refl) refl
      (λ file piece. refl) kept_stores 2 "report" reads bytes service refl (omega arith) refl
      (omega arith) some_healthy each_has_id

get-put_file_example :
    let s' = (put_file working "report" reads service).1 in
    (get_contents working "report" s' ≡ (ok (bytes, put_report.0), s'))
    × (put_report.0.version ≡ next_version "report" service.coordinator.metadata)
    × (put_report.0.size ≡ length bytes)
    × (put_report.0.checksum ≡ sum bytes)
get-put_file_example =
    get-put_file kept contents kept-IsObjectStore sum temp no_seek_error (λ n. refl) refl
      (λ file piece. refl) "report" reads bytes put_report.0 service refl (omega arith) put_report.1
