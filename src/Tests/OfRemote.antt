-- ===== src/Tests/OfRemote.antt =====
-- The theorems on the object client, on one storage node.
use Prim.Native.String.{◌++◌}
use go_infra_lab.Common.{
  ℕ, ◌^◌, String, true, false, none, some, List, [], ◌∷◌, ◌≡◌, refl, arith, ltb, length,
  if◌then◌else◌, Option-cases, inl, inr, show_uint64,
}
use go_infra_lab.Common.Strings.{contains, trim_right_slashes}
use go_infra_lab.GoMap.{GoMap, get, put}
use go_infra_lab.Action.{other, ok, err}
use go_infra_lab.Objects.{ObjectStore, Written}
use go_infra_lab.Http.Client.{HttpObjectStore, http_object_store}
use go_infra_lab.Http.Storage.{StorageHandler}
use go_infra_lab.Http.Network.{Nodes, deliver}
use go_infra_lab.Http.Remote.{IsSized, IsReachable, after}
use go_infra_lab.Http.RemoteStore.{written_remotely, read_remotely, remote_store}
use go_infra_lab.Http.RemoteRefusal.{undecodable_key}
use go_infra_lab.Http.RoundTrip.{read-write_remote}
use go_infra_lab.Store.{local_object_store, write}
use go_infra_lab.Store.Laws.{file_of}
use package.go_infra_lab.Tests.OfStore.{
  Files, file_map, file_map-IsFileSystem, file_map-IsSized, data_store,
}
use package.go_infra_lab.Tests.OfHttp.{
  unescape, base, urls_of, plain-IsUrls, percent-IsUrls, is_plain,
}

-- The contents of each key, with a size that is always a uint64.
abbrev by_key : ObjectStore (GoMap (List ℕ))
by_key = record {
  write_object = λ node key version bytes e objects.
      (ok (record { count = length bytes; consumed = length bytes }), put key bytes objects);
  read_object = λ node key version objects. (
    elim (get key objects) [
      | none ↦ err (other "no such file")
      | some bytes ↦ ok (
        (if ltb (length bytes) (2 ^ 64) then length bytes else 0),
        record { bytes = bytes; read_error = none; close_error = none },
      )
    ],
    objects,
  );
  delete_object = λ node key version objects. (ok tt, objects);
  has_object = λ node key version objects. elim (get key objects) [ none ↦ false | some _ ↦ true ];
}

by_key-IsSized : IsSized by_key
by_key-IsSized node key version size src o opened = elim (Option-cases (get key o)) [
  | inl absent ↦ ground (arith, opened)
  | inr (bytes, there) ↦ ground (arith, opened)
]

abbrev node : StorageHandler (GoMap (List ℕ))
node = record { node_id = "n1"; objects = ("a.txt", 104 ∷ 105 ∷ []) ∷ [] }

abbrev line : ℕ → String
line status = show_uint64 status

abbrev client : HttpObjectStore (Nodes unescape by_key line)
client = record { nodes = ("n1", "http://n1:9101/") ∷ []; network = (base, node) ∷ [] }

plain_reach :
    IsReachable unescape by_key line (urls_of "a.txt") "n1" "http://n1:9101/" "a.txt" node client
unfolding get trim_right_slashes
plain_reach = record { known = refl; parsed = plain-IsUrls; there = refl; same_id = refl }

percent_reach :
    IsReachable unescape by_key line
      (urls_of "50%.txt")
      "n1"
      "http://n1:9101/"
      "50%.txt"
      node
      client
unfolding get trim_right_slashes
percent_reach = record { known = refl; parsed = percent-IsUrls; there = refl; same_id = refl }

remote_store_example :
    let remote = http_object_store (urls_of "a.txt") (deliver unescape by_key line) in
    let later = after unescape by_key line (urls_of "a.txt") "http://n1:9101/" node in
    (remote.write_object "n1" "a.txt" 3 (7 ∷ []) none client ≡ (
      let (r, objects) = by_key.write_object "n1" "a.txt" 3 (7 ∷ []) none node.objects in
      (written_remotely unescape by_key line (urls_of "a.txt") (7 ∷ []) r, later objects client)))
    × (remote.read_object "n1" "a.txt" 3 client ≡ (
        let (r, objects) = by_key.read_object "n1" "a.txt" 3 node.objects in
        (read_remotely unescape by_key line (urls_of "a.txt") r, later objects client)))
    × (remote.delete_object "n1" "a.txt" 3 client
        ≡ (ok tt, later (by_key.delete_object "n1" "a.txt" 3 node.objects).1 client))
    × (remote.has_object "n1" "a.txt" 3 client ≡ by_key.has_object "n1" "a.txt" 3 node.objects)
remote_store_example =
    remote_store unescape by_key line (urls_of "a.txt") "n1" "http://n1:9101/" "a.txt" 3 (7 ∷ [])
      node client by_key-IsSized plain_reach is_plain (omega arith) refl

abbrev disk_node : StorageHandler Files
disk_node = record { node_id = "n1"; objects = [] }

abbrev disk_store : ObjectStore Files
disk_store = local_object_store file_map data_store

abbrev disk_client : HttpObjectStore (Nodes unescape disk_store line)
disk_client = record { nodes = ("n1", "http://n1:9101/") ∷ []; network = (base, disk_node) ∷ [] }

disk_reach :
    IsReachable unescape disk_store line
      (urls_of "a.txt")
      "n1"
      "http://n1:9101/"
      "a.txt"
      disk_node
      disk_client
unfolding get trim_right_slashes
disk_reach = record { known = refl; parsed = plain-IsUrls; there = refl; same_id = refl }

abbrev two_bytes : Written
two_bytes = record { count = 2; consumed = 2 }

disk_write :
    ((http_object_store (urls_of "a.txt") (deliver unescape disk_store line)).write_object "n1"
      "a.txt" 3
      (104 ∷ 105 ∷ [])
      none
      disk_client).0
    ≡ ok two_bytes
disk_write =
    let same =
      (remote_store unescape disk_store line (urls_of "a.txt") "n1" "http://n1:9101/" "a.txt" 3
        (104 ∷ 105 ∷ []) disk_node disk_client file_map-IsSized disk_reach is_plain (omega arith)
        refl).0 in
    rw same (unfold write in refl)

read-write_remote_example :
    let remote = http_object_store (urls_of "a.txt") (deliver unescape disk_store line) in
    let s' = (remote.write_object "n1" "a.txt" 3 (104 ∷ 105 ∷ []) none disk_client).1 in
    ((remote.read_object "n1" "a.txt" 3 s').0 ≡ ok (2, file_of (104 ∷ 105 ∷ [])))
    × (two_bytes.count ≡ length {A = ℕ} (104 ∷ 105 ∷ []))
read-write_remote_example =
    read-write_remote file_map file_map-IsFileSystem data_store unescape line (urls_of "a.txt") "n1"
      "http://n1:9101/" "a.txt" 3 (104 ∷ 105 ∷ []) two_bytes disk_node disk_client file_map-IsSized
      disk_reach is_plain (omega arith) refl disk_write

undecodable_key_example :
    let remote = http_object_store (urls_of "50%.txt") (deliver unescape by_key line) in
    let later =
      after unescape by_key line (urls_of "50%.txt") "http://n1:9101/" node node.objects client in
    (remote.write_object "n1" "50%.txt" 3 (7 ∷ []) none client
      ≡ (err (other ("storage write failed: " ++ line 400)), later))
    × (remote.read_object "n1" "50%.txt" 3 client
        ≡ (err (other ("storage read failed: " ++ line 400)), later))
    × (remote.delete_object "n1" "50%.txt" 3 client
        ≡ (err (other ("storage delete failed: " ++ line 400)), later))
    × (remote.has_object "n1" "50%.txt" 3 client ≡ false)
undecodable_key_example =
    undecodable_key unescape by_key line (urls_of "50%.txt") "n1" "http://n1:9101/" "50%.txt" 3
      (7 ∷ []) node client (other "invalid URL escape") percent_reach (unfold contains in refl)
