-- ===== src/Http/RoundTrip.antt =====
-- distributed-fs/http_object_store.go, distributed-fs/http_api.go and distributed-fs/store.go: the
-- object client of the manager, the handler of a storage node and its file store together.
use go_infra_lab.Common.{
  ℕ, ◌<◌, ◌^◌, String, false, none, List, [], ◌≡◌, ◌∙◌, ap, sym, arith, eqb, length, take, inl, inr,
}
use go_infra_lab.GoMap.Laws.{get-put_self}
use go_infra_lab.Action.{ok}
use go_infra_lab.Objects.{ObjectStore, Written}
use go_infra_lab.Staging.Chunks.{append_nil, take-append}
use go_infra_lab.Staging.Delivery.{Result-cases}
use go_infra_lab.Store.{FileSystem, Store, local_object_store}
use go_infra_lab.Store.Laws.{IsFileSystem, file_of, read-write}
use package.go_infra_lab.Http.{Unescape}
use package.go_infra_lab.Http.Client.{Urls, HttpObjectStore, http_object_store}
use package.go_infra_lab.Http.Keys.{IsPlainKey}
use package.go_infra_lab.Http.Network.{Nodes, deliver, delivered}
use package.go_infra_lab.Http.Remote.{IsSized, IsReachable, after}
use package.go_infra_lab.Http.RemoteStore.{remote_store}
use package.go_infra_lab.Http.Storage.{StorageHandler}

take_all : (bytes : List ℕ) → take (length bytes) bytes ≡ bytes
take_all bytes = ap (take (length bytes)) (sym (append_nil bytes)) ∙ take-append bytes []

-- A body of the announced length arrives as it is.
delivered_whole : (bytes : List ℕ) → delivered (length bytes) (file_of bytes) ≡ file_of bytes
delivered_whole bytes = ground (arith, take_all bytes)

module _ {F : Type 0} (fs : FileSystem F) (laws : IsFileSystem fs) (disk : Store)
    (unescape : Unescape) (status_line : ℕ → String) (urls : Urls) where
  abbrev store : ObjectStore F
  store = local_object_store fs disk

  abbrev Remotes : Type 0
  Remotes = HttpObjectStore (Nodes unescape store status_line)

  abbrev remote : ObjectStore Remotes
  remote = http_object_store urls (deliver unescape store status_line)

  still-IsReachable :
      (node_id addr key : String) (h : StorageHandler F) (objects : F) (s : Remotes)
      → IsReachable unescape store status_line urls node_id addr key h s
      → IsReachable unescape store status_line urls node_id addr key
          (record h { objects = objects })
          (after unescape store status_line urls addr h objects s)
  still-IsReachable node_id addr key h objects s reach = record {
    known = reach.known;
    parsed = reach.parsed;
    there = get-put_self _ (record h { objects = objects }) s.network;
    same_id = reach.same_id;
  }

  -- What the object client has written to a storage node over HTTP, it reads back from there: for a
  -- key that decoding does not change and a version other than zero, a write that succeeds has
  -- counted all bytes, and a read that follows it returns them and their number.
  pub read-write_remote :
      (node_id addr key : String) (version : ℕ) (bytes : List ℕ) (w : Written)
      (h : StorageHandler F) (s : Remotes)
      → IsSized store
      → IsReachable unescape store status_line urls node_id addr key h s
      → IsPlainKey unescape key
      → version < 2 ^ 64
      → eqb version 0 ≡ false
      → (remote.write_object node_id key version bytes none s).0 ≡ ok w
      → let s' = (remote.write_object node_id key version bytes none s).1 in
        ((remote.read_object node_id key version s').0 ≡ ok (length bytes, file_of bytes))
        × (w.count ≡ length bytes)
  read-write_remote node_id addr key version bytes w h s sized reach plain small positive wrote =
      let local = store.write_object node_id key version bytes none h.objects in
      let writes =
        (remote_store unescape store status_line urls node_id addr key version bytes h s sized reach
          plain small positive).0 in
      let h' : StorageHandler F = record h { objects = local.1 } in
      let s' = after unescape store status_line urls addr h local.1 s in
      let reads =
        (remote_store unescape store status_line urls node_id addr key version bytes h' s' sized
          (still-IsReachable node_id addr key h local.1 s reach) plain small positive).1 in
      elim (Result-cases local.0) [
        | inr (e, fails) ↦ ground (arith, writes, fails, wrote)
        | inl (w', succeeds) ↦
            let back = read-write fs laws disk node_id key version bytes w' "" h.objects succeeds in
            (
              ground (arith, writes, reads, back.0, delivered_whole bytes),
              ground (arith, writes, succeeds, wrote),
            )
      ]
