-- ===== src/Http/RemoteStore.antt =====
-- distributed-fs/http_object_store.go and distributed-fs/http_api.go: the client on a node whose
-- handler serves the key.
use Prim.Native.String.{◌++◌}
use go_infra_lab.Common.{ℕ, ◌<◌, ◌^◌, String, false, none, List, [], ◌≡◌, refl, arith, eqb, length}
use go_infra_lab.Common.Numbers.{parse-show}
use go_infra_lab.GoMap.{get}
use go_infra_lab.Action.{other, Result, ok, err}
use go_infra_lab.Objects.{ObjectStore, Stream, Written}
use package.go_infra_lab.Http.{Unescape, write_api_json, write_api_error}
use package.go_infra_lab.Http.Client as Client
use package.go_infra_lab.Http.Client.{Urls, HttpObjectStore, http_object_store}
use package.go_infra_lab.Http.Keys.{IsPlainKey}
use package.go_infra_lab.Http.Network.{Nodes, deliver, delivered}
use package.go_infra_lab.Http.Storage as Node
use package.go_infra_lab.Http.Storage.{StorageHandler, serve_object}
use package.go_infra_lab.Http.Remote.{IsSized, IsReachable, after, exchange}

module _ {O : Type 0} (unescape : Unescape) (store : ObjectStore O) (status_line : ℕ → String)
    (urls : Urls) where
  abbrev Remotes : Type 0
  Remotes = HttpObjectStore (Nodes unescape store status_line)

  abbrev remote : ObjectStore Remotes
  remote = http_object_store urls (deliver unescape store status_line)

  -- The result of each call of the client, from that of the storage node's own store.
  abbrev pub written_remotely : List ℕ → Result Written → Result Written
  written_remotely bytes (ok w) = ok (record { count = length bytes; consumed = length bytes })
  written_remotely bytes (err e) = err (other ("storage write failed: " ++ status_line 500))

  abbrev pub read_remotely : Result (ℕ × Stream) → Result (ℕ × Stream)
  read_remotely (ok (size, src)) = ok (size, delivered size src)
  read_remotely (err e) = err (other ("storage read failed: " ++ status_line 404))

  write_remote :
      (node_id addr key : String) (version : ℕ) (bytes : List ℕ) (h : StorageHandler O)
      (s : Remotes)
      → IsReachable unescape store status_line urls node_id addr key h s
      → IsPlainKey unescape key
      → version < 2 ^ 64
      → eqb version 0 ≡ false
      → remote.write_object node_id key version bytes none s ≡ (
          let (r, objects) = store.write_object node_id key version bytes none h.objects in
          (written_remotely bytes r, after unescape store status_line urls addr h objects s))
  unfolding Client.write_object serve_object Node.put_object write_api_json write_api_error
  write_remote node_id addr key version bytes h s reach plain small positive = ground (
    arith,
    exchange unescape store status_line urls "PUT" node_id addr key version bytes h s reach plain
        small positive,
    reach.same_id,
  )

  read_remote :
      (node_id addr key : String) (version : ℕ) (h : StorageHandler O) (s : Remotes)
      → IsSized store
      → IsReachable unescape store status_line urls node_id addr key h s
      → IsPlainKey unescape key
      → version < 2 ^ 64
      → eqb version 0 ≡ false
      → remote.read_object node_id key version s ≡ (
          let (r, objects) = store.read_object node_id key version h.objects in
          (read_remotely r, after unescape store status_line urls addr h objects s))
  unfolding Client.read_object serve_object Node.get_object write_api_json write_api_error get
  read_remote node_id addr key version h s sized reach plain small positive =
      opened (store.read_object node_id key version h.objects).0 refl
    where
      opened :
          (r : Result (ℕ × Stream))
          → (store.read_object node_id key version h.objects).0 ≡ r
          → remote.read_object node_id key version s ≡ (
            read_remotely r,
            after unescape store status_line urls addr h
                (store.read_object node_id key version h.objects).1
                s,
          )
      opened (err e) fails = ground (
        arith,
        fails,
        exchange unescape store status_line urls "GET" node_id addr key version [] h s reach plain
            small positive,
        reach.same_id,
      )
      opened (ok (size, src)) opens = ground (
        arith,
        opens,
        exchange unescape store status_line urls "GET" node_id addr key version [] h s reach plain
            small positive,
        reach.same_id,
        parse-show size (sized node_id key version size src h.objects opens),
      )

  delete_remote :
      (node_id addr key : String) (version : ℕ) (h : StorageHandler O) (s : Remotes)
      → IsReachable unescape store status_line urls node_id addr key h s
      → IsPlainKey unescape key
      → version < 2 ^ 64
      → eqb version 0 ≡ false
      → remote.delete_object node_id key version s ≡ (
        ok tt,
        after unescape store status_line urls addr h
            (store.delete_object node_id key version h.objects).1
            s,
      )
  unfolding Client.delete_object serve_object Node.delete_object write_api_json write_api_error
  delete_remote node_id addr key version h s reach plain small positive = ground (
    arith,
    exchange unescape store status_line urls "DELETE" node_id addr key version [] h s reach plain
        small positive,
    reach.same_id,
  )

  has_remote :
      (node_id addr key : String) (version : ℕ) (h : StorageHandler O) (s : Remotes)
      → IsReachable unescape store status_line urls node_id addr key h s
      → IsPlainKey unescape key
      → version < 2 ^ 64
      → eqb version 0 ≡ false
      → remote.has_object node_id key version s ≡ store.has_object node_id key version h.objects
  unfolding Client.has_object serve_object
  has_remote node_id addr key version h s reach plain small positive = ground (
    arith,
    exchange unescape store status_line urls "HEAD" node_id addr key version [] h s reach plain
        small positive,
    reach.same_id,
  )

  -- The client of a storage node, over the network and the node's handler, does what the node's own
  -- store does, for a node that is reached at its address and reads objects with their size, a key
  -- that is not empty, has no ".." and is not changed by decoding, and a version other than zero:
  -- it leaves the same objects and yields the same contents. A failed read or write is reported by
  -- its status; a failed delete is not reported at all.
  pub remote_store :
      (node_id addr key : String) (version : ℕ) (bytes : List ℕ) (h : StorageHandler O)
      (s : Remotes)
      → IsSized store
      → IsReachable unescape store status_line urls node_id addr key h s
      → IsPlainKey unescape key
      → version < 2 ^ 64
      → eqb version 0 ≡ false
      → (remote.write_object node_id key version bytes none s ≡ (
          let (r, objects) = store.write_object node_id key version bytes none h.objects in
          (written_remotely bytes r, after unescape store status_line urls addr h objects s)))
        × (remote.read_object node_id key version s ≡ (
            let (r, objects) = store.read_object node_id key version h.objects in
            (read_remotely r, after unescape store status_line urls addr h objects s)))
        × (remote.delete_object node_id key version s ≡ (
          ok tt,
          after unescape store status_line urls addr h
              (store.delete_object node_id key version h.objects).1
              s,
        ))
        × (remote.has_object node_id key version s ≡ store.has_object node_id key version h.objects)
  remote_store node_id addr key version bytes h s sized reach plain small positive = (
    write_remote node_id addr key version bytes h s reach plain small positive,
    read_remote node_id addr key version h s sized reach plain small positive,
    delete_remote node_id addr key version h s reach plain small positive,
    has_remote node_id addr key version h s reach plain small positive,
  )
