-- ===== src/Http/RemoteRefusal.antt =====
-- distributed-fs/http_object_store.go and distributed-fs/http_api.go: the client on a node whose
-- handler refuses the key.
use Prim.Native.String.{◌++◌}
use go_infra_lab.Common.{ℕ, String, false, none, List, [], ◌≡◌, arith}
use go_infra_lab.Common.Strings.{trim_prefix-append}
use text.Mathlib.TextPositions.{starts_with-append}
use go_infra_lab.Action.{Error, other, ok, err}
use go_infra_lab.Objects.{ObjectStore, Stream}
use package.go_infra_lab.Http.{Unescape, object_request, write_api_json, write_api_error}
use package.go_infra_lab.Http.Client as Client
use package.go_infra_lab.Http.Client.{Urls, HttpObjectStore, http_object_store, request}
use package.go_infra_lab.Http.Network.{Nodes, deliver, answer}
use package.go_infra_lab.Http.Storage.{StorageHandler, serve_storage}
use package.go_infra_lab.Http.Remote.{IsReachable, after, request_lem, no_health_check}

module _ {O : Type 0} (unescape : Unescape) (store : ObjectStore O) (status_line : ℕ → String)
    (urls : Urls) where
  abbrev Remotes : Type 0
  Remotes = HttpObjectStore (Nodes unescape store status_line)

  abbrev remote : ObjectStore Remotes
  remote = http_object_store urls (deliver unescape store status_line)

  refused_exchange :
      (method node_id addr key : String) (version : ℕ) (bytes : List ℕ) (h : StorageHandler O)
      (s : Remotes) (e : Error)
      → IsReachable unescape store status_line urls node_id addr key h s
      → unescape key ≡ err e
      → let body : Stream = record { bytes = bytes; read_error = none; close_error = none } in
        request urls (deliver unescape store status_line) method node_id key version body s ≡ (
          ok (answer unescape store status_line body (write_api_error 400 e)),
          after unescape store status_line urls addr h h.objects s,
        )
  unfolding deliver serve_storage object_request
  refused_exchange method node_id addr key version bytes h s e reach undecodable =
      let body : Stream = record { bytes = bytes; read_error = none; close_error = none } in
      ground (
        arith,
        request_lem unescape store status_line urls method node_id addr key version body h s reach,
        reach.there,
        starts_with-append "/objects/" key,
        no_health_check unescape store status_line urls key,
        trim_prefix-append "/objects/" key,
        undecodable,
      )

  -- The key of an object is decoded twice on its way, by net/http and by the handler. A key that
  -- does not decode, as one with a stray percent sign, can therefore not be stored on a node: every
  -- call fails there and changes no object.
  pub undecodable_key :
      (node_id addr key : String) (version : ℕ) (bytes : List ℕ) (h : StorageHandler O)
      (s : Remotes) (e : Error)
      → IsReachable unescape store status_line urls node_id addr key h s
      → unescape key ≡ err e
      → (remote.write_object node_id key version bytes none s ≡ (
        err (other ("storage write failed: " ++ status_line 400)),
        after unescape store status_line urls addr h h.objects s,
      ))
        × (remote.read_object node_id key version s ≡ (
          err (other ("storage read failed: " ++ status_line 400)),
          after unescape store status_line urls addr h h.objects s,
        ))
        × (remote.delete_object node_id key version s ≡ (
          err (other ("storage delete failed: " ++ status_line 400)),
          after unescape store status_line urls addr h h.objects s,
        ))
        × (remote.has_object node_id key version s ≡ false)
  unfolding Client.write_object Client.read_object Client.delete_object Client.has_object
      write_api_json write_api_error
  undecodable_key node_id addr key version bytes h s e reach undecodable =
      let refused = λ (method : String) (sent : List ℕ).
        refused_exchange method node_id addr key version sent h s e reach undecodable in
      (
        ground (arith, refused "PUT" bytes),
        ground (arith, refused "GET" []),
        ground (arith, refused "DELETE" []),
        ground (arith, refused "HEAD" []),
      )
