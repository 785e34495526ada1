-- ===== src/Http/Remote.antt =====
-- distributed-fs/http_object_store.go and distributed-fs/http_api.go: the client and the handler
-- together.
use Prim.Native.String.{◌++◌}
use go_infra_lab.Common.{
  ℕ, ◌<◌, ◌^◌, String, true, false, none, some, List, ◌≡◌, arith, ◌==◌, eqb, show_uint64,
  Bool-cases, inl, inr, subst, eq_iff,
}
use go_infra_lab.Common.Strings.{trim_right_slashes, trim_prefix-append}
use text.Mathlib.Text.{starts_with}
use text.Mathlib.TextPositions.{starts_with-append}
use go_infra_lab.Common.Numbers.{parse-show}
use go_infra_lab.GoMap.{get, put}
use go_infra_lab.Action.{ok}
use go_infra_lab.Objects.{ObjectStore, Stream}
use package.go_infra_lab.Http.{Unescape, Request, object_request}
use package.go_infra_lab.Http.Client.{Urls, HttpObjectStore, http_object_store, object_url, request}
use package.go_infra_lab.Http.Keys.{IsPlainKey}
use package.go_infra_lab.Http.Network.{IsUrls, Nodes, deliver, answer}
use package.go_infra_lab.Http.Storage.{StorageHandler, serve_storage, serve_object}

-- The sizes that a store reports are int64 values.
abbrev pub IsSized : {O : Type 0} → ObjectStore O → Type 0
IsSized {O} store =
    (node_id key : String) (version size : ℕ) (src : Stream) (o : O)
    → (store.read_object node_id key version o).0 ≡ ok (size, src)
    → size < 2 ^ 64

module _ {O : Type 0} (unescape : Unescape) (store : ObjectStore O) (status_line : ℕ → String)
    (urls : Urls) where
  abbrev pub remote : ObjectStore (HttpObjectStore (Nodes unescape store status_line))
  remote = http_object_store urls (deliver unescape store status_line)

  abbrev pub Remotes : Type 0
  Remotes = HttpObjectStore (Nodes unescape store status_line)

  -- The client knows the node's address, and the node is there.
  pub record IsReachable (node_id addr key : String) (h : StorageHandler O) (s : Remotes)
      : Type 0 where
    pub known : get node_id s.nodes ≡ some addr
    pub parsed : IsUrls urls (trim_right_slashes addr) key
    pub there : get (trim_right_slashes addr) s.network ≡ some h
    pub same_id : h.node_id ≡ node_id

  -- The client after the node's objects have become `objects`.
  abbrev pub after : String → StorageHandler O → O → Remotes → Remotes
  after addr h objects s = record s {
    network = put (trim_right_slashes addr) (record h { objects = objects }) s.network;
  }

  pub request_lem :
      (method node_id addr key : String) (version : ℕ) (body : Stream) (h : StorageHandler O)
      (s : Remotes)
      → IsReachable node_id addr key h s
      → request urls (deliver unescape store status_line) method node_id key version body s ≡ (
          let (r, n) =
            deliver unescape store status_line method
              (record {
                base = trim_right_slashes addr;
                path = "/objects/" ++ key;
                version = show_uint64 version;
              })
              body
              s.network in
          (r, record s { network = n }))
  unfolding request object_url
  request_lem method node_id addr key version body h s reach =
      ground (arith, reach.known, reach.parsed.parse_object version)

  pub object_request_lem :
      (method key : String) (version : ℕ) (body : Stream)
      → IsPlainKey unescape key
      → version < 2 ^ 64
      → eqb version 0 ≡ false
      → object_request unescape (record {
        method = method;
        path = "/objects/" ++ key;
        version = show_uint64 version;
        body = body;
      })
        ≡ ok (key, version)
  unfolding object_request
  object_request_lem method key version body plain small positive = ground (
    arith,
    trim_prefix-append "/objects/" key,
    plain.decoded,
    plain.not_empty,
    plain.no_parent,
    parse-show version small,
    positive,
  )

  pub no_health_check : (key : String) → ("/objects/" ++ key == "/healthz") ≡ false
  no_health_check key = elim (Bool-cases ("/objects/" ++ key == "/healthz")) [
    | inl same ↦
        let there =
          subst (λ t. starts_with t "/objects/" ≡ true)
            ((eq_iff ("/objects/" ++ key) "/healthz").0 same)
            (starts_with-append "/objects/" key) in
        ground (arith, there)
    | inr other_path ↦ other_path
  ]

  -- A request with a whole body reaches the part of the handler that follows the unescape.
  pub exchange :
      (method node_id addr key : String) (version : ℕ) (bytes : List ℕ) (h : StorageHandler O)
      (s : Remotes)
      → IsReachable node_id addr key h s
      → IsPlainKey unescape key
      → version < 2 ^ 64
      → eqb version 0 ≡ false
      → let body : Stream = record { bytes = bytes; read_error = none; close_error = none } in
        let r : Request = record {
          method = method;
          path = "/objects/" ++ key;
          version = show_uint64 version;
          body = body;
        } in
        request urls (deliver unescape store status_line) method node_id key version body s ≡ (
          let (response, h') = serve_object unescape store key version r h in
          (
            ok (answer unescape store status_line body response),
            record s { network = put (trim_right_slashes addr) h' s.network },
          ))
  unfolding deliver serve_storage
  exchange method node_id addr key version bytes h s reach plain small positive =
      let body : Stream = record { bytes = bytes; read_error = none; close_error = none } in
      ground (
        arith,
        request_lem method node_id addr key version body h s reach,
        reach.there,
        starts_with-append "/objects/" key,
        no_health_check key,
        object_request_lem method key version body plain small positive,
      )
