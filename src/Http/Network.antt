-- ===== src/Http/Network.antt =====
-- A network that brings each request to the storage node at its address, and the documented
-- behaviour of net/url that the proofs rely on.
use Prim.Native.String.{◌++◌}
use go_infra_lab.Common.{ℕ, String, none, some, ◌≡◌, if◌then◌else◌, ltb, length, take, show_uint64}
use go_infra_lab.Common.Numbers.{parse_uint}
use go_infra_lab.GoMap.{GoMap, get, put}
use go_infra_lab.Action.{other, ok, err}
use go_infra_lab.Objects.{ObjectStore, Stream}
use package.go_infra_lab.Http.{Unescape, Response, empty, text, json, contents}
use package.go_infra_lab.Http.Client.{Urls, Answer, Transport, no_body}
use package.go_infra_lab.Http.Storage.{StorageHandler, serve_storage}

-- Parsing a URL that was put together from a base, a path and an escaped key splits it there, and
-- decodes the key.
pub record IsUrls (urls : Urls) (base key : String) : Type 0 where
  pub parse_object :
      (version : ℕ)
      → urls.parse
          (base ++ ("/objects/" ++ (urls.path_escape key ++ ("?version=" ++ show_uint64 version))))
        ≡ ok (record { base = base; path = "/objects/" ++ key; version = show_uint64 version })
  pub parse_file :
      urls.parse (base ++ ("/files/" ++ urls.path_escape key))
      ≡ ok (record { base = base; path = "/files/" ++ key; version = "" })
  pub parse_metadata :
      urls.parse ((base ++ ("/files/" ++ urls.path_escape key)) ++ "/metadata")
      ≡ ok (record { base = base; path = "/files/" ++ (key ++ "/metadata"); version = "" })

-- The body that a client reads: no more than the Content-Length, and an error if there is less.
abbrev pub delivered : ℕ → Stream → Stream
delivered size src = record {
  bytes = take size src.bytes;
  read_error = if ltb (length src.bytes) size then some (other "unexpected EOF") else none;
  close_error = none;
}

module _ {O : Type 0} (unescape : Unescape) (store : ObjectStore O) (status_line : ℕ → String) where
  -- The storage nodes by their address.
  abbrev pub Nodes : Type 0
  Nodes = GoMap (StorageHandler O)

  abbrev pub content_length : Response → ℕ
  content_length response = elim (get "Content-Length" response.headers) [
    | none ↦ 0
    | some t ↦ elim (parse_uint t) [ none ↦ 0 | some n ↦ n ]
  ]

  abbrev pub answer : Stream → Response → Answer
  answer sent response = record {
    status = response.status;
    status_line = status_line response.status;
    content_length = content_length response;
    body = elim response.body [
      | empty ↦ no_body
      | text t ↦ no_body
      | json v ↦ no_body
      | contents src ↦ delivered (content_length response) src
    ];
    sent = length sent.bytes;
  }

  -- A body that breaks off is an error for both sides.
  unfoldable pub deliver : Transport Nodes
  deliver method url body n = elim (get url.base n) [
    | none ↦ (err (other "connection refused"), n)
    | some handler ↦
        let received : Stream = record body {
          read_error = elim body.read_error [
            | none ↦ none
            | some e ↦ some (other "unexpected EOF")
          ];
        } in
        let (response, handler') =
          serve_storage unescape store
            (record { method = method; path = url.path; version = url.version; body = received })
            handler in
        (
          elim body.read_error [ some e ↦ err e | none ↦ ok (answer body response) ],
          put url.base handler' n,
        )
  ]
