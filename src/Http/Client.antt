-- ===== src/Http/Client.antt =====
-- distributed-fs/http_object_store.go: `HTTPObjectStore`, over what net/url and the HTTP client do.
use Prim.Native.String.{◌++◌}
use go_infra_lab.Common.{
  ℕ, ◌/◌, String, Bool, false, Option, none, some, List, [], if◌then◌else◌, not, eqb, ◌&&◌,
  show_uint64,
}
use go_infra_lab.Common.Strings.{trim_right_slashes}
use go_infra_lab.GoMap.{GoMap, get, put}
use go_infra_lab.Action.{Action, Error, other, Result, ok, err}
use go_infra_lab.Objects.{ObjectStore, Stream, Written}

-- A parsed URL: the part before the path, the decoded path and the query parameter `version`.
pub record Url : Type 0 where
  pub base : String
  pub path : String
  pub version : String

-- `url.PathEscape`, and the unescape in `http.NewRequest`.
pub record Urls : Type 0 where
  pub path_escape : String → String
  pub parse : String → Result Url

-- The response to a request, and how many bytes of the request's body were read.
pub record Answer : Type 0 where
  pub status : ℕ
  pub status_line : String
  pub content_length : ℕ
  pub body : Stream
  pub sent : ℕ

-- `client.Do`, on the state of the network.
abbrev pub Transport : Type 0 → Type 0
Transport N = String → Url → Stream → Action N Answer

pub record HttpObjectStore (N : Type 0) : Type 0 where
  pub nodes : GoMap String
  pub network : N

abbrev pub no_body : Stream
no_body = record { bytes = []; read_error = none; close_error = none }

unfoldable pub set_node : {N : Type 0} → String → String → HttpObjectStore N → HttpObjectStore N
set_node node_id addr s = record s { nodes = put node_id addr s.nodes }

module _ {N : Type 0} (urls : Urls) (transport : Transport N) where
  unfoldable pub object_url : HttpObjectStore N → String → String → ℕ → String
  object_url s node_id key version =
      let addr : String = elim (get node_id s.nodes) [ none ↦ "" | some a ↦ a ] in
      trim_right_slashes addr
      ++ ("/objects/" ++ (urls.path_escape key ++ ("?version=" ++ show_uint64 version)))

  -- `http.NewRequest`, which parses the URL, and `client.Do`.
  unfoldable pub request : String → String → String → ℕ → Stream → Action (HttpObjectStore N) Answer
  unfolding object_url
  request method node_id key version body s = elim (urls.parse (object_url s node_id key version)) [
    | err e ↦ (err e, s)
    | ok url ↦
        let (r, network) = transport method url body s.network in
        (r, record s { network = network })
  ]

  abbrev is_success : ℕ → Bool
  is_success status = eqb (status / 100) 2

  unfoldable pub write_object :
      String → String → ℕ → List ℕ → Option Error → Action (HttpObjectStore N) Written
  write_object node_id key version bytes read_error s =
      let body : Stream = record { bytes = bytes; read_error = read_error; close_error = none } in
      let (r, s') = request "PUT" node_id key version body s in
      (
        elim r [
          | err e ↦ err e
          | ok a ↦
              if not (is_success a.status)
              then err (other ("storage write failed: " ++ a.status_line))
              else ok (record { count = a.sent; consumed = a.sent })
        ],
        s',
      )

  unfoldable pub read_object : String → String → ℕ → Action (HttpObjectStore N) (ℕ × Stream)
  read_object node_id key version s =
      let (r, s') = request "GET" node_id key version no_body s in
      (
        elim r [
          | err e ↦ err e
          | ok a ↦
              if not (eqb a.status 200)
              then err (other ("storage read failed: " ++ a.status_line))
              else ok (a.content_length, a.body)
        ],
        s',
      )

  unfoldable pub delete_object : String → String → ℕ → Action (HttpObjectStore N) (Unit {0})
  delete_object node_id key version s =
      let (r, s') = request "DELETE" node_id key version no_body s in
      (
        elim r [
          | err e ↦ err e
          | ok a ↦
              if not (is_success a.status) && not (eqb a.status 404)
              then err (other ("storage delete failed: " ++ a.status_line))
              else ok tt
        ],
        s',
      )

  unfoldable pub has_object : String → String → ℕ → HttpObjectStore N → Bool
  has_object node_id key version s = elim (request "HEAD" node_id key version no_body s).0 [
    | err e ↦ false
    | ok a ↦ eqb a.status 200
  ]

  abbrev pub http_object_store : ObjectStore (HttpObjectStore N)
  http_object_store = record {
    write_object = write_object;
    read_object = read_object;
    delete_object = delete_object;
    has_object = has_object;
  }
