-- ===== src/Http.antt =====
-- distributed-fs/http_api.go: requests and responses as the handlers see them, and what they share.
pub mod Manager
pub mod Storage
pub mod Routes
pub mod Keys
pub mod Client
pub mod Network
pub mod Remote
pub mod RemoteStore
pub mod RemoteRefusal
pub mod RoundTrip
use go_infra_lab.Common.{ℕ, String, Bool, List, [], ◌∷◌, ◌==◌, ◌||◌, eqb, if◌then◌else◌, none, some}
use go_infra_lab.Common.Strings.{trim_prefix, has_suffix, trim_suffix, contains}
use go_infra_lab.Common.Numbers.{parse_uint}
use go_infra_lab.GoMap.{GoMap}
use go_infra_lab.Action.{
  Error, other, error_text, Result, ok, err, metadata_not_found, file_deleted, no_pending_tasks,
  no_healthy_nodes, no_readable_replicas,
}
use go_infra_lab.Metadata.{NodeMetadata, FileMetadata}
use go_infra_lab.Replication.{ReplicationTask}
use go_infra_lab.Objects.{Stream}
use go_infra_lab.Service.Metrics.{ServiceMetrics}

-- The request's method, the decoded path of its URL, the query parameter `version` and the body.
pub record Request : Type 0 where
  pub method : String
  pub path : String
  pub version : String
  pub body : Stream

-- A value that is written as JSON.
pub data Json : Type 0 where
  of_file : FileMetadata → Json
  of_nodes : List NodeMetadata → Json
  of_metrics : ServiceMetrics → Json
  of_node : NodeMetadata → Json
  of_task : ReplicationTask → Json
  of_bytes : ℕ → Json
  of_error : String → Json

pub data Body : Type 0 where
  empty : Body
  text : String → Body
  json : Json → Body
  contents : Stream → Body

pub record Response : Type 0 where
  pub status : ℕ
  pub headers : GoMap String
  pub body : Body

-- `url.PathUnescape`
abbrev pub Unescape : Type 0
Unescape = String → Result String

-- `w.WriteHeader(status)`
abbrev pub write_header : ℕ → Response
write_header status = record { status = status; headers = []; body = empty }

-- `http.NotFound`
abbrev pub not_found : Response
not_found = record {
  status = 404;
  headers =
      ("Content-Type", "text/plain; charset=utf-8") ∷ ("X-Content-Type-Options", "nosniff") ∷ [];
  body = text "404 page not found\n";
}

unfoldable pub write_api_json : ℕ → Json → Response
write_api_json status v = record {
  status = status;
  headers = ("Content-Type", "application/json") ∷ [];
  body = json v;
}

unfoldable pub write_api_error : ℕ → Error → Response
write_api_error status e = write_api_json status (of_error (error_text e))

unfoldable pub status_for_error : Error → ℕ
status_for_error e = elim e [
  | metadata_not_found ↦ 404
  | file_deleted ↦ 404
  | no_pending_tasks ↦ 204
  | no_healthy_nodes ↦ 503
  | no_readable_replicas ↦ 503
  | _ ↦ 500
]

module _ (unescape : Unescape) where
  unfoldable pub file_key_from_path : String → Result (String × Bool)
  file_key_from_path path =
      let raw = trim_prefix path "/files/" in
      let metadata_only = has_suffix raw "/metadata" in
      elim (unescape (if metadata_only then trim_suffix raw "/metadata" else raw)) [
        | err e ↦ err e
        | ok key ↦
            if (key == "") || contains key ".."
            then err (other "invalid file key")
            else ok (key, metadata_only)
      ]

  unfoldable pub object_request : Request → Result (String × ℕ)
  object_request r = elim (unescape (trim_prefix r.path "/objects/")) [
    | err e ↦ err e
    | ok key ↦
        if (key == "") || contains key ".."
        then err (other "invalid object key")
        else elim (parse_uint r.version) [
          | none ↦ err (other "version is required")
          | some version ↦
              if eqb version 0 then err (other "version is required") else ok (key, version)
        ]
  ]
