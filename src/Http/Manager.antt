-- ===== src/Http/Manager.antt =====
-- distributed-fs/http_api.go: `ManagerHTTPHandler`, the server of the file service.
use go_infra_lab.Common.{
  ℕ, String, Bool, true, false, Option, none, some, List, [], ◌∷◌, ◌==◌, if◌then◌else◌, not,
  show_uint64,
}
use go_infra_lab.Common.Strings.{trim_prefix}
use text.Mathlib.Text.{starts_with}
use go_infra_lab.Action.{other, Result, ok, err, metadata_not_found}
use go_infra_lab.Objects.{Stream}
use go_infra_lab.Worker.{finished, copy_failed, stopped}
use go_infra_lab.Service.{Service, Environment}
use go_infra_lab.Service.Storage.{stream_reads}
use go_infra_lab.Service.Files.{put_file, get_contents, delete_key, run_replication_once}
use go_infra_lab.Service.Delegates.{register_node, metadata_of, nodes}
use go_infra_lab.Service.Metrics.{metrics}
use package.go_infra_lab.Http.{
  Unescape, Request, Response, contents, of_file, of_nodes, of_metrics, of_node, of_task,
  write_header, not_found, write_api_json, write_api_error, status_for_error, file_key_from_path,
}

-- What the handler uses beside the service: the parsers, the decoder of a heartbeat's JSON body,
-- and `httpStore.SetNode`. The `httpStore` of the program is the object store of its service.
pub record Extras (O : Type 0) : Type 0 where
  pub unescape : Unescape
  pub decode_addr : Stream → Result String
  pub set_node : Option (String → String → O → O)

-- The stream of a file's contents.
abbrev pub whole : List ℕ → Stream
whole bytes = record { bytes = bytes; read_error = none; close_error = none }

module _ {S Q O : Type 0} (env : Environment S Q O) (extras : Extras O) where
  abbrev pub Handler : Type 0
  Handler = Service S Q O → Response × Service S Q O

  unfoldable pub handle_put : String → Request → Handler
  handle_put key r s =
      let (stored, s') = put_file env key (stream_reads env r.body) s in
      (
        elim stored [ err e ↦ write_api_error 503 e | ok meta ↦ write_api_json 201 (of_file meta) ],
        s',
      )

  unfoldable pub handle_get : String → Handler
  handle_get key s =
      let (found, s') = get_contents env key s in
      (
        elim found [
          | err e ↦ write_api_error (status_for_error e) e
          | ok (file, meta) ↦ record {
            status = 200;
            headers =
                ("X-DFS-Version", show_uint64 meta.version)
                ∷ ("X-DFS-Checksum", meta.checksum)
                ∷ [];
            body = contents (whole file);
          }
        ],
        s',
      )

  unfoldable pub handle_delete : String → Handler
  handle_delete key s =
      let (deleted, s') = delete_key env key s in
      (
        elim deleted [ err e ↦ write_api_error (status_for_error e) e | ok _ ↦ write_header 204 ],
        s',
      )

  unfoldable pub handle_metadata : String → Request → Handler
  handle_metadata key r s =
      let (found, s') = metadata_of env key s in
      if not (r.method == "GET") then (write_header 405, s) else (
        elim found [
          | err e ↦ write_api_error 500 e
          | ok none ↦ write_api_error 404 metadata_not_found
          | ok (some meta) ↦ write_api_json 200 (of_file meta)
        ],
        s',
      )

  -- The part of `handleFile` that follows the path: the file's metadata, or the `switch` on the
  -- method.
  unfoldable pub serve_key : String → Bool → Request → Handler
  serve_key key true r s = handle_metadata key r s
  serve_key key false r s =
      if r.method == "PUT"
      then handle_put key r s
      else if r.method == "GET"
      then handle_get key s
      else if r.method == "DELETE"
      then handle_delete key s
      else (write_header 405, s)

  unfoldable pub handle_file : Request → Handler
  handle_file r s = elim (file_key_from_path extras.unescape r.path) [
    | err e ↦ (write_api_error 400 e, s)
    | ok (key, metadata_only) ↦ serve_key key metadata_only r s
  ]

  unfoldable pub handle_nodes : Request → Handler
  handle_nodes r s =
      let (listed, s') = nodes env s in
      if not (r.method == "GET") then (write_header 405, s) else (
        elim listed [ err e ↦ write_api_error 500 e | ok ns ↦ write_api_json 200 (of_nodes ns) ],
        s',
      )

  unfoldable pub handle_metrics : Request → Handler
  handle_metrics r s =
      let (counted, s') = metrics env s in
      if not (r.method == "GET") then (write_header 405, s) else (
        elim counted [ err e ↦ write_api_error 500 e | ok m ↦ write_api_json 200 (of_metrics m) ],
        s',
      )

  -- `SetNode` on the object store of the service, if there is one.
  abbrev pub set_node_addr : String → String → Service S Q O → Service S Q O
  set_node_addr id addr s = elim extras.set_node [
    | none ↦ s
    | some set_node ↦ record s { objects = set_node id addr s.objects }
  ]

  unfoldable pub register : String → String → Handler
  register id addr s =
      let (registered, s') = register_node env id addr s in
      elim registered [
        | err e ↦ (write_api_error 500 e, s')
        | ok node ↦ (write_api_json 200 (of_node node), set_node_addr id addr s')
      ]

  unfoldable pub handle_node_heartbeat : Request → Handler
  handle_node_heartbeat r s =
      if not (r.method == "PUT")
      then (write_header 405, s)
      else elim (extras.unescape (trim_prefix r.path "/internal/nodes/")) [
        | err e ↦ (write_api_error 400 (other "invalid node id"), s)
        | ok id ↦
            if id == ""
            then (write_api_error 400 (other "invalid node id"), s)
            else elim (extras.decode_addr r.body) [
              | err e ↦ (write_api_error 400 e, s)
              | ok addr ↦
                  if addr == ""
                  then (write_api_error 400 (other "node addr is required"), s)
                  else register id addr s
            ]
      ]

  unfoldable pub handle_replication_run : Request → Handler
  handle_replication_run r s =
      let (result, s') = run_replication_once env s in
      if not (r.method == "POST") then (write_header 405, s) else (
        elim result [
          | finished task ↦ write_api_json 200 (of_task task)
          | copy_failed task e ↦ write_api_error (status_for_error e) e
          | stopped e ↦ write_api_error (status_for_error e) e
        ],
        s',
      )

  unfoldable pub serve_manager : Request → Handler
  serve_manager r s =
      if starts_with r.path "/files/"
      then handle_file r s
      else if r.path == "/nodes"
      then handle_nodes r s
      else if r.path == "/metrics"
      then handle_metrics r s
      else if r.path == "/replication/run"
      then handle_replication_run r s
      else if starts_with r.path "/internal/nodes/"
      then handle_node_heartbeat r s
      else if r.path == "/healthz"
      then (write_header 200, s)
      else (not_found, s)
