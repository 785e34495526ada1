-- ===== src/Http/Routes.antt =====
-- distributed-fs/http_api.go: what a manager does with a malformed or unsupported request.
use go_infra_lab.Common.{ℕ, String, Bool, true, false, ◌≡◌, arith, eqb, ◌||◌}
use go_infra_lab.Action.{Error}
use go_infra_lab.Service.{Service, Environment}
use package.go_infra_lab.Http.{Request, Response, write_api_json, write_api_error, status_for_error}
use package.go_infra_lab.Http.Manager.{
  Extras, handle_put, handle_get, handle_delete, handle_metadata, serve_key, handle_file,
  handle_nodes, handle_metrics, register, handle_node_heartbeat, handle_replication_run,
  serve_manager,
}

-- The statuses for a request that is malformed or has a method that its path does not support.
abbrev pub is_400_or_405 : ℕ → Bool
is_400_or_405 status = eqb status 400 || eqb status 405

status_for_error-is_400_or_405 : (e : Error) → is_400_or_405 (status_for_error e) ≡ false
unfolding status_for_error
status_for_error-is_400_or_405 e = ground arith

module _ {S Q O : Type 0} (env : Environment S Q O) (extras : Extras O) where
  -- A response with another status, or comes with the service as it was.
  abbrev KeepsRefused : Service S Q O → Response × Service S Q O → Type 0
  KeepsRefused s x = is_400_or_405 x.0.status ≡ true → x.1 ≡ s

  put_refused :
      (key : String) (r : Request) (s : Service S Q O)
      → KeepsRefused s (handle_put env extras key r s)
  unfolding handle_put write_api_json write_api_error
  put_refused key r s h = ground arith

  get_refused : (key : String) (s : Service S Q O) → KeepsRefused s (handle_get env extras key s)
  unfolding handle_get write_api_json write_api_error
  get_refused key s h = grind (arith, status_for_error-is_400_or_405)

  delete_refused :
      (key : String) (s : Service S Q O) → KeepsRefused s (handle_delete env extras key s)
  unfolding handle_delete write_api_json write_api_error
  delete_refused key s h = grind (arith, status_for_error-is_400_or_405)

  metadata_refused :
      (key : String) (r : Request) (s : Service S Q O)
      → KeepsRefused s (handle_metadata env extras key r s)
  unfolding handle_metadata write_api_json write_api_error
  metadata_refused key r s h = ground arith

  key_refused :
      (key : String) (metadata_only : Bool) (r : Request) (s : Service S Q O)
      → KeepsRefused s (serve_key env extras key metadata_only r s)
  unfolding serve_key
  key_refused key true r s h = metadata_refused key r s h
  key_refused key false r s h =
      ground (arith, put_refused key r s, get_refused key s, delete_refused key s)

  file_refused : (r : Request) (s : Service S Q O) → KeepsRefused s (handle_file env extras r s)
  unfolding handle_file
  file_refused r s h = grind (arith, key_refused)

  nodes_refused : (r : Request) (s : Service S Q O) → KeepsRefused s (handle_nodes env extras r s)
  unfolding handle_nodes write_api_json write_api_error
  nodes_refused r s h = ground arith

  metrics_refused :
      (r : Request) (s : Service S Q O) → KeepsRefused s (handle_metrics env extras r s)
  unfolding handle_metrics write_api_json write_api_error
  metrics_refused r s h = ground arith

  heartbeat_refused :
      (r : Request) (s : Service S Q O) → KeepsRefused s (handle_node_heartbeat env extras r s)
  unfolding handle_node_heartbeat register write_api_json write_api_error
  heartbeat_refused r s h = ground arith

  run_refused :
      (r : Request) (s : Service S Q O) → KeepsRefused s (handle_replication_run env extras r s)
  unfolding handle_replication_run write_api_json write_api_error
  run_refused r s h = grind (arith, status_for_error-is_400_or_405)

  -- A request that the manager answers with status 400 or 405, as it does when the request is
  -- malformed or its method is not supported, changes nothing.
  pub serve_refused :
      (r : Request) (s : Service S Q O)
      → is_400_or_405 (serve_manager env extras r s).0.status ≡ true
      → (serve_manager env extras r s).1 ≡ s
  unfolding serve_manager
  serve_refused r s h = ground (
    arith,
    file_refused r s,
    nodes_refused r s,
    metrics_refused r s,
    heartbeat_refused r s,
    run_refused r s,
  )
