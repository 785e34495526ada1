-- ===== src/Http/Storage.antt =====
-- distributed-fs/http_api.go: `StorageHTTPHandler`, the server of one storage node.
use go_infra_lab.Common.{ℕ, String, [], ◌∷◌, ◌==◌, if◌then◌else◌, not, show_uint64}
use text.Mathlib.Text.{starts_with}
use go_infra_lab.Action.{ok, err}
use go_infra_lab.Objects.{ObjectStore}
use package.go_infra_lab.Http.{
  Unescape, Request, Response, contents, of_bytes, write_header, not_found, write_api_json,
  write_api_error, object_request,
}

-- The handler's node and the state of its object store.
pub record StorageHandler (O : Type 0) : Type 0 where
  pub node_id : String
  pub objects : O

module _ {O : Type 0} (unescape : Unescape) (store : ObjectStore O) where
  unfoldable pub put_object : String → ℕ → Request → StorageHandler O → Response × StorageHandler O
  put_object key version r h =
      let (written, objects) =
        store.write_object h.node_id key version r.body.bytes r.body.read_error h.objects in
      (
        elim written [
          | err e ↦ write_api_error 500 e
          | ok w ↦ write_api_json 201 (of_bytes w.count)
        ],
        record h { objects = objects },
      )

  unfoldable pub get_object : String → ℕ → StorageHandler O → Response × StorageHandler O
  get_object key version h =
      let (opened, objects) = store.read_object h.node_id key version h.objects in
      (
        elim opened [
          | err e ↦ write_api_error 404 e
          | ok (size, src) ↦ record {
            status = 200;
            headers = ("Content-Length", show_uint64 size) ∷ [];
            body = contents src;
          }
        ],
        record h { objects = objects },
      )

  unfoldable pub delete_object : String → ℕ → StorageHandler O → Response × StorageHandler O
  delete_object key version h =
      let (deleted, objects) = store.delete_object h.node_id key version h.objects in
      (
        elim deleted [ err e ↦ write_api_error 404 e | ok _ ↦ write_header 204 ],
        record h { objects = objects },
      )

  -- The `switch` on the method.
  unfoldable pub serve_object :
      String → ℕ → Request → StorageHandler O → Response × StorageHandler O
  serve_object key version r h =
      if r.method == "PUT"
      then put_object key version r h
      else if r.method == "GET"
      then get_object key version h
      else if r.method == "HEAD"
      then (write_header (if store.has_object h.node_id key version h.objects then 200 else 404), h)
      else if r.method == "DELETE"
      then delete_object key version h
      else (write_header 405, h)

  unfoldable pub serve_storage : Request → StorageHandler O → Response × StorageHandler O
  serve_storage r h =
      if r.path == "/healthz"
      then (write_header 200, h)
      else if not (starts_with r.path "/objects/")
      then (not_found, h)
      else elim (object_request unescape r) [
        | err e ↦ (write_api_error 400 e, h)
        | ok (key, version) ↦ serve_object key version r h
      ]
