-- ===== src/Command/Rounds.antt =====
-- distributed-fs/main.go: the commands against a manager, from the client to the objects.
use Prim.Native.String.{◌++◌}
use go_infra_lab.Common.{
  ℕ, ◌^◌, ◌<◌, ◌≡◌, refl, sym, subst, arith, String, false, Option, none, List, [], ◌∷◌, eq_refl,
  length, inl, inr, show_uint64,
}
use go_infra_lab.Common.Strings.{trim_right_slashes, trim_prefix-append, has_suffix}
use text.Mathlib.TextPositions.{starts_with-append}
use go_infra_lab.Action.{Error, panic, ok, continue}
use go_infra_lab.Metadata.{FileMetadata}
use go_infra_lab.Objects.{ObjectStore}
use go_infra_lab.Objects.Contract.{IsObjectStore, stream_of}
use go_infra_lab.Staging.{TempFiles, eof}
use go_infra_lab.Staging.Delivery.{Result-cases}
use go_infra_lab.Service.{Service, Environment}
use go_infra_lab.Service.Files.{put_file, get_contents}
use go_infra_lab.Service.Putting.{Manager, in_memory}
use go_infra_lab.Service.RoundTrip.{get-put_file}
use go_infra_lab.Http.{Request, file_key_from_path, write_api_json, write_api_error}
use go_infra_lab.Http.Client.{Urls, Transport}
use go_infra_lab.Http.Keys.{IsPlainKey, file_url}
use go_infra_lab.Http.Manager.{
  Extras, serve_manager, handle_file, serve_key, handle_put, handle_get,
}
use go_infra_lab.Http.Network.{IsUrls}
use package.go_infra_lab.Command.{
  LocalFiles, Formats, World, request, check_status, run_put, run_get, save_body, print,
}
use package.go_infra_lab.Command.Network.{Rendering, answer_to, deliver_manager}

module _ {S Q O : Type 0} (env : Environment S Q O) (extras : Extras O) (render : Rendering)
    (urls : Urls) (manager key : String) (is_urls : IsUrls urls (trim_right_slashes manager) key)
    (plain : IsPlainKey extras.unescape key) (no_suffix : has_suffix key "/metadata" ≡ false) where
  base : String
  base = trim_right_slashes manager

  -- The manager serves the requests for a file's URL by its method.
  serve_file :
      (r : Request) (s : Service S Q O)
      → r.path ≡ "/files/" ++ key
      → serve_manager env extras r s ≡ serve_key env extras key false r s
  unfolding serve_manager handle_file file_key_from_path
  serve_file r s path = ground (
    arith,
    path,
    starts_with-append "/files/" key,
    trim_prefix-append "/files/" key,
    no_suffix,
    plain.not_empty,
    plain.no_parent,
    plain.decoded,
  )

  -- What comes back to a command that asks for the file's URL.
  request_file :
      {L : Type 0} (local : LocalFiles L) {J : Type 0} (formats : Formats J) (bad : Error → Error)
      (method : String) (bytes : List ℕ) (w : World L (Service S Q O))
      → let served =
          serve_key env extras key false
            (record {
              method = method;
              path = "/files/" ++ key;
              version = "";
              body = stream_of bytes;
            })
            w.network in
        request local formats urls
          (deliver_manager env extras render base)
          bad
          method
          (file_url urls manager key)
          (stream_of bytes)
          w
        ≡ (
          ok (answer_to env extras render base (stream_of bytes) served.0),
          record w { network = served.1 },
        )
  unfolding request deliver_manager file_url base
  request_file local formats bad method bytes w =
      let r : Request = record {
        method = method;
        path = "/files/" ++ key;
        version = "";
        body = stream_of bytes;
      } in
      ground (
        arith,
        is_urls.parse_file,
        eq_refl (trim_right_slashes manager),
        serve_file r w.network refl,
      )

  module _ {L J : Type 0} (local : LocalFiles L) (formats : Formats J) where
    abbrev net : Transport (Service S Q O)
    net = deliver_manager env extras render base

    -- A `put` that succeeds has stored the file.
    put_stores :
        (path : String) (bytes : List ℕ) (w : World L (Service S Q O))
        → local.open_file path w.files ≡ ok (stream_of bytes)
        → (run_put local formats urls net manager (key ∷ path ∷ []) w).0 ≡ ok tt
        → (meta : FileMetadata) × ((put_file env key ((bytes, eof) ∷ []) w.network).0 ≡ ok meta)
          × ((run_put local formats urls net manager (key ∷ path ∷ []) w).1.network
              ≡ (put_file env key ((bytes, eof) ∷ []) w.network).1)
    unfolding run_put check_status serve_key handle_put write_api_json write_api_error
    put_stores path bytes w opened done =
        let sent = request_file local formats (λ e. panic) "PUT" bytes w in
        let stored = put_file env key ((bytes, eof) ∷ []) w.network in
        elim (Result-cases stored.0) [
          | inr (e, failed) ↦ absurd (ground (arith, opened, sent, failed))
          | inl (meta, ok_put) ↦ (meta, ok_put, ground (arith, opened, sent, ok_put))
        ]

    -- A `get` writes what the service returns to the file, and prints its length.
    get_saves :
        (out : String) (bytes : List ℕ) (meta : FileMetadata) (w : World L (Service S Q O))
        → get_contents env key w.network ≡ (ok (bytes, meta), w.network)
        → run_get local formats urls net manager (key ∷ out ∷ []) w
          ≡ continue (save_body local formats urls net out (stream_of bytes) w) (λ n.
            print local formats urls net ("fetched key=" ++ (key ++ (" bytes=" ++ show_uint64 n))))
    unfolding run_get check_status serve_key handle_get
    get_saves out bytes meta w returned =
        let sent = request_file local formats (λ e. e) "GET" [] w in ground (arith, sent, returned)

module _ {O : Type 0} (store : ObjectStore O) (held : String → String → ℕ → O → Option (List ℕ))
    (laws : IsObjectStore store held) (sha256 : List ℕ → String) (temp : TempFiles)
    (seek_error : ℕ → Option Error) (seeks : (n : ℕ) → seek_error n ≡ none)
    (creates : temp.create_error ≡ none)
    (writes : (file piece : List ℕ) → temp.write_error file piece ≡ none) where
  -- What `fs put` has uploaded, `fs get` downloads, through the manager's handler and its service
  -- over the metadata store and the task queue in memory and any object store that keeps what was
  -- written, while seeks and temporary files work. For a key that is not empty, has no "..", is not
  -- changed by decoding and does not end in "/metadata", whose URLs are parsed to it: if the `put`
  -- of a readable file of fewer than 2 ^ 63 bytes succeeds, a `get` of the key that follows finds
  -- its bytes; all it does is to write them to the named file and to print their number.
  pub run_get-run_put :
      {L J : Type 0} (local : LocalFiles L) (formats : Formats J) (extras : Extras O)
      (render : Rendering) (urls : Urls) (manager key path out : String) (bytes : List ℕ)
      (w : World L (Manager O))
      → IsUrls urls (trim_right_slashes manager) key
      → IsPlainKey extras.unescape key
      → has_suffix key "/metadata" ≡ false
      → length bytes < 2 ^ 63
      → let net =
          deliver_manager
            (in_memory store sha256 temp seek_error)
            extras
            render
            (trim_right_slashes manager) in
        local.open_file path w.files ≡ ok (stream_of bytes)
        → (run_put local formats urls net manager (key ∷ path ∷ []) w).0 ≡ ok tt
        → let w' = (run_put local formats urls net manager (key ∷ path ∷ []) w).1 in
          run_get local formats urls net manager (key ∷ out ∷ []) w'
          ≡ continue (save_body local formats urls net out (stream_of bytes) w') (λ n.
            print local formats urls net ("fetched key=" ++ (key ++ (" bytes=" ++ show_uint64 n))))
  unfolding base
  run_get-run_put local formats extras render urls manager key path out bytes w is_urls plain
        no_suffix small opened done =
      let env = in_memory store sha256 temp seek_error in
      let net = deliver_manager env extras render (trim_right_slashes manager) in
      let w' = (run_put local formats urls net manager (key ∷ path ∷ []) w).1 in
      let (meta, stored, after) =
        put_stores env extras render urls manager key is_urls plain no_suffix local formats path
          bytes w opened done in
      let back =
        get-put_file store held laws sha256 temp seek_error seeks creates writes key
          ((bytes, eof) ∷ []) bytes meta w.network refl small stored in
      get_saves env extras render urls manager key is_urls plain no_suffix local formats out bytes
        meta w' (subst (λ s. get_contents env key s ≡ (ok (bytes, meta), s)) (sym after) back.0)
