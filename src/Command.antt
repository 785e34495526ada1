-- ===== src/Command.antt =====
-- distributed-fs/main.go: the client commands and the heartbeat of a storage node, after the flags
-- have been parsed. What they call of net/http, os and encoding/json is a parameter.
pub mod Network
pub mod Rounds
use Prim.Native.String.{◌++◌}
use go_infra_lab.Common.{
  ℕ, ◌/◌, String, Bool, Option, none, some, List, [], ◌∷◌, ◌==◌, not, if◌then◌else◌, eqb,
  show_uint64,
}
use go_infra_lab.Common.Strings.{trim_right_slashes}
use go_infra_lab.Action.{Action, Error, other, panic, Result, ok, err, fail, lift, ◌>>=◌, ◌>>◌}
use go_infra_lab.Metadata.{FileMetadata}
use go_infra_lab.Objects.{Stream}
use go_infra_lab.Http.Client.{Urls, Answer, Transport, no_body}
use go_infra_lab.Http.Keys.{file_url}

-- The files of the machine on which the command runs. `copy_to` is `io.Copy` to a file that was
-- just created.
pub record LocalFiles (L : Type 0) : Type 0 where
  pub open_file : String → L → Result Stream
  pub create : String → Action L (Unit {0})
  pub copy_to : String → Stream → Action L ℕ
  pub close_error : String → L → Option Error

-- The decoders and encoders of JSON, for a value of any shape too, and the text of a response.
pub record Formats (J : Type 0) : Type 0 where
  pub decode_file : Stream → Result FileMetadata
  pub decode_any : Stream → Result J
  pub marshal_indent : J → Result String
  pub marshal_addr : String → Result (List ℕ)
  pub trimmed_text : List ℕ → String

-- The local files, the network and what was printed.
pub record World (L N : Type 0) : Type 0 where
  pub files : L
  pub network : N
  pub printed : List String

-- `resp.StatusCode/100 == 2`
abbrev pub is_success : ℕ → Bool
is_success status = eqb (status / 100) 2

module _ {L N J : Type 0} (local : LocalFiles L) (formats : Formats J) (urls : Urls)
    (transport : Transport N) where
  abbrev pub Cmd {ℓ} : Type ℓ → Type ℓ
  Cmd A = Action (World L N) A

  abbrev pub print : String → Cmd (Unit {0})
  print line w = (ok tt, record w { printed = line ∷ w.printed })

  -- A request whose URL was parsed by `bad` on an error: `http.Get` returns the error,
  -- `mustRequest` panics.
  unfoldable pub request : (Error → Error) → String → String → Stream → Cmd Answer
  request bad method url body w = elim (urls.parse url) [
    | err e ↦ (err (bad e), w)
    | ok u ↦
        let (r, network) = transport method u body w.network in (r, record w { network = network })
  ]

  abbrev must_request : String → String → Stream → Cmd Answer
  must_request = request (λ e. panic)

  abbrev http_get : String → Cmd Answer
  http_get url = request (λ e. e) "GET" url no_body

  unfoldable pub response_error : Answer → Error
  response_error a =
      other ("request failed: " ++ (a.status_line ++ (" " ++ formats.trimmed_text a.body.bytes)))

  -- `if resp.StatusCode/100 != 2 { return responseError(resp) }`
  unfoldable pub check_status : Answer → Result (Unit {0})
  unfolding response_error
  check_status a = if not (is_success a.status) then err (response_error a) else ok tt

  unfoldable pub run_put : String → List String → Cmd (Unit {0})
  run_put manager (key ∷ path ∷ []) w = elim (local.open_file path w.files) [
    | err e ↦ (err e, w)
    | ok file ↦
        (do
          a ← must_request "PUT" (file_url urls manager key) file
          lift (check_status a)
          meta ← lift (formats.decode_file a.body)
          print (
              "stored key="
              ++ (meta.key
                  ++ (" version="
                      ++ (show_uint64 meta.version
                          ++ (" size="
                              ++ (show_uint64 meta.size ++ (" checksum=" ++ meta.checksum))))))))
          w
  ]
  run_put manager args w = (err (other "usage: fs put [flags] <key> <path>"), w)

  -- The part of `runGet` that writes the body to the file: `os.Create`, `io.Copy` and `Close`.
  unfoldable pub save_body : String → Stream → Cmd ℕ
  save_body path body w =
      let (created, files₁) = local.create path w.files in
      let (copied, files₂) = local.copy_to path body files₁ in
      elim created [
        | err e ↦ (err e, record w { files = files₁ })
        | ok _ ↦ (
          elim copied [
            | err e ↦ err e
            | ok n ↦ elim (local.close_error path files₂) [ some e ↦ err e | none ↦ ok n ]
          ],
          record w { files = files₂ },
        )
      ]

  unfoldable pub run_get : String → List String → Cmd (Unit {0})
  run_get manager (key ∷ out ∷ []) = do
    a ← http_get (file_url urls manager key)
    lift (check_status a)
    n ← save_body out a.body
    print ("fetched key=" ++ (key ++ (" bytes=" ++ show_uint64 n)))
  run_get manager args = fail (other "usage: fs get [flags] <key> <out>")

  unfoldable pub run_delete : String → List String → Cmd (Unit {0})
  run_delete manager (key ∷ []) = do
    a ← must_request "DELETE" (file_url urls manager key) no_body
    lift (check_status a)
    print ("deleted key=" ++ key)
  run_delete manager args = fail (other "usage: fs delete [flags] <key>")

  unfoldable pub print_json : String → Cmd (Unit {0})
  print_json endpoint = do
    a ← http_get endpoint
    lift (check_status a)
    v ← lift (formats.decode_any a.body)
    out ← lift (formats.marshal_indent v)
    print out

  unfoldable pub run_stat : String → List String → Cmd (Unit {0})
  unfolding print_json
  run_stat manager (key ∷ []) = print_json (file_url urls manager key ++ "/metadata")
  run_stat manager args = fail (other "usage: fs stat [flags] <key>")

  unfoldable pub run_nodes : String → List String → Cmd (Unit {0})
  unfolding print_json
  run_nodes manager [] = print_json (trim_right_slashes manager ++ "/nodes")
  run_nodes manager args = fail (other "usage: fs nodes [flags]")

  -- The endpoint of a node's heartbeat.
  unfoldable pub heartbeat_url : String → String → String
  heartbeat_url manager node_id =
      trim_right_slashes manager ++ ("/internal/nodes/" ++ urls.path_escape node_id)

  unfoldable pub send_heartbeat : String → String → String → Cmd (Unit {0})
  unfolding heartbeat_url
  send_heartbeat manager node_id addr = do
    body ← lift (formats.marshal_addr addr)
    a ← must_request "PUT" (heartbeat_url manager node_id) (record no_body { bytes = body })
    lift (check_status a)

  -- The address that `runStorage` announces, if it has a manager and an ID.
  unfoldable pub heartbeat_addr : String → String → String
  heartbeat_addr advertise addr = if advertise == "" then "http://127.0.0.1" ++ addr else advertise
