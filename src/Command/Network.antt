-- ===== src/Command/Network.antt =====
-- distributed-fs/main.go and distributed-fs/http_api.go: a network that brings the requests of the
-- commands to the manager.
use go_infra_lab.Common.{ℕ, String, none, some, List, ◌==◌, if◌then◌else◌, length}
use go_infra_lab.Action.{other, ok, err}
use go_infra_lab.Objects.{Stream}
use go_infra_lab.Service.{Service, Environment}
use go_infra_lab.Http.{Response, Json, empty, text, json, contents}
use go_infra_lab.Http.Client.{Answer, Transport, no_body}
use go_infra_lab.Http.Manager.{Extras, serve_manager}

-- How the server writes texts and JSON values, and the status line of a status.
pub record Rendering : Type 0 where
  pub text_bytes : String → List ℕ
  pub json_bytes : Json → List ℕ
  pub status_line : ℕ → String

module _ {S Q O : Type 0} (env : Environment S Q O) (extras : Extras O) (render : Rendering)
    (base : String) where
  abbrev body_of : Response → Stream
  body_of response = elim response.body [
    | empty ↦ no_body
    | text t ↦ record no_body { bytes = render.text_bytes t }
    | json v ↦ record no_body { bytes = render.json_bytes v }
    | contents src ↦ src
  ]

  abbrev pub answer_to : Stream → Response → Answer
  answer_to sent response = record {
    status = response.status;
    status_line = render.status_line response.status;
    content_length = 0;
    body = body_of response;
    sent = length sent.bytes;
  }

  -- The manager is at one address. A body that breaks off is an error for both sides.
  unfoldable pub deliver_manager : Transport (Service S Q O)
  deliver_manager method url body s =
      let received : Stream = record body {
        read_error = elim body.read_error [ none ↦ none | some e ↦ some (other "unexpected EOF") ];
      } in
      let (response, s') =
        serve_manager env extras
          (record { method = method; path = url.path; version = url.version; body = received }) s in
      if url.base == base
      then (elim body.read_error [ some e ↦ err e | none ↦ ok (answer_to body response) ], s')
      else (err (other "connection refused"), s)
