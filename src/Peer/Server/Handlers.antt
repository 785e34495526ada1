-- ===== src/Peer/Server/Handlers.antt =====
-- distributed-fs/server.go: storing a file and getting it, on both sides of a connection.
use Prim.Native.String.{◌++◌}
use go_infra_lab.Common.{ℕ, String, Option, none, some, List, [], ◌∷◌, if◌then◌else◌}
use go_infra_lab.GoMap.{GoMap, get, put}
use go_infra_lab.Action.{Action, Error, other, panic, Result, ok, err}
use go_infra_lab.Encryption.{copy_encrypt}
use go_infra_lab.Objects.{Stream}
use go_infra_lab.Staging.{add64}
use go_infra_lab.Store.{has, read, write, open_file_for_writing}
use package.go_infra_lab.Peer.{Rpc, TcpPeer, send, close_stream, incoming_stream}
use package.go_infra_lab.Peer.Server.{
  Message, message_store_file, message_get_file, no_payload, FileServer, Outside, broadcast_loop,
  multi_writer, write_all,
}
use package.go_infra_lab.Peer.Server.Streams.{
  limit_reader, read_size, le_bytes, reads_of, write_decrypt,
}

module _ {F K : Type 0} (out : Outside F K) where
  open out use {fs, file_writer, cipher, hash_key, encode, decode_message}

  abbrev pub Server : Type 0
  Server = FileServer F K

  unfoldable pub broadcast : Message → Action Server (Unit {0})
  broadcast msg s = elim (encode msg) [
    | err e ↦ (err e, s)
    | ok bytes ↦
        let (result, peers') = broadcast_loop bytes s.peers in (result, record s { peers = peers' })
  ]

  -- `Store`, of a reader with some bytes that may end in an error. `random` is what reading the IV
  -- gives.
  unfoldable pub store_key :
      String → List ℕ → Option Error → Result (List ℕ) → Action Server (Unit {0})
  store_key key bytes read_error random s =
      let (written, files') = write fs s.store s.id key bytes read_error s.files in
      let s₁ : Server = record s { files = files' } in
      elim written [
        | err e ↦ (err e, s₁)
        | ok size ↦
            let (sent, s₂) =
              broadcast (message_store_file s.id (hash_key key) (add64 size 16)) s₁ in
            let marked = (write_all (incoming_stream ∷ []) s₂.peers).1 in
            let file_buffer : Stream = record {
              bytes = bytes;
              read_error = none;
              close_error = none;
            } in
            let (copied, peers') =
              copy_encrypt multi_writer cipher s.enc_key random (reads_of file_buffer bytes)
                marked in
            elim sent [
              | err e ↦ (err e, s₂)
              | ok _ ↦ (elim copied [ err e ↦ err e | ok n ↦ ok tt ], record s₂ { peers = peers' })
            ]
      ]

  -- `peer.CloseStream()` for a peer of the map.
  unfoldable pub close_peer : String → TcpPeer → Action Server (Unit {0})
  close_peer addr peer s = elim (close_stream peer) [
    | err e ↦ (err e, record s { peers = put addr peer s.peers })
    | ok peer' ↦ (ok tt, record s { peers = put addr peer' s.peers })
  ]

  -- The peer after its stream was copied to a file, or before, if the file could not be opened.
  unfoldable pub if_opened : String → String → Server → TcpPeer → TcpPeer → TcpPeer
  if_opened id key s after before = elim (open_file_for_writing fs s.store id key s.files).0 [
    | err e ↦ before
    | ok _ ↦ after
  ]

  -- `handleMessageStoreFile`. The stream is not read if the file cannot be opened.
  unfoldable pub handle_message_store_file : String → String → String → ℕ → Action Server (Unit {0})
  unfolding close_peer
  handle_message_store_file from id key size s = elim (get from s.peers) [
    | none ↦ (err (other ("peer (" ++ (from ++ ") could not be found in the peer list"))), s)
    | some peer ↦
        let (src, peer') = limit_reader size peer in
        let (written, files') = write fs s.store id key src.bytes src.read_error s.files in
        let read_from = if_opened id key s peer' peer in
        elim written [
          | err e ↦ (err e, record s { files = files'; peers = put from read_from s.peers })
          | ok n ↦ close_peer from peer' (record s { files = files' })
        ]
  ]

  -- The loop of `Get` over the peers that have been asked; `left` are those still to be read.
  unfoldable pub fetch_loop : String → GoMap TcpPeer → Action Server (Unit {0})
  fetch_loop key [] s = (ok tt, s)
  fetch_loop key ((addr, peer) ∷ left) s =
      let (file_size, peer₁) = read_size peer in
      let (src, peer₂) = limit_reader file_size peer₁ in
      let (written, files') =
        write_decrypt fs file_writer cipher s.store s.enc_key s.id key src s.files in
      let (closed, s₂) = close_peer addr peer₂ (record s { files = files' }) in
      let read_from = if_opened s.id key s peer₂ peer₁ in
      let rest = fetch_loop key left s₂ in
      elim written [
        | err e ↦ (err e, record s { files = files'; peers = put addr read_from s.peers })
        | ok n ↦ elim closed [ err e ↦ (err e, s₂) | ok _ ↦ rest ]
      ]

  -- The read of the local copy, with which both ways through `Get` end.
  unfoldable pub read_local : String → Action Server Stream
  read_local key s =
      let (opened, files') = read fs s.store s.id key s.files in
      (elim opened [ err e ↦ err e | ok (size, src) ↦ ok src ], record s { files = files' })

  -- `Get`. `wait` is what happens on the connections while it sleeps.
  unfoldable pub get_key : (GoMap TcpPeer → GoMap TcpPeer) → String → Action Server Stream
  unfolding broadcast read_local
  get_key wait key s =
      let (asked, s₁) = broadcast (message_get_file s.id (hash_key key)) s in
      let s₂ : Server = record s₁ { peers = wait s₁.peers } in
      let (fetched, s₃) = fetch_loop key s₂.peers s₂ in
      if has fs s.store s.id key s.files then read_local key s else elim asked [
        | err e ↦ (err e, s₁)
        | ok _ ↦ elim fetched [ err e ↦ (err e, s₃) | ok _ ↦ read_local key s₃ ]
      ]

  -- What `handleMessageGetFile` sends: the marker, the size, and the file, with the errors of the
  -- first two not looked at. One write stands for those of `io.Copy`; an empty file makes none.
  unfoldable pub send_file : ℕ → Stream → TcpPeer → Option Error × TcpPeer
  send_file file_size src p =
      let p' = (send (le_bytes 8 file_size) (send (incoming_stream ∷ []) p).1).1 in
      elim src.bytes [
        | [] ↦ (src.read_error, p')
        | b ∷ bytes ↦
            let (failed, p'') = send (b ∷ bytes) p' in
            (elim failed [ some e ↦ some e | none ↦ src.read_error ], p'')
      ]

  -- `handleMessageGetFile`; the address in front of its error text is left out.
  unfoldable pub handle_message_get_file : String → String → String → Action Server (Unit {0})
  unfolding send_file
  handle_message_get_file from id key s =
      let (opened, files') = read fs s.store id key s.files in
      let s₁ : Server = record s { files = files' } in
      if has fs s.store id key s.files
      then elim opened [
        | err e ↦ (err e, s₁)
        | ok (file_size, src) ↦ elim (get from s.peers) [
          | none ↦ (err (other ("peer " ++ (from ++ " not in map"))), s₁)
          | some peer ↦
              let (failed, peer') = send_file file_size src peer in
              (
                elim failed [ some e ↦ err e | none ↦ ok tt ],
                record s₁ { peers = put from peer' s.peers },
              )
        ]
      ]
      else (err (other ("need to serve file (" ++ (key ++ ") but it does not exist on disk"))), s)

  unfoldable pub handle_message : String → Message → Action Server (Unit {0})
  handle_message from (message_store_file id key size) = handle_message_store_file from id key size
  handle_message from (message_get_file id key) = handle_message_get_file from id key
  handle_message from no_payload = λ s. (ok tt, s)

  -- One round of `loop`: errors are logged, and a panic ends the program.
  unfoldable pub handle_rpc : Rpc → Action Server (Unit {0})
  unfolding handle_message
  handle_rpc rpc = elim (decode_message rpc.payload) [
    | err e ↦ handle_message rpc.from no_payload
    | ok msg ↦ handle_message rpc.from msg
  ]

  -- The rounds for the messages that have come in.
  unfoldable pub loop : List Rpc → Action Server (Unit {0})
  unfolding handle_rpc
  loop [] s = (ok tt, s)
  loop (rpc ∷ rest) s =
      let (handled, s') = handle_rpc rpc s in
      let later = loop rest s' in
      elim handled [ ok _ ↦ later | err e ↦ elim e [ panic ↦ (err panic, s') | _ ↦ later ] ]
