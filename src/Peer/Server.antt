-- ===== src/Peer/Server.antt =====
-- distributed-fs/server.go: the file server of the peer-to-peer prototype, and `WriteDecrypt` of
-- distributed-fs/store.go. The functions of encoding/gob, crypto/md5 and crypto/rand are
-- parameters.
pub mod Streams
pub mod Handlers
use go_infra_lab.Common.{
  ℕ, String, Option, none, some, List, [], ◌∷◌, ◌==◌, not, if◌then◌else◌, eqb, length,
}
use go_infra_lab.GoMap.{GoMap, put}
use go_infra_lab.Action.{Error, Result, ok, err, short_write}
use go_infra_lab.Encryption.{Cipher, Writer}
use go_infra_lab.Store.{FileSystem, Store}
use package.go_infra_lab.Peer.{TcpPeer, send, write_peer, incoming_message}

-- `Message` with its payloads. A message that could not be decoded has no payload.
pub data Message : Type 0 where
  message_store_file : String → String → ℕ → Message
  message_get_file : String → String → Message
  no_payload : Message

-- `FileServer` and its options. The transport's connections are in `peers`, the map and the loops
-- of the transport share each `TCPeer`.
pub record FileServer (F K : Type 0) : Type 0 where
  pub id : String
  pub enc_key : K
  pub store : Store
  pub files : F
  pub peers : GoMap TcpPeer

-- What the server takes from outside: the file system, writing to a file that was just created, the
-- cipher, `hashKey` and the codec of messages.
pub record Outside (F K : Type 0) : Type 0 where
  pub fs : FileSystem F
  pub file_writer : String → Writer F
  pub cipher : Cipher K
  pub hash_key : String → String
  pub encode : Message → Result (List ℕ)
  pub decode_message : List ℕ → Result Message

unfoldable pub new_file_server : {F K : Type 0} → String → String → K → Store → F → FileServer F K
new_file_server id generated key store files = record {
  id = if id == "" then generated else id;
  enc_key = key;
  store = store;
  files = files;
  peers = [];
}

unfoldable pub on_peer : {F K : Type 0} → TcpPeer → FileServer F K → Option Error × FileServer F K
on_peer p s = (none, record s { peers = put p.conn.remote_addr p s.peers })

-- The loop of `broadcast`; the error of the first send to a peer is not looked at.
unfoldable pub broadcast_loop : List ℕ → GoMap TcpPeer → Result (Unit {0}) × GoMap TcpPeer
broadcast_loop bytes [] = (ok tt, [])
broadcast_loop bytes ((addr, peer) ∷ rest) =
    let (failed, peer') = send bytes (send (incoming_message ∷ []) peer).1 in
    let (result, rest') = broadcast_loop bytes rest in
    elim failed [ some e ↦ (err e, (addr, peer') ∷ rest) | none ↦ (result, (addr, peer') ∷ rest') ]

-- `io.MultiWriter` over the peers, in the order of a `range` over the map.
unfoldable pub write_all : List ℕ → GoMap TcpPeer → (ℕ × Option Error) × GoMap TcpPeer
write_all b [] = ((length b, none), [])
write_all b ((addr, peer) ∷ rest) =
    let ((n, failed), peer') = write_peer b peer in
    let (result, rest') = write_all b rest in
    elim failed [
      | some e ↦ ((n, some e), (addr, peer') ∷ rest)
      | none ↦
          if not (eqb n (length b))
          then ((n, some short_write), (addr, peer') ∷ rest)
          else (result, (addr, peer') ∷ rest')
    ]

abbrev pub multi_writer : Writer (GoMap TcpPeer)
multi_writer = record { write = write_all }
