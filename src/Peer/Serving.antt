-- ===== src/Peer/Serving.antt =====
-- distributed-fs/server.go: the answer to a request for a file.
use go_infra_lab.Common.{
  ℕ, ◌≡◌, ◌∙◌, arith, String, true, false, none, some, List, [], ◌∷◌, ◌++◌, length,
}
use go_infra_lab.GoMap.{get, put}
use go_infra_lab.Action.{ok}
use go_infra_lab.Staging.Chunks.{append_assoc}
use go_infra_lab.Store.{path_of, has, read}
use go_infra_lab.Store.Laws.{IsFileSystem}
use package.go_infra_lab.Peer.{TcpPeer, send, write_peer, incoming_stream}
use package.go_infra_lab.Peer.Sending.{pushed}
use package.go_infra_lab.Peer.Server.{FileServer, Outside}
use package.go_infra_lab.Peer.Server.Streams.{le_bytes}
use package.go_infra_lab.Peer.Server.Handlers.{handle_message_get_file}

module _ {F K : Type 0} (out : Outside F K) (laws : IsFileSystem out.fs) where
  -- A peer that asks for a file which is on the disk and not empty is sent the marker of a stream,
  -- the size in eight bytes, and the file as it is on the disk; and nothing else changes. This
  -- takes a file system that finds what it opens, and a connection that takes what is written.
  pub handle_message_get_file_lem :
      (from id key : String) (b : ℕ) (bytes : List ℕ) (p : TcpPeer) (s : FileServer F K)
      → has out.fs s.store id key s.files ≡ true
      → laws.contents (path_of out.fs s.store id key) s.files ≡ some (b ∷ bytes)
      → get from s.peers ≡ some p
      → p.conn.write_error ≡ none
      → let answer = (incoming_stream ∷ []) ∷ le_bytes 8 (length (b ∷ bytes)) ∷ (b ∷ bytes) ∷ [] in
        handle_message_get_file out from id key s
        ≡ (ok tt, record s { peers = put from (pushed answer p) s.peers })
  unfolding handle_message_get_file read send write_peer
  handle_message_get_file_lem from id key b bytes p s there stored known working =
      let local = laws.opens (path_of out.fs s.store id key) (b ∷ bytes) s.files stored in
      let size = le_bytes 8 (length (b ∷ bytes)) in
      let sent =
        append_assoc (p.conn.outbox ++ (incoming_stream ∷ []) ∷ []) (size ∷ []) ((b ∷ bytes) ∷ [])
        ∙ append_assoc p.conn.outbox ((incoming_stream ∷ []) ∷ []) (size ∷ (b ∷ bytes) ∷ []) in
      ground (arith, there, local.0, local.1, known, working, sent)

  -- A request for a file that is not on the disk is not answered at all: the one who asks is sent
  -- nothing.
  pub handle_message_get_file_absent :
      (from id key : String) (s : FileServer F K)
      → has out.fs s.store id key s.files ≡ false
      → (handle_message_get_file out from id key s).1 ≡ s
  unfolding handle_message_get_file
  handle_message_get_file_absent from id key s absent = ground (arith, absent)
