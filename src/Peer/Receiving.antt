-- ===== src/Peer/Receiving.antt =====
-- distributed-fs/server.go: what a peer does with a file that is sent to it, and what it does when
-- it is too early.
use go_infra_lab.Common.{
  ℕ, zero, suc, ◌-◌, ◌<◌, ◌≤◌, ◌≡◌, ◌∙◌, ap, arith, String, none, some, List, ◌∷◌, eq_refl, length,
  take, drop,
}
use go_infra_lab.GoMap.{get}
use go_infra_lab.GoMap.Laws.{get-put_self}
use go_infra_lab.Action.{ok, err, panic}
use go_infra_lab.Staging.Chunks.{flatten}
use go_infra_lab.Store.{path_of, write}
use go_infra_lab.Store.Laws.{IsFileSystem, written}
use package.go_infra_lab.Peer.{TcpPeer, close_stream, incoming_stream}
use package.go_infra_lab.Peer.Frames.{with_inbox}
use package.go_infra_lab.Peer.Pieces.{limit_reader_lem}
use package.go_infra_lab.Peer.Server.{FileServer, Outside}
use package.go_infra_lab.Peer.Server.Handlers.{handle_message_store_file}

take-cons : (n b : ℕ) (bs : List ℕ) → 0 < n → take n (b ∷ bs) ≡ b ∷ take (n - 1) bs
take-cons zero b bs positive = absurd (omega arith)
take-cons (suc n) b bs positive =
    let same : n ≡ suc n - 1 = omega arith in ap (λ k. b ∷ take k bs) same

module _ {F K : Type 0} (out : Outside F K) (laws : IsFileSystem out.fs) (from id key : String)
    (size : ℕ) (p : TcpPeer) (s : FileServer F K) (known : get from s.peers ≡ some p)
    (arrived : size ≤ length (flatten p.conn.inbox)) where
  -- The bytes that are taken for the stream.
  abbrev taken : List ℕ
  taken = take size (flatten p.conn.inbox)

  abbrev handled : FileServer F K
  handled = (handle_message_store_file out from id key size s).1

  module _ (n : ℕ) (saved : (write out.fs s.store id key taken none s.files).0 ≡ ok n) where
    saved_file :
        laws.contents
          (path_of out.fs s.store id key)
          (write out.fs s.store id key taken none s.files).1
        ≡ some taken
    saved_file =
        let p' = path_of out.fs s.store id key in
        let kept = (written out.fs laws s.store id key p' taken n s.files saved).1 in
        ground (arith, kept, eq_refl p')

    -- A peer that has opened the stream takes exactly the announced number of bytes that come in
    -- for the file, leaves those behind them unread, and closes the stream.
    pub handle_message_store_file_lem :
        (k : ℕ)
        → p.streams ≡ suc k
        → ((handle_message_store_file out from id key size s).0 ≡ ok tt)
          × (laws.contents (path_of out.fs s.store id key) handled.files ≡ some taken)
          × ((left : List (List ℕ)) × (get from handled.peers
                ≡ some (record (with_inbox left p) { streams = k }))
              × (flatten left ≡ drop size (flatten p.conn.inbox)))
    unfolding handle_message_store_file close_stream
    handle_message_store_file_lem k opened =
        let (left, reads, rest) = limit_reader_lem size p arrived in
        let closed : TcpPeer = record (with_inbox left p) { streams = k } in
        (
          ground (arith, known, reads, saved, opened),
          ground (arith, known, reads, saved, opened, saved_file),
          (
            left,
            ground (arith, known, reads, saved, opened, get-put_self from closed s.peers),
            rest,
          ),
        )

    -- The message that announces a file and the marker of its stream are read by two loops that are
    -- not synchronised. If the server handles the message of a known peer before the transport has
    -- read the marker, while no stream of this peer is open: then, once as many bytes as announced
    -- have come, at least one, and if they can be written to a file system that keeps them, the
    -- program panics; and the file that it has written starts with the marker and lacks the last
    -- byte announced.
    pub handle_too_early :
        (bytes : List ℕ)
        → p.streams ≡ 0
        → flatten p.conn.inbox ≡ incoming_stream ∷ bytes
        → 0 < size
        → ((handle_message_store_file out from id key size s).0 ≡ err panic)
          × (laws.contents (path_of out.fs s.store id key) handled.files
              ≡ some (incoming_stream ∷ take (size - 1) bytes))
    unfolding handle_message_store_file close_stream
    handle_too_early bytes unopened pending positive =
        let (left, reads, rest) = limit_reader_lem size p arrived in
        let head : taken ≡ incoming_stream ∷ take (size - 1) bytes =
          ap (take size) pending ∙ take-cons size incoming_stream bytes positive in
        (
          ground (arith, known, reads, saved, unopened),
          ground (arith, known, reads, saved, unopened, saved_file) ∙ ap some head,
        )
