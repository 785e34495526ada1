-- ===== src/Peer/Exchange.antt =====
-- distributed-fs/server.go and distributed-fs/p2p/tcp_transport.go: a file on its way from `Store`
-- of one server to the disk of another.
use go_infra_lab.Common.{
  ℕ, suc, ◌+◌, ◌^◌, ◌<◌, ◌≤◌, ◌≡◌, ◌∙◌, refl, sym, ap, subst, arith, String, none, some, List, [],
  ◌∷◌, ◌++◌, length, length-append, take,
}
use go_infra_lab.GoMap.{get, put}
use go_infra_lab.GoMap.Laws.{get-put_self, get-update_all}
use go_infra_lab.Action.{Action, ok}
use go_infra_lab.Encryption.{copy_decrypt, xor_key_stream}
use go_infra_lab.Encryption.Writers.{length-xor_key_stream}
use go_infra_lab.Encryption.RoundTrip.{appending, copy_decrypt-appending}
use go_infra_lab.Staging.{Reader, add64}
use go_infra_lab.Staging.Chunks.{flatten}
use go_infra_lab.Staging.Delivery.{delivered}
use go_infra_lab.Store.{path_of, write}
use go_infra_lab.Store.Laws.{IsFileSystem, written}
use package.go_infra_lab.Peer.{TcpPeer, buffer_size, incoming_message, incoming_stream}
use package.go_infra_lab.Peer.Frames.{with_inbox, frames, take_all, rpc_loop_lem}
use package.go_infra_lab.Peer.Transport.{rpc_loop}
use package.go_infra_lab.Peer.Receiving.{handle_message_store_file_lem}
use package.go_infra_lab.Peer.Sending.{AreWorking, pushed, push_all, store_key_lem}
use package.go_infra_lab.Peer.Server.{FileServer, Outside, message_store_file}
use package.go_infra_lab.Peer.Server.Handlers.{store_key, loop}

module _ {F K : Type 0} (out : Outside F K) where
  -- The transport reads the messages of one peer until it waits, and the server then handles them.
  abbrev pub receive : ℕ → String → TcpPeer → Action (FileServer F K) (Unit {0})
  receive fuel from p s =
      let (end, rpcs, p') = rpc_loop fuel p in
      loop out rpcs (record s { peers = put from p' s.peers })

  module _ (laws : IsFileSystem out.fs) (id key : String) (payload cipher_text : List ℕ)
      (chunks : List (List ℕ)) (p : TcpPeer) (t : FileServer F K) where
    -- A server that receives an announced file has stored the bytes that follow the marker.
    receive_lem :
        (size n : ℕ)
        → p.conn.inbox ≡ (incoming_message ∷ []) ∷ payload ∷ (incoming_stream ∷ []) ∷ chunks
        → length payload ≤ buffer_size
        → out.decode_message payload ≡ ok (message_store_file id key size)
        → flatten chunks ≡ cipher_text
        → length cipher_text ≡ size
        → (write out.fs t.store id key cipher_text none t.files).0 ≡ ok n
        → let (result, t') = receive 2 p.conn.remote_addr p t in
          (result ≡ ok tt)
          × (laws.contents (path_of out.fs t.store id key) t'.files ≡ some cipher_text)
    unfolding loop
    receive_lem size n inbox fits decodes whole sized saved =
        let from = p.conn.remote_addr in
        let same : p ≡ with_inbox (frames (payload ∷ []) ((incoming_stream ∷ []) ∷ chunks)) p =
          ap (λ i. with_inbox i p) inbox in
        let read =
          ap (rpc_loop 2) same ∙ rpc_loop_lem (payload ∷ []) chunks p 2 (fits, tt) (omega arith) in
        let p' : TcpPeer = record (with_inbox chunks p) { streams = suc p.streams } in
        let t₁ : FileServer F K = record t { peers = put from p' t.peers } in
        let all : take size (flatten chunks) ≡ cipher_text =
          take_all size (flatten chunks) (omega (arith, ap length whole)) ∙ whole in
        let (done, kept, _) =
          handle_message_store_file_lem out laws from id key size p' t₁
            (get-put_self from p' t.peers) (omega (arith, ap length whole)) n
            (subst (λ b. (write out.fs t.store id key b none t.files).0 ≡ ok n) (sym all) saved)
            p.streams refl in
        (ground (arith, read, decodes, done), ground (arith, read, decodes, done, kept, all))

  -- A file that is stored on one server can be restored from the disk of another. Let `s` store a
  -- file of fewer than 2 ^ 63 bytes that it can write, with a codec that decodes the announcement
  -- it encoded, in at most 1028 bytes, with a valid key for a cipher of blocks of 16 bytes whose
  -- stream undoes itself, and while every connection of `s` takes what is written; and let a new
  -- connection bring to `t` what `s` has written to it, in the pieces in which it was written. Then
  -- `t`, if it can write the file and its transport reads the marker before the server handles the
  -- announcement, has it under the ID of `s` and the hash of the key, encrypted; and with the key
  -- of `s` these bytes decrypt to the file.
  pub receive-store_key :
      (laws : IsFileSystem out.fs) (key addr : String) (bytes iv payload : List ℕ)
      (reads : List ℕ → Reader) (s t : FileServer F K) (q q' p : TcpPeer) (n m : ℕ)
      → let announcement = message_store_file s.id (out.hash_key key) (add64 (length bytes) 16) in
        let cipher_text = iv ++ xor_key_stream (out.cipher.xor_byte s.enc_key iv) 0 bytes in
        (write out.fs s.store s.id key bytes none s.files).0 ≡ ok n
        → out.encode announcement ≡ ok payload
        → out.decode_message payload ≡ ok announcement
        → length payload ≤ buffer_size
        → length bytes < 2 ^ 63
        → AreWorking s.peers
        → out.cipher.key_error s.enc_key ≡ none
        → out.cipher.block_size ≡ 16
        → length iv ≡ 16
        → ((i b : ℕ)
            → out.cipher.xor_byte s.enc_key iv i (out.cipher.xor_byte s.enc_key iv i b) ≡ b)
        → ((l : List ℕ) → delivered (reads l) ≡ ok l)
        → get addr s.peers ≡ some q
        → q.conn.outbox ≡ []
        → get addr (store_key out key bytes none (ok iv) s).1.peers ≡ some q'
        → p.conn.inbox ≡ q'.conn.outbox
        → (write out.fs t.store s.id (out.hash_key key) cipher_text none t.files).0 ≡ ok m
        → let (result, t') = receive 2 p.conn.remote_addr p t in
          ((store_key out key bytes none (ok iv) s).0 ≡ ok tt)
          × (result ≡ ok tt)
          × (laws.contents (path_of out.fs t.store s.id (out.hash_key key)) t'.files
              ≡ some cipher_text)
          × (copy_decrypt appending out.cipher s.enc_key cipher_text reads []
              ≡ (ok (16 + length bytes), bytes))
  receive-store_key laws key addr bytes iv payload reads s t q q' p n m saved encodes decodes fits
        small working valid block sized involutive cut known fresh known' brought room =
      let cipher_text = iv ++ xor_key_stream (out.cipher.xor_byte s.enc_key iv) 0 bytes in
      let count = (written out.fs laws s.store s.id key "" bytes n s.files saved).0 in
      let (chunks, sent, whole) =
        store_key_lem out key bytes iv payload s n saved
          (ap (λ k. out.encode (message_store_file s.id (out.hash_key key) (add64 k 16))) count
            ∙ encodes)
          working valid in
      let all = (incoming_message ∷ []) ∷ payload ∷ (incoming_stream ∷ []) ∷ chunks in
      let there : get addr (push_all all s.peers) ≡ some q' =
        sym (ap (λ r. get addr r.1.peers) sent) ∙ known' in
      let inbox : p.conn.inbox ≡ all =
        ground (arith, brought, there, get-update_all (pushed all) addr s.peers, known, fresh) in
      let size : length cipher_text ≡ add64 (length bytes) 16 = omega (
        arith,
        length-append iv (xor_key_stream (out.cipher.xor_byte s.enc_key iv) 0 bytes),
        length-xor_key_stream (out.cipher.xor_byte s.enc_key iv) 0 bytes,
      ) in
      let (done, kept) =
        receive_lem laws s.id (out.hash_key key) payload cipher_text chunks p t
          (add64 (length bytes) 16) m inbox fits decodes whole size room in
      (
        ap (λ r. r.0) sent,
        done,
        kept,
        copy_decrypt-appending out.cipher s.enc_key iv bytes reads valid (sized ∙ sym block)
              involutive cut
            ∙ ap (λ k. (ok (k + length bytes), bytes)) block,
      )
