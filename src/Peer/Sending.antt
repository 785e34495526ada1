-- ===== src/Peer/Sending.antt =====
-- distributed-fs/server.go: what `Store` sends to the peers.
use go_infra_lab.Common.{
  ℕ, zero, suc, ◌≡◌, ◌∙◌, refl, sym, ap, subst, arith, String, none, List, [], ◌∷◌, ◌++◌, length,
  drop, leb, Bool-cases, inl, inr,
}
use go_infra_lab.GoMap.{GoMap, Entries, update_all}
use go_infra_lab.Action.{Result, ok}
use go_infra_lab.Encryption.{xor_key_stream}
use go_infra_lab.Encryption.Writers.{IsWriter}
use go_infra_lab.Encryption.RoundTrip.{copy_encrypt-Grows}
use go_infra_lab.Staging.{add64, eof}
use go_infra_lab.Staging.Delivery.{delivered}
use go_infra_lab.Staging.Chunks.{
  flatten, flatten-append, append_nil, append_assoc, append-take-drop,
}
use go_infra_lab.Store.{write}
use package.go_infra_lab.Peer.{TcpPeer, send, write_peer, incoming_message, incoming_stream}
use package.go_infra_lab.Peer.Server.{
  FileServer, Outside, message_store_file, broadcast_loop, write_all, multi_writer,
}
use package.go_infra_lab.Peer.Server.Streams.{buffer_reads, copy_buffer}
use package.go_infra_lab.Peer.Server.Handlers.{broadcast, store_key}

-- A peer after some writes, and all peers.
abbrev pub pushed : List (List ℕ) → TcpPeer → TcpPeer
pushed pieces p = record p { conn = record p.conn { outbox = p.conn.outbox ++ pieces } }

abbrev pub push_all : List (List ℕ) → GoMap TcpPeer → GoMap TcpPeer
push_all pieces = update_all (pushed pieces)

-- Peers whose connections take every write.
abbrev pub AreWorking : GoMap TcpPeer → Type 0
AreWorking = Entries (λ addr p. p.conn.write_error ≡ none)

push_all-AreWorking :
    (pieces : List (List ℕ)) (peers : GoMap TcpPeer)
    → AreWorking peers
    → AreWorking (push_all pieces peers)
unfolding update_all
push_all-AreWorking pieces [] h = tt
push_all-AreWorking pieces ((addr, p) ∷ rest) h = (h.0, push_all-AreWorking pieces rest h.1)

push_all_nil : (peers : GoMap TcpPeer) → push_all [] peers ≡ peers
unfolding update_all
push_all_nil [] = refl
push_all_nil ((addr, p) ∷ rest) = ground (arith, push_all_nil rest, append_nil p.conn.outbox)

push_all_append :
    (xs ys : List (List ℕ)) (peers : GoMap TcpPeer)
    → push_all ys (push_all xs peers) ≡ push_all (xs ++ ys) peers
unfolding update_all
push_all_append xs ys [] = refl
push_all_append xs ys ((addr, p) ∷ rest) =
    ground (arith, push_all_append xs ys rest, append_assoc p.conn.outbox xs ys)

pub broadcast_loop_lem :
    (bytes : List ℕ) (peers : GoMap TcpPeer)
    → AreWorking peers
    → broadcast_loop bytes peers ≡ (ok tt, push_all ((incoming_message ∷ []) ∷ bytes ∷ []) peers)
unfolding broadcast_loop send write_peer update_all
broadcast_loop_lem bytes [] h = refl
broadcast_loop_lem bytes ((addr, p) ∷ rest) h = ground (
  arith,
  h.0,
  broadcast_loop_lem bytes rest h.1,
  append_assoc p.conn.outbox ((incoming_message ∷ []) ∷ []) (bytes ∷ []),
)

write_all_lem :
    (bytes : List ℕ) (peers : GoMap TcpPeer)
    → AreWorking peers
    → write_all bytes peers ≡ ((length bytes, none), push_all (bytes ∷ []) peers)
unfolding write_all write_peer update_all
write_all_lem bytes [] h = refl
write_all_lem bytes ((addr, p) ∷ rest) h = ground (arith, h.0, write_all_lem bytes rest h.1)

-- The multi-writer sends the same pieces to every peer.
multi_writer-IsWriter : IsWriter multi_writer
multi_writer-IsWriter = record {
  Ready = AreWorking;
  Grows = λ bytes peers peers'.
      (pieces : List (List ℕ)) × (peers' ≡ push_all pieces peers) × (flatten pieces ≡ bytes);
  grows_nil = λ peers. ([], sym (push_all_nil peers), refl);
  grows_append = λ xs ys a b c p q. (
    p.0 ++ q.0,
    q.1 ∙ (ap (push_all q.0) p.1 ∙ push_all_append p.0 q.0 a),
    flatten-append p.0 q.0 ∙ (ap (λ l. l ++ flatten q.0) p.2 ∙ ap (λ l. xs ++ l) q.2),
  );
  write_lem = λ bytes peers ready.
      let wrote = write_all_lem bytes peers ready in
      (
        ap (λ r. r.0) wrote,
        (bytes ∷ [], ap (λ r. r.1) wrote, append_nil bytes),
        subst AreWorking (sym (ap (λ r. r.1) wrote)) (push_all-AreWorking (bytes ∷ []) peers ready),
      );
}

-- The reads of a buffer deliver it.
pub delivered-buffer_reads :
    (fuel : ℕ) (bytes : List ℕ) → delivered (buffer_reads fuel bytes (([], eof) ∷ [])) ≡ ok bytes
unfolding buffer_reads
delivered-buffer_reads zero bytes = ap ok (append_nil bytes)
delivered-buffer_reads (suc fuel) bytes = elim (Bool-cases (leb (length bytes) copy_buffer)) [
  | inl short ↦ rw short (ap ok (append_nil bytes))
  | inr long ↦ rw long (
      rw (delivered-buffer_reads fuel (drop copy_buffer bytes))
        (ap ok (append-take-drop copy_buffer bytes)))
]

module _ {F K : Type 0} (out : Outside F K) (key : String) (bytes iv payload : List ℕ)
    (s : FileServer F K) where
  -- The announcement of a file of so many bytes, with room for the IV.
  abbrev pub Announces : ℕ → Type 0
  Announces n = out.encode (message_store_file s.id (out.hash_key key) (add64 n 16)) ≡ ok payload

  abbrev pub stored : Result ℕ × F
  stored = write out.fs s.store s.id key bytes none s.files

  -- When the file is saved, its announcement can be encoded and every connection takes what is
  -- written, `Store` succeeds. Every peer is sent the same: the announcement, the marker of a
  -- stream, and behind it, in some pieces, the encrypted file.
  pub store_key_lem :
      (n : ℕ)
      → stored.0 ≡ ok n
      → Announces n
      → AreWorking s.peers
      → out.cipher.key_error s.enc_key ≡ none
      → (chunks : List (List ℕ)) × (store_key out key bytes none (ok iv) s ≡ (
        ok tt,
        record s {
          files = stored.1;
          peers =
              push_all
                ((incoming_message ∷ []) ∷ payload ∷ (incoming_stream ∷ []) ∷ chunks)
                s.peers;
        },
      ))
        × (flatten chunks ≡ iv ++ xor_key_stream (out.cipher.xor_byte s.enc_key iv) 0 bytes)
  unfolding store_key broadcast multi_writer-IsWriter
  store_key_lem n saved announced working valid =
      let frame = (incoming_message ∷ []) ∷ payload ∷ [] in
      let peers₁ = push_all frame s.peers in
      let working₁ = push_all-AreWorking frame s.peers working in
      let peers₂ = push_all ((incoming_stream ∷ []) ∷ []) peers₁ in
      let working₂ = push_all-AreWorking ((incoming_stream ∷ []) ∷ []) peers₁ working₁ in
      let src = buffer_reads (length bytes) bytes (([], eof) ∷ []) in
      let (peers₃, copied, (chunks, sent, whole), _) =
        copy_encrypt-Grows out.cipher multi_writer multi_writer-IsWriter s.enc_key iv bytes peers₂
          working₂ valid src (delivered-buffer_reads (length bytes) bytes) in
      let all : peers₃ ≡ push_all (frame ++ (incoming_stream ∷ []) ∷ chunks) s.peers =
        sent
        ∙ (push_all_append ((incoming_stream ∷ []) ∷ []) chunks peers₁
            ∙ push_all_append frame ((incoming_stream ∷ []) ∷ chunks) s.peers) in
      (
        chunks,
        ground (
          arith,
          saved,
          announced,
          broadcast_loop_lem payload s.peers working,
          write_all_lem (incoming_stream ∷ []) peers₁ working₁,
          copied,
          all,
        ),
        whole,
      )
