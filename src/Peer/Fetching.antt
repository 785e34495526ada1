-- ===== src/Peer/Fetching.antt =====
-- distributed-fs/server.go: a file that `Get` fetches from a peer.
use go_infra_lab.Common.{
  ℕ, suc, ◌+◌, ◌^◌, ◌<◌, ◌≡◌, ◌∙◌, sym, ap, subst, arith, String, false, none, some, List, [], ◌∷◌,
  ◌++◌, eq_refl, length, length-append, take, drop, inl, inr,
}
use go_infra_lab.GoMap.{GoMap, put}
use go_infra_lab.Action.{ok}
use go_infra_lab.Encryption.{xor_key_stream}
use go_infra_lab.Encryption.Writers.{IsWriter}
use go_infra_lab.Encryption.RoundTrip.{copy_decrypt-Grows}
use go_infra_lab.Objects.Contract.{stream_of}
use go_infra_lab.Staging.Chunks.{flatten, append_nil, append_assoc, take-append, drop-append}
use go_infra_lab.Staging.Delivery.{Result-cases}
use go_infra_lab.Store.{Store, path_of, has, read, open_file_for_writing}
use go_infra_lab.Store.Laws.{IsFileSystem}
use package.go_infra_lab.Peer.{TcpPeer, close_stream, incoming_message}
use package.go_infra_lab.Peer.Frames.{with_inbox}
use package.go_infra_lab.Peer.Pieces.{limit_reader_lem, le_value-le_bytes, length-le_bytes}
use package.go_infra_lab.Peer.Sending.{
  AreWorking, push_all, broadcast_loop_lem, delivered-buffer_reads,
}
use package.go_infra_lab.Peer.Server.{FileServer, Outside, message_get_file}
use package.go_infra_lab.Peer.Server.Streams.{
  limit_reader, read_size, le_bytes, reads_of, write_decrypt,
}
use package.go_infra_lab.Peer.Server.Handlers.{fetch_loop, close_peer, get_key}

-- A size in front of a stream is read, and the stream is left.
read_size_lem :
    (n : ℕ) (rest : List ℕ) (p : TcpPeer)
    → n < 2 ^ 63
    → flatten p.conn.inbox ≡ le_bytes 8 n ++ rest
    → (left : List (List ℕ)) × (read_size p ≡ (n, with_inbox left p)) × (flatten left ≡ rest)
unfolding read_size
read_size_lem n rest p small there =
    let eight = length-le_bytes 8 n in
    let (left, reads, kept) =
      limit_reader_lem 8 p (omega (arith, ap length there, length-append (le_bytes 8 n) rest)) in
    let front : take 8 (flatten p.conn.inbox) ≡ le_bytes 8 n =
      ap (take 8) there
      ∙ subst (λ k. take k (le_bytes 8 n ++ rest) ≡ le_bytes 8 n) eight
          (take-append (le_bytes 8 n) rest) in
    let back : drop 8 (flatten p.conn.inbox) ≡ rest =
      ap (drop 8) there
      ∙ subst (λ k. drop k (le_bytes 8 n ++ rest) ≡ rest) eight (drop-append (le_bytes 8 n) rest) in
    let reads' : limit_reader 8 p ≡ (stream_of (le_bytes 8 n), with_inbox left p) =
      reads ∙ ap (λ b. (stream_of b, with_inbox left p)) front in
    (left, ground (arith, reads', eight, le_value-le_bytes 8 n (omega arith)), kept ∙ back)

module _ {F K : Type 0} (out : Outside F K) (laws : IsFileSystem out.fs)
    (appends : (path : String) (old bytes : List ℕ) (f : F)
      → laws.contents path f ≡ some old
      → (((out.file_writer path).write bytes f).0 ≡ (length bytes, none))
        × (laws.contents path ((out.file_writer path).write bytes f).1 ≡ some (old ++ bytes))) where
  file_writer-IsWriter : (path : String) → IsWriter (out.file_writer path)
  file_writer-IsWriter path = record {
    Ready = λ f. (old : List ℕ) × (laws.contents path f ≡ some old);
    Grows = λ bytes f f'.
        (old : List ℕ)
        → laws.contents path f ≡ some old
        → laws.contents path f' ≡ some (old ++ bytes);
    grows_nil = λ f old there. there ∙ ap some (sym (append_nil old));
    grows_append =
        λ xs ys a b c p q old there. q (old ++ xs) (p old there) ∙ ap some (append_assoc old xs ys);
    write_lem = λ bytes f ready. (
      (appends path ready.0 bytes f ready.1).0,
      λ old there. (appends path old bytes f there).1,
      (ready.0 ++ bytes, (appends path ready.0 bytes f ready.1).1),
    );
  }

  -- A file that was opened for writing is there, and empty.
  opened_empty :
      (s : Store) (id key : String) (f : F)
      → (open_file_for_writing out.fs s id key f).0 ≡ ok tt
      → laws.contents (path_of out.fs s id key) (open_file_for_writing out.fs s id key f).1
        ≡ some []
  unfolding open_file_for_writing
  opened_empty s id key f opened =
      let path = path_of out.fs s id key in
      let made =
        out.fs.mkdir_all (out.fs.join (s.root ∷ id ∷ (s.path_transform_func key).path_name ∷ []))
          f in
      elim (Result-cases made.0) [
        | inr (e, fails) ↦ absurd (ground (arith, fails))
        | inl (u, makes) ↦ ground (
          arith,
          makes,
          laws.contents-create path path made.1 (ground (arith, makes, opened)),
          eq_refl path,
        )
      ]

  module _ (key : String) (bytes iv : List ℕ) (s : FileServer F K)
      (valid : out.cipher.key_error s.enc_key ≡ none) (sized : length iv ≡ out.cipher.block_size)
      (involutive : (i b : ℕ)
        → out.cipher.xor_byte s.enc_key iv i (out.cipher.xor_byte s.enc_key iv i b) ≡ b) where
    -- What the peers have for this file.
    abbrev pub cipher_text : List ℕ
    cipher_text = iv ++ xor_key_stream (out.cipher.xor_byte s.enc_key iv) 0 bytes

    abbrev pub local_path : String
    local_path = path_of out.fs s.store s.id key

    write_decrypt_lem :
        (open_file_for_writing out.fs s.store s.id key s.files).0 ≡ ok tt
        → (n : ℕ) × (f : F) × (write_decrypt out.fs out.file_writer out.cipher s.store s.enc_key
              s.id key
              (stream_of cipher_text)
              s.files
            ≡ (ok n, f))
          × (laws.contents local_path f ≡ some bytes)
    unfolding write_decrypt file_writer-IsWriter
    write_decrypt_lem opened =
        let f' = (open_file_for_writing out.fs s.store s.id key s.files).1 in
        let empty = opened_empty s.store s.id key s.files opened in
        let (f, decrypts, grows, _) =
          copy_decrypt-Grows out.cipher (out.file_writer local_path)
            (file_writer-IsWriter local_path) s.enc_key iv bytes f' ([], empty) valid
            (reads_of (stream_of cipher_text)) sized involutive
            (λ l. delivered-buffer_reads (length l) l) in
        (out.cipher.block_size + length bytes, f, ground (arith, opened, decrypts), grows [] empty)

    -- The server after the file has come from a peer.
    abbrev fetched : F → String → TcpPeer → FileServer F K
    fetched f addr p = record s { files = f; peers = put addr p s.peers }

    fetch_loop_lem :
        (addr : String) (k : ℕ) (rest : List ℕ) (p : TcpPeer)
        → (open_file_for_writing out.fs s.store s.id key s.files).0 ≡ ok tt
        → p.streams ≡ suc k
        → length cipher_text < 2 ^ 63
        → flatten p.conn.inbox ≡ le_bytes 8 (length cipher_text) ++ (cipher_text ++ rest)
        → (f : F) × (p' : TcpPeer) × (fetch_loop out key ((addr, p) ∷ []) s
            ≡ (ok tt, fetched f addr p'))
          × (laws.contents local_path f ≡ some bytes)
    unfolding fetch_loop close_peer close_stream
    fetch_loop_lem addr k rest p opened marked small brought =
        let (left, sizes, pending) =
          read_size_lem (length cipher_text) (cipher_text ++ rest) p small brought in
        let p₁ = with_inbox left p in
        let (left', reads, _) =
          limit_reader_lem (length cipher_text) p₁
            (omega (arith, ap length pending, length-append cipher_text rest)) in
        let whole : take (length cipher_text) (flatten left) ≡ cipher_text =
          ap (take (length cipher_text)) pending ∙ take-append cipher_text rest in
        let reads' : limit_reader (length cipher_text) p₁
            ≡ (stream_of cipher_text, with_inbox left' p₁) =
          reads ∙ ap (λ b. (stream_of b, with_inbox left' p₁)) whole in
        let (n, f, decrypts, there) = write_decrypt_lem opened in
        (
          f,
          record (with_inbox left' p₁) { streams = k },
          ground (arith, sizes, reads', decrypts, marked),
          there,
        )

  -- A file that is not on the disk is fetched from the peer, over a file system that keeps what was
  -- written and appended, and with a cipher whose stream undoes itself. Let the request be encoded
  -- and sent; and let the only peer, while `Get` sleeps, send the marker, which the transport has
  -- read, and behind it the size, below 2 ^ 63, and the bytes of a copy that was encrypted with the
  -- server's valid key. Then `Get` returns the file, which is on the disk in the clear, if it can
  -- be created there.
  pub get_key_lem :
      (key : String) (bytes iv : List ℕ) (s : FileServer F K) (wait : GoMap TcpPeer → GoMap TcpPeer)
      (addr : String) (k : ℕ) (rest payload : List ℕ) (p : TcpPeer)
      → let cipher_text = iv ++ xor_key_stream (out.cipher.xor_byte s.enc_key iv) 0 bytes in
        out.cipher.key_error s.enc_key ≡ none
        → length iv ≡ out.cipher.block_size
        → ((i b : ℕ)
            → out.cipher.xor_byte s.enc_key iv i (out.cipher.xor_byte s.enc_key iv i b) ≡ b)
        → has out.fs s.store s.id key s.files ≡ false
        → out.encode (message_get_file s.id (out.hash_key key)) ≡ ok payload
        → AreWorking s.peers
        → wait (push_all ((incoming_message ∷ []) ∷ payload ∷ []) s.peers) ≡ (addr, p) ∷ []
        → p.streams ≡ suc k
        → length cipher_text < 2 ^ 63
        → flatten p.conn.inbox ≡ le_bytes 8 (length cipher_text) ++ (cipher_text ++ rest)
        → (open_file_for_writing out.fs s.store s.id key s.files).0 ≡ ok tt
        → ((get_key out wait key s).0 ≡ ok (stream_of bytes))
          × (laws.contents (path_of out.fs s.store s.id key) (get_key out wait key s).1.files
              ≡ some bytes)
  unfolding get_key read
  get_key_lem key bytes iv s wait addr k rest payload p valid sized involutive absent encodes
        working answered marked small brought opened =
      let s₂ : FileServer F K = record s { peers = (addr, p) ∷ [] } in
      let (f, p', fetches, there) =
        fetch_loop_lem key bytes iv s₂ valid sized involutive addr k rest p opened marked small
          brought in
      let local = laws.opens (path_of out.fs s.store s.id key) bytes f there in
      let asked = broadcast_loop_lem payload s.peers working in
      (
        ground (arith, absent, encodes, asked, answered, fetches, local.0, local.1),
        ground (arith, absent, encodes, asked, answered, fetches, local.0, local.1, there),
      )
