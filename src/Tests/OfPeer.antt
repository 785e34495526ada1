-- ===== src/Tests/OfPeer.antt =====
-- The theorems on the peer-to-peer prototype, on two servers and a connection between them.
use go_infra_lab.Common.{
  ℕ, ◌≡◌, refl, arith, String, false, none, some, List, [], ◌∷◌, ◌++◌, length, map,
}
use go_infra_lab.GoMap.{GoMap, get, put}
use go_infra_lab.Action.{Result, ok, err, other, panic}
use go_infra_lab.Encryption.{Cipher, copy_decrypt, copy_encrypt, copy_stream, xor_key_stream}
use go_infra_lab.Encryption.RoundTrip.{appending}
use go_infra_lab.Staging.{eof}
use go_infra_lab.Store.{path_of, write}
use go_infra_lab.Peer.{Conn, TcpPeer, incoming_stream, send, write_peer}
use go_infra_lab.Peer.Frames.{frames, with_inbox, rpc_loop_lem, rpc_loop_ends}
use go_infra_lab.Peer.Transport.{LoopEnd, waiting, rpc_loop}
use go_infra_lab.Peer.Receiving.{handle_too_early}
use go_infra_lab.Peer.Exchange.{receive, receive-store_key}
use go_infra_lab.Peer.Server.{
  Message, message_store_file, message_get_file, no_payload, FileServer, Outside, broadcast_loop,
  write_all,
}
use go_infra_lab.Peer.Server.Streams.{buffer_reads}
use go_infra_lab.Peer.Server.Handlers.{store_key, broadcast, handle_message_store_file}
use package.go_infra_lab.Tests.OfEncryption.{swapping}
use package.go_infra_lab.Tests.OfStore.{Files, file_map, file_map-IsFileSystem, data_store}

abbrev pub wide : Cipher ℕ
wide = record swapping { block_size = 16 }

-- A codec that knows the messages of one server about one file.
abbrev encode : Message → Result (List ℕ)
encode (message_store_file id key size) = ok (size ∷ [])
encode (message_get_file id key) = ok []
encode no_payload = err (other "no payload")

abbrev decode_message : List ℕ → Result Message
decode_message [] = ok (message_get_file "s" "h")
decode_message (size ∷ rest) = ok (message_store_file "s" "h" size)

abbrev pub outside : Outside Files ℕ
outside = record {
  fs = file_map;
  file_writer = λ path. record {
    write = λ bytes f. elim (get path f) [
      | none ↦ ((0, some (other "no such file")), f)
      | some old ↦ ((length bytes, none), put path (old ++ bytes) f)
    ];
  };
  cipher = wide;
  hash_key = λ key. "h";
  encode = encode;
  decode_message = decode_message;
}

abbrev pub conn : String → List (List ℕ) → List (List ℕ) → Conn
conn addr inbox outbox = record {
  remote_addr = addr;
  inbox = inbox;
  ending = none;
  outbox = outbox;
  write_error = none;
}

abbrev pub peer : Conn → ℕ → TcpPeer
peer c streams = record { conn = c; outbound = false; streams = streams }

abbrev pub server : String → GoMap TcpPeer → FileServer Files ℕ
server id peers = record { id = id; enc_key = 7; store = data_store; files = []; peers = peers }

abbrev pub iv : List ℕ
iv = 1 ∷ 2 ∷ 3 ∷ 4 ∷ 5 ∷ 6 ∷ 7 ∷ 8 ∷ 9 ∷ 10 ∷ 11 ∷ 12 ∷ 13 ∷ 14 ∷ 15 ∷ 16 ∷ []

abbrev pub file : List ℕ
file = 5 ∷ 7 ∷ 0 ∷ []

-- What the peer of the sender holds after `Store`.
abbrev sent : List (List ℕ)
sent = (1 ∷ []) ∷ (19 ∷ []) ∷ (2 ∷ []) ∷ iv ∷ (5 ∷ 1 ∷ 0 ∷ []) ∷ []

pub swaps_back : (i b : ℕ) → wide.xor_byte 7 iv i (wide.xor_byte 7 iv i b) ≡ b
swaps_back i b = ground arith

abbrev sender : FileServer Files ℕ
sender = server "s" (("b", peer (conn "b" [] []) 0) ∷ [])

abbrev receiver : FileServer Files ℕ
receiver = server "t" (("a", peer (conn "a" sent []) 0) ∷ [])

sent_to_b :
    get "b" (store_key outside "k" file none (ok iv) sender).1.peers
    ≡ some (peer (conn "b" [] sent) 0)
unfolding store_key write broadcast broadcast_loop send write_peer write_all copy_encrypt
    copy_stream buffer_reads get
sent_to_b = refl

receive-store_key_example :
    let (result, t') = receive outside 2 "a" (peer (conn "a" sent []) 0) receiver in
    ((store_key outside "k" file none (ok iv) sender).0 ≡ ok tt)
    × (result ≡ ok tt)
    × (file_map-IsFileSystem.contents (path_of file_map data_store "s" "h") t'.files
        ≡ some (iv ++ xor_key_stream (wide.xor_byte 7 iv) 0 file))
    × (copy_decrypt appending wide 7
          (iv ++ xor_key_stream (wide.xor_byte 7 iv) 0 file)
          (λ l. (l, eof) ∷ [])
          []
        ≡ (ok 19, file))
receive-store_key_example =
    receive-store_key outside file_map-IsFileSystem "k" "b" file iv (19 ∷ []) (λ l. (l, eof) ∷ [])
      sender receiver (peer (conn "b" [] []) 0) (peer (conn "b" [] sent) 0)
      (peer (conn "a" sent []) 0) 3 19 (unfold write in refl) refl refl (omega arith) (omega arith)
      (refl, tt) refl refl refl swaps_back (λ l. refl) (unfold get in refl) refl sent_to_b refl
      (unfold write xor_key_stream in refl)

rpc_loop_lem_example :
    rpc_loop 3 (
      with_inbox
        (frames ((9 ∷ 8 ∷ []) ∷ (7 ∷ []) ∷ []) ((incoming_stream ∷ []) ∷ iv ∷ []))
        (peer (conn "a" [] []) 0))
    ≡ (
      some waiting,
      map
          (λ payload. record { from = "a"; payload = payload; stream = false })
          ((9 ∷ 8 ∷ []) ∷ (7 ∷ []) ∷ []),
      peer (conn "a" (iv ∷ []) []) 1,
    )
rpc_loop_lem_example =
    rpc_loop_lem ((9 ∷ 8 ∷ []) ∷ (7 ∷ []) ∷ []) (iv ∷ []) (peer (conn "a" [] []) 0) 3 (omega arith)
      (omega arith)

rpc_loop_ends_example : (end : LoopEnd) × ((rpc_loop 30 (peer (conn "a" sent []) 0)).0 ≡ some end)
rpc_loop_ends_example = rpc_loop_ends 30 (peer (conn "a" sent []) 0) (omega arith)

-- The marker is still unread.
abbrev early : FileServer Files ℕ
early = server "t" (("a", peer (conn "a" ((2 ∷ []) ∷ file ∷ []) []) 0) ∷ [])

handle_too_early_example :
    ((handle_message_store_file outside "a" "s" "h" 3 early).0 ≡ err panic)
    × (file_map-IsFileSystem.contents
          (path_of file_map data_store "s" "h")
          (handle_message_store_file outside "a" "s" "h" 3 early).1.files
        ≡ some (2 ∷ 5 ∷ 7 ∷ []))
handle_too_early_example =
    handle_too_early outside file_map-IsFileSystem "a" "s" "h" 3
      (peer (conn "a" ((2 ∷ []) ∷ file ∷ []) []) 0) early (unfold get in refl) (omega arith) 3
      (unfold write in refl) file refl refl (omega arith)
