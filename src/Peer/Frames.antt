-- ===== src/Peer/Frames.antt =====
-- distributed-fs/p2p: what `handleConn` reads from a connection.
use go_infra_lab.Common.{
  ℕ, zero, suc, ◌+◌, ◌<◌, ◌≤◌, ◌≡◌, refl, ap, arith, false, true, some, List, [], ◌∷◌, leb, eqb,
  length, take, drop, map, All, inl, inr, Bool-cases,
}
use go_infra_lab.Action.{ok}
use go_infra_lab.Staging.Delivery.{Result-cases}
use package.go_infra_lab.Peer.{
  Rpc, Conn, TcpPeer, decode, read_conn, buffer_size, first_byte, incoming_message, incoming_stream,
}
use package.go_infra_lab.Peer.Transport.{LoopEnd, waiting, dropped, rpc_loop}

abbrev pub with_inbox : List (List ℕ) → TcpPeer → TcpPeer
with_inbox pieces p = record p { conn = record p.conn { inbox = pieces } }

pub take_all : {A : Type 0} (n : ℕ) (xs : List A) → length xs ≤ n → take n xs ≡ xs
take_all zero [] h = refl
take_all zero (x ∷ xs) h = absurd (omega arith)
take_all (suc n) [] h = refl
take_all (suc n) (x ∷ xs) h = ap (λ r. x ∷ r) (take_all n xs (omega arith))

read_whole :
    (n : ℕ) (piece : List ℕ) (rest : List (List ℕ)) (c : Conn)
    → length piece ≤ n
    → read_conn n (record c { inbox = piece ∷ rest }) ≡ (ok piece, record c { inbox = rest })
unfolding read_conn
read_whole n piece rest c fits = ground (arith, take_all n piece fits)

read_part :
    (n : ℕ) (piece : List ℕ) (rest : List (List ℕ)) (c : Conn)
    → n < length piece
    → read_conn n (record c { inbox = piece ∷ rest })
      ≡ (ok (take n piece), record c { inbox = drop n piece ∷ rest })
unfolding read_conn
read_part n piece rest c long = ground arith

decode_message :
    (c₁ c₂ : Conn) (buf : List ℕ) (c : Conn) {peek_buf : List ℕ}
    → eqb (first_byte peek_buf) incoming_stream ≡ false
    → read_conn 1 c ≡ (ok peek_buf, c₁)
    → read_conn buffer_size c₁ ≡ (ok buf, c₂)
    → decode c ≡ (ok (record { from = ""; payload = buf; stream = false }), c₂)
unfolding decode
decode_message c₁ c₂ buf c message peeked got = ground (arith, peeked, message, got)

-- A message that comes in two pieces, its type and its payload, is read as it was sent if it fits
-- the buffer.
decode_frame :
    (payload : List ℕ) (rest : List (List ℕ)) (c : Conn)
    → length payload ≤ buffer_size
    → decode (record c { inbox = (incoming_message ∷ []) ∷ payload ∷ rest })
      ≡ (ok (record { from = ""; payload = payload; stream = false }), record c { inbox = rest })
decode_frame payload rest c fits =
    decode_message _ _ payload (record c { inbox = (incoming_message ∷ []) ∷ payload ∷ rest }) refl
      (read_whole 1 (incoming_message ∷ []) (payload ∷ rest) c (omega arith))
      (read_whole buffer_size payload rest c fits)

decode_marker :
    (rest : List (List ℕ)) (c : Conn)
    → decode (record c { inbox = (incoming_stream ∷ []) ∷ rest })
      ≡ (ok (record { from = ""; payload = []; stream = true }), record c { inbox = rest })
unfolding decode
decode_marker rest c = ground (arith, read_whole 1 (incoming_stream ∷ []) rest c (omega arith))

-- A longer message is cut: the rest of it is read as the next message.
pub decode_cut :
    (payload : List ℕ) (rest : List (List ℕ)) (c : Conn)
    → buffer_size < length payload
    → decode (record c { inbox = (incoming_message ∷ []) ∷ payload ∷ rest }) ≡ (
      ok (record { from = ""; payload = take buffer_size payload; stream = false }),
      record c { inbox = drop buffer_size payload ∷ rest },
    )
decode_cut payload rest c long =
    decode_message _ _ (take buffer_size payload)
      (record c { inbox = (incoming_message ∷ []) ∷ payload ∷ rest }) refl
      (read_whole 1 (incoming_message ∷ []) (payload ∷ rest) c (omega arith))
      (read_part buffer_size payload rest c long)

-- The pieces in which messages are sent.
abbrev pub frames : List (List ℕ) → List (List ℕ) → List (List ℕ)
frames [] rest = rest
frames (payload ∷ payloads) rest = (incoming_message ∷ []) ∷ payload ∷ frames payloads rest

-- For messages of at most 1028 bytes, whose types and payloads come in as they were sent, followed
-- by the marker of a stream: the loop of `handleConn` passes on exactly these messages, in order
-- and with the sender's address, opens the stream, and waits with the bytes behind the marker
-- unread.
pub rpc_loop_lem :
    (payloads rest : List (List ℕ)) (p : TcpPeer) (fuel : ℕ)
    → All (λ payload. length payload ≤ buffer_size) payloads
    → length payloads < fuel
    → rpc_loop fuel (with_inbox (frames payloads ((incoming_stream ∷ []) ∷ rest)) p) ≡ (
      some waiting,
      map
          (λ payload. record { from = p.conn.remote_addr; payload = payload; stream = false })
          payloads,
      record (with_inbox rest p) { streams = suc p.streams },
    )
unfolding rpc_loop
rpc_loop_lem payloads rest p zero fits enough = absurd (omega arith)
rpc_loop_lem [] rest p (suc fuel) fits enough = ground (arith, decode_marker rest p.conn)
rpc_loop_lem (payload ∷ payloads) rest p (suc fuel) fits enough = ground (
  arith,
  decode_frame payload (frames payloads ((incoming_stream ∷ []) ∷ rest)) p.conn fits.0,
  rpc_loop_lem payloads rest p fuel fits.1 (omega arith),
)

-- How much is left to read: the bytes and the pieces.
abbrev pub volume : List (List ℕ) → ℕ
volume [] = 0
volume (piece ∷ rest) = suc (length piece + volume rest)

length-drop_le : (n : ℕ) (xs : List ℕ) → length (drop n xs) ≤ length xs
length-drop_le zero xs = omega arith
length-drop_le (suc n) [] = omega arith
length-drop_le (suc n) (x ∷ xs) = omega (arith, length-drop_le n xs)

length-drop_lt : (n : ℕ) (xs : List ℕ) → suc n < length xs → length (drop (suc n) xs) < length xs
length-drop_lt n [] h = absurd (omega arith)
length-drop_lt n (x ∷ xs) h = omega (arith, length-drop_le n xs)

-- A read that brings something leaves less to read.
read_shrinks :
    (n : ℕ) (pieces : List (List ℕ)) (bytes : List ℕ) (c : Conn)
    → (read_conn (suc n) (record c { inbox = pieces })).0 ≡ ok bytes
    → volume (read_conn (suc n) (record c { inbox = pieces })).1.inbox < volume pieces
unfolding read_conn
read_shrinks n [] bytes c read = cc
read_shrinks n (piece ∷ rest) bytes c read = elim (Bool-cases (leb (length piece) (suc n))) [
  | inl whole ↦ rw whole (omega arith)
  | inr part ↦ rw part (omega (arith, length-drop_lt n piece (ground (arith, part))))
]

-- So does a message.
decode_shrinks :
    (c : Conn) (rpc : Rpc) → (decode c).0 ≡ ok rpc → volume (decode c).1.inbox < volume c.inbox
unfolding decode
decode_shrinks c rpc read =
    let c₁ = (read_conn 1 c).1 in
    elim (Result-cases (read_conn 1 c).0) [
      | inr (e, failed) ↦ absurd (ground (arith, failed))
      | inl (peek_buf, peeked) ↦
          let first = read_shrinks 0 c.inbox peek_buf c peeked in
          elim (Bool-cases (eqb (first_byte peek_buf) incoming_stream)) [
            | inl opens ↦ ground (arith, peeked, opens)
            | inr message ↦ elim (Result-cases (read_conn buffer_size c₁).0) [
              | inr (e, failed) ↦ absurd (ground (arith, peeked, message, failed))
              | inl (buf, got) ↦
                  let second = read_shrinks 1027 c₁.inbox buf c₁ got in
                  ground (arith, peeked, message, got)
            ]
          ]
    ]

-- The loop of `handleConn` comes to rest, at a stream or at the end of the connection, within as
-- many rounds as the bytes and pieces that come in and one more.
pub rpc_loop_ends :
    (fuel : ℕ) (p : TcpPeer)
    → volume p.conn.inbox < fuel
    → (end : LoopEnd) × ((rpc_loop fuel p).0 ≡ some end)
unfolding rpc_loop
rpc_loop_ends zero p enough = absurd (omega arith)
rpc_loop_ends (suc fuel) p enough = elim (Result-cases (decode p.conn).0) [
  | inr (e, failed) ↦ (dropped e, ground (arith, failed))
  | inl (rpc, read) ↦ elim (Bool-cases rpc.stream) [
    | inl opens ↦ (waiting, ground (arith, read, opens))
    | inr message ↦
        let p' : TcpPeer = record p { conn = (decode p.conn).1 } in
        let shrinks = decode_shrinks p.conn rpc read in
        let (end, ends) = rpc_loop_ends fuel p' (omega arith) in
        (end, ground (arith, read, message, ends))
  ]
]
