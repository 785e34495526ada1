-- ===== src/Peer.antt =====
-- distributed-fs/p2p: connections, messages, `DefaultDecoder` and `TCPeer`.
pub mod Transport
pub mod Server
pub mod Frames
pub mod Pieces
pub mod Receiving
pub mod Sending
pub mod Exchange
pub mod Fetching
pub mod Serving
use go_infra_lab.Common.{
  ℕ, zero, suc, String, Bool, true, false, Option, none, some, List, [], ◌∷◌, ◌++◌, if◌then◌else◌,
  eqb, leb, length, take, drop,
}
use go_infra_lab.Action.{Error, other, panic, Result, ok, err}

abbrev pub incoming_message : ℕ
incoming_message = 1

abbrev pub incoming_stream : ℕ
incoming_stream = 2

pub record Rpc : Type 0 where
  pub from : String
  pub payload : List ℕ
  pub stream : Bool

-- A `net.Conn`. `inbox` are the pieces in which the bytes of the other side come in, `ending` is
-- what a read finds behind them: EOF, or an error. `outbox` are the writes made so far.
pub record Conn : Type 0 where
  pub remote_addr : String
  pub inbox : List (List ℕ)
  pub ending : Option Error
  pub outbox : List (List ℕ)
  pub write_error : Option Error

-- What a read into a buffer of some length takes from the pieces, and what it leaves.
unfoldable pub next_read : ℕ → List (List ℕ) → Option (List ℕ × List (List ℕ))
next_read n [] = none
next_read n (piece ∷ rest) =
    some (take n piece, if leb (length piece) n then rest else drop n piece ∷ rest)

abbrev pub ending_error : Option Error → Error
ending_error none = other "EOF"
ending_error (some e) = e

-- `conn.Read(buf)`
unfoldable pub read_conn : ℕ → Conn → Result (List ℕ) × Conn
unfolding next_read
read_conn n c = elim (next_read n c.inbox) [
  | none ↦ (err (ending_error c.ending), c)
  | some (bytes, rest) ↦ (ok bytes, record c { inbox = rest })
]

-- The first byte of a buffer, which `make` has filled with zeros.
abbrev pub first_byte : List ℕ → ℕ
first_byte [] = 0
first_byte (b ∷ bs) = b

-- The size of the buffer of `DefaultDecoder.Decode`.
abbrev pub buffer_size : ℕ
buffer_size = 1028

-- `DefaultDecoder.Decode`
unfoldable pub decode : Conn → Result Rpc × Conn
decode c =
    let (peeked, c₁) = read_conn 1 c in
    elim peeked [
      | err e ↦ (err e, c₁)
      | ok peek_buf ↦
          if eqb (first_byte peek_buf) incoming_stream
          then (ok (record { from = ""; payload = []; stream = true }), c₁)
          else (let (got, c₂) = read_conn buffer_size c₁ in
              elim got [
                | err e ↦ (err e, c₂)
                | ok buf ↦ (ok (record { from = ""; payload = buf; stream = false }), c₂)
              ])
    ]

-- `TCPeer`; `streams` is the counter of its `WaitGroup`.
pub record TcpPeer : Type 0 where
  pub conn : Conn
  pub outbound : Bool
  pub streams : ℕ

unfoldable pub new_tcp_peer : Conn → Bool → TcpPeer
new_tcp_peer conn outbound = record { conn = conn; outbound = outbound; streams = 0 }

-- `conn.Write(b)`: how many bytes were taken, and the error.
unfoldable pub write_conn : List ℕ → Conn → (ℕ × Option Error) × Conn
write_conn b c = elim c.write_error [
  | some e ↦ ((0, some e), c)
  | none ↦ ((length b, none), record c { outbox = c.outbox ++ b ∷ [] })
]

unfoldable pub write_peer : List ℕ → TcpPeer → (ℕ × Option Error) × TcpPeer
unfolding write_conn
write_peer b p = let (r, conn') = write_conn b p.conn in (r, record p { conn = conn' })

-- `Send`
unfoldable pub send : List ℕ → TcpPeer → Option Error × TcpPeer
unfolding write_peer
send b p = let ((_, e), p') = write_peer b p in (e, p')

-- `CloseStream`: `wg.Done()` panics when the counter would fall below zero.
unfoldable pub close_stream : TcpPeer → Result TcpPeer
close_stream p = elim p.streams [ zero ↦ err panic | suc n ↦ ok (record p { streams = n }) ]
