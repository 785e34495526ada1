-- ===== src/Peer/Transport.antt =====
-- distributed-fs/p2p/tcp_transport.go: the loops over new connections and over the messages of one.
use go_infra_lab.Common.{ℕ, zero, suc, Bool, Option, none, some, List, [], ◌∷◌, if◌then◌else◌}
use go_infra_lab.Action.{Error, Result, ok, err}
use package.go_infra_lab.Peer.{Rpc, Conn, TcpPeer, new_tcp_peer, decode}

-- How the loop of `handleConn` comes to rest: it waits for the end of a stream, or has dropped the
-- connection.
pub data LoopEnd : Type 0 where
  waiting : LoopEnd
  dropped : Error → LoopEnd

-- The loop of `handleConn`: the messages that it passes on, and where it stops. `none` is out of
-- fuel.
unfoldable pub rpc_loop : ℕ → TcpPeer → Option LoopEnd × List Rpc × TcpPeer
rpc_loop zero p = (none, [], p)
rpc_loop (suc fuel) p =
    let (decoded, conn') = decode p.conn in
    let p' : TcpPeer = record p { conn = conn' } in
    let rest = rpc_loop fuel p' in
    elim decoded [
      | err e ↦ (some (dropped e), [], p')
      | ok rpc ↦
          if rpc.stream
          then (some waiting, [], record p' { streams = suc p.streams })
          else (rest.0, record rpc { from = conn'.remote_addr } ∷ rest.1, rest.2)
    ]

-- What `handleConn` does before its loop: the handshake and the callback. An error drops the
-- connection.
unfoldable pub open_peer {ℓ} :
    {S : Type ℓ}
    → (TcpPeer → Option Error)
    → Option (TcpPeer → S → Option Error × S)
    → Conn
    → Bool
    → S
    → Result TcpPeer × S
unfolding new_tcp_peer
open_peer handshake on_peer conn outbound s =
    let peer = new_tcp_peer conn outbound in
    elim (handshake peer) [
      | some e ↦ (err e, s)
      | none ↦ elim on_peer [
        | none ↦ (ok peer, s)
        | some call ↦
            let (failed, s') = call peer s in (elim failed [ some e ↦ err e | none ↦ ok peer ], s')
      ]
    ]

-- `NOPHandshakeFunc`
unfoldable pub nop_handshake_func : TcpPeer → Option Error
nop_handshake_func p = none

-- What `listener.Accept` returns.
pub data Accepted : Type 0 where
  connected : Conn → Accepted
  closed : Accepted
  accept_failed : Error → Accepted

-- `startAcceptLoop`: what it hands to `handleConn`, for each answer of `Accept` in turn. After an
-- error it hands over the connection that came with it, which is nil.
unfoldable pub accept_loop : List Accepted → List (Option Conn)
accept_loop [] = []
accept_loop (connected conn ∷ rest) = some conn ∷ accept_loop rest
accept_loop (closed ∷ rest) = []
accept_loop (accept_failed e ∷ rest) = none ∷ accept_loop rest
