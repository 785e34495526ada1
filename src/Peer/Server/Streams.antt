-- ===== src/Peer/Server/Streams.antt =====
-- distributed-fs/server.go: reading a stream of known length from a peer, and the length in front
-- of it.
use go_infra_lab.Common.{
  ℕ, zero, suc, ◌+◌, ◌*◌, ◌-◌, ◌/◌, ◌%◌, ◌^◌, String, none, some, List, [], ◌∷◌, ◌++◌,
  if◌then◌else◌, eqb, leb, ltb, length, take, drop,
}
use go_infra_lab.Action.{Action, ok, err}
use go_infra_lab.Encryption.{Cipher, Writer, copy_decrypt}
use go_infra_lab.Objects.{Stream}
use go_infra_lab.Staging.{Reader, more, eof, read_failed}
use go_infra_lab.Store.{FileSystem, Store, path_of, open_file_for_writing}
use package.go_infra_lab.Peer.{TcpPeer}

-- What reads until `n` bytes have come take from the pieces of a connection.
unfoldable pub take_bytes : ℕ → List (List ℕ) → List ℕ × List (List ℕ)
take_bytes n [] = ([], [])
take_bytes n (piece ∷ rest) =
    let (later, left) = take_bytes (n - length piece) rest in
    if eqb n 0
    then ([], piece ∷ rest)
    else if leb (length piece) n
    then (piece ++ later, left)
    else (take n piece, drop n piece ∷ rest)

-- The bytes of `io.LimitReader(peer, n)`. A connection that ends before is an end of the stream
-- too, unless it ends with an error.
unfoldable pub limit_reader : ℕ → TcpPeer → Stream × TcpPeer
unfolding take_bytes
limit_reader n p =
    let (bytes, left) = take_bytes n p.conn.inbox in
    (
      record {
        bytes = bytes;
        read_error = if ltb (length bytes) n then p.conn.ending else none;
        close_error = none;
      },
      record p { conn = record p.conn { inbox = left } },
    )

-- `binary.Write` of an int64 in little-endian order, for a number of bytes.
unfoldable pub le_bytes : ℕ → ℕ → List ℕ
le_bytes zero n = []
le_bytes (suc k) n = n % 256 ∷ le_bytes k (n / 256)

abbrev pub le_value : List ℕ → ℕ
le_value [] = 0
le_value (b ∷ bs) = b + 256 * le_value bs

-- `binary.Read` of an int64 whose error is not looked at: with fewer than eight bytes it stays 0.
-- The result is used as the limit of a reader, for which a negative number is 0.
unfoldable pub read_size : TcpPeer → ℕ × TcpPeer
read_size p =
    let (src, p') = limit_reader 8 p in
    let n = le_value src.bytes in
    (if eqb (length src.bytes) 8 then (if ltb n (2 ^ 63) then n else 0) else 0, p')

abbrev pub copy_buffer : ℕ
copy_buffer = 32 * 1024

abbrev last_status : Stream → Reader
last_status src = elim src.read_error [ none ↦ ([], eof) ∷ [] | some e ↦ ([], read_failed e) ∷ [] ]

-- The reads of `copyStream` from a source of known bytes: each fills the buffer while it can.
unfoldable pub buffer_reads : ℕ → List ℕ → Reader → Reader
buffer_reads zero bytes end = (bytes, more) ∷ end
buffer_reads (suc fuel) bytes end =
    let rest = buffer_reads fuel (drop copy_buffer bytes) end in
    if leb (length bytes) copy_buffer
    then (bytes, more) ∷ end
    else (take copy_buffer bytes, more) ∷ rest

abbrev pub reads_of : Stream → List ℕ → Reader
reads_of src bytes = buffer_reads (length bytes) bytes (last_status src)

module _ {F K : Type 0} (fs : FileSystem F) (file_writer : String → Writer F) (cipher : Cipher K)
    (s : Store) where
  -- `WriteDecrypt`
  unfoldable pub write_decrypt : K → String → String → Stream → Action F ℕ
  write_decrypt enc_key id key src f =
      let (opened, f') = open_file_for_writing fs s id key f in
      elim opened [
        | err e ↦ (err e, f')
        | ok _ ↦
            copy_decrypt (file_writer (path_of fs s id key)) cipher enc_key src.bytes (reads_of src)
              f'
      ]
