-- ===== src/Peer/Pieces.antt =====
-- distributed-fs/server.go: what `io.LimitReader` over a peer reads, however its bytes come in, and
-- the size in front of a file.
use go_infra_lab.Common.{
  ℕ, zero, suc, ◌-◌, ◌/◌, ◌^◌, ◌<◌, ◌≤◌, ◌≡◌, refl, ap, arith, true, List, [], ◌∷◌, ◌++◌,
  if◌then◌else◌, leb, length, length-take, take, drop,
}
use go_infra_lab.Objects.Contract.{stream_of}
use go_infra_lab.Staging.Chunks.{flatten}
use package.go_infra_lab.Peer.{TcpPeer}
use package.go_infra_lab.Peer.Frames.{with_inbox}
use package.go_infra_lab.Peer.Server.Streams.{take_bytes, limit_reader, le_bytes, le_value}

leb_zero : (n : ℕ) → leb 0 n ≡ true
leb_zero n = ground arith

take-append_if :
    (n : ℕ) (xs ys : List ℕ)
    → take n (xs ++ ys) ≡ (if leb (length xs) n then xs ++ take (n - length xs) ys else take n xs)
take-append_if n [] ys =
    let same : n ≡ n - 0 = omega arith in rw (leb_zero n) (ap (λ k. take k ys) same)
take-append_if zero (x ∷ xs) ys = ground arith
take-append_if (suc n) (x ∷ xs) ys = ground (arith, take-append_if n xs ys)

drop-append_if :
    (n : ℕ) (xs ys : List ℕ)
    → drop n (xs ++ ys) ≡ (if leb (length xs) n then drop (n - length xs) ys else drop n xs ++ ys)
drop-append_if n [] ys =
    let same : n ≡ n - 0 = omega arith in rw (leb_zero n) (ap (λ k. drop k ys) same)
drop-append_if zero (x ∷ xs) ys = ground arith
drop-append_if (suc n) (x ∷ xs) ys = ground (arith, drop-append_if n xs ys)

-- The bytes are those that come first, and the others stay.
pub take_bytes_lem :
    (n : ℕ) (pieces : List (List ℕ))
    → ((take_bytes n pieces).0 ≡ take n (flatten pieces))
      × (flatten (take_bytes n pieces).1 ≡ drop n (flatten pieces))
unfolding take_bytes
take_bytes_lem zero [] = (refl, refl)
take_bytes_lem (suc n) [] = (refl, refl)
take_bytes_lem n (piece ∷ rest) =
    let later = take_bytes_lem (n - length piece) rest in
    (
      ground (arith, later.0, take-append_if n piece (flatten rest)),
      ground (arith, later.1, drop-append_if n piece (flatten rest)),
    )

-- The size that is sent in front of a file is read back.
pub le_value-le_bytes : (k n : ℕ) → n < 256 ^ k → le_value (le_bytes k n) ≡ n
unfolding le_bytes
le_value-le_bytes zero n small = omega arith
le_value-le_bytes (suc k) n small = omega (arith, le_value-le_bytes k (n / 256) (omega arith))

pub length-le_bytes : (k n : ℕ) → length (le_bytes k n) ≡ k
unfolding le_bytes
length-le_bytes zero n = refl
length-le_bytes (suc k) n = ap suc (length-le_bytes k (n / 256))

-- Reading a stream of `n` bytes from a peer takes the first `n` bytes that have come in.
pub limit_reader_lem :
    (n : ℕ) (p : TcpPeer)
    → n ≤ length (flatten p.conn.inbox)
    → (left : List (List ℕ)) × (limit_reader n p
        ≡ (stream_of (take n (flatten p.conn.inbox)), with_inbox left p))
      × (flatten left ≡ drop n (flatten p.conn.inbox))
unfolding limit_reader
limit_reader_lem n p enough =
    let (taken, left) = take_bytes_lem n p.conn.inbox in
    let full : length (take n (flatten p.conn.inbox)) ≡ n =
      omega (arith, length-take n (flatten p.conn.inbox)) in
    ((take_bytes n p.conn.inbox).1, ground (arith, taken, full), left)
