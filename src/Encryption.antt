-- ===== src/Encryption.antt =====
-- distributed-fs/crypto.go: the encryption of a stream, over a block cipher in counter mode.
pub mod Writers
pub mod RoundTrip
use go_infra_lab.Common.{
  ℕ, suc, ◌+◌, Option, none, some, List, [], ◌∷◌, not, eqb, length, take, drop, ltb, if◌then◌else◌,
}
use go_infra_lab.Action.{Error, other, Result, ok, err, short_write}
use go_infra_lab.Staging.{Reader, ReadStatus, more, eof, read_failed}

-- `aes.NewCipher` and `cipher.NewCTR`: the error for a key, the block size, and what the stream for
-- a key and an IV makes of the byte at a position.
pub record Cipher (K : Type 0) : Type 0 where
  pub key_error : K → Option Error
  pub block_size : ℕ
  pub xor_byte : K → List ℕ → ℕ → ℕ → ℕ

-- An `io.Writer`: how many bytes a write took, and its error.
pub record Writer (W : Type 0) : Type 0 where
  pub write : List ℕ → W → (ℕ × Option Error) × W

-- `XORKeyStream`, for a stream at position `n`.
unfoldable pub xor_key_stream : (ℕ → ℕ → ℕ) → ℕ → List ℕ → List ℕ
xor_key_stream f n [] = []
xor_key_stream f n (b ∷ bs) = f n b ∷ xor_key_stream f (suc n) bs

module _ {W : Type 0} (writer : Writer W) where
  -- The part of the loop of `copyStream` that is under `n > 0`: the error, if any.
  unfoldable pub write_piece : List ℕ → W → Option Error × W
  write_piece piece w =
      let ((n, e), w') = writer.write piece w in
      (
        elim e [
          | some write_error ↦ some write_error
          | none ↦ if not (eqb n (length piece)) then some short_write else none
        ],
        w',
      )

  -- What follows the write: the end of the loop or its next round.
  abbrev pub after_read : ReadStatus → ℕ → W → Result ℕ × W → Result ℕ × W
  after_read more nw w rest = rest
  after_read eof nw w rest = (ok nw, w)
  after_read (read_failed e) nw w rest = (err e, w)

  -- `copyStream`, with the stream at position `n`.
  unfoldable pub copy_stream : (ℕ → ℕ → ℕ) → ℕ → ℕ → Reader → W → Result ℕ × W
  unfolding write_piece xor_key_stream
  copy_stream f n nw [] w = (ok nw, w)
  copy_stream f n nw (([], status) ∷ reads) w = after_read status nw w (copy_stream f n nw reads w)
  copy_stream f n nw ((b ∷ bs, status) ∷ reads) w =
      let piece = b ∷ bs in
      let (failed, w') = write_piece (xor_key_stream f n piece) w in
      let rest = copy_stream f (n + length piece) (nw + length piece) reads w' in
      elim failed [ some e ↦ (err e, w') | none ↦ after_read status (nw + length piece) w' rest ]

  module _ {K : Type 0} (cipher : Cipher K) where
    -- `copyEncrypt`; `random` is what reading the IV from crypto/rand gives.
    unfoldable pub copy_encrypt : K → Result (List ℕ) → Reader → W → Result ℕ × W
    copy_encrypt key random src w = elim (cipher.key_error key) [
      | some e ↦ (err e, w)
      | none ↦ elim random [
        | err e ↦ (err e, w)
        | ok iv ↦
            let ((_, failed), w') = writer.write iv w in
            elim failed [
              | some e ↦ (err e, w')
              | none ↦ copy_stream (cipher.xor_byte key iv) 0 cipher.block_size src w'
            ]
      ]
    ]

    -- `copyDecrypt` of a source of bytes; `reads` are the answers of the reads that follow the IV.
    unfoldable pub copy_decrypt : K → List ℕ → (List ℕ → Reader) → W → Result ℕ × W
    copy_decrypt key bytes reads w = elim (cipher.key_error key) [
      | some e ↦ (err e, w)
      | none ↦
          if ltb (length bytes) cipher.block_size
          then (err (other "unexpected EOF"), w)
          else copy_stream (cipher.xor_byte key (take cipher.block_size bytes)) 0 cipher.block_size
              (reads (drop cipher.block_size bytes)) w
    ]
