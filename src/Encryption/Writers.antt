-- ===== src/Encryption/Writers.antt =====
-- distributed-fs/crypto.go: `copyStream` into any writer that takes everything it is given.
use go_infra_lab.Common.{
  ℕ, suc, ◌+◌, List, [], ◌∷◌, ◌++◌, ◌≡◌, ◌∙◌, refl, ap, sym, subst, arith, none, length,
  length-append,
}
use go_infra_lab.Action.{Result, ok}
use go_infra_lab.Staging.{Reader, more, eof, read_failed}
use go_infra_lab.Staging.Delivery.{delivered, delivered_more, ok_inj}
use package.go_infra_lab.Encryption.{Writer, xor_key_stream, write_piece, copy_stream}

-- A writer that, in a state from which it is ready, takes all bytes without an error and is ready
-- again; `Grows` says how the state has changed by the bytes written.
pub record IsWriter {W : Type 0} (writer : Writer W) : Type 1 where
  pub Ready : W → Type 0
  pub Grows : List ℕ → W → W → Type 0
  pub grows_nil : (w : W) → Grows [] w w
  pub grows_append :
      (xs ys : List ℕ) (a b c : W) → Grows xs a b → Grows ys b c → Grows (xs ++ ys) a c
  pub write_lem :
      (bytes : List ℕ) (w : W)
      → Ready w
      → ((writer.write bytes w).0 ≡ (length bytes, none))
        × Grows bytes w (writer.write bytes w).1
        × Ready (writer.write bytes w).1

pub length-xor_key_stream :
    (f : ℕ → ℕ → ℕ) (n : ℕ) (bs : List ℕ) → length (xor_key_stream f n bs) ≡ length bs
unfolding xor_key_stream
length-xor_key_stream f n [] = refl
length-xor_key_stream f n (b ∷ bs) = ap suc (length-xor_key_stream f (suc n) bs)

pub xor_key_stream-append :
    (f : ℕ → ℕ → ℕ) (n : ℕ) (xs ys : List ℕ)
    → xor_key_stream f n (xs ++ ys) ≡ xor_key_stream f n xs ++ xor_key_stream f (n + length xs) ys
unfolding xor_key_stream
xor_key_stream-append f n [] ys = ap (λ k. xor_key_stream f k ys) (omega arith)
xor_key_stream-append f n (x ∷ xs) ys =
    ap (λ r. f n x ∷ r)
      (xor_key_stream-append f (suc n) xs ys
        ∙ ap (λ k. xor_key_stream f (suc n) xs ++ xor_key_stream f k ys) (omega arith))

module _ {W : Type 0} (writer : Writer W) (laws : IsWriter writer) where
  -- What `copyStream` has done when it has come to the end of its source.
  abbrev pub Copied : (ℕ → ℕ → ℕ) → ℕ → ℕ → List ℕ → W → Result ℕ × W → Type 0
  Copied f n nw bytes w r =
      (w' : W) × (r ≡ (ok (nw + length bytes), w'))
      × laws.Grows (xor_key_stream f n bytes) w w'
      × laws.Ready w'

  piece_step :
      (f : ℕ → ℕ → ℕ) (n b : ℕ) (bs : List ℕ) (w : W)
      → laws.Ready w
      → (w' : W) × (write_piece writer (xor_key_stream f n (b ∷ bs)) w ≡ (none, w'))
        × laws.Grows (xor_key_stream f n (b ∷ bs)) w w'
        × laws.Ready w'
  unfolding write_piece
  piece_step f n b bs w ready =
      let piece = xor_key_stream f n (b ∷ bs) in
      let (wrote, grows, ready') = laws.write_lem piece w ready in
      ((writer.write piece w).1, ground (arith, wrote), grows, ready')

  copy_stream_nothing :
      (f : ℕ → ℕ → ℕ) (n nw : ℕ) (bytes : List ℕ) (w : W)
      → laws.Ready w
      → [] ≡ bytes
      → Copied f n nw bytes w (ok nw, w)
  unfolding xor_key_stream
  copy_stream_nothing f n nw bytes w ready same =
      let count : nw ≡ nw + 0 = omega arith in
      subst (λ l. Copied f n nw l w (ok nw, w)) same
        (w, ap (λ k. (ok k, w)) count, laws.grows_nil w, ready)

  -- Whatever the reads, the whole source is passed through the cipher and written, and it is
  -- counted.
  pub copy_stream-Grows :
      (f : ℕ → ℕ → ℕ) (n nw : ℕ) (reads : Reader) (bytes : List ℕ) (w : W)
      → laws.Ready w
      → delivered reads ≡ ok bytes
      → Copied f n nw bytes w (copy_stream writer f n nw reads w)
  unfolding copy_stream
  copy_stream-Grows f n nw [] bytes w ready h = copy_stream_nothing f n nw bytes w ready (ok_inj h)
  copy_stream-Grows f n nw (([], more) ∷ reads) bytes w ready h =
      let (rest, later, same) = delivered_more [] reads bytes h in
      copy_stream-Grows f n nw reads bytes w ready (later ∙ ap ok same)
  copy_stream-Grows f n nw (([], eof) ∷ reads) bytes w ready h =
      copy_stream_nothing f n nw bytes w ready (ok_inj h)
  copy_stream-Grows f n nw (([], read_failed e) ∷ reads) bytes w ready h = ground arith
  copy_stream-Grows f n nw ((b ∷ bs, more) ∷ reads) bytes w ready h =
      let piece = b ∷ bs in
      let (rest, later, same) = delivered_more piece reads bytes h in
      let (w', wrote, grows, ready') = piece_step f n b bs w ready in
      let (w'', done, grows', ready'') =
        copy_stream-Grows f (n + length piece) (nw + length piece) reads rest w' ready' later in
      subst (λ l. Copied f n nw l w (copy_stream writer f n nw ((piece, more) ∷ reads) w)) same
        (
          w'',
          ground (arith, wrote, done, length-append piece rest),
          subst (λ l. laws.Grows l w w'') (sym (xor_key_stream-append f n piece rest))
              (laws.grows_append _ _ w w' w'' grows grows'),
          ready'',
        )
  copy_stream-Grows f n nw ((b ∷ bs, eof) ∷ reads) bytes w ready h =
      let (w', wrote, grows, ready') = piece_step f n b bs w ready in
      subst (λ l. Copied f n nw l w (copy_stream writer f n nw ((b ∷ bs, eof) ∷ reads) w))
        (ok_inj h) (w', ground (arith, wrote), grows, ready')
  copy_stream-Grows f n nw ((b ∷ bs, read_failed e) ∷ reads) bytes w ready h = ground arith
