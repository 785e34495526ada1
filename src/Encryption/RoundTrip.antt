-- ===== src/Encryption/RoundTrip.antt =====
-- distributed-fs/crypto.go: what was encrypted is decrypted to itself.
use go_infra_lab.Common.{
  ℕ, suc, ◌+◌, List, [], ◌∷◌, ◌++◌, ◌≡◌, ◌∙◌, refl, ap, sym, subst, arith, none, length,
  length-append, take, drop,
}
use go_infra_lab.Action.{ok}
use go_infra_lab.Staging.{Reader}
use go_infra_lab.Staging.Delivery.{delivered}
use go_infra_lab.Staging.Chunks.{append_nil, append_assoc, take-append, drop-append}
use package.go_infra_lab.Encryption.Writers.{IsWriter, copy_stream-Grows, length-xor_key_stream}
use package.go_infra_lab.Encryption.{Cipher, Writer, xor_key_stream, copy_encrypt, copy_decrypt}

-- A writer that appends, and never fails.
abbrev pub appending : Writer (List ℕ)
appending = record { write = λ bytes out. ((length bytes, none), out ++ bytes) }

abbrev appending-IsWriter : IsWriter appending
appending-IsWriter = record {
  Ready = λ out. Unit {0};
  Grows = λ bytes out out'. out' ≡ out ++ bytes;
  grows_nil = λ out. sym (append_nil out);
  grows_append = λ xs ys a b c p q. q ∙ (ap (λ r. r ++ ys) p ∙ append_assoc a xs ys);
  write_lem = λ bytes out ready. (refl, refl, tt);
}

xor_twice :
    (f : ℕ → ℕ → ℕ) (n : ℕ) (bs : List ℕ)
    → ((i b : ℕ) → f i (f i b) ≡ b)
    → xor_key_stream f n (xor_key_stream f n bs) ≡ bs
unfolding xor_key_stream
xor_twice f n [] involutive = refl
xor_twice f n (b ∷ bs) involutive =
    ground (arith, involutive n b, xor_twice f (suc n) bs involutive)

module _ {K : Type 0} (cipher : Cipher K) where
  module _ {W : Type 0} (writer : Writer W) (laws : IsWriter writer) (key : K) (iv bytes : List ℕ)
      (w : W) (ready : laws.Ready w) (valid : cipher.key_error key ≡ none) where
    -- The encrypted bytes, with the IV in front.
    abbrev pub encrypted : List ℕ
    encrypted = iv ++ xor_key_stream (cipher.xor_byte key iv) 0 bytes

    pub copy_encrypt-Grows :
        (src : Reader)
        → delivered src ≡ ok bytes
        → (w' : W) × (copy_encrypt writer cipher key (ok iv) src w
            ≡ (ok (cipher.block_size + length bytes), w'))
          × laws.Grows encrypted w w'
          × laws.Ready w'
    unfolding copy_encrypt
    copy_encrypt-Grows src given =
        let (wrote, grows, ready') = laws.write_lem iv w ready in
        let w₁ = (writer.write iv w).1 in
        let (w', done, grows', ready'') =
          copy_stream-Grows writer laws (cipher.xor_byte key iv) 0 cipher.block_size src bytes w₁
            ready' given in
        (
          w',
          ground (arith, valid, wrote, done),
          laws.grows_append _ _ w w₁ w' grows grows',
          ready'',
        )

    pub copy_decrypt-Grows :
        (reads : List ℕ → Reader)
        → length iv ≡ cipher.block_size
        → ((i b : ℕ) → cipher.xor_byte key iv i (cipher.xor_byte key iv i b) ≡ b)
        → ((l : List ℕ) → delivered (reads l) ≡ ok l)
        → (w' : W) × (copy_decrypt writer cipher key encrypted reads w
            ≡ (ok (cipher.block_size + length bytes), w'))
          × laws.Grows bytes w w'
          × laws.Ready w'
    unfolding copy_decrypt
    copy_decrypt-Grows reads sized involutive cut =
        let f = cipher.xor_byte key iv in
        let ct = xor_key_stream f 0 bytes in
        let iv_back : take cipher.block_size (iv ++ ct) ≡ iv =
          subst (λ k. take k (iv ++ ct) ≡ iv) sized (take-append iv ct) in
        let ct_back : drop cipher.block_size (iv ++ ct) ≡ ct =
          subst (λ k. drop k (iv ++ ct) ≡ ct) sized (drop-append iv ct) in
        let (w', done, grows, ready') =
          copy_stream-Grows writer laws f 0 cipher.block_size (reads ct) ct w ready (cut ct) in
        (
          w',
          ground (
            arith,
            valid,
            length-append iv ct,
            sized,
            iv_back,
            ct_back,
            done,
            length-xor_key_stream f 0 bytes,
          ),
          subst (λ l. laws.Grows l w w') (xor_twice f 0 bytes involutive) grows,
          ready',
        )

  -- The decryption into a list.
  pub copy_decrypt-appending :
      (key : K) (iv bytes : List ℕ) (reads : List ℕ → Reader)
      → cipher.key_error key ≡ none
      → length iv ≡ cipher.block_size
      → ((i b : ℕ) → cipher.xor_byte key iv i (cipher.xor_byte key iv i b) ≡ b)
      → ((l : List ℕ) → delivered (reads l) ≡ ok l)
      → copy_decrypt appending cipher key
          (iv ++ xor_key_stream (cipher.xor_byte key iv) 0 bytes)
          reads
          []
        ≡ (ok (cipher.block_size + length bytes), bytes)
  copy_decrypt-appending key iv bytes reads valid sized involutive cut =
      let (w', decrypts, plain, _) =
        copy_decrypt-Grows appending appending-IsWriter key iv bytes [] tt valid reads sized
          involutive cut in
      decrypts ∙ ap (λ o. (ok (cipher.block_size + length bytes), o)) plain

  -- What `copyEncrypt` writes for a valid key, `copyDecrypt` turns back into the bytes that were
  -- read, however the readers cut the streams, if the cipher's stream undoes itself. Both return
  -- the number of these bytes and the block size.
  pub decrypt-encrypt :
      (key : K) (iv bytes : List ℕ) (src : Reader) (reads : List ℕ → Reader)
      → cipher.key_error key ≡ none
      → length iv ≡ cipher.block_size
      → ((i b : ℕ) → cipher.xor_byte key iv i (cipher.xor_byte key iv i b) ≡ b)
      → delivered src ≡ ok bytes
      → ((l : List ℕ) → delivered (reads l) ≡ ok l)
      → let (encrypted?, written) = copy_encrypt appending cipher key (ok iv) src [] in
        (encrypted? ≡ ok (cipher.block_size + length bytes))
        × (copy_decrypt appending cipher key written reads []
            ≡ (ok (cipher.block_size + length bytes), bytes))
  decrypt-encrypt key iv bytes src reads valid sized involutive given cut =
      let (w, encrypts, written, _) =
        copy_encrypt-Grows appending appending-IsWriter key iv bytes [] tt valid src given in
      rw encrypts
        (refl, rw written (copy_decrypt-appending key iv bytes reads valid sized involutive cut))
