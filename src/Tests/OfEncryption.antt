-- ===== src/Tests/OfEncryption.antt =====
-- The theorem on encrypted streams, for a small cipher.
use go_infra_lab.Common.{ℕ, none, [], ◌∷◌, ◌≡◌, refl, arith, eqb, if◌then◌else◌}
use go_infra_lab.Action.{ok}
use go_infra_lab.Staging.{Reader, more, eof}
use go_infra_lab.Encryption.{Cipher, copy_encrypt, copy_decrypt}
use go_infra_lab.Encryption.RoundTrip.{appending, decrypt-encrypt}

-- A byte that is the key or the position is exchanged for the other.
abbrev pub swapping : Cipher ℕ
swapping = record {
  key_error = λ key. none;
  block_size = 2;
  xor_byte = λ key iv i b. if eqb b key then i else if eqb b i then key else b;
}

swaps_back :
    (i b : ℕ) → swapping.xor_byte 7 (1 ∷ 2 ∷ []) i (swapping.xor_byte 7 (1 ∷ 2 ∷ []) i b) ≡ b
swaps_back i b = ground arith

abbrev source : Reader
source = (5 ∷ 7 ∷ [], more) ∷ ([], more) ∷ (0 ∷ [], eof) ∷ []

decrypt-encrypt_example :
    let (encrypted?, written) = copy_encrypt appending swapping 7 (ok (1 ∷ 2 ∷ [])) source [] in
    (encrypted? ≡ ok 5)
    × (copy_decrypt appending swapping 7 written (λ l. (l, eof) ∷ []) [] ≡ (ok 5, 5 ∷ 7 ∷ 0 ∷ []))
decrypt-encrypt_example =
    decrypt-encrypt swapping 7 (1 ∷ 2 ∷ []) (5 ∷ 7 ∷ 0 ∷ []) source (λ l. (l, eof) ∷ []) refl refl
      swaps_back refl (λ l. refl)
