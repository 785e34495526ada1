-- ===== src/Service/Storage/Writing.antt =====
-- distributed-fs/managed_file_service.go: what `writeChunks` leaves in the object store.
use go_infra_lab.Common.{
  ℕ, suc, ◌+◌, ◌^◌, ◌<◌, ◌≡◌, ◌≢◌, ◌∙◌, refl, sym, ap, subst, arith, String, false, Option, none,
  some, List, [], ◌∷◌, eq_iff, length, inl, inr, All,
}
use go_infra_lab.Action.{ok}
use go_infra_lab.Metadata.{ChunkMetadata}
use go_infra_lab.Objects.Contract.{IsObjectStore, same_object}
use go_infra_lab.Objects.Names.{chunk_object_key}
use go_infra_lab.Objects.Names.Distinct.{chunk_object_key_inj}
use go_infra_lab.Staging.Chunks.{slice}
use go_infra_lab.Staging.Delivery.{Result-cases}
use package.go_infra_lab.Service.{Environment}
use package.go_infra_lab.Service.Storage.{write_chunk, write_loop, write_chunks}

-- Chunks that are numbered from an index on.
abbrev pub IsNumbered : ℕ → List ChunkMetadata → Type 0
IsNumbered i [] = Unit
IsNumbered i (chunk ∷ rest) = (chunk.index ≡ i) × IsNumbered (suc i) rest

-- A node holds the bytes of some chunks of a file.
abbrev pub HoldsChunks :
    {O : Type 0}
    → (String → String → ℕ → O → Option (List ℕ))
    → String
    → String
    → ℕ
    → List ℕ
    → List ChunkMetadata
    → O
    → Type 0
HoldsChunks contents node key version file chunks o =
    All (λ c. contents node (chunk_object_key key c.index) version o ≡ some (slice file c)) chunks

module _ {S Q O : Type 0} (env : Environment S Q O)
    (contents : String → String → ℕ → O → Option (List ℕ)) (laws : IsObjectStore env.store contents)
    (seeks : (n : ℕ) → env.seek_error n ≡ none) where
  module _ (node key : String) (version : ℕ) (file : List ℕ) (all : List ChunkMetadata) where
    write_chunk_ok :
        (chunk : ChunkMetadata) (o : O)
        → (write_chunk env node key version file all chunk o).0 ≡ ok tt
        → let o' = (write_chunk env node key version file all chunk o).1 in
          (contents node (chunk_object_key key chunk.index) version o' ≡ some (slice file chunk))
          × ((k' : String)
              → same_object node (chunk_object_key key chunk.index) version node k' version ≡ false
              → contents node k' version o' ≡ contents node k' version o)
    unfolding write_chunk
    write_chunk_ok chunk o done =
        let k = chunk_object_key key chunk.index in
        let bytes = slice file chunk in
        elim (Result-cases (env.store.write_object node k version bytes none o).0) [
          | inl (w, e) ↦
              let written = laws.write_lem node k version bytes w o e in
              (
                ground (arith, seeks chunk.offset, e, written.1),
                λ k' differs. ground (
                  arith,
                  seeks chunk.offset,
                  e,
                  laws.write_others node k version bytes o node k' version differs,
                ),
              )
          | inr (f, e) ↦ absurd (ground (arith, seeks chunk.offset, e))
        ]

    other_chunk :
        (i j : ℕ)
        → i < 2 ^ 64
        → j < 2 ^ 64
        → i ≢ j
        → same_object node (chunk_object_key key i) version node (chunk_object_key key j) version
          ≡ false
    other_chunk i j i_small j_small differ = ground (
      arith,
      eq_iff (chunk_object_key key i) (chunk_object_key key j),
      λ (e : chunk_object_key key i ≡ chunk_object_key key j).
          differ (chunk_object_key_inj key i j i_small j_small e),
    )

    -- The rest of the loop leaves the earlier chunks alone.
    write_loop_keeps :
        (i j : ℕ) (rest : List ChunkMetadata) (o : O)
        → IsNumbered i rest
        → j < i
        → i + length rest < 2 ^ 64
        → (write_loop env node key version file all rest o).0 ≡ ok tt
        → contents node
            (chunk_object_key key j)
            version
            (write_loop env node key version file all rest o).1
          ≡ contents node (chunk_object_key key j) version o
    unfolding write_loop
    write_loop_keeps i j [] o numbered lt small done = refl
    write_loop_keeps i j (chunk ∷ rest) o numbered lt small done =
        let o' = (write_chunk env node key version file all chunk o).1 in
        let index : chunk.index ≡ i = numbered.0 in
        elim (Result-cases (write_chunk env node key version file all chunk o).0) [
          | inr (f, e) ↦ absurd (ground (arith, e))
          | inl (u, e) ↦
              let later =
                write_loop_keeps (suc i) j rest o' numbered.1 (omega arith) (omega arith)
                  (ground (arith, e)) in
              let same = (write_chunk_ok chunk o e).1 (chunk_object_key key j) (
                other_chunk chunk.index j (omega arith) (omega arith)
                  (λ (q : chunk.index ≡ j). omega arith)) in
              ground (arith, e, later, same)
        ]

    -- A loop that succeeds has stored every chunk.
    write_loop-HoldsChunks :
        (i : ℕ) (rest : List ChunkMetadata) (o : O)
        → IsNumbered i rest
        → i + length rest < 2 ^ 64
        → (write_loop env node key version file all rest o).0 ≡ ok tt
        → HoldsChunks contents node key version file rest
            (write_loop env node key version file all rest o).1
    unfolding write_loop
    write_loop-HoldsChunks i [] o numbered small done = tt
    write_loop-HoldsChunks i (chunk ∷ rest) o numbered small done =
        let o' = (write_chunk env node key version file all chunk o).1 in
        let index : chunk.index ≡ i = numbered.0 in
        elim (Result-cases (write_chunk env node key version file all chunk o).0) [
          | inr (f, e) ↦ absurd (ground (arith, e))
          | inl (u, e) ↦
              let step : write_loop env node key version file all (chunk ∷ rest) o
                  ≡ write_loop env node key version file all rest o' =
                ground (arith, e) in
              let done' = sym (ap (λ r. r.0) step) ∙ done in
              subst (λ r. HoldsChunks contents node key version file (chunk ∷ rest) r.1) (sym step)
                (
                  write_loop_keeps (suc i) chunk.index rest o' numbered.1 (omega arith)
                        (omega arith) done'
                      ∙ (write_chunk_ok chunk o e).0,
                  write_loop-HoldsChunks (suc i) rest o' numbered.1 (omega arith) done',
                )
        ]

  -- What `writeChunks` of a numbered, non-empty manifest has stored when it succeeds.
  pub write_chunks-HoldsChunks :
      (node key : String) (version : ℕ) (file : List ℕ) (chunks : List ChunkMetadata) (o : O)
      → IsNumbered 0 chunks
      → 0 < length chunks
      → length chunks < 2 ^ 64
      → (write_chunks env node key version file chunks o).0 ≡ ok tt
      → HoldsChunks contents node key version file chunks
          (write_chunks env node key version file chunks o).1
  unfolding write_chunks
  write_chunks-HoldsChunks node key version file [] o numbered some_chunk small done =
      absurd (omega arith)
  write_chunks-HoldsChunks node key version file (chunk ∷ rest) o numbered some_chunk small done =
      write_loop-HoldsChunks node key version file (chunk ∷ rest) 0 (chunk ∷ rest) o numbered
        (omega arith) done
