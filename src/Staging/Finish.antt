-- ===== src/Staging/Finish.antt =====
-- distributed-fs/managed_file_service.go: the last chunk of `stageReader`, and the manifest that it
-- completes.
use go_infra_lab.Common.{
  ℕ, ◌<◌, ◌≤◌, String, List, [], ◌∷◌, ◌++◌, ◌≡◌, ◌∙◌, refl, ap, sym, arith, All, length,
  length-append, ltb, eqb, if◌then◌else◌, true, false, Bool-cases, inl, inr,
}
use go_infra_lab.Metadata.{ChunkMetadata}
use package.go_infra_lab.Staging.{Stage, finish_stage, with_chunk}
use package.go_infra_lab.Staging.Chunks.{flatten, append_nil, describe, IsCut}
use package.go_infra_lab.Staging.Invariant.{
  IsStage, bytes_counted, with_chunk_whole, with_chunk_lem,
}

module _ (sha256 : List ℕ → String) (limit : ℕ) where
  IsCut-append :
      (full : List (List ℕ)) (last : List ℕ)
      → 0 < limit
      → All (λ p. length p ≡ limit) full
      → 0 < length last
      → length last ≤ limit
      → IsCut limit (full ++ last ∷ [])
  IsCut-append [] last positive h some_left short = short
  IsCut-append (p ∷ []) last positive h some_left short = (h.0, some_left, short)
  IsCut-append (p ∷ q ∷ ps) last positive h some_left short =
      let next = h.1.0 in
      (h.0, omega arith, IsCut-append (q ∷ ps) last positive h.1 some_left short)

  full-IsCut :
      (p : List ℕ) (full : List (List ℕ))
      → 0 < limit
      → All (λ p. length p ≡ limit) (p ∷ full)
      → IsCut limit (p ∷ full)
  full-IsCut p [] positive h = let last = h.0 in omega arith
  full-IsCut p (q ∷ ps) positive h =
      let next = h.1.0 in (h.0, omega arith, full-IsCut q ps positive h.1)

  -- The manifest of bytes: that of their parts.
  pub record IsManifest (bytes : List ℕ) (chunks : List ChunkMetadata) : Type 0 where
    pub parts : List (List ℕ)
    pub whole : flatten parts ≡ bytes
    pub cut : IsCut limit parts
    pub described : chunks ≡ describe sha256 0 0 parts

  with_chunk-IsManifest :
      (bytes : List ℕ) (full : List (List ℕ)) (s : Stage)
      → IsCut limit (full ++ s.chunk_bytes ∷ [])
      → IsStage sha256 limit bytes full s
      → IsManifest bytes (with_chunk sha256 limit s)
  with_chunk-IsManifest bytes full s cut h = record {
    parts = full ++ s.chunk_bytes ∷ [];
    whole = with_chunk_whole sha256 limit bytes full s h;
    cut = cut;
    described = with_chunk_lem sha256 limit bytes full s h;
  }

  empty_of_length : (xs : List ℕ) → length xs ≡ 0 → xs ≡ []
  empty_of_length [] h = refl
  empty_of_length (x ∷ xs) h = ground arith

  -- After the loop no chunk is open: either nothing was read, or the last byte closed a chunk.
  closed-IsManifest :
      (bytes : List ℕ) (full : List (List ℕ)) (s : Stage)
      → 0 < limit
      → s.chunk_size ≡ 0
      → IsStage sha256 limit bytes full s
      → IsManifest bytes (if eqb s.total 0 then with_chunk sha256 limit s else s.chunks)
  closed-IsManifest bytes [] s positive closed h =
      let size = h.size in
      let total = h.total in
      let counted = bytes_counted sha256 limit bytes [] s h in
      let empty : eqb s.total 0 ≡ true = ground arith in
      rw empty (with_chunk-IsManifest bytes [] s h.room h)
  closed-IsManifest bytes (p ∷ ps) s positive closed h =
      let size = h.size in
      let total = h.total in
      let first = h.all_full.0 in
      let counted = bytes_counted sha256 limit bytes (p ∷ ps) s h in
      let split = length-append p (flatten ps) in
      let some_read : eqb s.total 0 ≡ false = ground arith in
      let none_open = empty_of_length s.chunk_bytes (omega arith) in
      rw some_read (record {
        parts = p ∷ ps;
        whole =
            sym (append_nil (flatten (p ∷ ps)))
            ∙ (ap (λ r. flatten (p ∷ ps) ++ r) (sym none_open) ∙ h.taken);
        cut = full-IsCut p ps positive h.all_full;
        described = h.closed;
      })

  pub finish_stage-IsManifest :
      (bytes : List ℕ) (full : List (List ℕ)) (s : Stage)
      → 0 < limit
      → IsStage sha256 limit bytes full s
      → IsManifest bytes (finish_stage sha256 limit s).chunks
  unfolding finish_stage
  finish_stage-IsManifest bytes full s positive h = elim (Bool-cases (ltb 0 s.chunk_size)) [
    | inl some_open ↦
        let size = h.size in
        rw some_open (
          with_chunk-IsManifest bytes full s
            (IsCut-append full s.chunk_bytes positive h.all_full (ground arith) h.room) h)
    | inr closed ↦ rw closed (closed-IsManifest bytes full s positive (ground arith) h)
  ]
