-- ===== src/Staging/Invariant.antt =====
-- distributed-fs/managed_file_service.go: the variables of `stageReader` against the bytes read so
-- far.
use go_infra_lab.Common.{
  ℕ, ◌+◌, ◌^◌, ◌<◌, ◌≤◌, String, List, [], ◌∷◌, ◌++◌, ◌≡◌, ◌∙◌, refl, ap, sym, arith, All,
  All-append, length, length-append, eqb, Bool-cases, inl, inr,
}
use package.go_infra_lab.Staging.{Stage, add64, close_full_chunk, with_chunk}
use package.go_infra_lab.Staging.Chunks.{
  flatten, append_nil, append_assoc, flatten-append, describe, describe-append,
}

add64_exact : (a b : ℕ) → a + b < 2 ^ 64 → add64 a b ≡ a + b
add64_exact a b h = omega arith

module _ (sha256 : List ℕ → String) (limit : ℕ) where
  -- A stage that has taken in `bytes`: `full` are the parts closed so far.
  pub record IsStage (bytes : List ℕ) (full : List (List ℕ)) (s : Stage) : Type 0 where
    pub taken : flatten full ++ s.chunk_bytes ≡ bytes
    pub closed : s.chunks ≡ describe sha256 0 0 full
    pub all_full : All (λ p. length p ≡ limit) full
    pub counted : length full ≤ length (flatten full)
    pub size : s.chunk_size ≡ length s.chunk_bytes
    pub room : length s.chunk_bytes ≤ limit
    pub total : s.total ≡ length bytes
    pub index : s.chunk_index ≡ length full
    pub offset : s.chunk_offset ≡ length (flatten full)

  pub bytes_counted :
      (bytes : List ℕ) (full : List (List ℕ)) (s : Stage)
      → IsStage bytes full s
      → length bytes ≡ length (flatten full) + length s.chunk_bytes
  bytes_counted bytes full s h =
      sym (ap length h.taken) ∙ length-append (flatten full) s.chunk_bytes

  abbrev pub with_part : List ℕ → Stage → Stage
  with_part part s = record s {
    chunk_bytes = s.chunk_bytes ++ part;
    chunk_size = add64 s.chunk_size (length part);
    total = add64 s.total (length part);
  }

  pub with_part-IsStage :
      (bytes : List ℕ) (full : List (List ℕ)) (s : Stage) (part : List ℕ)
      → s.chunk_size + length part ≤ limit
      → length bytes + length part < 2 ^ 63
      → IsStage bytes full s
      → IsStage (bytes ++ part) full (with_part part s)
  with_part-IsStage bytes full s part fits small h =
      let counted = bytes_counted bytes full s h in
      let size_eq = h.size in
      let total_eq = h.total in
      record {
        taken = sym (append_assoc (flatten full) s.chunk_bytes part) ∙ ap (λ r. r ++ part) h.taken;
        closed = h.closed;
        all_full = h.all_full;
        counted = h.counted;
        size =
            add64_exact s.chunk_size (length part) (omega arith)
            ∙ omega (arith, length-append s.chunk_bytes part);
        room = omega (arith, length-append s.chunk_bytes part);
        total =
            add64_exact s.total (length part) (omega arith)
            ∙ omega (arith, length-append bytes part);
        index = h.index;
        offset = h.offset;
      }

  pub with_chunk_whole :
      (bytes : List ℕ) (full : List (List ℕ)) (s : Stage)
      → IsStage bytes full s
      → flatten (full ++ s.chunk_bytes ∷ []) ≡ bytes
  with_chunk_whole bytes full s h =
      flatten-append full (s.chunk_bytes ∷ [])
      ∙ (ap (λ r. flatten full ++ r) (append_nil s.chunk_bytes) ∙ h.taken)

  pub with_chunk_lem :
      (bytes : List ℕ) (full : List (List ℕ)) (s : Stage)
      → IsStage bytes full s
      → with_chunk sha256 limit s ≡ describe sha256 0 0 (full ++ s.chunk_bytes ∷ [])
  with_chunk_lem bytes full s h =
      let index : 0 + length full ≡ length full = omega arith in
      let offset : 0 + length (flatten full) ≡ length (flatten full) = omega arith in
      rw
        (
          h.index,
          h.offset,
          h.size,
          h.closed,
          describe-append sha256 0 0 full s.chunk_bytes,
          index,
          offset,
        )
        refl

  reached-IsStage :
      (bytes : List ℕ) (full : List (List ℕ)) (s : Stage)
      → 0 < limit
      → length bytes < 2 ^ 63
      → s.chunk_size ≡ limit
      → IsStage bytes full s
      → IsStage bytes (full ++ s.chunk_bytes ∷ []) (record s {
        chunks = with_chunk sha256 limit s;
        chunk_index = add64 s.chunk_index 1;
        chunk_offset = s.total;
        chunk_size = 0;
        chunk_bytes = [];
      })
  reached-IsStage bytes full s positive small reached h =
      let cb = s.chunk_bytes in
      let flat = with_chunk_whole bytes full s h in
      let all = bytes_counted bytes full s h in
      let more_parts = length-append full (cb ∷ []) in
      let size = h.size in
      let index = h.index in
      let few = h.counted in
      record {
        taken = append_nil _ ∙ flat;
        closed = with_chunk_lem bytes full s h;
        all_full = All-append _ full (cb ∷ []) h.all_full (omega arith, tt);
        counted = omega (arith, ap length flat);
        size = refl;
        room = omega arith;
        total = h.total;
        index = add64_exact s.chunk_index 1 (omega arith) ∙ omega arith;
        offset = h.total ∙ sym (ap length flat);
      }

  pub close-IsStage :
      (bytes : List ℕ) (full : List (List ℕ)) (s : Stage)
      → 0 < limit
      → length bytes < 2 ^ 63
      → IsStage bytes full s
      → (full' : List (List ℕ)) × IsStage bytes full' (close_full_chunk sha256 limit s)
        × ((close_full_chunk sha256 limit s).chunk_size < limit)
        × ((close_full_chunk sha256 limit s).file ≡ s.file)
  unfolding close_full_chunk
  close-IsStage bytes full s positive small h = elim (Bool-cases (eqb s.chunk_size limit)) [
    | inr short ↦ rw short (full, h, ground arith, refl)
    | inl reached ↦ rw reached (
      full ++ s.chunk_bytes ∷ [],
      reached-IsStage bytes full s positive small (ground arith) h,
      positive,
      refl,
    )
  ]
