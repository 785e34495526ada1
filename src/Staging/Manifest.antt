-- ===== src/Staging/Manifest.antt =====
-- distributed-fs/managed_file_service.go: what `stageReader` returns, against the bytes that its
-- reader delivers.
use go_infra_lab.Common.{
  ℕ, ◌+◌, ◌^◌, ◌<◌, String, none, List, [], ◌∷◌, ◌++◌, ◌≡◌, ◌∙◌, refl, ap, sym, subst, arith, All,
  length, map, length-append,
}
use go_infra_lab.Action.{Error, ok, err}
use go_infra_lab.Metadata.{ChunkMetadata}
use package.go_infra_lab.Staging.{
  Reader, more, eof, read_failed, TempFiles, Stage, Staged, empty_stage, absorb, finish_stage,
  absorb_read, read_loop, stage_reader,
}
use package.go_infra_lab.Staging.Chunks.{
  append_nil, append_assoc, flatten, slice, describe, slices-describe, IsSlice, describe-IsSlice,
}
use package.go_infra_lab.Staging.Delivery.{delivered, delivered_more, ok_inj}
use package.go_infra_lab.Staging.Invariant.{IsStage}
use package.go_infra_lab.Staging.Loop.{absorb-IsStage}
use package.go_infra_lab.Staging.Finish.{IsManifest, finish_stage-IsManifest}

pub slices-IsManifest :
    (sha256 : List ℕ → String) (limit : ℕ) (bytes : List ℕ) (chunks : List ChunkMetadata)
    → IsManifest sha256 limit bytes chunks
    → (flatten (map (slice bytes) chunks) ≡ bytes) × All (IsSlice sha256 bytes) chunks
slices-IsManifest sha256 limit bytes chunks m =
    let slices : map (slice bytes) (describe sha256 0 0 m.parts) ≡ m.parts =
      subst (λ b. map (slice b) (describe sha256 0 0 m.parts) ≡ m.parts) m.whole
        (slices-describe sha256 m.parts 0 []) in
    let checks : All (IsSlice sha256 bytes) (describe sha256 0 0 m.parts) =
      subst (λ b. All (IsSlice sha256 b) (describe sha256 0 0 m.parts)) m.whole
        (describe-IsSlice sha256 m.parts 0 []) in
    (
      subst (λ cs. flatten (map (slice bytes) cs) ≡ bytes) (sym m.described)
          (ap flatten slices ∙ m.whole),
      subst (All (IsSlice sha256 bytes)) (sym m.described) checks,
    )

-- What staging `bytes` returns.
abbrev pub IsStaged : (List ℕ → String) → ℕ → List ℕ → Staged → Type 0
IsStaged sha256 limit bytes staged =
    (staged.file ≡ bytes)
    × (staged.size ≡ length bytes)
    × (staged.checksum ≡ sha256 bytes)
    × IsManifest sha256 limit bytes staged.chunks

module _ (sha256 : List ℕ → String) (limit : ℕ) (temp : TempFiles)
    (creates : temp.create_error ≡ none)
    (writes : (file piece : List ℕ) → temp.write_error file piece ≡ none) where
  absorb_read-IsStage :
      (full : List (List ℕ)) (s : Stage) (piece : List ℕ)
      → 0 < limit
      → length s.file + length piece < 2 ^ 63
      → s.chunk_size < limit
      → IsStage sha256 limit s.file full s
      → (s' : Stage) × (full' : List (List ℕ)) × (absorb_read sha256 limit temp piece s ≡ ok s')
        × IsStage sha256 limit s'.file full' s'
        × (s'.chunk_size < limit)
        × (s'.file ≡ s.file ++ piece)
  unfolding absorb_read
  absorb_read-IsStage full s [] positive small room h =
      (s, full, refl, h, room, sym (append_nil s.file))
  absorb_read-IsStage full s (b ∷ piece) positive small room h =
      let (full', stage, room', kept) =
        absorb-IsStage sha256 limit full s (b ∷ piece) positive small room h in
      (
        absorb sha256 limit (b ∷ piece) s,
        full',
        ground (arith, writes s.file (b ∷ piece)),
        stage,
        room',
        kept,
      )

  finished-IsStaged :
      (bytes : List ℕ) (full : List (List ℕ)) (s : Stage)
      → 0 < limit
      → s.file ≡ bytes
      → IsStage sha256 limit s.file full s
      → IsStaged sha256 limit bytes (finish_stage sha256 limit s)
  unfolding finish_stage
  finished-IsStaged bytes full s positive same h =
      subst (λ b. IsStaged sha256 limit b (finish_stage sha256 limit s)) same
        (refl, h.total, refl, finish_stage-IsManifest sha256 limit s.file full s positive h)

  read_loop-IsStaged :
      (reads : Reader) (bytes : List ℕ) (full : List (List ℕ)) (s : Stage)
      → 0 < limit
      → delivered reads ≡ ok bytes
      → length s.file + length bytes < 2 ^ 63
      → s.chunk_size < limit
      → IsStage sha256 limit s.file full s
      → (staged : Staged) × (read_loop sha256 limit temp reads s ≡ ok staged)
        × IsStaged sha256 limit (s.file ++ bytes) staged
  unfolding read_loop
  read_loop-IsStaged [] bytes full s positive delivers small room h = (
    finish_stage sha256 limit s,
    refl,
    finished-IsStaged (s.file ++ bytes) full s positive
        (sym (append_nil s.file) ∙ ap (λ r. s.file ++ r) (ok_inj delivers)) h,
  )
  read_loop-IsStaged ((piece, eof) ∷ reads) bytes full s positive delivers small room h =
      let same : piece ≡ bytes = ok_inj delivers in
      let (s', full', read, stage, room', kept) =
        absorb_read-IsStage full s piece positive (omega (arith, ap length same)) room h in
      (
        finish_stage sha256 limit s',
        ground (arith, read),
        finished-IsStaged (s.file ++ bytes) full' s' positive (kept ∙ ap (λ r. s.file ++ r) same)
            stage,
      )
  read_loop-IsStaged ((piece, read_failed e) ∷ reads) bytes full s positive delivers small room h =
      cc
  read_loop-IsStaged ((piece, more) ∷ reads) bytes full s positive delivers small room h =
      let (rest, delivers', whole) = delivered_more piece reads bytes delivers in
      let sum = sym (ap length whole) ∙ length-append piece rest in
      let (s', full', read, stage, room', kept) =
        absorb_read-IsStage full s piece positive (omega arith) room h in
      let sum' = ap length kept ∙ length-append s.file piece in
      let (staged, result, ok_staged) =
        read_loop-IsStaged reads rest full' s' positive delivers' (omega arith) room' stage in
      (
        staged,
        ground (arith, read, result),
        subst (λ b. IsStaged sha256 limit b staged)
            (ap (λ f. f ++ rest) kept
              ∙ (append_assoc s.file piece rest ∙ ap (λ r. s.file ++ r) whole))
            ok_staged,
      )

  start-IsStage : IsStage sha256 limit [] [] empty_stage
  start-IsStage = record {
    taken = refl;
    closed = refl;
    all_full = tt;
    counted = omega arith;
    size = refl;
    room = omega arith;
    total = refl;
    index = refl;
    offset = refl;
  }

  -- If the temporary file can be created and written, and the reader delivers fewer than 2 ^ 63
  -- bytes before its end, in reads of whatever length, then `stageReader` succeeds: the file holds
  -- these bytes, with their size and checksum, and the manifest describes a cut of them into parts
  -- of the chunk size, of which only the last may be shorter.
  pub stage_reader_lem :
      (reads : Reader) (bytes : List ℕ)
      → 0 < limit
      → delivered reads ≡ ok bytes
      → length bytes < 2 ^ 63
      → (staged : Staged) × (stage_reader sha256 limit temp reads ≡ ok staged)
        × IsStaged sha256 limit bytes staged
  unfolding stage_reader
  stage_reader_lem reads bytes positive delivers small =
      let (staged, result, ok_staged) =
        read_loop-IsStaged reads bytes [] empty_stage positive delivers (omega arith) positive
          start-IsStage in
      (staged, ground (arith, creates, result), ok_staged)

  read_loop_failed :
      (reads : Reader) (e : Error) (s : Stage)
      → delivered reads ≡ err e
      → read_loop sha256 limit temp reads s ≡ err e
  unfolding read_loop absorb_read
  read_loop_failed [] e s fails = cc
  read_loop_failed (([], eof) ∷ reads) e s fails = cc
  read_loop_failed ((b ∷ piece, eof) ∷ reads) e s fails = cc
  read_loop_failed (([], read_failed e') ∷ reads) e s fails = ground arith
  read_loop_failed ((b ∷ piece, read_failed e') ∷ reads) e s fails =
      ground (arith, writes s.file (b ∷ piece))
  read_loop_failed (([], more) ∷ reads) e s fails = ground (arith, read_loop_failed reads e s)
  read_loop_failed ((b ∷ piece, more) ∷ reads) e s fails = ground (
    arith,
    writes s.file (b ∷ piece),
    read_loop_failed reads e (absorb sha256 limit (b ∷ piece) s),
  )

  -- With a temporary file that can be created and written, an error of the reader before its end is
  -- what `stageReader` returns, however much was read before.
  pub stage_reader_failed :
      (reads : Reader) (e : Error)
      → delivered reads ≡ err e
      → stage_reader sha256 limit temp reads ≡ err e
  unfolding stage_reader
  stage_reader_failed reads e fails =
      ground (arith, creates, read_loop_failed reads e empty_stage fails)

  -- Under the conditions of a successful staging, the manifest suffices to send the file in
  -- pieces and to check them: the slices of the file that the chunks name are the file in
  -- order, and each has the size and the checksum that its chunk records.
  pub slices-stage_reader :
      (reads : Reader) (bytes : List ℕ)
      → 0 < limit
      → delivered reads ≡ ok bytes
      → length bytes < 2 ^ 63
      → (staged : Staged) × (stage_reader sha256 limit temp reads ≡ ok staged)
        × (flatten (map (slice staged.file) staged.chunks) ≡ staged.file)
        × All (IsSlice sha256 staged.file) staged.chunks
  slices-stage_reader reads bytes positive delivers small =
      let (staged, result, (same, size, checksum, manifest)) =
        stage_reader_lem reads bytes positive delivers small in
      let (whole, checks) = slices-IsManifest sha256 limit bytes staged.chunks manifest in
      (
        staged,
        result,
        subst (λ b. flatten (map (slice b) staged.chunks) ≡ b) (sym same) whole,
        subst (λ b. All (IsSlice sha256 b) staged.chunks) (sym same) checks,
      )
