-- ===== src/Staging.antt =====
-- distributed-fs/managed_file_service.go: `stageReader`, which copies a stream to a temporary file
-- and builds the manifest of its chunks. The chunk size is a parameter, 4 MiB in the program; the
-- checksum function and the errors of the temporary file are parameters too.
pub mod Chunks
pub mod Invariant
pub mod Loop
pub mod Finish
pub mod Delivery
pub mod Manifest
use go_infra_lab.Common.{
  ℕ, zero, suc, ◌+◌, ◌-◌, ◌*◌, ◌%◌, ◌^◌, String, Option, none, some, List, [], ◌∷◌, ◌++◌, ◌||◌,
  if◌then◌else◌, ltb, eqb, length, take, drop,
}
use go_infra_lab.Action.{Error, Result, ok, err}
use go_infra_lab.Metadata.{ChunkMetadata}

abbrev pub default_chunk_size : ℕ
default_chunk_size = 4 * 1024 * 1024

-- What one `Read` returns beside its bytes.
pub data ReadStatus : Type 0 where
  more eof : ReadStatus
  read_failed : Error → ReadStatus

-- An `io.Reader`: the answers of its reads in order. After the last it answers EOF with no bytes.
abbrev pub Reader : Type 0
Reader = List (List ℕ × ReadStatus)

-- The errors of `os.CreateTemp`, and of writing a piece behind what the file holds.
pub record TempFiles : Type 0 where
  pub create_error : Option Error
  pub write_error : List ℕ → List ℕ → Option Error

-- The variables of `stageReader`. A hash is the list of the bytes written to it; `file` is also
-- what `h` has seen.
pub record Stage : Type 0 where
  pub file : List ℕ
  pub chunk_bytes : List ℕ
  pub chunks : List ChunkMetadata
  pub total : ℕ
  pub chunk_size : ℕ
  pub chunk_index : ℕ
  pub chunk_offset : ℕ

pub record Staged : Type 0 where
  pub file : List ℕ
  pub size : ℕ
  pub checksum : String
  pub chunks : List ChunkMetadata

abbrev pub empty_stage : Stage
empty_stage = record {
  file = [];
  chunk_bytes = [];
  chunks = [];
  total = 0;
  chunk_size = 0;
  chunk_index = 0;
  chunk_offset = 0;
}

-- `a + b` of an int64 that is not negative, as the bit pattern.
abbrev pub add64 : ℕ → ℕ → ℕ
add64 a b = (a + b) % 2 ^ 64

module _ (sha256 : List ℕ → String) (limit : ℕ) where
  -- `chunks = append(chunks, ChunkMetadata{…})`
  abbrev pub with_chunk : Stage → List ChunkMetadata
  with_chunk s =
      let chunk : ChunkMetadata = record {
        index = s.chunk_index;
        offset = s.chunk_offset;
        size = s.chunk_size;
        checksum = sha256 s.chunk_bytes;
      } in
      s.chunks ++ chunk ∷ []

  -- `if chunkSize == defaultChunkSize { … }`
  unfoldable pub close_full_chunk : Stage → Stage
  close_full_chunk s =
      if eqb s.chunk_size limit
      then record s {
        chunks = with_chunk s;
        chunk_index = add64 s.chunk_index 1;
        chunk_offset = s.total;
        chunk_size = 0;
        chunk_bytes = [];
      }
      else s

  -- One round of the loop over `remaining`, and what is left of it.
  unfoldable pub take_part : List ℕ → Stage → List ℕ × Stage
  unfolding close_full_chunk
  take_part remaining s =
      let room = limit - s.chunk_size in
      let space = if ltb (length remaining) room then length remaining else room in
      let part = take space remaining in
      (
        drop space remaining,
        close_full_chunk (record s {
          chunk_bytes = s.chunk_bytes ++ part;
          chunk_size = add64 s.chunk_size (length part);
          total = add64 s.total (length part);
        }),
      )

  -- The loop over `remaining`; its rounds are at most the bytes of one read.
  unfoldable pub parts_loop : ℕ → List ℕ → Stage → Stage
  parts_loop fuel [] s = s
  parts_loop zero (b ∷ remaining) s = s
  parts_loop (suc fuel) (b ∷ remaining) s =
      let (rest, s') = take_part (b ∷ remaining) s in parts_loop fuel rest s'

  -- What one read that brought bytes does.
  unfoldable pub absorb : List ℕ → Stage → Stage
  unfolding parts_loop take_part
  absorb piece s = parts_loop (length piece) piece (record s { file = s.file ++ piece })

  -- After the loop: the last chunk, also of an empty stream.
  unfoldable pub finish_stage : Stage → Staged
  finish_stage s = record {
    file = s.file;
    size = s.total;
    checksum = sha256 s.file;
    chunks = if ltb 0 s.chunk_size || eqb s.total 0 then with_chunk s else s.chunks;
  }

  module _ (temp : TempFiles) where
    -- `if n > 0 { … }`
    unfoldable pub absorb_read : List ℕ → Stage → Result Stage
    absorb_read [] s = ok s
    absorb_read (b ∷ piece) s = elim (temp.write_error s.file (b ∷ piece)) [
      | some e ↦ err e
      | none ↦ ok (absorb (b ∷ piece) s)
    ]

    unfoldable pub read_loop : Reader → Stage → Result Staged
    unfolding absorb_read
    read_loop [] s = ok (finish_stage s)
    read_loop ((piece, status) ∷ reads) s = elim (absorb_read piece s) [
      | err e ↦ err e
      | ok s' ↦ elim status [
        | more ↦ read_loop reads s'
        | eof ↦ ok (finish_stage s')
        | read_failed e ↦ err e
      ]
    ]

    unfoldable pub stage_reader : Reader → Result Staged
    stage_reader reads = elim temp.create_error [
      | some e ↦ err e
      | none ↦ read_loop reads empty_stage
    ]
