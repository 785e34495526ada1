-- ===== src/Tests/OfStaging.antt =====
-- The staging theorems on a short stream, with a chunk size of 4.
use go_infra_lab.Common.{ℕ, String, none, List, [], ◌∷◌, ◌≡◌, refl, arith, length, show_uint64}
use go_infra_lab.Action.{ok, err, other}
use go_infra_lab.Staging.{Reader, TempFiles, Staged, more, eof, read_failed, stage_reader}
use go_infra_lab.Staging.Manifest.{IsStaged, stage_reader_lem, stage_reader_failed}

abbrev temp : TempFiles
temp = record { create_error = none; write_error = λ file piece. none }

-- A stand-in for a checksum.
abbrev sum : List ℕ → String
sum bytes = show_uint64 (length bytes)

-- Ten bytes in three reads.
abbrev reads : Reader
reads = (1 ∷ 2 ∷ 3 ∷ [], more) ∷ (4 ∷ 5 ∷ 6 ∷ 7 ∷ 8 ∷ 9 ∷ [], more) ∷ (10 ∷ [], eof) ∷ []

abbrev bytes : List ℕ
bytes = 1 ∷ 2 ∷ 3 ∷ 4 ∷ 5 ∷ 6 ∷ 7 ∷ 8 ∷ 9 ∷ 10 ∷ []

stage_reader_lem_example :
    (staged : Staged) × (stage_reader sum 4 temp reads ≡ ok staged) × IsStaged sum 4 bytes staged
stage_reader_lem_example =
    stage_reader_lem sum 4 temp refl (λ file piece. refl) reads bytes (omega arith) refl
      (omega arith)

abbrev broken : Reader
broken = (1 ∷ 2 ∷ 3 ∷ [], more) ∷ (4 ∷ [], read_failed (other "connection reset")) ∷ []

stage_reader_failed_example : stage_reader sum 4 temp broken ≡ err (other "connection reset")
stage_reader_failed_example =
    stage_reader_failed sum 4 temp refl (λ file piece. refl) broken (other "connection reset") refl
