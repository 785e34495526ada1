-- ===== src/Staging/Loop.antt =====
-- distributed-fs/managed_file_service.go: the loop of `stageReader` over the bytes of one read.
use go_infra_lab.Common.{
  ℕ, zero, suc, ◌+◌, ◌^◌, ◌-◌, ◌<◌, ◌≤◌, String, List, [], ◌∷◌, ◌++◌, ◌≡◌, ◌∙◌, refl, ap, sym,
  subst, arith, length, take, drop, length-append, length-take, ltb, if◌then◌else◌,
}
use package.go_infra_lab.Staging.{Stage, take_part, parts_loop, absorb}
use package.go_infra_lab.Staging.Chunks.{append_nil, append_assoc, append-take-drop}
use package.go_infra_lab.Staging.Invariant.{IsStage, with_part, with_part-IsStage, close-IsStage}

module _ (sha256 : List ℕ → String) (limit : ℕ) where
  take_part-IsStage :
      (bytes : List ℕ) (full : List (List ℕ)) (s : Stage) (b : ℕ) (remaining : List ℕ)
      → 0 < limit
      → length bytes + length (b ∷ remaining) < 2 ^ 63
      → s.chunk_size < limit
      → IsStage sha256 limit bytes full s
      → let (rest, s') = take_part sha256 limit (b ∷ remaining) s in
        (part : List ℕ) × (full' : List (List ℕ)) × IsStage sha256 limit (bytes ++ part) full' s'
        × (s'.chunk_size < limit)
        × (s'.file ≡ s.file)
        × (part ++ rest ≡ b ∷ remaining)
        × (length part + length rest ≡ length (b ∷ remaining))
        × (0 < length part)
  unfolding take_part
  take_part-IsStage bytes full s b remaining positive small room h =
      let space =
        if ltb (length (b ∷ remaining)) (limit - s.chunk_size)
        then length (b ∷ remaining)
        else limit - s.chunk_size in
      let part = take space (b ∷ remaining) in
      let cut = append-take-drop space (b ∷ remaining) in
      let sum = sym (ap length cut) ∙ length-append part (drop space (b ∷ remaining)) in
      let taken = length-take space (b ∷ remaining) in
      let at_most : space ≤ limit - s.chunk_size = ground arith in
      let at_least_one : 0 < space = ground arith in
      let one_taken : 0 < length part = omega arith in
      let in_room : s.chunk_size + length part ≤ limit = omega arith in
      let added = with_part-IsStage sha256 limit bytes full s part in_room (omega arith) h in
      let (full', stage, room', kept) =
        close-IsStage sha256 limit (bytes ++ part) full (with_part sha256 limit part s) positive
          (omega (arith, length-append bytes part)) added in
      (part, full', stage, room', kept, cut, sym sum, one_taken)

  parts_loop-IsStage :
      (fuel : ℕ) (bytes : List ℕ) (full : List (List ℕ)) (s : Stage) (remaining : List ℕ)
      → 0 < limit
      → length remaining ≤ fuel
      → length bytes + length remaining < 2 ^ 63
      → s.chunk_size < limit
      → IsStage sha256 limit bytes full s
      → let s' = parts_loop sha256 limit fuel remaining s in
        (full' : List (List ℕ)) × IsStage sha256 limit (bytes ++ remaining) full' s'
        × (s'.chunk_size < limit)
        × (s'.file ≡ s.file)
  unfolding parts_loop
  parts_loop-IsStage fuel bytes full s [] positive enough small room h =
      (full, subst (λ b. IsStage sha256 limit b full s) (sym (append_nil bytes)) h, room, refl)
  parts_loop-IsStage zero bytes full s (b ∷ remaining) positive enough small room h = ground arith
  parts_loop-IsStage (suc fuel) bytes full s (b ∷ remaining) positive enough small room h =
      let (rest, s') = take_part sha256 limit (b ∷ remaining) s in
      let (part, full', stage, room', kept, whole, sum, some_taken) =
        take_part-IsStage bytes full s b remaining positive small room h in
      let (full'', stage', room'', kept') =
        parts_loop-IsStage fuel (bytes ++ part) full' s' rest positive (omega arith)
          (omega (arith, length-append bytes part)) room' stage in
      (
        full'',
        subst (λ b. IsStage sha256 limit b full'' (parts_loop sha256 limit fuel rest s'))
            (append_assoc bytes part rest ∙ ap (λ r. bytes ++ r) whole) stage',
        room'',
        kept' ∙ kept,
      )

  pub absorb-IsStage :
      (full : List (List ℕ)) (s : Stage) (piece : List ℕ)
      → 0 < limit
      → length s.file + length piece < 2 ^ 63
      → s.chunk_size < limit
      → IsStage sha256 limit s.file full s
      → let s' = absorb sha256 limit piece s in
        (full' : List (List ℕ)) × IsStage sha256 limit s'.file full' s'
        × (s'.chunk_size < limit)
        × (s'.file ≡ s.file ++ piece)
  unfolding absorb
  absorb-IsStage full s piece positive small room h =
      let s₁ : Stage = record s { file = s.file ++ piece } in
      let (full', stage, room', kept) =
        parts_loop-IsStage (length piece) s.file full s₁ piece positive (omega arith) small room
          (record {
            taken = h.taken;
            closed = h.closed;
            all_full = h.all_full;
            counted = h.counted;
            size = h.size;
            room = h.room;
            total = h.total;
            index = h.index;
            offset = h.offset;
          }) in
      (
        full',
        subst (λ b. IsStage sha256 limit b full' (absorb sha256 limit piece s)) (sym kept) stage,
        room',
        kept,
      )
