-- ===== src/Staging/Chunks.antt =====
-- distributed-fs/managed_file_service.go: the manifest that a list of parts has, and how a list of
-- bytes is cut into parts.
use go_infra_lab.Common.{
  ℕ, zero, suc, ◌+◌, ◌<◌, ◌≤◌, String, List, [], ◌∷◌, ◌++◌, ◌≡◌, ◌∙◌, refl, ap, sym, subst, arith,
  All, length, take, drop, map, length-append,
}
use go_infra_lab.Metadata.{ChunkMetadata}

abbrev pub flatten {ℓ} : {A : Type ℓ} → List (List A) → List A
flatten [] = []
flatten (p ∷ ps) = p ++ flatten ps

module _ {ℓ} {A : Type ℓ} where
  pub append_nil : (xs : List A) → xs ++ [] ≡ xs
  append_nil [] = refl
  append_nil (x ∷ xs) = ap (λ r. x ∷ r) (append_nil xs)

  pub append_assoc : (xs ys zs : List A) → (xs ++ ys) ++ zs ≡ xs ++ (ys ++ zs)
  append_assoc [] ys zs = refl
  append_assoc (x ∷ xs) ys zs = ap (λ r. x ∷ r) (append_assoc xs ys zs)

  pub flatten-append : (ps qs : List (List A)) → flatten (ps ++ qs) ≡ flatten ps ++ flatten qs
  flatten-append [] qs = refl
  flatten-append (p ∷ ps) qs =
      ap (λ r. p ++ r) (flatten-append ps qs) ∙ sym (append_assoc p (flatten ps) (flatten qs))

  pub append-take-drop : (n : ℕ) (xs : List A) → take n xs ++ drop n xs ≡ xs
  append-take-drop zero xs = refl
  append-take-drop (suc n) [] = refl
  append-take-drop (suc n) (x ∷ xs) = ap (λ r. x ∷ r) (append-take-drop n xs)

  pub take-append : (xs ys : List A) → take (length xs) (xs ++ ys) ≡ xs
  take-append [] [] = refl
  take-append [] (y ∷ ys) = refl
  take-append (x ∷ xs) ys = ap (λ r. x ∷ r) (take-append xs ys)

  pub drop-append : (xs ys : List A) → drop (length xs) (xs ++ ys) ≡ ys
  drop-append [] ys = refl
  drop-append (x ∷ xs) ys = drop-append xs ys

-- The bytes that a chunk of a manifest stands for.
abbrev pub slice : List ℕ → ChunkMetadata → List ℕ
slice file chunk = take chunk.size (drop chunk.offset file)

module _ (sha256 : List ℕ → String) where
  abbrev pub chunk_of : ℕ → ℕ → List ℕ → ChunkMetadata
  chunk_of index offset part = record {
    index = index;
    offset = offset;
    size = length part;
    checksum = sha256 part;
  }

  -- The manifest of parts that follow each other.
  abbrev pub describe : ℕ → ℕ → List (List ℕ) → List ChunkMetadata
  describe index offset [] = []
  describe index offset (part ∷ parts) =
      chunk_of index offset part ∷ describe (suc index) (offset + length part) parts

  pub describe-append :
      (i o : ℕ) (ps : List (List ℕ)) (p : List ℕ)
      → describe i o (ps ++ p ∷ [])
        ≡ describe i o ps ++ chunk_of (i + length ps) (o + length (flatten ps)) p ∷ []
  describe-append i o [] p = ground arith
  describe-append i o (q ∷ ps) p =
      let index : suc i + length ps ≡ i + suc (length ps) = omega arith in
      let offset : (o + length q) + length (flatten ps) ≡ o + length (q ++ flatten ps) =
        omega (arith, length-append q (flatten ps)) in
      rw (describe-append (suc i) (o + length q) ps p, index, offset) refl

  -- Each chunk of the manifest stands for its part.
  pub slices-describe :
      (ps : List (List ℕ)) (i : ℕ) (before : List ℕ)
      → map (slice (before ++ flatten ps)) (describe i (length before) ps) ≡ ps
  slices-describe [] i before = refl
  slices-describe (p ∷ ps) i before =
      let rest = slices-describe ps (suc i) (before ++ p) in
      let rest' =
        subst (λ n. map (slice ((before ++ p) ++ flatten ps)) (describe (suc i) n ps) ≡ ps)
          (length-append before p) rest in
      let rest'' =
        subst (λ w. map (slice w) (describe (suc i) (length before + length p) ps) ≡ ps)
          (append_assoc before p (flatten ps)) rest' in
      rw (rest'', drop-append before (p ++ flatten ps), take-append p (flatten ps)) refl

-- A chunk describes the bytes that it stands for.
abbrev pub IsSlice : (List ℕ → String) → List ℕ → ChunkMetadata → Type 0
IsSlice sha256 file chunk =
    (length (slice file chunk) ≡ chunk.size) × (sha256 (slice file chunk) ≡ chunk.checksum)

pub describe-IsSlice :
    (sha256 : List ℕ → String) (ps : List (List ℕ)) (i : ℕ) (before : List ℕ)
    → All (IsSlice sha256 (before ++ flatten ps)) (describe sha256 i (length before) ps)
describe-IsSlice sha256 [] i before = tt
describe-IsSlice sha256 (p ∷ ps) i before =
    let here : slice (before ++ (p ++ flatten ps)) (chunk_of sha256 i (length before) p) ≡ p =
      rw (drop-append before (p ++ flatten ps), take-append p (flatten ps)) refl in
    let rest = describe-IsSlice sha256 ps (suc i) (before ++ p) in
    let rest' =
      subst (λ n. All (IsSlice sha256 ((before ++ p) ++ flatten ps)) (describe sha256 (suc i) n ps))
        (length-append before p) rest in
    let rest'' =
      subst (λ w. All (IsSlice sha256 w) (describe sha256 (suc i) (length before + length p) ps))
        (append_assoc before p (flatten ps)) rest' in
    ((ap length here, ap sha256 here), rest'')

-- Every part but the last has `limit` bytes, and the last is not longer; only the sole part may be
-- empty.
abbrev pub IsCut : ℕ → List (List ℕ) → Type 0
IsCut limit [] = ⊥
IsCut limit (p ∷ []) = length p ≤ limit
IsCut limit (p ∷ q ∷ ps) = (length p ≡ limit) × (0 < length q) × IsCut limit (q ∷ ps)
