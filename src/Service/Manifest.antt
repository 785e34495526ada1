-- ===== src/Service/Manifest.antt =====
-- distributed-fs/managed_file_service.go: what the service needs to know of a manifest to write its
-- chunks.
use go_infra_lab.Common.{
  ℕ, suc, ◌+◌, ◌^◌, ◌<◌, ◌≤◌, ◌≡◌, refl, sym, ap, subst, arith, String, List, [], ◌∷◌, length,
  length-append,
}
use go_infra_lab.Metadata.{ChunkMetadata}
use go_infra_lab.Staging.Chunks.{flatten, describe, IsCut}
use go_infra_lab.Staging.Finish.{IsManifest}
use package.go_infra_lab.Service.Storage.Writing.{IsNumbered}

describe-IsNumbered :
    (sha256 : List ℕ → String) (i o : ℕ) (parts : List (List ℕ))
    → IsNumbered i (describe sha256 i o parts)
describe-IsNumbered sha256 i o [] = tt
describe-IsNumbered sha256 i o (p ∷ ps) =
    (refl, describe-IsNumbered sha256 (suc i) (o + length p) ps)

length-describe :
    (sha256 : List ℕ → String) (i o : ℕ) (parts : List (List ℕ))
    → length (describe sha256 i o parts) ≡ length parts
length-describe sha256 i o [] = refl
length-describe sha256 i o (p ∷ ps) = ap suc (length-describe sha256 (suc i) (o + length p) ps)

-- A cut has at least one part, and at most one more than bytes.
length-IsCut :
    (limit : ℕ) (parts : List (List ℕ))
    → 0 < limit
    → IsCut limit parts
    → (0 < length parts) × (length parts ≤ suc (length (flatten parts)))
length-IsCut limit [] positive cut = absurd cut
length-IsCut limit (p ∷ []) positive cut = omega arith
length-IsCut limit (p ∷ q ∷ ps) positive cut =
    omega
      (arith, cut.0, length-append p (flatten (q ∷ ps)), length-IsCut limit (q ∷ ps) positive cut.2)

-- The manifest of a short file: its chunks are numbered, there is one, and they are not too many.
pub manifest-IsNumbered :
    (sha256 : List ℕ → String) (limit : ℕ) (bytes : List ℕ) (chunks : List ChunkMetadata)
    → 0 < limit
    → length bytes < 2 ^ 63
    → IsManifest sha256 limit bytes chunks
    → IsNumbered 0 chunks × (0 < length chunks) × (length chunks < 2 ^ 64)
manifest-IsNumbered sha256 limit bytes chunks positive small m =
    let sizes = length-IsCut limit m.parts positive m.cut in
    let count = length-describe sha256 0 0 m.parts in
    let whole = ap length m.whole in
    subst (λ cs. IsNumbered 0 cs × (0 < length cs) × (length cs < 2 ^ 64)) (sym m.described)
      (describe-IsNumbered sha256 0 0 m.parts, omega arith, omega arith)
