-- ===== src/Tests/Paths.antt =====
-- The directory of a path, as the text before its last slash.
use Prim.Native.Char.{Char}
use Prim.Native.String.{String, [], ◌∷◌, len, compare}
use Prim.Native.String.len as len_laws
use Prim.Native.String.slice as slice_laws
use text.Mathlib.Text.{starts_with, is_eq, ◌==◌}
use text.Mathlib.TextPositions.{len_utf8-pos}
use go_infra_lab.Common.{
  ◌<◌, Bool, true, false, ◌≡◌, ap, arith, ◌||◌, if◌then◌else◌, Bool-cases, inl, inr,
}

unfoldable pub has_slash : String → Bool
has_slash [] = false
has_slash (c ∷ s) = ((c ∷ []) == "/") || has_slash s

-- A path without its last part.
unfoldable pub dir_of : String → String
unfolding has_slash
dir_of [] = ""
dir_of (c ∷ s) = let rest = dir_of s in if has_slash s then c ∷ rest else ""

dir_of_cons : (c : Char) (s : String) → len (dir_of (c ∷ s)) < len (c ∷ s)
unfolding dir_of has_slash
dir_of_cons c [] = omega (arith, len_laws.cons c [], (len_utf8-pos c).1)
dir_of_cons c (d ∷ s) = elim (Bool-cases (has_slash (d ∷ s))) [
  | inl deeper ↦
      rw deeper
        (omega (arith, dir_of_cons d s, len_laws.cons c (dir_of (d ∷ s)), len_laws.cons c (d ∷ s)))
  | inr last ↦ rw last (omega (arith, len_laws.cons c (d ∷ s), (len_utf8-pos c).1))
]

pub dir_of_shorter :
    (p stop : String)
    → (stop == "") ≡ false
    → starts_with p stop ≡ true
    → (p == stop) ≡ false
    → len (dir_of p) < len p
dir_of_shorter [] stop rooted inside apart =
    let same : starts_with [] stop ≡ ([] == stop) =
      ap (λ t. is_eq (compare t stop)) (slice_laws.nil 0 (len stop)) in
    ground (arith, same, inside, apart)
dir_of_shorter (c ∷ s) stop rooted inside apart = dir_of_cons c s
