-- ===== src/Common/Texts.antt =====
-- The order of Go strings, which compares bytes, on texts by their code points, and `%d`.
use Prim.Native.Nat.{ℕ, zero, suc, ◌+◌, ◌/◌, ◌%◌, Ordering}
use Prim.Native.Char.{Char, code}
use Prim.Native.String.compare as cmp
use Prim.Native.String.{String, [], ◌∷◌, ◌++◌, compare, slice}
use mathlib.Core.Path.{◌≡◌, refl, ap₂}
use mathlib.Core.Bool.{Bool, true, false}
use native.Mathlib.Omega.{arith}
use text.Mathlib.TextEquality
use text.Mathlib.TextPositions
use go_infra_lab.Common.Tests.{ltb, eqb, if◌then◌else◌}

-- `a < b`
unfoldable pub str_lt : String → String → Bool
str_lt a b = elim (compare a b) [ Ordering.lt ↦ true | _ ↦ false ]

-- `fmt.Sprintf("%d", n)`, for numbers of at most `fuel` digits.
unfoldable pub decimal : ℕ → ℕ → String
decimal zero n = ""
decimal (suc fuel) n =
    let rest = decimal fuel (n / 10) ++ slice "0123456789" (n % 10) (n % 10 + 1) in
    if ltb n 10 then slice "0123456789" n (n + 1) else rest

-- A uint64 has at most twenty digits.
unfoldable pub show_uint64 : ℕ → String
unfolding decimal
show_uint64 = decimal 20

show_uint64_test : show_uint64 9074 ≡ "9074"
unfolding show_uint64
show_uint64_test = refl

str_lt_cons :
    (c d : Char) (s t : String)
    → str_lt (c ∷ s) (d ∷ t) ≡ (
        if ltb (code c) (code d) then true else if eqb (code c) (code d) then str_lt s t else false)
unfolding str_lt
str_lt_cons c d s t = ground (arith, cmp.cons-cons c d s t)

str_lt_nil : (d : Char) (t : String) → str_lt [] (d ∷ t) ≡ true
unfolding str_lt
str_lt_nil d t = rw (cmp.nil-cons d t, str_lt)

not_lt_nil : (s : String) → str_lt s [] ≡ false
unfolding str_lt
not_lt_nil [] = refl
not_lt_nil (c ∷ s) = rw (cmp.cons-nil c s, str_lt)

pub str_lt_irrefl : (a : String) → str_lt a a ≡ false
unfolding str_lt
str_lt_irrefl a = rw (TextPositions.compare_refl a, str_lt)

-- No text is below one that is below it.
pub str_lt_asym : (a b : String) → str_lt a b ≡ true → str_lt b a ≡ false
str_lt_asym [] b h = not_lt_nil b
str_lt_asym (c ∷ s) [] h = cc (not_lt_nil (c ∷ s))
str_lt_asym (c ∷ s) (d ∷ t) h =
    ground (arith, str_lt_cons c d s t, str_lt_cons d c t s, str_lt_asym s t)

-- "Not below" is transitive.
pub not_lt_trans : (a b c : String) → str_lt b a ≡ false → str_lt c b ≡ false → str_lt c a ≡ false
not_lt_trans [] b [] p q = not_lt_nil []
not_lt_trans (x ∷ a) [] [] p q = p
not_lt_trans (x ∷ a) (y ∷ b) [] p q = cc (str_lt_nil y b)
not_lt_trans [] b (z ∷ c) p q = not_lt_nil (z ∷ c)
not_lt_trans (x ∷ a) [] (z ∷ c) p q = cc (str_lt_nil x a)
not_lt_trans (x ∷ a) (y ∷ b) (z ∷ c) p q =
    ground
      (arith, str_lt_cons y x b a, str_lt_cons z y c b, str_lt_cons z x c a, not_lt_trans a b c)

-- Two texts of which neither is below the other are equal.
pub str_lt_total : (a b : String) → str_lt a b ≡ false → str_lt b a ≡ false → a ≡ b
str_lt_total [] [] p q = refl
str_lt_total [] (d ∷ t) p q = cc (str_lt_nil d t)
str_lt_total (c ∷ s) [] p q = cc (str_lt_nil c s)
str_lt_total (c ∷ s) (d ∷ t) p q =
    let same : code c ≡ code d = ground (arith, str_lt_cons c d s t, str_lt_cons d c t s) in
    let rest : s ≡ t =
      str_lt_total s t (ground (arith, str_lt_cons c d s t, same))
        (ground (arith, str_lt_cons d c t s, same)) in
    ap₂ ◌∷◌ (TextEquality.Char-path c d same) rest
