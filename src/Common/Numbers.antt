-- ===== src/Common/Numbers.antt =====
-- `strconv.ParseUint(s, 10, 64)`, and that it reads what `%d` prints.
use Prim.Native.Nat.{ℕ, zero, suc, ◌+◌, ◌-◌, ◌*◌, ◌/◌, ◌%◌, ◌^◌, ◌<◌}
use Prim.Native.Char.{code}
use Prim.Native.String.{String, [], ◌∷◌, ◌++◌, slice}
use Prim.Native.String.append
use mathlib.Core.Path.{◌≡◌, refl, ◌∙◌, ap, sym, subst}
use mathlib.Core.Logic.{inl, inr}
use mathlib.Core.Bool.{true, false, ◌&&◌}
use mathlib.Core.Option.{Option, none, some}
use native.Mathlib.Omega.{arith}
use text.Mathlib.Text.{◌==◌}
use text.Mathlib.TextEquality.{eq_iff}
use go_infra_lab.Common.Tests.{ltb, leb, if◌then◌else◌, Bool-cases}
use go_infra_lab.Common.Texts.{decimal, show_uint64}

-- The number whose digits follow those of `acc`.
unfoldable pub value : ℕ → String → Option ℕ
value acc [] = some acc
value acc (c ∷ s) =
    let rest = value (acc * 10 + (code c - 48)) s in
    if leb 48 (code c) && leb (code c) 57 then rest else none

unfoldable pub parse_uint : String → Option ℕ
unfolding value
parse_uint s =
    if s == ""
    then none
    else elim (value 0 s) [ none ↦ none | some n ↦ if ltb n (2 ^ 64) then some n else none ]

pub value-append :
    (acc : ℕ) (s t : String)
    → value acc (s ++ t) ≡ elim (value acc s) [ none ↦ none | some n ↦ value n t ]
unfolding value
value-append acc [] t = ap (value acc) (append.nil t)
value-append acc (c ∷ s) t =
    ap (value acc) (append.cons c s t) ∙ ground (arith, value-append (acc * 10 + (code c - 48)) s t)

digit : ℕ → String
digit d = slice "0123456789" d (d + 1)

value-digit : (acc d : ℕ) → d < 10 → value acc (digit d) ≡ some (acc * 10 + d)
unfolding value digit
value-digit acc zero h = refl
value-digit acc (suc zero) h = refl
value-digit acc (suc (suc zero)) h = refl
value-digit acc (suc (suc (suc zero))) h = refl
value-digit acc (suc (suc (suc (suc zero)))) h = refl
value-digit acc (suc (suc (suc (suc (suc zero))))) h = refl
value-digit acc (suc (suc (suc (suc (suc (suc zero)))))) h = refl
value-digit acc (suc (suc (suc (suc (suc (suc (suc zero))))))) h = refl
value-digit acc (suc (suc (suc (suc (suc (suc (suc (suc zero)))))))) h = refl
value-digit acc (suc (suc (suc (suc (suc (suc (suc (suc (suc zero))))))))) h = refl
value-digit acc (suc (suc (suc (suc (suc (suc (suc (suc (suc (suc d)))))))))) h =
    let absurd : ⊥ = omega arith in elim absurd [ ]

-- Without its last digit a number has one digit less.
fewer : (fuel n : ℕ) → n < 10 ^ suc fuel → n / 10 < 10 ^ fuel
fewer fuel n h = omega arith

value-decimal : (fuel n : ℕ) → n < 10 ^ fuel → value 0 (decimal fuel n) ≡ some n
unfolding decimal digit
value-decimal zero n h = unfold value in ground arith
value-decimal (suc fuel) n h = elim (Bool-cases (ltb n 10)) [
  | inl small ↦ rw small (value-digit 0 n (ground (arith, small)) ∙ ap some (omega arith))
  | inr large ↦ rw large (
      value-append 0 (decimal fuel (n / 10)) (digit (n % 10))
      ∙ (ap (λ o. elim o [ none ↦ none | some k ↦ value k (digit (n % 10)) ])
            (value-decimal fuel (n / 10) (fewer fuel n h))
          ∙ (value-digit (n / 10) (n % 10) (omega arith) ∙ ap some (omega arith))))
]

pub value_show : (n : ℕ) → n < 2 ^ 64 → value 0 (show_uint64 n) ≡ some n
value_show n h = unfold show_uint64 in value-decimal 20 n (omega arith)

show_not_empty : (n : ℕ) → n < 2 ^ 64 → (show_uint64 n == "") ≡ false
show_not_empty n h = elim (Bool-cases (show_uint64 n == "")) [
  | inl empty ↦
      let nothing = (eq_iff (show_uint64 n) "").0 empty in
      let is_zero : n ≡ 0 = zero_of (ap (value 0) (sym nothing) ∙ value_show n h) in
      let impossible : (show_uint64 0 == "") ≡ true =
        subst (λ k. (show_uint64 k == "") ≡ true) is_zero empty in
      unfold show_uint64 decimal in ground (arith, impossible)
  | inr shown ↦ shown
]
  where
    zero_of : value 0 "" ≡ some n → n ≡ 0
    zero_of e = unfold value in ground arith

pub parse-show : (n : ℕ) → n < 2 ^ 64 → parse_uint (show_uint64 n) ≡ some n
unfolding parse_uint
parse-show n h = ground (arith, value_show n h, show_not_empty n h)
