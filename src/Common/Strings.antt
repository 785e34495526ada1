-- ===== src/Common/Strings.antt =====
-- The functions of Go's package strings that the HTTP handlers and the store on disk call.
use Prim.Native.Nat.{ℕ, ◌+◌, ◌-◌}
use Prim.Native.String.{String, [], ◌∷◌, ◌++◌, len, slice, find}
use mathlib.Core.Path.{◌≡◌, refl}
use mathlib.Core.Bool.{Bool, true, ◌&&◌}
use native.Mathlib.Omega.{arith}
use text.Mathlib.Text.{starts_with, ◌==◌}
use text.Mathlib.TextPositions
use go_infra_lab.Common.Tests.{leb, if◌then◌else◌}

-- `strings.TrimPrefix`
unfoldable pub trim_prefix : String → String → String
trim_prefix s t = if starts_with s t then slice s (len t) (len s) else s

-- `strings.HasSuffix`
unfoldable pub has_suffix : String → String → Bool
has_suffix s t = leb (len t) (len s) && (slice s (len s - len t) (len s) == t)

-- `strings.TrimSuffix`
unfoldable pub trim_suffix : String → String → String
unfolding has_suffix
trim_suffix s t = if has_suffix s t then slice s 0 (len s - len t) else s

-- `strings.Contains`: where there is nothing to find, `find` answers a place past the end.
unfoldable pub contains : String → String → Bool
contains s t = leb (find s t) (len s)

-- `strings.TrimRight(s, "/")`
unfoldable pub trim_right_slashes : String → String
trim_right_slashes [] = ""
trim_right_slashes (c ∷ s) =
    let rest = trim_right_slashes s in if (rest == "") && ((c ∷ []) == "/") then "" else c ∷ rest

trim_right_slashes_test : trim_right_slashes "http://host//" ≡ "http://host"
unfolding trim_right_slashes
trim_right_slashes_test = refl

contains_test : contains "a/../b" ".." ≡ true
unfolding contains
contains_test = refl

pub trim_prefix-append : (s t : String) → trim_prefix (s ++ t) s ≡ t
unfolding trim_prefix
trim_prefix-append s t =
    rw (TextPositions.starts_with-append s t, TextPositions.len-append s t)
      (TextPositions.slice-append_right s t)

add-sub : (a b : ℕ) → a + b - b ≡ a
add-sub a b = omega arith

-- The end of a text that was put together.
ends : (s t : String) → slice (s ++ t) (len s + len t - len t) (len s + len t) ≡ t
ends s t = rw (add-sub (len s) (len t)) (TextPositions.slice-append_right s t)

pub has_suffix-append : (s t : String) → has_suffix (s ++ t) t ≡ true
unfolding has_suffix
has_suffix-append s t =
    rw (TextPositions.len-append s t) (ground (arith, ends s t, TextPositions.eq_refl t))

pub trim_suffix-append : (s t : String) → trim_suffix (s ++ t) t ≡ s
unfolding trim_suffix
trim_suffix-append s t =
    rw (has_suffix-append s t, TextPositions.len-append s t, add-sub (len s) (len t))
      (TextPositions.slice-append_left s t)
