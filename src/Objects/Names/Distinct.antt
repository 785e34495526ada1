-- ===== src/Objects/Names/Distinct.antt =====
-- distributed-fs/object.go: different chunks of a file have different object keys.
use Prim.Native.String.{len, ◌++◌}
use go_infra_lab.Common.{
  ℕ, zero, suc, ◌-◌, ◌^◌, ◌<◌, ◌≡◌, ◌∙◌, refl, sym, ap, String, some, show_uint64,
}
use go_infra_lab.Common.Numbers.{value, value-append, value_show}
use go_infra_lab.Common.Strings.{trim_prefix, trim_prefix-append}
use package.go_infra_lab.Objects.Names.{zeros, pad, chunk_object_key}

value-zeros : (n : ℕ) (text : String) → value 0 (zeros n text) ≡ value 0 text
unfolding zeros value
value-zeros zero text = refl
value-zeros (suc n) text = value-append 0 "0" (zeros n text) ∙ value-zeros n text

value-pad : (width n : ℕ) → n < 2 ^ 64 → value 0 (pad width (show_uint64 n)) ≡ some n
unfolding pad
value-pad width n small =
    value-zeros (width - len (show_uint64 n)) (show_uint64 n) ∙ value_show n small

append-cancel : (s t u : String) → s ++ t ≡ s ++ u → t ≡ u
append-cancel s t u e =
    sym (trim_prefix-append s t) ∙ (ap (λ r. trim_prefix r s) e ∙ trim_prefix-append s u)

-- The key of a chunk determines its index, whatever the file is called.
pub chunk_object_key_inj :
    (key : String) (i j : ℕ)
    → i < 2 ^ 64
    → j < 2 ^ 64
    → chunk_object_key key i ≡ chunk_object_key key j
    → i ≡ j
unfolding chunk_object_key
chunk_object_key_inj key i j i_small j_small e =
    let padded : pad 6 (show_uint64 i) ≡ pad 6 (show_uint64 j) =
      append-cancel ".chunk." _ _ (append-cancel key _ _ e) in
    cc (sym (value-pad 6 i i_small) ∙ (ap (value 0) padded ∙ value-pad 6 j j_small))
