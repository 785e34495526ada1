-- ===== src/Objects/Names.antt =====
-- distributed-fs/object.go: the names under which versions and chunks are stored.
pub mod Distinct
use Prim.Native.String.{len, ◌++◌}
use go_infra_lab.Common.{ℕ, zero, suc, ◌-◌, ◌≡◌, refl, String, show_uint64}

-- `fmt.Sprintf("%s.v%d", key, version)`
unfoldable pub versioned_object_key : String → ℕ → String
versioned_object_key key version = key ++ ".v" ++ show_uint64 version

-- Zeros in front of a text.
pub zeros : ℕ → String → String
zeros zero text = text
zeros (suc n) text = "0" ++ zeros n text

pub pad : ℕ → String → String
unfolding zeros
pad width text = zeros (width - len text) text

-- `fmt.Sprintf("%s.chunk.%06d", key, index)`
unfoldable pub chunk_object_key : String → ℕ → String
unfolding pad
chunk_object_key key index = key ++ ".chunk." ++ pad 6 (show_uint64 index)

chunk_object_key_test : chunk_object_key "a" 12 ≡ "a.chunk.000012"
unfolding chunk_object_key show_uint64
chunk_object_key_test = refl
