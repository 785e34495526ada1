-- ===== src/Http/Keys.antt =====
-- distributed-fs/http_api.go and distributed-fs/main.go: which keys the handlers take from a path.
use Prim.Native.String.{◌++◌}
use go_infra_lab.Common.{String, Bool, true, false, ◌≡◌, arith, ◌==◌}
use go_infra_lab.Common.Strings.{
  trim_prefix-append, has_suffix, has_suffix-append, trim_suffix-append, contains,
  trim_right_slashes,
}
use go_infra_lab.Action.{Result, ok, err}
use package.go_infra_lab.Http.{Unescape, file_key_from_path}
use package.go_infra_lab.Http.Client.{Urls}
use package.go_infra_lab.Http.Network.{IsUrls}

-- main.go: `fileURL`
unfoldable pub file_url : Urls → String → String → String
file_url urls manager key = trim_right_slashes manager ++ ("/files/" ++ urls.path_escape key)

-- A key that is served: not empty, without "..", and not changed by decoding.
pub record IsPlainKey (unescape : Unescape) (key : String) : Type 0 where
  pub not_empty : (key == "") ≡ false
  pub no_parent : contains key ".." ≡ false
  pub decoded : unescape key ≡ ok key

-- What the manager makes of a URL, once net/http has parsed it.
abbrev pub routed : Urls → Unescape → String → Result (String × Bool)
routed urls unescape url = elim (urls.parse url) [
  | err e ↦ err e
  | ok u ↦ file_key_from_path unescape u.path
]

-- The URLs that the client commands make for a key lead the manager to that key, if it is not
-- empty, has no "..", is not changed by decoding and does not end in "/metadata": the file's own
-- URL to the file, and the one with "/metadata" appended to its metadata.
pub routed-file_url :
    (unescape : Unescape) (urls : Urls) (manager key : String)
    → IsUrls urls (trim_right_slashes manager) key
    → IsPlainKey unescape key
    → has_suffix key "/metadata" ≡ false
    → (routed urls unescape (file_url urls manager key) ≡ ok (key, false))
      × (routed urls unescape (file_url urls manager key ++ "/metadata") ≡ ok (key, true))
unfolding file_url file_key_from_path
routed-file_url unescape urls manager key is_urls plain no_suffix = (
  ground (
    arith,
    is_urls.parse_file,
    trim_prefix-append "/files/" key,
    no_suffix,
    plain.not_empty,
    plain.no_parent,
    plain.decoded,
  ),
  ground (
    arith,
    is_urls.parse_metadata,
    trim_prefix-append "/files/" (key ++ "/metadata"),
    has_suffix-append key "/metadata",
    trim_suffix-append key "/metadata",
    plain.not_empty,
    plain.no_parent,
    plain.decoded,
  ),
)
