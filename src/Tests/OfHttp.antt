-- ===== src/Tests/OfHttp.antt =====
-- The theorems on the HTTP handlers and the object client, on one manager and one storage node.
use Prim.Native.String.{◌++◌}
use go_infra_lab.Common.{
  ℕ, String, true, false, none, List, ◌≡◌, refl, arith, ◌==◌, if◌then◌else◌, show_uint64,
}
use go_infra_lab.Common.Strings.{
  trim_prefix, trim_prefix-append, contains, has_suffix, trim_right_slashes,
}
use text.Mathlib.Text.{starts_with}
use text.Mathlib.TextLemmas.{append_assoc}
use text.Mathlib.TextPositions.{starts_with-append}
use go_infra_lab.Action.{other, ok, err}
use go_infra_lab.Http.{Unescape, Request, file_key_from_path}
use go_infra_lab.Http.Client.{Urls, no_body}
use go_infra_lab.Http.Network.{IsUrls}
use go_infra_lab.Http.Manager.{Extras, serve_key, handle_file, serve_manager}
use go_infra_lab.Http.Keys.{IsPlainKey, file_url, routed, routed-file_url}
use go_infra_lab.Http.Routes.{serve_refused}
use package.go_infra_lab.Tests.OfService.{environment, service}

-- A key with a percent sign does not decode.
abbrev pub unescape : Unescape
unescape key = if contains key "%" then err (other "invalid URL escape") else ok key

abbrev pub base : String
base = "http://n1:9101"

-- The parsing of the URLs for one key.
abbrev pub urls_of : String → Urls
urls_of key = record {
  path_escape = λ k. k;
  parse = λ url.
      let prefix = base ++ ("/objects/" ++ (key ++ "?version=")) in
      if starts_with url prefix
      then ok (record { base = base; path = "/objects/" ++ key; version = trim_prefix url prefix })
      else if url == base ++ ("/files/" ++ key)
      then ok (record { base = base; path = "/files/" ++ key; version = "" })
      else if url == base ++ ("/files/" ++ (key ++ "/metadata"))
      then ok (record { base = base; path = "/files/" ++ (key ++ "/metadata"); version = "" })
      else err (other "unknown URL");
}

url_parts : (a b c d x : String) → a ++ (b ++ (c ++ (d ++ x))) ≡ (a ++ (b ++ (c ++ d))) ++ x
url_parts a b c d x =
    rw (append_assoc a (b ++ (c ++ d)) x, append_assoc b (c ++ d) x, append_assoc c d x) refl

parse_version :
    (key : String) (version : ℕ)
    → (urls_of key).parse (base ++ ("/objects/" ++ (key ++ ("?version=" ++ show_uint64 version))))
      ≡ ok (record { base = base; path = "/objects/" ++ key; version = show_uint64 version })
parse_version key version =
    let prefix : String = base ++ ("/objects/" ++ (key ++ "?version=")) in
    rw (url_parts base "/objects/" key "?version=" (show_uint64 version)) (
      ground (
        arith,
        starts_with-append prefix (show_uint64 version),
        trim_prefix-append prefix (show_uint64 version),
      ))

pub plain-IsUrls : IsUrls (urls_of "a.txt") base "a.txt"
plain-IsUrls = record {
  parse_object = parse_version "a.txt";
  parse_file = refl;
  parse_metadata = refl;
}

pub percent-IsUrls : IsUrls (urls_of "50%.txt") base "50%.txt"
percent-IsUrls = record {
  parse_object = parse_version "50%.txt";
  parse_file = refl;
  parse_metadata = refl;
}

pub is_plain : IsPlainKey unescape "a.txt"
unfolding contains
is_plain = record { not_empty = refl; no_parent = refl; decoded = refl }

routed-file_url_example :
    (routed (urls_of "a.txt") unescape (file_url (urls_of "a.txt") "http://n1:9101/" "a.txt")
      ≡ ok ("a.txt", false))
    × (routed
          (urls_of "a.txt")
          unescape
          (file_url (urls_of "a.txt") "http://n1:9101/" "a.txt" ++ "/metadata")
        ≡ ok ("a.txt", true))
routed-file_url_example =
    routed-file_url unescape (urls_of "a.txt") "http://n1:9101/" "a.txt"
      (unfold trim_right_slashes in plain-IsUrls) is_plain (unfold has_suffix in refl)

abbrev extras : Extras (List String)
extras = record { unescape = unescape; decode_addr = λ body. ok "http://n1:9101"; set_node = none }

-- A file's path with a method that it does not support.
abbrev post_file : Request
post_file = record { method = "POST"; path = "/files/a.txt"; version = ""; body = no_body }

serve_refused_example : (serve_manager environment extras post_file service).1 ≡ service
serve_refused_example = serve_refused environment extras post_file service (
    unfold serve_manager handle_file file_key_from_path serve_key contains has_suffix trim_prefix in
    refl)
