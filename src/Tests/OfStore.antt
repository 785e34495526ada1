-- ===== src/Tests/OfStore.antt =====
-- The theorems on the file store, on a file system that is a map from paths to contents.
use Prim.Native.String.{◌++◌, len}
use text.Mathlib.Text.{starts_with}
use go_infra_lab.Common.{
  any, ltb, ◌^◌, ◌<◌, Bool-cases, Option-cases, inl, inr, Option, ℕ, suc, String, true, false, none,
  some, List, [], ◌∷◌, ◌≡◌, refl, arith, ◌==◌, if◌then◌else◌, length,
}
use go_infra_lab.GoMap
use go_infra_lab.GoMap.{GoMap}
use go_infra_lab.GoMap.Laws.{get-put}
use go_infra_lab.Action.{other, Result, ok, err}
use go_infra_lab.Objects.{Written}
use go_infra_lab.Objects.Names.{versioned_object_key}
use go_infra_lab.Store.{
  FileSystem, Store, default_path_transform_func, path_of, write, read, remove_empty_parents,
  clean_up, local_object_store,
}
use package.go_infra_lab.Tests.Paths.{dir_of, dir_of_shorter}
use go_infra_lab.Http.Remote.{IsSized}
use go_infra_lab.Store.Laws.{IsFileSystem, file_of, read-write, clean_up_ends}

abbrev pub Files : Type 0
Files = GoMap (List ℕ)

unfoldable pub join_all : List String → String
join_all [] = ""
join_all (p ∷ []) = p
join_all (p ∷ q ∷ ps) = p ++ ("/" ++ join_all (q ∷ ps))

-- The file at a path; no file is as large as 2 ^ 64 bytes.
unfoldable pub stored : String → Files → Option (List ℕ)
stored p f = elim (GoMap.get p f) [
  | none ↦ none
  | some bytes ↦ if ltb (length bytes) (2 ^ 64) then some bytes else none
]

abbrev pub file_map : FileSystem Files
file_map = record {
  join = join_all;
  dir = dir_of;
  stat = λ p f. elim (stored p f) [ none ↦ some (other "no such file") | some _ ↦ none ];
  mkdir_all = λ p f. (ok tt, f);
  create = λ p f. (ok tt, GoMap.put p [] f);
  copy_to = λ p bytes e f. elim e [
    | none ↦
        if ltb (length bytes) (2 ^ 64)
        then (ok (length bytes), GoMap.put p bytes f)
        else (err (other "file too large"), f)
    | some x ↦ (err x, f)
  ];
  open_file = λ p f. (
    elim (stored p f) [ none ↦ err (other "no such file") | some bytes ↦ ok (file_of bytes) ],
    f,
  );
  file_size = λ p f. elim (stored p f) [
    | none ↦ err (other "no such file")
    | some bytes ↦ ok (length bytes)
  ];
  remove = λ p f.
      if any (λ q. starts_with q p) (GoMap.keys f)
      then (err (other "directory not empty"), f)
      else (ok tt, f);
  remove_all = λ p f. (ok tt, []);
  is_not_exist = λ e. true;
  is_not_empty = λ e. false;
}

stored-put :
    (p q : String) (bytes : List ℕ) (f : Files)
    → ltb (length bytes) (2 ^ 64) ≡ true
    → stored q (GoMap.put p bytes f) ≡ (if p == q then some bytes else stored q f)
unfolding stored
stored-put p q bytes f small = ground (arith, get-put p q bytes f, small)

fits_of_ok :
    (p : String) (bytes : List ℕ) (n : ℕ) (f : Files)
    → (file_map.copy_to p bytes none f).0 ≡ ok n
    → (ltb (length bytes) (2 ^ 64) ≡ true) × (n ≡ length bytes)
fits_of_ok p bytes n f h = elim (Bool-cases (ltb (length bytes) (2 ^ 64))) [
  | inl small ↦ ground (arith, small, h)
  | inr large ↦ ground (arith, large, h)
]

pub file_map-IsFileSystem : IsFileSystem file_map
file_map-IsFileSystem = record {
  contents = λ q f. stored q f;
  contents-mkdir_all = λ p q f. refl;
  contents-create = λ p q f h. stored-put p q [] f refl;
  contents-copy_to = λ p q bytes n f empty h.
      let fits = fits_of_ok p bytes n f h in
      (fits.1, ground (arith, fits.0, stored-put p q bytes f fits.0));
  opens = λ p bytes f there. (ground (arith, there), ground (arith, there));
  dir_shorter = dir_of_shorter;
}

stored_small :
    (p : String) (bytes : List ℕ) (f : Files) → stored p f ≡ some bytes → length bytes < 2 ^ 64
unfolding stored
stored_small p bytes f there = elim (Option-cases (GoMap.get p f)) [
  | inl absent ↦ ground (arith, absent, there)
  | inr (found, e) ↦ elim (Bool-cases (ltb (length found) (2 ^ 64))) [
    | inl small ↦ ground (arith, e, small, there)
    | inr large ↦ ground (arith, e, large, there)
  ]
]

abbrev pub data_store : Store
data_store = record { root = "data"; path_transform_func = default_path_transform_func }

pub file_map-IsSized : IsSized (local_object_store file_map data_store)
unfolding read
file_map-IsSized node key version size src f opened =
    let p = path_of file_map data_store node (versioned_object_key key version) in
    elim (Option-cases (stored p f)) [
      | inl absent ↦ ground (arith, absent, opened)
      | inr (bytes, there) ↦
          let small = stored_small p bytes f there in ground (arith, there, small, opened)
    ]

abbrev result : Written
result = record { count = 2; consumed = 2 }

read-write_example :
    let store = local_object_store file_map data_store in
    let f' = (store.write_object "n1" "a.txt" 3 (104 ∷ 105 ∷ []) none []).1 in
    (store.read_object "n1" "a.txt" 3 f' ≡ (ok (2, file_of (104 ∷ 105 ∷ [])), f'))
    × (result.count ≡ length {A = ℕ} (104 ∷ 105 ∷ []))
    × (file_map-IsFileSystem.contents "other" f' ≡ (
        if path_of file_map data_store "n1" (versioned_object_key "a.txt" 3) == "other"
        then some (104 ∷ 105 ∷ [])
        else file_map-IsFileSystem.contents "other" []))
read-write_example =
    read-write file_map file_map-IsFileSystem data_store "n1" "a.txt" 3 (104 ∷ 105 ∷ []) result
      "other" [] (unfold write stored in refl)

clean_up_ends_example :
    (r : Result (Unit {0})) × ((remove_empty_parents file_map data_store
        (suc (len (dir_of (path_of file_map data_store "n1" "a.txt"))))
        (dir_of (path_of file_map data_store "n1" "a.txt"))
        (join_all ("data" ∷ "n1" ∷ []))
        []).0
      ≡ some r)
    × ((clean_up file_map data_store "n1" "a.txt" []).0 ≡ r)
clean_up_ends_example =
    clean_up_ends file_map file_map-IsFileSystem data_store "n1" "a.txt" []
      (unfold join_all in refl)
