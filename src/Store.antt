-- ===== src/Store.antt =====
-- distributed-fs/store.go: the file store of a storage node, over a file system; and
-- `LocalObjectStore` of distributed-fs/object.go on top of it.
pub mod Laws
use Prim.Native.String.{◌++◌, len, slice, find}
use text.Mathlib.Text.{starts_with}
use go_infra_lab.Common.{
  ℕ, zero, suc, ◌+◌, ◌*◌, ◌/◌, String, Bool, Option, none, some, List, [], ◌∷◌, ◌==◌, ◌&&◌, ◌||◌,
  not, if◌then◌else◌, true, false, ◌≡◌, refl,
}
use go_infra_lab.Action.{Action, Error, other, Result, ok, err}
use go_infra_lab.Objects.{ObjectStore, Stream}
use go_infra_lab.Objects.Names.{versioned_object_key}

-- What the store calls of the packages os and path/filepath. `copy_to` is `io.Copy` to a file that
-- was just created, from a reader of some bytes and, maybe, an error.
pub record FileSystem (F : Type 0) : Type 0 where
  pub join : List String → String
  pub dir : String → String
  pub stat : String → F → Option Error
  pub mkdir_all : String → Action F (Unit {0})
  pub create : String → Action F (Unit {0})
  pub copy_to : String → List ℕ → Option Error → Action F ℕ
  pub open_file : String → Action F Stream
  pub file_size : String → F → Result ℕ
  pub remove : String → Action F (Unit {0})
  pub remove_all : String → Action F (Unit {0})
  pub is_not_exist : Error → Bool
  pub is_not_empty : Error → Bool

pub record PathKey : Type 0 where
  pub path_name : String
  pub file_name : String

-- The loop of `CASPathTransformFunc` from segment `i` on, for `left` more segments.
unfoldable pub segments : String → ℕ → ℕ → List String
segments hash zero i = []
segments hash (suc left) i = slice hash (i * 5) (i * 5 + 5) ∷ segments hash left (suc i)

-- `strings.Join(paths, "/")`
unfoldable pub join_slash : List String → String
join_slash [] = ""
join_slash (path ∷ []) = path
join_slash (path ∷ next ∷ rest) = path ++ ("/" ++ join_slash (next ∷ rest))

-- `CASPathTransformFunc`; `sha1_hex` is the SHA-1 of a key in hexadecimal.
unfoldable pub cas_path_transform_func : (String → String) → String → PathKey
unfolding segments join_slash
cas_path_transform_func sha1_hex key =
    let hash = sha1_hex key in
    record { path_name = join_slash (segments hash (len hash / 5) 0); file_name = hash }

cas_path_test : (cas_path_transform_func (λ key. "68044aa7fe") "key").path_name ≡ "68044/aa7fe"
unfolding cas_path_transform_func
cas_path_test = refl

unfoldable pub full_path : PathKey → String
full_path p = p.path_name ++ ("/" ++ p.file_name)

-- `strings.Split(p.PathName, "/")[0]`
unfoldable pub first_path_name : PathKey → String
first_path_name p = slice p.path_name 0 (find p.path_name "/")

unfoldable pub default_path_transform_func : String → PathKey
default_path_transform_func key = record { path_name = key; file_name = key }

pub record Store : Type 0 where
  pub root : String
  pub path_transform_func : String → PathKey

-- `NewStore`; a missing function is nil.
unfoldable pub new_store : String → Option (String → PathKey) → Store
new_store root transform = record {
  root = if root == "" then "dfs-data" else root;
  path_transform_func = elim transform [ none ↦ default_path_transform_func | some f ↦ f ];
}

module _ {F : Type 0} (fs : FileSystem F) (s : Store) where
  -- `filepath.Join(s.Root, id, pathkey.FullPath())`
  unfoldable pub path_of : String → String → String
  path_of id key = fs.join (s.root ∷ id ∷ full_path (s.path_transform_func key) ∷ [])

  unfoldable pub has : String → String → F → Bool
  has id key f = elim (fs.stat (path_of id key) f) [
    | none ↦ true
    | some e ↦ not (fs.is_not_exist e)
  ]

  unfoldable pub clear : Action F (Unit {0})
  clear = fs.remove_all s.root

  -- `removeEmptyParents`, for at most `fuel` directories.
  unfoldable pub remove_empty_parents : ℕ → String → String → F → Option (Result (Unit {0})) × F
  remove_empty_parents zero dir stop f = (none, f)
  remove_empty_parents (suc fuel) dir stop f =
      let (removed, f') = fs.remove dir f in
      elim (not (dir == stop) && starts_with dir stop) [
        | false ↦ (some (ok tt), f)
        | true ↦ elim removed [
          | ok _ ↦ remove_empty_parents fuel (fs.dir dir) stop f'
          | err e ↦
              if fs.is_not_exist e || fs.is_not_empty e
              then (some (ok tt), f')
              else (some (err e), f')
        ]
      ]

  -- What follows the removal of the file in `Delete`. The path gets shorter with every directory.
  unfoldable pub clean_up : String → String → Action F (Unit {0})
  clean_up id key f =
      let dir = fs.dir (path_of id key) in
      let (ended, f') = remove_empty_parents (suc (len dir)) dir (fs.join (s.root ∷ id ∷ [])) f in
      (elim ended [ none ↦ err (other "out of fuel") | some r ↦ r ], f')

  unfoldable pub delete : String → String → Action F (Unit {0})
  delete id key f =
      let (removed, f') = fs.remove (path_of id key) f in
      let rest = clean_up id key f' in
      elim removed [ ok _ ↦ rest | err e ↦ if not (fs.is_not_exist e) then (err e, f') else rest ]

  unfoldable pub open_file_for_writing : String → String → Action F (Unit {0})
  unfolding path_of
  open_file_for_writing id key f =
      let (made, f') =
        fs.mkdir_all (fs.join (s.root ∷ id ∷ (s.path_transform_func key).path_name ∷ [])) f in
      elim made [ err e ↦ (err e, f') | ok _ ↦ fs.create (path_of id key) f' ]

  -- `Write` and `writeStream`
  unfoldable pub write : String → String → List ℕ → Option Error → Action F ℕ
  unfolding open_file_for_writing
  write id key bytes read_error f =
      let (opened, f') = open_file_for_writing id key f in
      elim opened [ err e ↦ (err e, f') | ok _ ↦ fs.copy_to (path_of id key) bytes read_error f' ]

  unfoldable pub read : String → String → Action F (ℕ × Stream)
  read id key f =
      let (opened, f') = fs.open_file (path_of id key) f in
      elim opened [
        | err e ↦ (err e, f')
        | ok file ↦ elim (fs.file_size (path_of id key) f') [
          | err e ↦ (err e, f')
          | ok size ↦ (ok (size, file), f')
        ]
      ]

-- `LocalObjectStore`
abbrev pub local_object_store : {F : Type 0} → FileSystem F → Store → ObjectStore F
local_object_store fs s = record {
  write_object = λ node_id key version bytes read_error f.
      let (r, f') = write fs s node_id (versioned_object_key key version) bytes read_error f in
      (elim r [ err e ↦ err e | ok n ↦ ok (record { count = n; consumed = n }) ], f');
  read_object = λ node_id key version. read fs s node_id (versioned_object_key key version);
  delete_object = λ node_id key version. delete fs s node_id (versioned_object_key key version);
  has_object = λ node_id key version. has fs s node_id (versioned_object_key key version);
}
