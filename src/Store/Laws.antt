-- ===== src/Store/Laws.antt =====
-- distributed-fs/store.go and `LocalObjectStore`: what was written is read back, and deleting ends.
use Prim.Native.String.{len}
use text.Mathlib.Text.{starts_with}
use go_infra_lab.Common.{
  ℕ, zero, suc, ◌<◌, String, true, false, Option, none, some, List, [], ◌∷◌, ◌≡◌, arith, ◌==◌, ◌&&◌,
  ◌||◌, not, if◌then◌else◌, length, Bool-cases, inl, inr, eq_refl,
}
use go_infra_lab.Action.{Result, ok, err}
use go_infra_lab.Objects.{Stream, Written}
use go_infra_lab.Objects.Names.{versioned_object_key}
use go_infra_lab.Staging.Delivery.{Result-cases}
use package.go_infra_lab.Store.{
  FileSystem, Store, path_of, open_file_for_writing, write, read, remove_empty_parents, clean_up,
  local_object_store,
}

-- An opened file with these bytes.
abbrev pub file_of : List ℕ → Stream
file_of bytes = record { bytes = bytes; read_error = none; close_error = none }

-- The documented behaviour of a file system without concurrent writers: `contents` is the file at a
-- path.
pub record IsFileSystem {F : Type 0} (fs : FileSystem F) : Type 0 where
  pub contents : String → F → Option (List ℕ)
  pub contents-mkdir_all : (p q : String) (f : F) → contents q (fs.mkdir_all p f).1 ≡ contents q f
  pub contents-create :
      (p q : String) (f : F)
      → (fs.create p f).0 ≡ ok tt
      → contents q (fs.create p f).1 ≡ (if p == q then some [] else contents q f)
  pub contents-copy_to :
      (p q : String) (bytes : List ℕ) (n : ℕ) (f : F)
      → contents p f ≡ some []
      → (fs.copy_to p bytes none f).0 ≡ ok n
      → (n ≡ length bytes)
        × (contents q (fs.copy_to p bytes none f).1 ≡ (if p == q then some bytes else contents q f))
  pub opens :
      (p : String) (bytes : List ℕ) (f : F)
      → contents p f ≡ some bytes
      → (fs.open_file p f ≡ (ok (file_of bytes), f)) × (fs.file_size p f ≡ ok (length bytes))
  -- Of a path below another one that is not empty. `filepath.Dir` of a name alone is ".", which is
  -- as short.
  pub dir_shorter :
      (p stop : String)
      → (stop == "") ≡ false
      → starts_with p stop ≡ true
      → (p == stop) ≡ false
      → len (fs.dir p) < len p

module _ {F : Type 0} (fs : FileSystem F) (laws : IsFileSystem fs) (s : Store) where
  pub written :
      (id key q : String) (bytes : List ℕ) (n : ℕ) (f : F)
      → (write fs s id key bytes none f).0 ≡ ok n
      → (n ≡ length bytes)
        × (laws.contents q (write fs s id key bytes none f).1
            ≡ (if path_of fs s id key == q then some bytes else laws.contents q f))
  unfolding write open_file_for_writing
  written id key q bytes n f wrote =
      let p = path_of fs s id key in
      let made =
        fs.mkdir_all (fs.join (s.root ∷ id ∷ (s.path_transform_func key).path_name ∷ [])) f in
      let created = fs.create p made.1 in
      elim (Result-cases made.0) [
        | inr (e, fails) ↦ ground (arith, fails, wrote)
        | inl (_, makes) ↦ elim (Result-cases created.0) [
          | inr (e, fails) ↦ ground (arith, fails, makes, wrote)
          | inl (_, creates) ↦
              let empty = laws.contents-create p p made.1 creates in
              let other = laws.contents-create p q made.1 creates in
              let dirs =
                laws.contents-mkdir_all
                  (fs.join (s.root ∷ id ∷ (s.path_transform_func key).path_name ∷ [])) q f in
              let copied : (fs.copy_to p bytes none created.1).0 ≡ ok n =
                ground (arith, makes, creates, wrote) in
              let both =
                laws.contents-copy_to p q bytes n created.1 (ground (arith, empty, eq_refl p))
                  copied in
              (both.0, ground (arith, makes, creates, both.1, other, dirs))
        ]
      ]

  -- `removeEmptyParents` ends, with fuel above the length of the first path.
  removal_ends :
      (fuel : ℕ) (p stop : String) (f : F)
      → (stop == "") ≡ false
      → len p < fuel
      → (r : Result (Unit {0})) × ((remove_empty_parents fs s fuel p stop f).0 ≡ some r)
  unfolding remove_empty_parents
  removal_ends zero p stop f rooted enough = let absurd : ⊥ = omega arith in elim absurd [ ]
  removal_ends (suc fuel) p stop f rooted enough =
      elim (Bool-cases (not (p == stop) && starts_with p stop)) [
        | inr out ↦ (ok tt, ground (arith, out))
        | inl inside ↦ elim (Result-cases (fs.remove p f).0) [
          | inl (_, removed) ↦
              let shorter =
                laws.dir_shorter p stop rooted (ground (arith, inside)) (ground (arith, inside)) in
              let (r, ends) =
                removal_ends fuel (fs.dir p) stop (fs.remove p f).1 rooted (omega arith) in
              (r, ground (arith, inside, removed, ends))
          | inr (e, kept) ↦
              let r : Result (Unit {0}) =
                if fs.is_not_exist e || fs.is_not_empty e then ok tt else err e in
              (r, ground (arith, inside, kept))
        ]
      ]

  written_count :
      (node_id key : String) (version : ℕ) (bytes : List ℕ) (w : Written) (f : F)
      → ((local_object_store fs s).write_object node_id key version bytes none f).0 ≡ ok w
      → (write fs s node_id (versioned_object_key key version) bytes none f).0 ≡ ok w.count
  written_count node_id key version bytes w f wrote =
      elim (Result-cases (write fs s node_id (versioned_object_key key version) bytes none f).0) [
        | inl (n, e) ↦ ground (arith, e, wrote)
        | inr (x, e) ↦ ground (arith, e, wrote)
      ]

  -- Over a file system that keeps what was written: an object that was written is read back with
  -- its size and its bytes, and the count that the write returned is their number. The file at the
  -- object's path has these bytes, and the file at any other path is as before.
  pub read-write :
      (node_id key : String) (version : ℕ) (bytes : List ℕ) (w : Written) (q : String) (f : F)
      → ((local_object_store fs s).write_object node_id key version bytes none f).0 ≡ ok w
      → let store = local_object_store fs s in
        let f' = (store.write_object node_id key version bytes none f).1 in
        (store.read_object node_id key version f' ≡ (ok (length bytes, file_of bytes), f'))
        × (w.count ≡ length bytes)
        × (laws.contents q f' ≡ (
            if path_of fs s node_id (versioned_object_key key version) == q
            then some bytes
            else laws.contents q f))
  unfolding read
  read-write node_id key version bytes w q f wrote =
      let k = versioned_object_key key version in
      let p = path_of fs s node_id k in
      let count = written_count node_id key version bytes w f wrote in
      let here = written node_id k p bytes w.count f count in
      let opened =
        laws.opens p bytes (write fs s node_id k bytes none f).1
          (ground (arith, here.1, eq_refl p)) in
      (ground (arith, opened.0, opened.1), here.0, (written node_id k q bytes w.count f count).1)

  -- `Delete` comes to an end, for a node whose directory has a path that is not empty, and over a
  -- file system where the parent of a path below this directory is shorter than the path: the loop
  -- over the parent directories takes no more rounds than the path has bytes.
  pub clean_up_ends :
      (id key : String) (f : F)
      → (fs.join (s.root ∷ id ∷ []) == "") ≡ false
      → (r : Result (Unit {0})) × ((remove_empty_parents fs s
            (suc (len (fs.dir (path_of fs s id key))))
            (fs.dir (path_of fs s id key))
            (fs.join (s.root ∷ id ∷ []))
            f).0
          ≡ some r)
        × ((clean_up fs s id key f).0 ≡ r)
  unfolding clean_up
  clean_up_ends id key f rooted =
      let dir = fs.dir (path_of fs s id key) in
      let (r, ends) =
        removal_ends (suc (len dir)) dir (fs.join (s.root ∷ id ∷ [])) f rooted (omega arith) in
      (r, ends, ground (arith, ends))
