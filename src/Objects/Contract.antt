-- ===== src/Objects/Contract.antt =====
-- distributed-fs/object.go: what the service expects of an `ObjectStore`, stated on what the store
-- holds.
use go_infra_lab.Common.{
  ℕ, String, Bool, Option, none, some, List, ◌≡◌, ◌==◌, ◌&&◌, false, eqb, length,
}
use go_infra_lab.Action.{ok}
use package.go_infra_lab.Objects.{ObjectStore, Stream, Written}

-- Whether two objects have the same node, key and version.
abbrev pub same_object : String → String → ℕ → String → String → ℕ → Bool
same_object node key version node' key' version' =
    node == node' && (key == key' && eqb version version')

-- A stream that yields some bytes and fails nowhere.
abbrev pub stream_of : List ℕ → Stream
stream_of bytes = record { bytes = bytes; read_error = none; close_error = none }

-- The bytes of an object of a node at a version, if it is there. Calls may fail: only a write that
-- reports no error is known to have stored its bytes. What is there can be read, and no call
-- changes another object.
pub record IsObjectStore {O : Type 0} (store : ObjectStore O)
    (contents : String → String → ℕ → O → Option (List ℕ)) : Type 0 where
  pub write_lem :
      (node key : String) (version : ℕ) (bytes : List ℕ) (w : Written) (o : O)
      → (store.write_object node key version bytes none o).0 ≡ ok w
      → (w.count ≡ length bytes)
        × (contents node key version (store.write_object node key version bytes none o).1
            ≡ some bytes)
  pub write_others :
      (node key : String) (version : ℕ) (bytes : List ℕ) (o : O) (node' key' : String)
      (version' : ℕ)
      → same_object node key version node' key' version' ≡ false
      → contents node' key' version' (store.write_object node key version bytes none o).1
        ≡ contents node' key' version' o
  pub delete_others :
      (node key : String) (version : ℕ) (o : O) (node' key' : String) (version' : ℕ)
      → same_object node key version node' key' version' ≡ false
      → contents node' key' version' (store.delete_object node key version o).1
        ≡ contents node' key' version' o
  pub read_lem :
      (node key : String) (version : ℕ) (bytes : List ℕ) (o : O)
      → contents node key version o ≡ some bytes
      → store.read_object node key version o ≡ (ok (length bytes, stream_of bytes), o)
