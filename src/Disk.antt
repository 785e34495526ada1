-- ===== src/Disk.antt =====
-- What distributed-fs/metadata_disk.go and distributed-fs/replication_disk.go use of bbolt and of
-- encoding/json, as interfaces, and the documented behaviour that the proofs rely on.
pub mod Metadata
pub mod Queue
pub mod Reads
pub mod Rewrites
pub mod Mirrors
pub mod Nodes
pub mod Files
pub mod Refinement
pub mod Tasks
pub mod QueueRefinement
pub mod Sweeps
pub mod Restart
use go_infra_lab.Common.{
  String, Bool, true, Option, none, some, List, [], ◌∷◌, ◌++◌, ◌≡◌, ◌==◌, ◌&&◌, if◌then◌else◌,
}
use go_infra_lab.GoMap
use go_infra_lab.GoMap.{HasDistinctKeys}
use go_infra_lab.Action.{Action, Error, Result, ok, err}
use go_infra_lab.Action.Results.{◌>>=◌, map_ok}

-- A database with contents of type `B`: buckets by name, of raw values by key. `get`, `put`,
-- `entries` and `create_bucket` are the calls inside a transaction; `entries` is what a
-- `ForEach` visits whose function puts nothing, and `for_each` one whose function may put.
pub record Bolt (B R : Type 0) : Type 1 where
  pub create_bucket : String → B → Result B
  pub get : String → String → B → Option R
  pub put : String → String → R → B → Result B
  pub entries : String → B → List (String × R)
  pub for_each :
      {A : Type 0} → String → (String → R → A → B → Result (A × B)) → A → B → Result (A × B)
  pub update : {A : Type 0} → (B → Result (A × B)) → Action B A
  pub view : {A : Type 0} → (B → Result A) → Action B A

-- `json.Marshal` and `json.Unmarshal` of one type.
pub record Codec (A R : Type 0) : Type 0 where
  pub encode : A → Result R
  pub decode : R → Result A

-- A value that was encoded is decoded to itself.
abbrev pub IsRoundTrip : {A R : Type 0} → Codec A R → Type 0
IsRoundTrip {A} {R} codec = (a : A) (raw : R) → codec.encode a ≡ ok raw → codec.decode raw ≡ ok a

-- What a function does to some entries in turn.
unfoldable pub visit_all :
    {A B R : Type 0}
    → (String → R → A → B → Result (A × B))
    → List (String × R)
    → A
    → B
    → Result (A × B)
visit_all visit [] a db = ok (a, db)
visit_all visit ((k, raw) ∷ rest) a db = elim (visit k raw a db) [
  | err e ↦ err e
  | ok (a', db') ↦ visit_all visit rest a' db'
]

module _ {B R : Type 0} (bolt : Bolt B R) where
  -- A bucket is a map, and a `ForEach` whose function puts nothing visits each of its keys once.
  pub record IsBuckets : Type 0 where
    pub get-put :
        (b c k j : String) (raw : R) (db db' : B)
        → bolt.put b k raw db ≡ ok db'
        → bolt.get c j db' ≡ (if b == c && k == j then some raw else bolt.get c j db)
    pub entries_distinct : (b : String) (db : B) → HasDistinctKeys (bolt.entries b db)
    pub get-entries : (b k : String) (db : B) → GoMap.get k (bolt.entries b db) ≡ bolt.get b k db

  -- A `ForEach` whose function puts into the bucket it visits sees what the bucket held before.
  -- bbolt leaves open what happens then; the theorems that need this name it.
  pub record VisitsSnapshot : Type 1 where
    pub for_each_lem :
        {A : Type 0} (b : String) (visit : String → R → A → B → Result (A × B)) (a : A) (db : B)
        → bolt.for_each b visit a db ≡ visit_all visit (bolt.entries b db) a db

  -- Without failures of the disk a transaction returns what its function returns, and commits
  -- unless that is an error. A key can be put if `accepts` holds of it, and only such keys are
  -- there.
  pub record IsReliable (accepts : String → Bool) : Type 1 where
    pub update_ok :
        {A : Type 0} (f : B → Result (A × B)) (a : A) (db db' : B)
        → f db ≡ ok (a, db')
        → bolt.update f db ≡ (ok a, db')
    pub update_err :
        {A : Type 0} (f : B → Result (A × B)) (e : Error) (db : B)
        → f db ≡ err e
        → bolt.update f db ≡ (err e, db)
    pub view_lem : {A : Type 0} (f : B → Result A) (db : B) → bolt.view f db ≡ (f db, db)
    pub put_ok :
        (b k : String) (raw : R) (db : B)
        → accepts k ≡ true
        → (db' : B) × (bolt.put b k raw db ≡ ok db')
    pub create_ok :
        (b : String) (db : B)
        → (db' : B) × (bolt.create_bucket b db ≡ ok db')
          × ((c k : String) → bolt.get c k db' ≡ bolt.get c k db)
    pub accepted : (b k : String) (raw : R) (db : B) → bolt.get b k db ≡ some raw → accepts k ≡ true

  module _ {A : Type 0} (codec : Codec A R) where
    -- `getFileFromBucket`, for any type of value.
    unfoldable pub read_json : String → String → B → Result (Option A)
    read_json bucket key db = elim (bolt.get bucket key db) [
      | none ↦ ok none
      | some raw ↦ map_ok some (codec.decode raw)
    ]

    -- `putMetadataJSON`
    unfoldable pub put_json : String → String → A → B → Result B
    put_json bucket key v db = do raw ← codec.encode v; bolt.put bucket key raw db

    -- A `ForEach` that decodes every value and appends it to a list.
    unfoldable pub decode_all : List (String × R) → Result (List A)
    decode_all [] = ok []
    decode_all ((_, raw) ∷ rest) = do v ← codec.decode raw; vs ← decode_all rest; ok (v ∷ vs)

    -- One visit of a `ForEach` that puts some of the values back changed and collects these.
    unfoldable pub rewrite_step :
        String → (A → Option A) → String → R → List A → B → Result (List A × B)
    rewrite_step bucket change k raw changed db = do
      v ← codec.decode raw
      elim (change v) [
        | none ↦ ok (changed, db)
        | some v' ↦ do db' ← put_json bucket k v' db; ok (changed ++ v' ∷ [], db')
      ]

    abbrev pub rewrite_all : String → (A → Option A) → B → Result (List A × B)
    rewrite_all bucket change db = bolt.for_each bucket (rewrite_step bucket change) [] db
