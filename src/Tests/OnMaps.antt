-- ===== src/Tests/OnMaps.antt =====
-- A database that is a map of maps in memory, with the documented behaviour of bbolt.
use go_infra_lab.Common.{
  String, Bool, not, none, some, [], ◌∷◌, ◌≡◌, refl, arith, ◌==◌, ◌&&◌, eq_iff, if◌then◌else◌,
  Bool-cases, inl, inr, sym,
}
use go_infra_lab.GoMap
use go_infra_lab.GoMap.{GoMap, HasDistinctKeys}
use go_infra_lab.GoMap.Laws.{get-put, put-HasDistinctKeys}
use go_infra_lab.Action.{other, Result, ok, err}
use go_infra_lab.Metadata.{NodeMetadata, FileMetadata}
use go_infra_lab.Replication.{ReplicationTask}
use go_infra_lab.Disk.{Bolt, Codec, IsBuckets, IsReliable, VisitsSnapshot, visit_all}
use go_infra_lab.Disk.Reads.{IsFaithful}

pub data Raw : Type 0 where
  of_node : NodeMetadata → Raw
  of_file : FileMetadata → Raw
  of_task : ReplicationTask → Raw

abbrev pub nodes : Codec NodeMetadata Raw
nodes = record {
  encode = λ v. ok (of_node v);
  decode = λ raw. elim raw [
    | of_node v ↦ ok v
    | of_file v ↦ err (other "json")
    | of_task v ↦ err (other "json")
  ];
}

abbrev pub files : Codec FileMetadata Raw
files = record {
  encode = λ v. ok (of_file v);
  decode = λ raw. elim raw [
    | of_node v ↦ err (other "json")
    | of_file v ↦ ok v
    | of_task v ↦ err (other "json")
  ];
}

abbrev pub tasks : Codec ReplicationTask Raw
tasks = record {
  encode = λ v. ok (of_task v);
  decode = λ raw. elim raw [
    | of_node v ↦ err (other "json")
    | of_file v ↦ err (other "json")
    | of_task v ↦ ok v
  ];
}

pub nodes-IsFaithful : IsFaithful nodes
nodes-IsFaithful = record { encodes = λ v. (of_node v, refl); round_trip = λ v raw e. ground arith }

pub files-IsFaithful : IsFaithful files
files-IsFaithful = record { encodes = λ v. (of_file v, refl); round_trip = λ v raw e. ground arith }

pub tasks-IsFaithful : IsFaithful tasks
tasks-IsFaithful = record { encodes = λ v. (of_task v, refl); round_trip = λ v raw e. ground arith }

abbrev pub Db : Type 0
Db = String → GoMap Raw

-- Each key once, and no empty key.
unfoldable pub clean : GoMap Raw → GoMap Raw
clean [] = []
clean ((k, raw) ∷ m) = if k == "" then clean m else GoMap.put k raw (clean m)

abbrev pub accepts : String → Bool
accepts k = not (k == "")

abbrev commit : {A : Type 0} → Result (A × Db) → Db → Result A × Db
commit (err e) db = (err e, db)
commit (ok (a, db')) db = (ok a, db')

abbrev pub maps : Bolt Db Raw
maps = record {
  create_bucket = λ b db. ok db;
  get = λ b k db. GoMap.get k (clean (db b));
  put = λ b k raw db.
      if k == ""
      then err (other "key required")
      else ok (λ c. if b == c then GoMap.put k raw (db c) else db c);
  entries = λ b db. clean (db b);
  for_each = λ b visit a db. visit_all visit (clean (db b)) a db;
  update = λ f db. commit (f db) db;
  view = λ f db. (f db, db);
}

get-clean :
    (k : String) (m : GoMap Raw) → GoMap.get k (clean m) ≡ (if k == "" then none else GoMap.get k m)
unfolding GoMap.get clean
get-clean k [] = ground arith
get-clean k ((j, raw) ∷ m) =
    ground (arith, get-clean k m, get-put j k raw (clean m), eq_iff j k, eq_iff k "", eq_iff j "")

clean-HasDistinctKeys : (m : GoMap Raw) → HasDistinctKeys (clean m)
unfolding GoMap.get clean
clean-HasDistinctKeys [] = tt
clean-HasDistinctKeys ((k, raw) ∷ m) = elim (Bool-cases (k == "")) [
  | inl empty ↦ rw empty (clean-HasDistinctKeys m)
  | inr named ↦ rw named (put-HasDistinctKeys k raw (clean m) (clean-HasDistinctKeys m))
]

maps-get-put :
    (b c k j : String) (raw : Raw) (db db' : Db)
    → maps.put b k raw db ≡ ok db'
    → maps.get c j db' ≡ (if b == c && k == j then some raw else maps.get c j db)
maps-get-put b c k j raw db db' e = elim (Bool-cases (k == "")) [
  | inl empty ↦ ground arith
  | inr named ↦
      let there : (λ (x : String). if b == x then GoMap.put k raw (db x) else db x) ≡ db' =
        ground arith in
      rw (sym there) (
        ground (
          arith,
          get-clean j (db c),
          get-clean j (GoMap.put k raw (db c)),
          get-put k j raw (db c),
          eq_iff k j,
          eq_iff j "",
          eq_iff k "",
        ))
]

pub maps-IsBuckets : IsBuckets maps
maps-IsBuckets = record {
  get-put = maps-get-put;
  entries_distinct = λ b db. clean-HasDistinctKeys (db b);
  get-entries = λ b k db. refl;
}

pub maps-IsReliable : IsReliable maps accepts
maps-IsReliable = record {
  update_ok = λ f a db db' e. rw e refl;
  update_err = λ f e db h. rw h refl;
  view_lem = λ f db. refl;
  put_ok = λ b k raw db h. ((λ c. if b == c then GoMap.put k raw (db c) else db c), ground arith);
  create_ok = λ b db. (db, refl, λ c k. refl);
  accepted = λ b k raw db e. ground (arith, get-clean k (db b));
}

-- In memory, `ForEach` goes on with the map as it was.
pub maps-VisitsSnapshot : VisitsSnapshot maps
maps-VisitsSnapshot = record { for_each_lem = λ b visit a db. refl }
