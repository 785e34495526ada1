-- ===== src/Disk/Reads.antt =====
-- What the transactions of the disk backends read after they have put values.
use go_infra_lab.Common.{
  String, Bool, true, false, Option, none, some, List, [], ◌∷◌, ◌≡◌, refl, arith, ◌==◌, eq_iff,
  eq_refl, if◌then◌else◌, Option-cases, inl, inr,
}
use go_infra_lab.GoMap
use go_infra_lab.GoMap.{GoMap, HasDistinctKeys, values}
use go_infra_lab.GoMap.Laws.{get-put}
use go_infra_lab.Action.{Result, ok, err}
use go_infra_lab.Action.Results.{map_ok}
use package.go_infra_lab.Disk.{
  Bolt, Codec, IsRoundTrip, IsBuckets, IsReliable, read_json, put_json, decode_all,
}

-- Every value can be encoded, and is decoded to itself.
pub record IsFaithful {A R : Type 0} (codec : Codec A R) : Type 0 where
  pub encodes : (a : A) → (raw : R) × (codec.encode a ≡ ok raw)
  pub round_trip : IsRoundTrip codec

module _ {B R : Type 0} (bolt : Bolt B R) where
  -- A bucket holds a map: each key reads as what the map has.
  abbrev pub Holds : {A : Type 0} → Codec A R → String → B → GoMap A → Type 0
  Holds codec bucket db m = (k : String) → read_json bolt codec bucket k db ≡ ok (GoMap.get k m)

  -- One bucket reads the same in two databases.
  abbrev pub SameBucket : String → B → B → Type 0
  SameBucket bucket db db' = (k : String) → bolt.get bucket k db' ≡ bolt.get bucket k db

-- A map with the contents `g`.
pub record HasContents {A : Type 0} (g : String → Option A) (d : GoMap A) : Type 0 where
  pub distinct : HasDistinctKeys d
  pub contents : (k : String) → GoMap.get k d ≡ g k

module _ {B R : Type 0} (bolt : Bolt B R) (accepts : String → Bool) (buckets : IsBuckets bolt)
    (reliable : IsReliable bolt accepts) {A : Type 0} (codec : Codec A R)
    (faithful : IsFaithful codec) where
  pub Holds-SameBucket :
      (bucket : String) (db db' : B) (m : GoMap A)
      → SameBucket bolt bucket db db'
      → Holds bolt codec bucket db m
      → Holds bolt codec bucket db' m
  unfolding read_json
  Holds-SameBucket bucket db db' m same h k = ground (arith, same k, h k)

  pub put_json_lem :
      (bucket k : String) (v : A) (db : B)
      → accepts k ≡ true
      → (db' : B) × (put_json bolt codec bucket k v db ≡ ok db')
        × ((j : String)
            → read_json bolt codec bucket j db'
              ≡ (if k == j then ok (some v) else read_json bolt codec bucket j db))
        × ((c : String) → (bucket == c) ≡ false → SameBucket bolt c db db')
  unfolding put_json read_json
  put_json_lem bucket k v db accepted =
      let (raw, encoded) = faithful.encodes v in
      let decoded = faithful.round_trip v raw encoded in
      let (db', done) = reliable.put_ok bucket k raw db accepted in
      let reads = λ (c j : String). buckets.get-put bucket c k j raw db db' done in
      (
        db',
        ground arith,
        λ j. ground (arith, reads bucket j, eq_refl bucket),
        λ c other j. ground (arith, reads c j),
      )

  pub put_json-Holds :
      (bucket k : String) (v : A) (db : B) (m : GoMap A)
      → accepts k ≡ true
      → Holds bolt codec bucket db m
      → (db' : B) × (put_json bolt codec bucket k v db ≡ ok db')
        × Holds bolt codec bucket db' (GoMap.put k v m)
        × ((c : String) → (bucket == c) ≡ false → SameBucket bolt c db db')
  put_json-Holds bucket k v db m accepted h =
      let (db', done, reads, others) = put_json_lem bucket k v db accepted in
      (db', done, λ j. ground (arith, reads j, h j, get-put k j v m), others)

  pub Holds-accepted :
      (bucket k : String) (v : A) (db : B) (m : GoMap A)
      → Holds bolt codec bucket db m
      → GoMap.get k m ≡ some v
      → accepts k ≡ true
  unfolding read_json
  Holds-accepted bucket k v db m h found = elim (Option-cases (bolt.get bucket k db)) [
    | inl absent ↦ ground (arith, h k)
    | inr (raw, there) ↦ reliable.accepted bucket k raw db there
  ]

  -- What the values of a list of entries decode to under a key.
  abbrev pub lookup : String → List (String × R) → Result (Option A)
  lookup k l = elim (GoMap.get k l) [ none ↦ ok none | some raw ↦ map_ok some (codec.decode raw) ]

  pub decoded :
      (k : String) (raw : R) (l : List (String × R)) (g : String → Option A)
      → ((j : String) → lookup j ((k, raw) ∷ l) ≡ ok (g j))
      → (v : A) × (codec.decode raw ≡ ok v) × (g k ≡ some v)
  unfolding GoMap.get
  decoded k raw l g h = decoding (codec.decode raw) refl
    where
      decoding : (r : Result A) → codec.decode raw ≡ r → (v : A) × (r ≡ ok v) × (g k ≡ some v)
      decoding (ok v) e = (v, refl, ground (arith, h k, eq_refl k))
      decoding (err e) d = ground (arith, h k, eq_refl k)

  -- The contents without one key.
  abbrev pub without : String → (String → Option A) → String → Option A
  without k g j = if k == j then none else g j

  pub decoded_rest :
      (k : String) (raw : R) (l : List (String × R)) (g : String → Option A)
      → HasDistinctKeys ((k, raw) ∷ l)
      → ((j : String) → lookup j ((k, raw) ∷ l) ≡ ok (g j))
      → (j : String) → lookup j l ≡ ok (without k g j)
  unfolding GoMap.get
  decoded_rest k raw l g distinct h j = ground (arith, h j, distinct.0, eq_iff k j)

  pub add_contents :
      (k : String) (v : A) (g : String → Option A) (d : GoMap A)
      → g k ≡ some v
      → HasContents (without k g) d
      → HasContents g ((k, v) ∷ d)
  unfolding GoMap.get
  add_contents k v g d here h = record {
    distinct = (ground (arith, h.contents k, eq_refl k), h.distinct);
    contents = λ j. ground (arith, h.contents j, eq_iff k j);
  }

  decode_all_lem :
      (l : List (String × R)) (g : String → Option A)
      → HasDistinctKeys l
      → ((j : String) → lookup j l ≡ ok (g j))
      → (d : GoMap A) × HasContents g d × (decode_all bolt codec l ≡ ok (values d))
  unfolding decode_all GoMap.get
  decode_all_lem [] g distinct h =
      ([], record { distinct = tt; contents = λ k. ground (arith, h k) }, refl)
  decode_all_lem ((k, raw) ∷ l) g distinct h =
      let (v, decodes, here) = decoded k raw l g h in
      let (d, contents, all) =
        decode_all_lem l (without k g) distinct.1 (decoded_rest k raw l g distinct h) in
      ((k, v) ∷ d, add_contents k v g d here contents, rw (decodes) (rw all refl))

  pub entries-lookup :
      (bucket : String) (db : B) (m : GoMap A)
      → Holds bolt codec bucket db m
      → (j : String) → lookup j (bolt.entries bucket db) ≡ ok (GoMap.get j m)
  unfolding read_json
  entries-lookup bucket db m h j = ground (arith, h j, buckets.get-entries bucket j db)

  -- Decoding a whole bucket gives the values of the map that it holds, in some order.
  pub decode_entries :
      (bucket : String) (db : B) (m : GoMap A)
      → Holds bolt codec bucket db m
      → (d : GoMap A) × HasContents (λ k. GoMap.get k m) d
        × (decode_all bolt codec (bolt.entries bucket db) ≡ ok (values d))
  decode_entries bucket db m h =
      decode_all_lem (bolt.entries bucket db) (λ k. GoMap.get k m)
        (buckets.entries_distinct bucket db) (entries-lookup bucket db m h)
