-- ===== src/Disk/Rewrites.antt =====
-- What a transaction that visits a bucket and puts changed values back leaves there.
use go_infra_lab.Common.{
  String, Bool, true, false, Option, none, some, List, [], ◌∷◌, ◌++◌, ◌≡◌, ◌∙◌, refl, ap, sym,
  arith, ◌==◌, eq_iff, Option-cases, inl, inr,
}
use go_infra_lab.GoMap
use go_infra_lab.GoMap.{GoMap, HasDistinctKeys}
use go_infra_lab.GoMap.Select.{select}
use go_infra_lab.Action.{Result, ok}
use go_infra_lab.Staging.Chunks.{append_nil, append_assoc}
use package.go_infra_lab.Disk.{
  Bolt, Codec, IsBuckets, IsReliable, read_json, VisitsSnapshot, visit_all, rewrite_step,
  rewrite_all,
}
use package.go_infra_lab.Disk.Reads.{
  IsFaithful, Holds, SameBucket, put_json_lem, Holds-accepted, HasContents, lookup, decoded,
  without, decoded_rest, add_contents, entries-lookup,
}

-- What a key reads as once `change` has been applied to what it held.
abbrev pub changed_read :
    {A : Type 0} → (A → Option A) → Option A → Result (Option A) → Result (Option A)
changed_read change none before = before
changed_read change (some v) before = elim (change v) [ none ↦ before | some w ↦ ok (some w) ]

module _ {B R : Type 0} (bolt : Bolt B R) (accepts : String → Bool) (buckets : IsBuckets bolt)
    (reliable : IsReliable bolt accepts) {A : Type 0} (codec : Codec A R)
    (faithful : IsFaithful codec) where
  abbrev Rewrites :
      String → (A → Option A) → (String → Option A) → List A → B → Result (List A × B) → Type 0
  Rewrites bucket change g cs db result =
      (d : GoMap A) × (db' : B) × HasContents g d
      × (result ≡ ok (cs ++ select change d, db'))
      × ((j : String)
          → read_json bolt codec bucket j db'
            ≡ changed_read change (g j) (read_json bolt codec bucket j db))
      × ((c : String) → (bucket == c) ≡ false → SameBucket bolt c db db')

  -- The visits in turn, on what they have collected so far.
  abbrev rewrites : String → (A → Option A) → List (String × R) → List A → B → Result (List A × B)
  rewrites bucket change = visit_all (rewrite_step bolt codec bucket change)

  rewrite_loop_lem :
      (bucket : String) (change : A → Option A) (l : List (String × R)) (g : String → Option A)
      (cs : List A) (db : B)
      → HasDistinctKeys l
      → ((j : String) → lookup bolt accepts buckets reliable codec faithful j l ≡ ok (g j))
      → ((j : String) (v : A) → g j ≡ some v → accepts j ≡ true)
      → Rewrites bucket change g cs db (rewrites bucket change l cs db)
  unfolding visit_all rewrite_step GoMap.get
  rewrite_loop_lem bucket change [] g cs db distinct h accepted = (
    [],
    db,
    record { distinct = tt; contents = λ k. ground (arith, h k) },
    ap (λ l. ok (l, db)) (sym (append_nil cs)),
    λ j. ground (arith, h j),
    λ c other j. refl,
  )
  rewrite_loop_lem bucket change ((k, raw) ∷ l) g cs db distinct h accepted =
      let (v, decodes, here) = decoded bolt accepts buckets reliable codec faithful k raw l g h in
      let rest = decoded_rest bolt accepts buckets reliable codec faithful k raw l g distinct h in
      let accepted' : (j : String) (w : A)
          → without bolt accepts buckets reliable codec faithful k g j ≡ some w
          → accepts j ≡ true =
        λ j w e. accepted j w (ground arith) in
      elim (Option-cases (change v)) [
        | inl kept ↦
            let (d, db', contents, done, reads, others) =
              rewrite_loop_lem bucket change l
                (without bolt accepts buckets reliable codec faithful k g) cs db distinct.1 rest
                accepted' in
            (
              (k, v) ∷ d,
              db',
              add_contents bolt accepts buckets reliable codec faithful k v g d here contents,
              ground (arith, decodes, kept, done),
              λ j. ground (arith, reads j, eq_iff k j),
              others,
            )
        | inr (w, changed) ↦
            let (db₁, put, put_reads, put_others) =
              put_json_lem bolt accepts buckets reliable codec faithful bucket k w db
                (accepted k v here) in
            let (d, db', contents, done, reads, others) =
              rewrite_loop_lem bucket change l
                (without bolt accepts buckets reliable codec faithful k g) (cs ++ w ∷ []) db₁
                distinct.1 rest accepted' in
            (
              (k, v) ∷ d,
              db',
              add_contents bolt accepts buckets reliable codec faithful k v g d here contents,
              ground
                  (arith, decodes, changed, put, done, append_assoc cs (w ∷ []) (select change d)),
              λ j. ground (arith, reads j, put_reads j, eq_iff k j),
              λ c other j. others c other j ∙ put_others c other j,
            )
      ]

  -- Rewriting a bucket that holds a map, if `ForEach` sees what it held before.
  pub rewrite_all_lem :
      VisitsSnapshot bolt
      → (bucket : String) (change : A → Option A) (db : B) (m : GoMap A)
      → Holds bolt codec bucket db m
      → Rewrites bucket change (λ k. GoMap.get k m) [] db (rewrite_all bolt codec bucket change db)
  rewrite_all_lem snapshot bucket change db m h =
      rw (snapshot.for_each_lem bucket (rewrite_step bolt codec bucket change) [] db) (
        rewrite_loop_lem bucket change (bolt.entries bucket db) (λ k. GoMap.get k m) [] db
          (buckets.entries_distinct bucket db)
          (entries-lookup bolt accepts buckets reliable codec faithful bucket db m h)
          (λ j v found.
            Holds-accepted bolt accepts buckets reliable codec faithful bucket j v db m h found))
