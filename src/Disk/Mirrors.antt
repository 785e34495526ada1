-- ===== src/Disk/Mirrors.antt =====
-- distributed-fs/metadata_disk.go: when a `DiskMetadataStore` holds what a store in memory has, and
-- the transactions that keep it so.
use go_infra_lab.Common.{
  String, Bool, true, none, some, [], ◌∷◌, ◌≡◌, ◌∙◌, refl, ap, sym, subst, arith, eq_iff,
  Option-cases, inl, inr, Time,
}
use go_infra_lab.GoMap.{get, put}
use go_infra_lab.Action.{Error, Result, ok, err, metadata_not_found}
use go_infra_lab.Metadata.{NodeMetadata, FileMetadata, MetadataStore}
use go_infra_lab.Metadata.Commands.{Command, apply, run}
use go_infra_lab.Metadata.WellFormed.{IsWellFormed, run-IsWellFormed}
use go_infra_lab.Backend.Refines.{Related}
use package.go_infra_lab.Disk.{Bolt, Codec, IsBuckets, IsReliable, read_json}
use package.go_infra_lab.Disk.Reads.{
  IsFaithful, Holds, Holds-SameBucket, put_json-Holds, Holds-accepted,
}
use package.go_infra_lab.Disk.Metadata.{
  DiskMetadataStore, files_bucket, nodes_bucket, in_update, in_view, get_file_from_bucket, put_file,
  change_file,
}

module _ {B R : Type 0} (bolt : Bolt B R) (files : Codec FileMetadata R)
    (nodes : Codec NodeMetadata R) where
  -- The database holds what the store in memory has.
  pub record Mirrors (d : DiskMetadataStore B) (m : MetadataStore) : Type 0 where
    pub holds_files : Holds bolt files files_bucket d.db m.files
    pub holds_nodes : Holds bolt nodes nodes_bucket d.db m.nodes
    pub same_now : d.now ≡ m.now
    pub well_formed : IsWellFormed m

module _ {B R : Type 0} (bolt : Bolt B R) (accepts : String → Bool) (buckets : IsBuckets bolt)
    (reliable : IsReliable bolt accepts) (files : Codec FileMetadata R)
    (faithful_files : IsFaithful files) (nodes : Codec NodeMetadata R)
    (faithful_nodes : IsFaithful nodes) where
  abbrev Agree : DiskMetadataStore B → MetadataStore → Type 0
  Agree = Mirrors bolt files nodes

  pub done-Related :
      {A : Type 0} (f : B → Result (A × B)) (a : A) (d : DiskMetadataStore B) (db' : B)
      (m' : MetadataStore)
      → f d.db ≡ ok (a, db')
      → Agree (record d { db = db' }) m'
      → Related Agree (in_update bolt files nodes f d) (ok a, m')
  done-Related f a d db' m' h after = rw (reliable.update_ok f a d.db db' h) (refl, after)

  pub refused-Related :
      {A : Type 0} (f : B → Result (A × B)) (e : Error) (d : DiskMetadataStore B)
      (m : MetadataStore)
      → f d.db ≡ err e
      → Agree d m
      → Related Agree (in_update bolt files nodes f d) (err e, m)
  refused-Related f e d m h before = rw (reliable.update_err f e d.db h) (refl, before)

  pub view-Related :
      {A : Type 0} (f : B → Result A) (r : Result A) (d : DiskMetadataStore B) (m : MetadataStore)
      → f d.db ≡ r
      → Agree d m
      → Related Agree (in_view bolt files nodes f d) (r, m)
  view-Related f r d m h before = rw (reliable.view_lem f d.db) (h, before)

  -- A file is put under an accepted key.
  pub put_file-Mirrors :
      (key : String) (meta : FileMetadata) (d : DiskMetadataStore B) (m : MetadataStore)
      → accepts key ≡ true
      → IsWellFormed (record m { files = put key meta m.files })
      → Agree d m
      → (db' : B) × (put_file bolt files nodes key meta d.db ≡ ok (meta, db'))
        × Agree (record d { db = db' }) (record m { files = put key meta m.files })
  unfolding put_file
  put_file-Mirrors key meta d m accepted w h =
      let (db', done, holds, others) =
        put_json-Holds bolt accepts buckets reliable files faithful_files files_bucket key meta d.db
          m.files accepted h.holds_files in
      (
        db',
        rw done refl,
        record {
          holds_files = holds;
          holds_nodes =
              Holds-SameBucket bolt accepts buckets reliable nodes faithful_nodes nodes_bucket d.db
                db' m.nodes (others nodes_bucket (ground (arith, eq_iff files_bucket nodes_bucket)))
                h.holds_nodes;
          same_now = h.same_now;
          well_formed = w;
        },
      )

  pub kept : (c : Command) (m : MetadataStore) → IsWellFormed m → IsWellFormed (apply c m)
  unfolding run
  kept c m w = run-IsWellFormed (c ∷ []) m w

  -- The transaction `change_file`, on the store in memory.
  abbrev pub changed_file :
      String
      → (FileMetadata → Result FileMetadata)
      → MetadataStore
      → Result FileMetadata × MetadataStore
  changed_file key change m = elim (get key m.files) [
    | none ↦ (err metadata_not_found, m)
    | some meta ↦ elim (change meta) [
      | err e ↦ (err e, m)
      | ok meta' ↦ (ok meta', record m { files = put key meta' m.files })
    ]
  ]

  change_file_related :
      (key : String) (change : FileMetadata → Result FileMetadata) (d : DiskMetadataStore B)
      (m : MetadataStore)
      → IsWellFormed (changed_file key change m).1
      → Agree d m
      → Related Agree (change_file bolt files nodes key change d) (changed_file key change m)
  unfolding get_file_from_bucket
  change_file_related key change d m w h = elim (Option-cases (get key m.files)) [
    | inl absent ↦
        let after : changed_file key change m ≡ (err metadata_not_found, m) = ground arith in
        rw after (refused-Related _ metadata_not_found d m (ground (arith, h.holds_files key)) h)
    | inr (meta, found) ↦
        let found_there : read_json bolt files files_bucket key d.db ≡ ok (some meta) =
          h.holds_files key ∙ ap ok found in
        changing meta found found_there (change meta) refl
  ]
    where
      changing :
          (meta : FileMetadata)
          → get key m.files ≡ some meta
          → read_json bolt files files_bucket key d.db ≡ ok (some meta)
          → (r : Result FileMetadata) → change meta ≡ r
          → Related Agree (change_file bolt files nodes key change d) (changed_file key change m)
      changing meta found there (err e) refuses =
          let after : changed_file key change m ≡ (err e, m) = ground arith in
          rw after (refused-Related _ e d m (ground (arith, there)) h)
      changing meta found there (ok meta') gives =
          let m' : MetadataStore = record m { files = put key meta' m.files } in
          let after : changed_file key change m ≡ (ok meta', m') = ground arith in
          let w' = subst (λ (r : Result FileMetadata × MetadataStore). IsWellFormed r.1) after w in
          let (db', done, mirrors) =
            put_file-Mirrors key meta' d m
              (Holds-accepted bolt accepts buckets reliable files faithful_files files_bucket key
                meta d.db m.files h.holds_files found)
              w' h in
          rw after (done-Related _ meta' d db' m' (ground (arith, there, gives, done)) mirrors)

  -- With a change that uses the clock.
  pub change_at_related :
      (key : String) (change : Time → FileMetadata → Result FileMetadata) (d : DiskMetadataStore B)
      (m : MetadataStore) (r : Result FileMetadata × MetadataStore)
      → r ≡ changed_file key (change m.now) m
      → IsWellFormed r.1
      → Agree d m
      → Related Agree (change_file bolt files nodes key (change d.now) d) r
  change_at_related key change d m r same w h =
      let after : IsWellFormed (changed_file key (change m.now) m).1 =
        subst (λ (x : Result FileMetadata × MetadataStore). IsWellFormed x.1) same w in
      subst (λ t. Related Agree (change_file bolt files nodes key (change t) d) r) (sym h.same_now)
        (subst (λ x. Related Agree (change_file bolt files nodes key (change m.now) d) x) (sym same)
          (change_file_related key (change m.now) d m after h))
