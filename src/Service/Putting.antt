-- ===== src/Service/Putting.antt =====
-- distributed-fs/managed_file_service.go: what a successful `Put` has done, over the in-memory
-- backends.
use go_infra_lab.Common.{
  ℕ, ◌≡◌, ◌≢◌, sym, ◌∙◌, ap, arith, String, true, Option, List, ◌⊎◌, All, eq_iff, inl, inr,
  Bool-cases, ◌==◌,
}
use go_infra_lab.Action.{Error, Result, ok, err, primary_unavailable}
use go_infra_lab.Metadata.{
  NodeMetadata, FileMetadata, MetadataStore, healthy_nodes, next_version, begin_file_version,
}
use go_infra_lab.Replication.{ReplicaPlan, plan}
use go_infra_lab.Replication.Queue.{MemoryQueue}
use go_infra_lab.Replication.Tasks.{tasks_for_file_unavailable}
use go_infra_lab.Backend.{memory_backend, memory_queue}
use go_infra_lab.Coordinator.{Coordinator, PreparedWrite, prepare_write, commit_write}
use go_infra_lab.Coordinator.Writing.{lists, chosen, published, commit_write_lem, prepare_write_lem}
use go_infra_lab.Objects.{ObjectStore}
use go_infra_lab.Staging.Delivery.{Result-cases}
use go_infra_lab.Staging.{Staged, TempFiles}
use go_infra_lab.Coordinator.Primary.{plan-lists, plan-All}
use package.go_infra_lab.Service.{Service, Environment}
use package.go_infra_lab.Service.Files.{put_staged}
use package.go_infra_lab.Service.Storage.{write_chunks}

commit_write_unnamed :
    (c : Coordinator MetadataStore MemoryQueue) (w : PreparedWrite)
    → w.primary.id ≡ ""
    → (commit_write memory_backend memory_queue w c).0 ≡ err primary_unavailable
unfolding commit_write begin_file_version
commit_write_unnamed c w unnamed =
    ground (arith, tasks_for_file_unavailable (published c w).0 c.metadata.now (inl unnamed))

-- The service over the in-memory backends.
abbrev pub Manager : Type 0 → Type 0
Manager O = Service MetadataStore MemoryQueue O

module _ {O : Type 0} (store : ObjectStore O) (sha256 : List ℕ → String) (temp : TempFiles)
    (seek_error : ℕ → Option Error) where
  abbrev pub in_memory : Environment MetadataStore MemoryQueue O
  in_memory = record {
    metadata = memory_backend;
    queue = memory_queue;
    store = store;
    sha256 = sha256;
    temp = temp;
    seek_error = seek_error;
  }

  -- The write that `Put` prepares for a staged file.
  abbrev pub prepared : String → Staged → ReplicaPlan → Manager O → PreparedWrite
  prepared key staged p s = record {
    key = key;
    version = next_version key s.coordinator.metadata;
    size = staged.size;
    checksum = staged.checksum;
    chunks = staged.chunks;
    primary = p.primary;
    replicas = p.replicas;
  }

  abbrev pub committed : Manager O → PreparedWrite → Coordinator MetadataStore MemoryQueue
  committed s w = (commit_write memory_backend memory_queue w s.coordinator).1

  -- The chunks that `Put` writes to the primary.
  abbrev pub stored : String → Staged → ReplicaPlan → Manager O → Result (Unit {0}) × O
  stored key staged p s =
      write_chunks in_memory p.primary.id key (next_version key s.coordinator.metadata) staged.file
        staged.chunks s.objects

  module _ (key : String) (staged : Staged) (s : Manager O) where
    put_staged_unplanned :
        (e : Error)
        → plan s.coordinator.planner (healthy_nodes s.coordinator.metadata) ≡ err e
        → put_staged in_memory key staged s ≡ (err e, s)
    unfolding put_staged prepare_write
    put_staged_unplanned e unplanned = ground arith

    module _ (p : ReplicaPlan)
        (planned : plan s.coordinator.planner (healthy_nodes s.coordinator.metadata) ≡ ok p) where
      put_staged_unwritten :
          (e : Error)
          → (stored key staged p s).0 ≡ err e
          → put_staged in_memory key staged s
            ≡ (err e, record s { objects = (stored key staged p s).1 })
      unfolding put_staged
      put_staged_unwritten e failed = ground (
        arith,
        prepare_write_lem s.coordinator key staged.size staged.checksum staged.chunks p planned,
      )

      pub put_staged_written :
          (stored key staged p s).0 ≡ ok tt
          → p.primary.id ≢ ""
          → let w = prepared key staged p s in
            put_staged in_memory key staged s ≡ (
              ok (published s.coordinator w).0,
              record { coordinator = committed s w; objects = (stored key staged p s).1 },
            )
      unfolding put_staged
      put_staged_written wrote named =
          let w = prepared key staged p s in
          let (ts, made, done) =
            commit_write_lem s.coordinator w named
              (plan-lists s.coordinator.planner (healthy_nodes s.coordinator.metadata) p planned) in
          ground (
            arith,
            prepare_write_lem s.coordinator key staged.size staged.checksum staged.chunks p planned,
            wrote,
            done,
          )

      -- A primary without an ID is only noticed when the version has been published.
      put_staged_unnamed :
          (stored key staged p s).0 ≡ ok tt
          → p.primary.id ≡ ""
          → (put_staged in_memory key staged s).0 ≡ err primary_unavailable
      unfolding put_staged
      put_staged_unnamed wrote unnamed = ground (
        arith,
        prepare_write_lem s.coordinator key staged.size staged.checksum staged.chunks p planned,
        wrote,
        commit_write_unnamed s.coordinator (prepared key staged p s) unnamed,
      )

    -- A successful `put_staged` has planned, stored and published.
    pub put_staged_ok :
        (meta : FileMetadata)
        → (put_staged in_memory key staged s).0 ≡ ok meta
        → (p : ReplicaPlan) × (lists p.primary.id (chosen (prepared key staged p s)) ≡ true)
          × (p.primary.id ≢ "")
          × ((stored key staged p s).0 ≡ ok tt)
          × (put_staged in_memory key staged s ≡ (
            ok (published s.coordinator (prepared key staged p s)).0,
            record {
              coordinator = committed s (prepared key staged p s);
              objects = (stored key staged p s).1;
            },
          ))
    put_staged_ok meta done =
        let nodes = healthy_nodes s.coordinator.metadata in
        elim (Result-cases (plan s.coordinator.planner nodes)) [
          | inr (e, unplanned) ↦ absurd (ground (arith, put_staged_unplanned e unplanned))
          | inl (p, planned) ↦ elim (Result-cases (stored key staged p s).0) [
            | inr (e, failed) ↦ absurd (ground (arith, put_staged_unwritten p planned e failed))
            | inl (u, wrote) ↦ elim (Bool-cases (p.primary.id == "")) [
              | inl unnamed ↦ absurd (
                  ground (
                    arith,
                    put_staged_unnamed p planned wrote ((eq_iff p.primary.id "").0 unnamed),
                  ))
              | inr named ↦
                  let named' : p.primary.id ≢ "" = λ e. ground (arith, eq_iff p.primary.id "") in
                  (
                    p,
                    plan-lists s.coordinator.planner nodes p planned,
                    named',
                    wrote,
                    put_staged_written p planned wrote named',
                  )
            ]
          ]
        ]

    -- One that fails, while every healthy node has an ID, has published nothing and written at most
    -- objects of the new version.
    pub put_staged_err :
        (e : Error)
        → All (λ (n : NodeMetadata). n.id ≢ "") (healthy_nodes s.coordinator.metadata)
        → (put_staged in_memory key staged s).0 ≡ err e
        → (put_staged in_memory key staged s ≡ (err e, s))
          ⊎ ((p : ReplicaPlan) × (put_staged in_memory key staged s
                ≡ (err e, record s { objects = (stored key staged p s).1 })))
    put_staged_err e named done =
        let nodes = healthy_nodes s.coordinator.metadata in
        elim (Result-cases (plan s.coordinator.planner nodes)) [
          | inr (e', unplanned) ↦
              let result = put_staged_unplanned e' unplanned in
              inl (result ∙ ap (λ r. (r, s)) (sym (ap (λ r. r.0) result) ∙ done))
          | inl (p, planned) ↦ elim (Result-cases (stored key staged p s).0) [
            | inr (e', failed) ↦
                let result = put_staged_unwritten p planned e' failed in
                let s' : Manager O = record s { objects = (stored key staged p s).1 } in
                inr (p, result ∙ ap (λ r. (r, s')) (sym (ap (λ r. r.0) result) ∙ done))
            | inl (u, wrote) ↦
                let named' =
                  plan-All (λ n. n.id ≢ "") s.coordinator.planner nodes p named planned in
                absurd (ground (arith, put_staged_written p planned wrote named'))
          ]
        ]
