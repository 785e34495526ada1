-- ===== src/Coordinator/Reading.antt =====
-- distributed-fs/coordinator.go: the candidates that `ReadCandidates` offers, over the in-memory
-- store.
use go_infra_lab.Common.{
  String, Bool, true, false, none, some, List, [], ◌∷◌, ◌++◌, ◌≡◌, ◌≢◌, ◌∙◌, refl, arith, ◌==◌,
  eq_iff, eq_refl, not, if◌then◌else◌, filter, any, any-append, All, All-append, All-filter, head?,
  Bool-cases, inl, inr, ◌⊎◌,
}
use go_infra_lab.GoMap.{GoMap, get, values, HasDistinctKeys, Entries}
use go_infra_lab.Sorting.{any-sort_slice}
use go_infra_lab.Action.{ok, err, file_deleted, no_readable_replicas}
use go_infra_lab.Metadata.{
  ReplicaMetadata, FileMetadata, MetadataStore, get_file, healthy_replicas, is_replica_healthy,
}
use go_infra_lab.Metadata.Replicas.{healthy_replicas_lem}
use go_infra_lab.Metadata.WellFormed.{IsFileOf, ReplicaNamed}
use go_infra_lab.Backend.{memory_backend, memory_queue}
use go_infra_lab.Replication.Queue.{MemoryQueue}
use package.go_infra_lab.Coordinator.{
  Coordinator, read_candidates, ReadPlan, first_of_node, prioritize_primary, read_plan,
}

-- Whether a list of replicas has one on a node.
abbrev pub offers : String → List ReplicaMetadata → Bool
offers node_id = any (λ r. r.node_id == node_id)

-- Whether the metadata has a healthy replica on a node.
abbrev pub healthy_at : String → FileMetadata → Bool
healthy_at node_id meta = elim (get node_id meta.replicas) [
  | none ↦ false
  | some r ↦ is_replica_healthy r
]

offers-values :
    (m : GoMap ReplicaMetadata) (node_id : String)
    → Entries ReplicaNamed m
    → HasDistinctKeys m
    → offers node_id (filter is_replica_healthy (values m))
      ≡ (elim (get node_id m) [ none ↦ false | some r ↦ is_replica_healthy r ])
unfolding get
offers-values [] node_id named distinct = refl
offers-values ((j, r) ∷ m) node_id named distinct =
    ground (arith, offers-values m node_id, eq_iff j node_id, eq_iff r.node_id node_id)

offers-healthy_replicas :
    (key : String) (meta : FileMetadata) (node_id : String)
    → IsFileOf key meta
    → offers node_id (healthy_replicas meta) ≡ healthy_at node_id meta
unfolding healthy_replicas
offers-healthy_replicas key meta node_id f =
    any-sort_slice _ (λ r. r.node_id == node_id) (filter is_replica_healthy (values meta.replicas))
    ∙ offers-values meta.replicas node_id f.replicas_named f.replicas_distinct

offers-first_of_node :
    (p j : String) (l : List ReplicaMetadata)
    → offers j (first_of_node p l) ≡ (if p == j then offers j l else false)
offers-first_of_node p j [] = ground arith
offers-first_of_node p j (r ∷ l) =
    ground (arith, offers-first_of_node p j l, eq_iff p j, eq_iff r.node_id p, eq_iff r.node_id j)

offers-others :
    (p j : String) (l : List ReplicaMetadata)
    → offers j (filter (λ r. not (r.node_id == p)) l) ≡ (if p == j then false else offers j l)
offers-others p j [] = ground arith
offers-others p j (r ∷ l) =
    ground (arith, offers-others p j l, eq_iff p j, eq_iff r.node_id p, eq_iff r.node_id j)

offers-prioritize_primary :
    (meta : FileMetadata) (j : String) (l : List ReplicaMetadata)
    → offers j (prioritize_primary meta l) ≡ offers j l
unfolding prioritize_primary
offers-prioritize_primary meta j [] = refl
offers-prioritize_primary meta j (r ∷ l) = elim (Bool-cases (meta.primary == "")) [
  | inl no_primary ↦ rw no_primary
  | inr named ↦ rw named (
      ground (
        arith,
        any-append (λ (r : ReplicaMetadata). r.node_id == j) (first_of_node meta.primary (r ∷ l))
            (filter (λ r. not (r.node_id == meta.primary)) (r ∷ l)),
        offers-first_of_node meta.primary j (r ∷ l),
        offers-others meta.primary j (r ∷ l),
      ))
]

first_of_node-All :
    (P : ReplicaMetadata → Type 0) (p : String) (l : List ReplicaMetadata)
    → All P l
    → All P (first_of_node p l)
first_of_node-All P p [] h = tt
first_of_node-All P p (r ∷ l) h = elim (Bool-cases (r.node_id == p)) [
  | inl here ↦ rw here (h.0, tt)
  | inr other ↦ rw other (first_of_node-All P p l h.1)
]

prioritize_primary-All :
    (P : ReplicaMetadata → Type 0) (meta : FileMetadata) (l : List ReplicaMetadata)
    → All P l
    → All P (prioritize_primary meta l)
unfolding prioritize_primary
prioritize_primary-All P meta [] h = tt
prioritize_primary-All P meta (r ∷ l) h = elim (Bool-cases (meta.primary == "")) [
  | inl no_primary ↦ rw no_primary h
  | inr named ↦ rw named (
      All-append P _ _ (first_of_node-All P meta.primary (r ∷ l) h)
        (All-filter P (λ r. not (r.node_id == meta.primary)) (r ∷ l) h))
]

head-first_of_node :
    (p : String) (l rest : List ReplicaMetadata)
    → offers p l ≡ true
    → (r : ReplicaMetadata) × (head? (first_of_node p l ++ rest) ≡ some r) × (r.node_id ≡ p)
head-first_of_node p [] rest h = cc
head-first_of_node p (r ∷ l) rest h = elim (Bool-cases (r.node_id == p)) [
  | inl here ↦ (r, rw here, (eq_iff r.node_id p).0 here)
  | inr other ↦ rw other (head-first_of_node p l rest (ground arith))
]

head-prioritize_primary :
    (meta : FileMetadata) (l : List ReplicaMetadata)
    → meta.primary ≢ ""
    → offers meta.primary l ≡ true
    → (r : ReplicaMetadata) × (head? (prioritize_primary meta l) ≡ some r)
      × (r.node_id ≡ meta.primary)
unfolding prioritize_primary
head-prioritize_primary meta [] named h = cc
head-prioritize_primary meta (r ∷ l) named h =
    let e : (meta.primary == "") ≡ false = ground (arith, eq_iff meta.primary "") in
    rw e (head-first_of_node meta.primary (r ∷ l) _ h)

read_plan_of :
    (meta : FileMetadata) (l : List ReplicaMetadata) (j : String)
    → meta.deleted ≡ false
    → prioritize_primary meta (healthy_replicas meta) ≡ l
    → offers j l ≡ true
    → read_plan (some meta) ≡ ok (record { metadata = meta; replicas = l })
unfolding read_plan
read_plan_of meta [] j alive e h = cc
read_plan_of meta (r ∷ l) j alive e h = ground arith

-- Over the stores in memory: for a file that is recorded under its key, with each replica once and
-- under the ID of its node, that is not deleted and has a healthy replica, `ReadCandidates` changes
-- nothing and returns the current metadata with exactly the nodes whose replica is healthy, and
-- only healthy replicas.
pub read_candidates_lem :
    (c : Coordinator MetadataStore MemoryQueue) (key : String) (meta : FileMetadata) (j : String)
    → IsFileOf key meta
    → get_file key c.metadata ≡ some meta
    → meta.deleted ≡ false
    → healthy_at j meta ≡ true
    → (p : ReadPlan) × (read_candidates memory_backend memory_queue key c ≡ (ok p, c))
      × (p.metadata ≡ meta)
      × All (λ r. is_replica_healthy r ≡ true) p.replicas
      × ((i : String) → offers i p.replicas ≡ healthy_at i meta)
unfolding read_candidates
read_candidates_lem c key meta j f found alive healthy =
    let l = prioritize_primary meta (healthy_replicas meta) in
    let same = λ (i : String).
      offers-prioritize_primary meta i (healthy_replicas meta)
      ∙ offers-healthy_replicas key meta i f in
    (
      record { metadata = meta; replicas = l },
      rw found (rw (read_plan_of meta l j alive refl (same j ∙ healthy))),
      refl,
      prioritize_primary-All (λ r. is_replica_healthy r ≡ true) meta (healthy_replicas meta)
          (healthy_replicas_lem meta).1,
      same,
    )

-- While the primary's replica is healthy, it is the first candidate.
pub read_candidates_primary :
    (c : Coordinator MetadataStore MemoryQueue) (key : String) (meta : FileMetadata) (p : ReadPlan)
    → IsFileOf key meta
    → get_file key c.metadata ≡ some meta
    → meta.primary ≢ ""
    → healthy_at meta.primary meta ≡ true
    → (read_candidates memory_backend memory_queue key c).0 ≡ ok p
    → (r : ReplicaMetadata) × (head? p.replicas ≡ some r) × (r.node_id ≡ meta.primary)
unfolding read_candidates read_plan
read_candidates_primary c key meta p f found named healthy read =
    let (r, first, there) =
      head-prioritize_primary meta (healthy_replicas meta) named
        (offers-healthy_replicas key meta meta.primary f ∙ healthy) in
    (r, ground arith, there)

none_offered : (l : List ReplicaMetadata) → ((i : String) → offers i l ≡ false) → l ≡ []
none_offered [] h = refl
none_offered (r ∷ l) h = ground (arith, h r.node_id, eq_refl r.node_id)

-- A read of a known file that has no candidates reports why and changes nothing: either the file is
-- deleted, or none of its replicas is healthy.
pub read_candidates_errors :
    (c : Coordinator MetadataStore MemoryQueue) (key : String) (meta : FileMetadata)
    → IsFileOf key meta
    → get_file key c.metadata ≡ some meta
    → (meta.deleted ≡ true) ⊎ ((i : String) → healthy_at i meta ≡ false)
    → read_candidates memory_backend memory_queue key c
      ≡ (err (if meta.deleted then file_deleted else no_readable_replicas), c)
unfolding read_candidates read_plan
read_candidates_errors c key meta f found (inl deleted) = rw found (rw deleted)
read_candidates_errors c key meta f found (inr unhealthy) =
    let l = prioritize_primary meta (healthy_replicas meta) in
    let empty : l ≡ [] = none_offered l (λ i.
      offers-prioritize_primary meta i (healthy_replicas meta)
      ∙ (offers-healthy_replicas key meta i f ∙ unhealthy i)) in
    rw found (ground arith)
