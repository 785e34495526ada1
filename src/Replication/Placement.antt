-- ===== src/Replication/Placement.antt =====
-- distributed-fs/replication.go: where `ReplicationPlanner.Plan` puts a new version.
use Prim.Native.Nat.{min}
use mathlib.Core.List.{Perm}
use go_infra_lab.Common.{
  ℕ, zero, suc, ◌-◌, ◌<◌, Bool, some, List, [], ◌∷◌, ◌++◌, ◌≡◌, refl, arith, ap, if◌then◌else◌,
  filter, length, take, drop, head?, ltb, pos, negsuc, length-take,
}
use go_infra_lab.Sorting.{
  by, by-IsOrder, sort_slice, IsSorted, sort_slice-perm, sort_slice-IsSorted, length-sort_slice,
}
use go_infra_lab.Action.{ok, err, no_healthy_nodes, panic}
use go_infra_lab.Metadata.{NodeMetadata, is_node_healthy}
use package.go_infra_lab.Replication.{
  ReplicationPlanner, ReplicaPlan, plan, plan_sorted, new_replication_planner,
}

take-append-drop {ℓ} : {A : Type ℓ} (n : ℕ) (xs : List A) → take n xs ++ drop n xs ≡ xs
take-append-drop zero xs = refl
take-append-drop (suc n) [] = refl
take-append-drop (suc n) (x ∷ xs) = ap (◌∷◌ x) (take-append-drop n xs)

abbrev by_id : NodeMetadata → NodeMetadata → Bool
by_id = by (λ n. n.id)

-- What a caller relies on: the primary is the first of the replicas, the replicas are the first of
-- the healthy nodes in the order of their IDs, and as many as asked for or as there are.
pub record IsPlacement (count : ℕ) (nodes : List NodeMetadata) (p : ReplicaPlan) : Type 0 where
  pub rest : List NodeMetadata
  pub primary_first : head? p.replicas ≡ some p.primary
  pub chosen : Perm (p.replicas ++ rest) (filter is_node_healthy nodes)
  pub least : IsSorted by_id (p.replicas ++ rest)
  pub size : length p.replicas ≡ min count (length (filter is_node_healthy nodes))

plan_sorted_lem :
    (n : ℕ) (sorted : List NodeMetadata)
    → 0 < n
    → 0 < length sorted
    → (p : ReplicaPlan) × (plan_sorted (pos n) sorted ≡ ok p)
      × (p.replicas ≡ take (min n (length sorted)) sorted)
      × (head? p.replicas ≡ some p.primary)
unfolding plan_sorted
plan_sorted_lem n [] h k = absurd (omega arith)
plan_sorted_lem n (x ∷ xs) h k =
    let e : (if ltb (length (x ∷ xs)) n then length (x ∷ xs) else n)
        ≡ suc (min (n - 1) (length xs)) =
      ground arith in
    let e' : min n (length (x ∷ xs)) ≡ suc (min (n - 1) (length xs)) = omega arith in
    (record { primary = x; replicas = x ∷ take (min (n - 1) (length xs)) xs }, rw e, rw e', refl)

-- With a positive replica count and a healthy node, `Plan` succeeds with a placement.
pub plan-IsPlacement :
    (n : ℕ) (nodes : List NodeMetadata)
    → 0 < n
    → 0 < length (filter is_node_healthy nodes)
    → (p : ReplicaPlan) × (plan (record { replica_count = pos n }) nodes ≡ ok p)
      × IsPlacement n nodes p
unfolding plan
plan-IsPlacement n nodes h k =
    let healthy = filter is_node_healthy nodes in
    let sorted = sort_slice by_id healthy in
    let same : length sorted ≡ length healthy = length-sort_slice by_id healthy in
    let (p, planned, prefix, first) = plan_sorted_lem n sorted h (omega arith) in
    let count = min n (length sorted) in
    (
      p,
      ground arith,
      record {
        rest = drop count sorted;
        primary_first = first;
        chosen = rw prefix (rw (take-append-drop count sorted) (sort_slice-perm by_id healthy));
        least = rw prefix (
            rw (take-append-drop count sorted)
              (sort_slice-IsSorted by_id (by-IsOrder (λ n. n.id)) healthy));
        size = rw prefix (omega (arith, length-take count sorted));
      },
    )

-- Without a healthy node `Plan` reports it, whatever the replica count is.
pub plan_no_healthy :
    (p : ReplicationPlanner) (nodes : List NodeMetadata)
    → filter is_node_healthy nodes ≡ []
    → plan p nodes ≡ err no_healthy_nodes
unfolding plan
plan_no_healthy p nodes none_healthy = rw none_healthy

-- A planner made for a negative replica count panics as soon as there is a healthy node.
pub plan_negative :
    (k : ℕ) (nodes : List NodeMetadata)
    → 0 < length (filter is_node_healthy nodes)
    → plan (new_replication_planner (negsuc k)) nodes ≡ err panic
unfolding plan plan_sorted new_replication_planner
plan_negative k nodes h = ground arith
