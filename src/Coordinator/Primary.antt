-- ===== src/Coordinator/Primary.antt =====
-- distributed-fs/replication.go and distributed-fs/coordinator.go: the primary that `Plan` chooses
-- for a write.
use go_infra_lab.Common.{
  ◌≡◌, ap, subst, arith, true, List, [], ◌∷◌, All, All-take, All-filter, ltb, if◌then◌else◌,
  eq_refl, ℤ, pos, negsuc, filter, length, eqb, inl, inr, Bool-cases, map,
}
use go_infra_lab.Action.{ok, err}
use go_infra_lab.Sorting.{by, sort_slice, sort_slice-All}
use go_infra_lab.Metadata.{NodeMetadata, is_node_healthy}
use go_infra_lab.Replication.{ReplicaPlan, ReplicationPlanner, plan, plan_sorted, plan_of}
use package.go_infra_lab.Coordinator.Writing.{lists}

plan_of-lists :
    (nodes : List NodeMetadata) (p : ReplicaPlan)
    → plan_of nodes ≡ ok p
    → lists p.primary.id (map (λ (node : NodeMetadata). node.id) p.replicas) ≡ true
plan_of-lists [] p planned = cc
plan_of-lists (node ∷ rest) p planned = ground (arith, eq_refl node.id)

plan_sorted-lists :
    (count : ℤ) (nodes : List NodeMetadata) (p : ReplicaPlan)
    → plan_sorted count nodes ≡ ok p
    → lists p.primary.id (map (λ (node : NodeMetadata). node.id) p.replicas) ≡ true
unfolding plan_sorted
plan_sorted-lists (pos n) nodes p planned = plan_of-lists _ p planned
plan_sorted-lists (negsuc n) nodes p planned = cc

-- Where `Plan` succeeds, the primary is among the replicas.
pub plan-lists :
    (planner : ReplicationPlanner) (nodes : List NodeMetadata) (p : ReplicaPlan)
    → plan planner nodes ≡ ok p
    → lists p.primary.id (map (λ (node : NodeMetadata). node.id) p.replicas) ≡ true
unfolding plan
plan-lists planner nodes p planned =
    let healthy = filter is_node_healthy nodes in
    elim (Bool-cases (eqb (length healthy) 0)) [
      | inl nobody ↦ absurd (ground (arith, nobody))
      | inr some_node ↦
          plan_sorted-lists planner.replica_count (sort_slice (by (λ n. n.id)) healthy) p
            (ground (arith, some_node))
    ]

-- The primary is one of the nodes that were given.
plan_of-All :
    (P : NodeMetadata → Type 0) (nodes : List NodeMetadata) (p : ReplicaPlan)
    → All P nodes
    → plan_of nodes ≡ ok p
    → P p.primary
plan_of-All P [] p h planned = cc
plan_of-All P (node ∷ rest) p h planned =
    subst P (ap (λ r. elim r [ ok q ↦ q.primary | err e ↦ node ]) planned) h.0

plan_sorted-All :
    (P : NodeMetadata → Type 0) (count : ℤ) (nodes : List NodeMetadata) (p : ReplicaPlan)
    → All P nodes
    → plan_sorted count nodes ≡ ok p
    → P p.primary
unfolding plan_sorted
plan_sorted-All P (pos n) nodes p h planned =
    plan_of-All P _ p (All-take P (if ltb (length nodes) n then length nodes else n) nodes h)
      planned
plan_sorted-All P (negsuc n) nodes p h planned = cc

pub plan-All :
    (P : NodeMetadata → Type 0) (planner : ReplicationPlanner) (nodes : List NodeMetadata)
    (p : ReplicaPlan)
    → All P nodes
    → plan planner nodes ≡ ok p
    → P p.primary
unfolding plan
plan-All P planner nodes p h planned =
    let healthy = filter is_node_healthy nodes in
    elim (Bool-cases (eqb (length healthy) 0)) [
      | inl nobody ↦ absurd (ground (arith, nobody))
      | inr some_node ↦
          plan_sorted-All P planner.replica_count (sort_slice (by (λ n. n.id)) healthy) p
            (sort_slice-All _ P healthy (All-filter P is_node_healthy nodes h))
            (ground (arith, some_node))
    ]
