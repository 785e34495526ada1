-- ===== src/Metadata/Nodes.antt =====
-- distributed-fs/metadata.go: heartbeats, `MarkExpiredNodes` and the lists of nodes.

use go_infra_lab.Common.{
  ◌≤◌, String, true, none, some, ◌≡◌, refl, arith, ◌==◌, if◌then◌else◌, filter, All,
  All-filter_test, All-map_of_forall, ℤ, negate, add_duration, before, Time,
}
use go_infra_lab.GoMap.{get, values, update_all}
use go_infra_lab.GoMap.Laws.{get-put, get-update_all, values-update_all}
use go_infra_lab.Sorting.{by, by-IsOrder, IsSorted, sort_slice-IsSorted, sort_slice-All}
use package.go_infra_lab.Metadata.{
  NodeMetadata, NodeState, MetadataStore, upsert_node, expire_node, mark_expired_nodes,
  healthy_nodes, is_node_healthy,
}

abbrev pub cutoff : ℤ → MetadataStore → Time
cutoff ttl m = add_duration m.now (negate ttl)

-- After `MarkExpiredNodes`, every node that `HealthyNodes` offers has a heartbeat that is not
-- before the cutoff, and is marked healthy; the list is sorted by node ID.
pub healthy_nodes-mark_expired_nodes :
    (ttl : ℤ) (m : MetadataStore)
    → All
        (λ n. (is_node_healthy n ≡ true) × (cutoff ttl m ≤ n.last_heartbeat))
        (healthy_nodes (mark_expired_nodes ttl m))
      × IsSorted (by (λ n. n.id)) (healthy_nodes (mark_expired_nodes ttl m))
unfolding healthy_nodes mark_expired_nodes expire_node
healthy_nodes-mark_expired_nodes ttl m =
    let P = λ (n : NodeMetadata). cutoff ttl m ≤ n.last_heartbeat in
    let all = values (update_all (expire_node (cutoff ttl m)) m.nodes) in
    (
      sort_slice-All _ (λ n. (is_node_healthy n ≡ true) × P n) (filter is_node_healthy all)
          (All-filter_test P is_node_healthy all (
            rw values-update_all (
              All-map_of_forall (λ n. is_node_healthy n ≡ true → P n) _ (λ n h. ground arith)
                (values m.nodes)))),
      sort_slice-IsSorted _ (by-IsOrder (λ n. n.id)) (filter is_node_healthy all),
    )

-- `MarkExpiredNodes` takes a node down exactly when its heartbeat is before the cutoff, and changes
-- nothing else of it; it neither adds nor removes a node.
pub node-mark_expired_nodes :
    (ttl : ℤ) (m : MetadataStore) (id : String)
    → get id (mark_expired_nodes ttl m).nodes ≡ elim (get id m.nodes) [
      | none ↦ none
      | some n ↦ some (
          if before n.last_heartbeat (cutoff ttl m) then record n { state = NodeState.down } else n)
    ]
unfolding mark_expired_nodes expire_node
node-mark_expired_nodes ttl m id =
    ground (arith, get-update_all (expire_node (cutoff ttl m)) id m.nodes)

-- A heartbeat makes a node healthy again with its new address, whatever it was before, and leaves
-- the other nodes alone.
pub node-upsert_node :
    (id addr : String) (m : MetadataStore) (j : String)
    → let (node, m') = upsert_node id addr m in
      (get j m'.nodes ≡ (if id == j then some node else get j m.nodes))
      × (is_node_healthy node ≡ true)
      × (node.addr ≡ addr)
      × (node.last_heartbeat ≡ m.now)
unfolding upsert_node
node-upsert_node id addr m j = (get-put id j _ m.nodes, refl, refl, refl)
