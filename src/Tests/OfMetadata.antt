-- ===== src/Tests/OfMetadata.antt =====
-- The metadata theorems on the small cluster.
use go_infra_lab.Common.{◌+◌, ◌≤◌, true, List, [], ◌∷◌, ◌≡◌, refl, arith, All, pos}
use go_infra_lab.GoMap.{get}
use go_infra_lab.Sorting.{IsSorted, by}
use go_infra_lab.Metadata.{
  ReplicaState, mark_expired_nodes, healthy_nodes, is_node_healthy, get_file,
}
use go_infra_lab.Metadata.Commands.{Command, begin, mark, delete, expire, run, version_of}
use go_infra_lab.Metadata.Versions.{version-run}
use go_infra_lab.Metadata.WellFormed.{IsWellFormed, run-IsWellFormed}
use go_infra_lab.Metadata.Nodes.{cutoff, healthy_nodes-mark_expired_nodes}
use package.go_infra_lab.Tests.{cluster}

abbrev history : List Command
history =
    mark "report" "n2" ReplicaState.healthy
    ∷ begin "report" 5 "beef" [] "n2" ("n2" ∷ "n1" ∷ [])
    ∷ expire (pos 100)
    ∷ delete "report"
    ∷ []

pub cluster-IsWellFormed : IsWellFormed cluster
unfolding get
cluster-IsWellFormed = record {
  files_distinct = (refl, tt);
  files_named = (
    record {
      named = refl;
      replicas_distinct = (refl, (refl, tt));
      replicas_named = (refl, (refl, tt));
    },
    tt,
  );
  nodes_distinct = (refl, (refl, (refl, tt)));
  nodes_named = (refl, (refl, (refl, tt)));
}

version-run_example :
    (version_of "report" cluster ≤ version_of "report" (run history cluster))
    × (version_of "report" (run history cluster) ≤ version_of "report" cluster + 4)
version-run_example = version-run history "report" cluster (unfold get_file get in omega arith)

run-IsWellFormed_example : IsWellFormed (run history cluster)
run-IsWellFormed_example = run-IsWellFormed history cluster cluster-IsWellFormed

healthy_nodes-mark_expired_nodes_example :
    All
      (λ n. (is_node_healthy n ≡ true) × (cutoff (pos 100) cluster ≤ n.last_heartbeat))
      (healthy_nodes (mark_expired_nodes (pos 100) cluster))
    × IsSorted (by (λ n. n.id)) (healthy_nodes (mark_expired_nodes (pos 100) cluster))
healthy_nodes-mark_expired_nodes_example = healthy_nodes-mark_expired_nodes (pos 100) cluster
