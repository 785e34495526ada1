-- ===== src/Replication/Stats.antt =====
-- distributed-fs/replication.go: `Stats` counts the tasks by state.
use go_infra_lab.Common.{
  ℕ, ◌+◌, String, List, [], ◌∷◌, ◌≡◌, ◌∙◌, arith, ◌==◌, eq_iff, if◌then◌else◌, count,
}
use go_infra_lab.GoMap.{GoMap, get, put, values}
use go_infra_lab.GoMap.Laws.{get-put}
use package.go_infra_lab.Replication.{ReplicationTask, ReplicationTaskState}
use package.go_infra_lab.Replication.Queue.{MemoryQueue, state_text, counter, stats_loop, stats}

counter-put :
    (k j : String) (n : ℕ) (m : GoMap ℕ)
    → counter j (put k n m) ≡ (if k == j then n else counter j m)
unfolding counter
counter-put k j n m = ground (arith, get-put k j n m)

pub counter-stats_loop :
    (ts : List ReplicationTask) (m : GoMap ℕ) (k : String)
    → counter k (stats_loop ts m) ≡ counter k m + count (λ t. state_text t.state == k) ts
unfolding stats_loop
counter-stats_loop [] m k = omega arith
counter-stats_loop (t ∷ ts) m k =
    let s = state_text t.state in
    ground (
      arith,
      counter-stats_loop ts (put s (counter s m + 1) m) k,
      counter-put s k (counter s m + 1) m,
      eq_iff s k,
    )

-- Each counter that `Stats` returns is the number of queued tasks in that state; a state without
-- tasks has no counter, which reads as 0.
counter-stats :
    (q : MemoryQueue) (s : ReplicationTaskState)
    → counter (state_text s) (stats q)
      ≡ count (λ t. state_text t.state == state_text s) (values q.tasks)
unfolding stats
counter-stats q s =
    counter-stats_loop (values q.tasks) [] (state_text s) ∙ unfold counter get in omega arith
