-- ===== src/Replication/Order.antt =====
-- distributed-fs/replication.go: the order of `sortReplicationTasks`, and what `Pending` returns.
use mathlib.Core.List.{Perm}
use go_infra_lab.Common.{true, ◌≡◌, arith, filter, All, All-filter_self, str_lt_asym, not_lt_trans}
use go_infra_lab.GoMap.{values}
use go_infra_lab.Sorting.{IsOrder, IsSorted, sort_slice-perm, sort_slice-IsSorted, sort_slice-All}
use package.go_infra_lab.Replication.{task_less, sort_replication_tasks}
use package.go_infra_lab.Replication.Queue.{MemoryQueue, pending, is_ready}

pub task_less-IsOrder : IsOrder task_less
unfolding task_less
task_less-IsOrder = record {
  asym = λ a b h. ground (arith, str_lt_asym a.id b.id);
  not_less_trans = λ a b c h k. ground (arith, not_lt_trans a.id b.id c.id);
}

-- `Pending` returns exactly the pending tasks whose time has come, the earliest first, and by ID
-- among tasks of the same time.
pub pending_lem :
    (q : MemoryQueue)
    → Perm (pending q) (filter (is_ready q.now) (values q.tasks))
      × All (λ t. is_ready q.now t ≡ true) (pending q)
      × IsSorted task_less (pending q)
unfolding pending sort_replication_tasks
pending_lem q =
    let ready = filter (is_ready q.now) (values q.tasks) in
    (
      sort_slice-perm task_less ready,
      sort_slice-All task_less (λ t. is_ready q.now t ≡ true) ready
          (All-filter_self (is_ready q.now) (values q.tasks)),
      sort_slice-IsSorted task_less task_less-IsOrder ready,
    )
