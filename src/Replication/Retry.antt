-- ===== src/Replication/Retry.antt =====
-- distributed-fs/replication.go: retries, their delays and the limit on attempts.
use go_infra_lab.Common.{
  ℕ, zero, suc, ◌+◌, ◌*◌, ◌^◌, ◌≤◌, ◌<◌, Bool, true, false, Option, ◌≡◌, ◌⊎◌, inl, inr, Bool-cases,
  refl, arith, ◌&&◌, leb, ℤ, pos, negsuc, at_least, Time, zero_time, second,
}
use go_infra_lab.Action.{Error}
use package.go_infra_lab.Replication.{
  ReplicationTask, ReplicationTaskState, replication_backoff, max_backoff, max_attempts,
  fail_replication_task, expire_replication_task, ready_to_run,
}

-- The delay as a number of nanoseconds, if it is not negative and in the range.
in_range : ℤ → Bool
in_range (pos d) = leb (2 * second) d && leb d max_backoff
in_range (negsuc d) = false

all_below : ℕ → (ℕ → Bool) → Bool
all_below zero p = true
all_below (suc n) p = p n && all_below n p

all_below_lem : (n : ℕ) (p : ℕ → Bool) (x : ℕ) → all_below n p ≡ true → x < n → p x ≡ true
unfolding all_below
all_below_lem zero p x h lt = absurd (omega arith)
all_below_lem (suc n) p x h lt = ground (arith, all_below_lem n p x)

backoff_table : all_below 34 (λ n. in_range (replication_backoff (pos n))) ≡ true
unfolding all_below in_range replication_backoff
backoff_table = refl

in_range_lem :
    (d : ℤ) → in_range d ≡ true → (n : ℕ) × (d ≡ pos n) × (2 * second ≤ n) × (n ≤ max_backoff)
unfolding in_range
in_range_lem (pos n) h = (n, refl, ground arith, ground arith)
in_range_lem (negsuc n) h = cc

-- As long as the shift does not leave 64 bits, that is up to 33 attempts, the delay before a retry
-- is at least two seconds and at most a minute.
backoff_bounds :
    (n : ℕ)
    → n < 34
    → (d : ℕ) × (replication_backoff (pos n) ≡ pos d) × (2 * second ≤ d) × (d ≤ max_backoff)
backoff_bounds n h =
    in_range_lem (replication_backoff (pos n))
      (all_below_lem 34 (λ n. in_range (replication_backoff (pos n))) n backoff_table h)

-- The delay doubles with each of the attempts that the program makes.
pub backoff_doubles : (n : ℕ) → 0 < n → n < 6 → replication_backoff (pos n) ≡ pos (second * 2 ^ n)
unfolding replication_backoff
backoff_doubles zero p h = absurd (omega arith)
backoff_doubles (suc zero) p h = refl
backoff_doubles (suc (suc zero)) p h = refl
backoff_doubles (suc (suc (suc zero))) p h = refl
backoff_doubles (suc (suc (suc (suc zero)))) p h = refl
backoff_doubles (suc (suc (suc (suc (suc zero))))) p h = refl
backoff_doubles (suc (suc (suc (suc (suc (suc n)))))) p h = absurd (omega arith)

-- A failed copy is retried: with fewer than five attempts the task is pending again, and it becomes
-- ready between two seconds and a minute later. At five it is dead. Either way it keeps no lease.
pub fail_replication_task_lem :
    (task : ReplicationTask) (now : Time) (cause : Option Error) (n : ℕ)
    → task.attempts ≡ pos n
    → let t = fail_replication_task task now cause in
      (t.lease_until ≡ zero_time)
      × (t.attempts ≡ pos n)
      × (((n < 5)
            × (t.state ≡ ReplicationTaskState.pending)
            × (now + 2 * second ≤ t.run_after)
            × (t.run_after ≤ now + max_backoff))
          ⊎ ((5 ≤ n) × (t.state ≡ ReplicationTaskState.dead) × (t.run_after ≡ zero_time)))
unfolding fail_replication_task
fail_replication_task_lem task now cause n e = elim (Bool-cases (leb 5 n)) [
  | inl last ↦ (ground arith, ground arith, inr (ground arith, ground arith, ground arith))
  | inr again ↦
      let (d, delay, least, most) = backoff_bounds n (ground arith) in
      (
        ground arith,
        ground arith,
        inl (ground arith, ground arith, ground (arith, delay), ground (arith, delay)),
      )
]

-- A task that was requeued because its lease ran out is pending and ready at once, unless it has
-- used its five attempts: then it is dead.
pub expire_replication_task_lem :
    (task : ReplicationTask) (now : Time)
    → let t = expire_replication_task task now in
      (t.lease_until ≡ zero_time)
      × (((at_least max_attempts task.attempts ≡ true) × (t.state ≡ ReplicationTaskState.dead))
          ⊎ ((at_least max_attempts task.attempts ≡ false)
              × (t.state ≡ ReplicationTaskState.pending)
              × (ready_to_run t now ≡ true)))
unfolding expire_replication_task ready_to_run
expire_replication_task_lem task now = elim (Bool-cases (at_least max_attempts task.attempts)) [
  | inl last ↦ (ground arith, inl (last, ground arith))
  | inr again ↦ (ground arith, inr (again, ground arith, ground arith))
]
