-- ===== src/Manager.antt =====
-- distributed-fs/main.go: the flags and the background loop of the manager process.
pub mod Drain
use Prim.Native.String.{len, slice, find}
use go_infra_lab.Common.{
  ℕ, zero, suc, ◌+◌, ◌*◌, String, Option, none, some, [], ◌∷◌, ◌==◌, ◌||◌, not, if◌then◌else◌, pos,
  second,
}
use go_infra_lab.Common.Strings.{contains}
use go_infra_lab.GoMap.{GoMap, put}
use go_infra_lab.Action.{Action, Error, other, Result, ok, err}
use go_infra_lab.Worker.{finished, copy_failed, stopped}
use go_infra_lab.Service.{Service, Environment}
use go_infra_lab.Service.Files.{run_replication_once}
use go_infra_lab.Service.Delegates.{
  register_node, plan_repair, requeue_expired_replication_tasks, mark_expired_nodes,
}

-- `nodeFlags.Set`, which splits at the first "=".
unfoldable pub set_node_flag : String → GoMap String → Result (GoMap String)
set_node_flag v flags =
    let id = slice v 0 (find v "=") in
    let addr = slice v (find v "=" + 1) (len v) in
    if not (contains v "=") || (id == "") || (addr == "")
    then err (other "node must be id=url")
    else ok (put id addr flags)

module _ {S Q O : Type 0} (env : Environment S Q O) where
  -- The loop of `runManager` that registers the nodes of the command line.
  unfoldable pub register_all : GoMap String → Action (Service S Q O) (Unit {0})
  register_all [] s = (ok tt, s)
  register_all ((id, addr) ∷ rest) s =
      let (registered, s') = register_node env id addr s in
      elim registered [ err e ↦ (err e, s') | ok _ ↦ register_all rest s' ]

  -- The inner loop of `managerLoop`: the error that ends it and the service after it. There is none
  -- if the fuel runs out.
  unfoldable pub drain : ℕ → Service S Q O → Option (Error × Service S Q O)
  drain zero s = none
  drain (suc fuel) s =
      let (result, s') = run_replication_once env s in
      elim result [
        | finished _ ↦ drain fuel s'
        | copy_failed _ e ↦ some (e, s')
        | stopped e ↦ some (e, s')
      ]

  -- What `managerLoop` does at a tick. Errors of the first three calls are only logged.
  unfoldable pub manager_tick : ℕ → Service S Q O → Option (Error × Service S Q O)
  manager_tick fuel s =
      let s₁ = (mark_expired_nodes env (pos (10 * second)) s).1 in
      let s₂ = (requeue_expired_replication_tasks env s₁).1 in
      let s₃ = (plan_repair env s₂).1 in drain fuel s₃
