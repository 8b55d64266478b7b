-- ===== src/Lifecycle/Power.antt =====
-- app/api.py: `vm_action`, the power actions on a VM. What Proxmox answers to one, with its failure made a
-- response, is an argument.
use goblin_dock.Base.{
  ℕ, String, ◌≡◌, Option, none, some, count_if, get_opt, put, str_eq, not, if◌then◌else◌, Response,
  ok, http, ◌>>=◌, ◌>>◌, >>=-eq-ok, >>-eq-ok, arith,
}
use goblin_dock.Models.{
  User, Db, Connection, connection_key, Deployment, deployment_key, DepStatus, bump, record_audit,
}
use goblin_dock.Lifecycle.{
  owned_deployment, reject_cleanup_pending, reject_disabled_connection, active_lifecycle_job,
  is_active_for,
}
use goblin_dock.Lifecycle.Admission.{latest-none}
use goblin_dock.Lifecycle.Queueing.{no_active}
use goblin_dock.Lifecycle.Queueing.Admitted.{no_active-ok}

-- `body.action`
pub data PowerAction : Type 0 where
  start stop restart unknown : PowerAction

-- The three calls of Proxmox with the wait for their task: on a VM id at a node.
pub record Power : Type 0 where
  pub start : ℕ → String → Response (Unit {0})
  pub stop : ℕ → String → Response (Unit {0})
  pub reboot : ℕ → String → Response (Unit {0})

abbrev send_power : Power → PowerAction → ℕ → String → Response (Unit {0})
send_power px start vmid node = px.start vmid node
send_power px stop vmid node = px.stop vmid node
send_power px restart vmid node = px.reboot vmid node
send_power px unknown vmid node = http 400 "unknown action"

abbrev status_after : PowerAction → DepStatus
status_after stop = DepStatus.stopped
status_after _ = DepStatus.running

abbrev action_name : PowerAction → String
action_name start = "vm.start"
action_name stop = "vm.stop"
action_name restart = "vm.restart"
action_name unknown = ""

abbrev powered : PowerAction → Deployment → Deployment
powered action dep = record dep {
  status = status_after action;
  error = "";
  cleanup_origin = none;
  cleanup_last_attempt_at = none;
}

-- The VM of a deployment, with the node that the connection falls back to.
abbrev located : Deployment → Option Connection → Response (ℕ × Connection)
located dep none = http 400 "VM not provisioned"
located dep (some conn) = elim dep.vmid [
  | none ↦ http 400 "VM not provisioned"
  | some vmid ↦ ok (vmid, conn)
]

unfoldable vm_action : Power → PowerAction → ℕ → User → Db → Response Db
vm_action px action dep_id user db = do
  dep ← owned_deployment dep_id user db
  reject_cleanup_pending dep
  no_active "job already active for this deployment" (active_lifecycle_job dep.id db)
  (vmid, conn) ← located dep (get_opt dep.connection_id db.connections)
  reject_disabled_connection (some conn)
  send_power px action vmid (if not (str_eq dep.node "") then dep.node else conn.node)
  ok (
      bump (
        record_audit user.id (action_name action) dep.id dep.name
          (record db { deployments = put dep.id (powered action) db.deployments })))

-- A power action that went through found no active job of the deployment, and leaves the queue and the
-- reservations as they are.
vm_action-idle :
    (px : Power) (action : PowerAction) (dep_id : ℕ) (user : User) (db after : Db)
    → vm_action px action dep_id user db ≡ ok after
    → (dep : Deployment) × (owned_deployment dep_id user db ≡ ok dep)
      × (count_if (is_active_for dep.id) db.jobs ≡ 0)
      × (after.deployments ≡ put dep.id (powered action) db.deployments)
      × (after.jobs ≡ db.jobs)
      × (after.allocations ≡ db.allocations)
unfolding vm_action active_lifecycle_job
vm_action-idle px action dep_id user db after h =
    let (dep, d, h1) = >>=-eq-ok (owned_deployment dep_id user db) _ h in
    let h2 = >>-eq-ok (reject_cleanup_pending dep) _ after h1 in
    let (idle, h3) = no_active-ok _ (active_lifecycle_job dep.id db) _ after h2 in
    let (at, l, h4) = >>=-eq-ok (located dep (get_opt dep.connection_id db.connections)) _ h3 in
    let h5 = >>-eq-ok (reject_disabled_connection (some at.1)) _ after h4 in
    let h6 =
      >>-eq-ok
        (send_power px action at.0 (if not (str_eq dep.node "") then dep.node else at.1.node)) _
        after h5 in
    (
      dep,
      d,
      latest-none (is_active_for dep.id) db.jobs idle,
      ground arith,
      ground arith,
      ground arith,
    )
