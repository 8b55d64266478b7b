-- ===== src/Lifecycle.antt =====
-- app/api.py and app/operations.py: the handlers that queue a destruction, clean up a local record
-- and recover a deployment. Each runs under the lock of its deployment, and those that queue a job
-- under the admission lock too, so a handler is one step. What Proxmox answers is a parameter.
pub mod Jobs
pub mod Admission
pub mod Cleanup
pub mod Queueing
pub mod Locks
pub mod Names
mod Power
mod Tests
use goblin_dock.Base.{
  ℕ, zero, suc, ◌+◌, String, ◌≡◌, Bool, true, false, not, ◌&&◌, ◌||◌, Option, none, some, List, [],
  ◌∷◌, ◌++◌, ◌==◌, if◌then◌else◌, delete, get, put, remove, get_opt, is_key, str_eq, str_append,
  Response, ok, http, ◌>>=◌, ◌>>◌, reject_if,
}
use goblin_dock.Models.{
  User, is_admin, Db, Connection, connection_key, Deployment, deployment_key, DepStatus,
  is_cleanup_pending, Job, job_key, JobType, destroy, JobStatus, unset, accepted, is_submitting,
  is_active, is_lifecycle, job_of, allocation_of, next_id, bump, record_audit,
}
use goblin_dock.Worker.Remote.{Answers, Presence, absent, present, unknown, probe_vm_presence}
use goblin_dock.Worker.Teardown.{latest}
use goblin_dock.Worker.Reconcile.{is_destroy}

-- The owner-or-admin rule.
unfoldable pub owned_deployment : ℕ → User → Db → Response Deployment
owned_deployment dep_id user db = elim (get dep_id db.deployments) [
  | none ↦ http 404 "not found"
  | some dep ↦
      if not (is_key user.id dep.owner_id) && not (is_admin user.role)
      then http 403 "not your VM"
      else ok dep
]

unfoldable pub reject_cleanup_pending : Deployment → Response (Unit {0})
reject_cleanup_pending dep = do
  reject_if (is_submitting dep.identity_state) 409 "Remote operation is unconfirmed"
  reject_if (is_cleanup_pending dep.status) 409 "VM cleanup is pending"

unfoldable pub reject_disabled_connection : Option Connection → Response (Unit {0})
reject_disabled_connection none = ok tt
reject_disabled_connection (some conn) =
    reject_if conn.disabled 409 "Proxmox connection is disabled"

-- A job that is queued, running or waiting to change the deployment.
abbrev pub is_active_for : ℕ → Job → Bool
is_active_for dep_id j = job_of dep_id j && (is_lifecycle j.type && is_active j.status)

unfoldable pub active_lifecycle_job : ℕ → Db → Option Job
active_lifecycle_job dep_id db = latest (is_active_for dep_id) db.jobs

abbrev pub new_job : JobType → Deployment → User → ℕ → List Job → Job
new_job type dep user now jobs = record {
  id = next_id jobs;
  type = type;
  deployment_id = some dep.id;
  image_id = none;
  connection_id = dep.connection_id;
  status = JobStatus.queued;
  pct = 0;
  phase = "";
  created_by = some user.id;
  cancel_requested = false;
  error = "";
  create_state = unset;
  remote_task = "";
  remote_node = "";
  waiting_since = none;
  created_at = now;
  started_at = none;
  finished_at = none;
  dismissed = false;
  dismissed_at = none;
}

abbrev pub set_working : Deployment → Deployment
set_working dep = record dep {
  status = DepStatus.working;
  cleanup_origin = none;
  cleanup_last_attempt_at = none;
}

-- The answer of a handler that queues a job.
pub record Queued : Type 0 where
  pub job_id : ℕ
  pub deduped : Bool

unfoldable pub queue_destroy : Deployment → User → ℕ → Db → Queued × Db
queue_destroy dep user now db =
    let job = new_job destroy dep user now db.jobs in
    (
      record { job_id = job.id; deduped = false },
      bump (
          record_audit user.id "vm.destroy" dep.id dep.name (record db {
            deployments = put dep.id set_working db.deployments;
            jobs = db.jobs ++ job ∷ [];
          })),
    )

-- A destruction that is in flight is returned as it is; another job in flight comes first.
unfoldable pub admit_destroy : Option Job → Deployment → User → ℕ → Db → Response (Queued × Db)
unfolding queue_destroy
admit_destroy none dep user now db = ok (queue_destroy dep user now db)
admit_destroy (some job) dep user now db =
    if is_destroy job.type
    then ok (record { job_id = job.id; deduped = true }, db)
    else http 409 "job already active for this deployment"

unfoldable pub vm_destroy : ℕ → User → ℕ → Db → Response (Queued × Db)
unfolding admit_destroy
vm_destroy dep_id user now db = do
  dep ← owned_deployment dep_id user db
  reject_cleanup_pending dep
  reject_disabled_connection (get_opt dep.connection_id db.connections)
  admit_destroy (active_lifecycle_job dep.id db) dep user now db

abbrev pub clear_pending : Deployment → Deployment
clear_pending dep =
    if is_cleanup_pending dep.status then record dep { status = DepStatus.error } else dep

-- An exception rolls the whole transaction back.
unfoldable pub retry_cleanup : ℕ → User → ℕ → Db → Response (Queued × Db)
unfolding vm_destroy
retry_cleanup dep_id user now db = do
  dep ← owned_deployment dep_id user db
  reject_if (is_submitting dep.identity_state) 409 "Confirm the remote task outcome"
  elim (active_lifecycle_job dep.id db) [
    | some job ↦ http 409 "VM operation is still active"
    | none ↦
        vm_destroy dep_id user now
          (record db { deployments = put dep.id clear_pending db.deployments })
  ]

abbrev pub is_absent : Presence → Bool
is_absent absent = true
is_absent _ = false

abbrev pub is_present : Presence → Bool
is_present present = true
is_present _ = false

-- What a read-only probe says of the VM, and its detail; a disabled source is not asked.
unfoldable pub presence_of : Option Connection → Option ℕ → Answers → Presence × String
presence_of none vmid ans = (unknown, "Proxmox connection no longer exists")
presence_of (some conn) vmid ans =
    if conn.disabled
    then (unknown, "Proxmox connection is disabled")
    else (probe_vm_presence ans.client vmid ans, ans.detail)

unfoldable pub cleanup_detail : Bool → String → Deployment → String
cleanup_detail verified detail dep = str_append dep.name (
    str_append " — local record removed, Proxmox untouched (" (
      str_append
        (if verified
          then "upstream absence confirmed"
          else str_append "unverified admin override: " detail)
        ")"))

-- The answer is whether the absence was verified.
unfoldable pub vm_cleanup_local : ℕ → Bool → User → Answers → Db → Response (Bool × Db)
unfolding presence_of cleanup_detail
vm_cleanup_local dep_id acknowledge user ans db = do
  dep ← owned_deployment dep_id user db
  elim (active_lifecycle_job dep.id db) [
    | some job ↦ http 409 "job already active for this deployment"
    | none ↦ do
      let found = presence_of (get_opt dep.connection_id db.connections) dep.vmid ans
      let verified = is_absent found.0
      reject_if (is_present found.0) 409 "the VM still exists in Proxmox"
      reject_if (not verified && not (is_admin user.role)) 409 "absence could not be verified"
      reject_if (not verified && not acknowledge) 409 "acknowledge the orphan-VM risk"
      ok (
        verified,
        bump (
            record_audit user.id "vm.cleanup_local" dep.id (cleanup_detail verified found.1 dep)
              (record db {
                allocations = delete (allocation_of dep.id) db.allocations;
                deployments = remove dep.id db.deployments;
              })),
      )
  ]

-- What the recovery handler answers.
pub data Recovery : Type 0 where
  not_visible needs_confirmation located recovered : Recovery

-- The newest job of the deployment, whatever its type and status.
unfoldable pub newest_job : ℕ → Db → Option Job
newest_job dep_id db = latest (job_of dep_id) db.jobs

unfoldable pub is_unsettled : Option Job → Deployment → Bool
is_unsettled none dep = is_submitting dep.identity_state
is_unsettled (some job) dep = is_submitting dep.identity_state || is_submitting job.create_state

-- The remote task of the newest job must have ended: `none` is a call that raised.
unfoldable pub check_task : Option Job → Option Bool → Response (Unit {0})
check_task none task = ok tt
check_task (some job) task = if str_eq job.remote_task "" then ok tt else elim task [
  | none ↦ http 409 "Remote task outcome is still unavailable"
  | some stopped ↦ reject_if (not stopped) 409 "Remote task is still running"
]

unfoldable pub confirm_job : Option Job → List Job → List Job
confirm_job none jobs = jobs
confirm_job (some job) jobs = put job.id (λ j. record j { create_state = accepted }) jobs

unfoldable pub located_at : Bool → String → Deployment → Deployment
located_at unsettled node dep = record dep {
  identity_state = if unsettled then accepted else dep.identity_state;
  node = node;
  status = if is_cleanup_pending dep.status then DepStatus.error else dep.status;
  cleanup_origin = if is_cleanup_pending dep.status then none else dep.cleanup_origin;
  error = if str_eq dep.error "" then "VM located; choose a recovery action" else dep.error;
}

-- The part of the recovery after the VM was found on a node.
unfoldable pub recover_at :
    Bool → String → Option Bool → Option Job → Deployment → User → Db → Response (Recovery × Db)
unfolding is_unsettled check_task confirm_job located_at
recover_at confirm node task job dep user db =
    let unsettled = is_unsettled job dep in
    if unsettled && not confirm
    then ok (needs_confirmation, db)
    else if not confirm
    then ok (located, db)
    else do
      if unsettled then check_task job task else ok tt
      ok (
        recovered,
        bump (
            record_audit user.id "reconcile" dep.id dep.name (record db {
              deployments = put dep.id (located_at unsettled node) db.deployments;
              jobs = if unsettled then confirm_job job db.jobs else db.jobs;
            })),
      )

-- `find_vm_node` is asked only when there is a VM id.
unfoldable pub node_of : Option ℕ → Option (Option String) → Option (Option String)
node_of none answer = some none
node_of (some v) answer = answer

-- A call to Proxmox that raises ends the request as an internal error.
unfoldable pub recover_found :
    Option (Option String)
    → Bool
    → Answers
    → Option Bool
    → Deployment
    → User
    → Db
    → Response (Recovery × Db)
unfolding recover_at newest_job
recover_found none confirm ans task dep user db = http 500 "Internal Server Error"
recover_found (some none) confirm ans task dep user db = ok (not_visible, db)
recover_found (some (some node)) confirm ans task dep user db = elim ans.power_before [
  | none ↦ http 500 "Internal Server Error"
  | some power ↦ recover_at confirm node task (newest_job dep.id db) dep user db
]

unfoldable pub recover_on :
    Option Connection
    → Bool
    → Answers
    → Option Bool
    → Deployment
    → User
    → Db
    → Response (Recovery × Db)
unfolding recover_found node_of
recover_on none confirm ans task dep user db = http 409 "connection is missing"
recover_on (some conn) confirm ans task dep user db = do
  reject_disabled_connection (some conn)
  reject_if (not ans.client) 500 "Internal Server Error"
  recover_found (node_of dep.vmid ans.vm_node) confirm ans task dep user db

unfoldable pub reconcile : ℕ → Bool → User → Answers → Option Bool → Db → Response (Recovery × Db)
unfolding recover_on
reconcile dep_id confirm user ans task db = do
  dep ← owned_deployment dep_id user db
  elim (active_lifecycle_job dep.id db) [
    | some job ↦ http 409 "VM operation is still active"
    | none ↦ recover_on (get_opt dep.connection_id db.connections) confirm ans task dep user db
  ]
