-- ===== src/Lifecycle/Queueing.antt =====
-- app/api.py and app/operations.py: the handlers that queue a deployment, a rebuild or the retry of a
-- configuration. The checks of a template's recipe and inputs, which build the
-- execution plan, are arguments that answer or refuse; so is the name, cleaned or automatic.
pub mod Admitted
mod Tests
use goblin_dock.Base.{
  ℕ, zero, suc, ◌+◌, ◌/◌, max, min, String, Bool, true, false, not, ◌&&◌, ◌||◌, Option, none, some,
  List, [], ◌∷◌, ◌++◌, ◌==◌, leb, if◌then◌else◌, count_if, get, put, get_opt, is_key, Response, ok,
  http, ◌>>=◌, ◌>>◌, reject_if,
}
use goblin_dock.Models.{
  User, is_admin, Db, Connection, connection_key, Deployment, deployment_key, DepStatus, Job,
  job_key, JobType, deploy, rebuild, configure, CreateState, unset, submitting, accepted, rejected,
  is_submitting, is_active, job_of, IpAllocation, Network, next_id, bump, record_audit,
}
use goblin_dock.Network.Pool.{IpTexts}
use goblin_dock.Network.Context.{NetworkCtx, network_ctx}
use goblin_dock.Worker.Run.Limits.{Caps, effective_resource_limits}
use goblin_dock.Worker.Teardown.{latest}
use goblin_dock.Lifecycle.{
  owned_deployment, reject_cleanup_pending, reject_disabled_connection, active_lifecycle_job,
  new_job, set_working,
}

pub record Settings : Type 0 where
  pub caps : Caps
  pub max_vms_per_user : ℕ
  pub max_active_jobs_per_user : ℕ

-- A job that the user queued and that has not ended.
abbrev pub active_of : User → Job → Bool
active_of user job = is_key user.id job.created_by && is_active job.status

-- `_enforce_active_job_quota`, on the jobs that its query saw. The retry of a configuration takes no part
-- in the admission lock, so that a job may be queued between that query and a handler's commit.
unfoldable pub enforce_active_job_quota : Settings → User → List Job → Response (Unit {0})
enforce_active_job_quota s user counted =
    reject_if
      (not (is_admin user.role)
        && leb s.max_active_jobs_per_user (count_if (active_of user) counted))
      429 "Active job quota reached"

abbrev pub vm_of : User → Deployment → Bool
vm_of user dep = is_key user.id dep.owner_id

-- `_enforce_quota(..., "vm")`; 0 is no quota.
unfoldable pub enforce_vm_quota : Settings → User → Db → Response (Unit {0})
enforce_vm_quota s user db =
    reject_if
      (not (is_admin user.role)
        && (not (s.max_vms_per_user == 0)
            && leb s.max_vms_per_user (count_if (vm_of user) db.deployments)))
      429 "VM quota reached"

-- The template's network: not set, set but gone, or a network and the connection that it belongs to.
pub data TemplateNetwork : Type 0 where
  unset_network missing : TemplateNetwork
  linked : Network → ℕ → TemplateNetwork

pub record Template : Type 0 where
  pub public : Bool
  pub owner_id : Option ℕ
  -- The base image is there and of the kind "base".
  pub has_base : Bool
  pub connection_id : Option ℕ
  pub default_cpu : ℕ
  pub default_ram : ℕ
  pub default_disk : ℕ
  pub network : TemplateNetwork

pub record DeployBody : Type 0 where
  pub cpu : Option ℕ
  pub ram : Option ℕ
  pub disk : Option ℕ

abbrev pub visible : Template → User → Bool
visible t user = t.public || (is_key user.id t.owner_id || is_admin user.role)

abbrev pub or_else : Option ℕ → ℕ → ℕ
or_else none n = n
or_else (some m) n = m

-- At least one, and at most the cap where there is one.
abbrev pub within : ℕ → Bool → ℕ → ℕ
within cap capped requested = max 1 (if capped then min requested cap else requested)

unfoldable pub template_network : TemplateNetwork → Connection → Network → Response Network
template_network unset_network conn default = ok default
template_network missing conn default = http 400 "template network is missing — edit the template"
template_network (linked net owner) conn default =
    if owner == conn.id
    then ok net
    else http 400 "template network does not belong to its connection — edit the template"

abbrev pub new_deployment :
    Settings → DeployBody → Template → Connection → User → String → List Deployment → Deployment
new_deployment s body t conn user name rows =
    let limits = effective_resource_limits conn s.caps in
    record {
      id = next_id rows;
      name = name;
      owner_id = some user.id;
      connection_id = some conn.id;
      vmid = none;
      node = conn.node;
      cpu = within limits.max_cores (not (limits.max_cores == 0)) (or_else body.cpu t.default_cpu);
      ram =
          within (limits.max_ram_mb / 1024) (not (limits.max_ram_mb == 0))
            (or_else body.ram t.default_ram);
      disk =
          within limits.max_disk_gb (not (limits.max_disk_gb == 0))
            (or_else body.disk t.default_disk);
      ip = "";
      status = DepStatus.working;
      error = "";
      identity_state = unset;
      cleanup_origin = none;
      cleanup_last_attempt_at = none;
    }

unfoldable pub queue_deploy : Deployment → List IpAllocation → User → ℕ → Db → Db
queue_deploy dep rows user now db = bump (
    record_audit user.id "deploy" dep.id dep.name (record db {
      deployments = db.deployments ++ dep ∷ [];
      allocations = rows;
      jobs = db.jobs ++ new_job deploy dep user now db.jobs ∷ [];
    }))

-- From the template's connection on. `default` is the network of `default_network_for`.
unfoldable pub deploy_to :
    IpTexts
    → Settings
    → DeployBody
    → Template
    → Response (Unit {0})
    → Response String
    → Network
    → Connection
    → User
    → ℕ
    → Db
    → Response Db
unfolding queue_deploy template_network network_ctx effective_resource_limits
deploy_to ip s body t checked name default conn user now db = do
  reject_disabled_connection (some conn)
  checked
  called ← name
  net ← template_network t.network conn default
  let dep = new_deployment s body t conn user called db.deployments
  ctx ← network_ctx ip net dep.id db.allocations
  ok (queue_deploy dep ctx.1 user now db)

-- `_deploy_transaction`; `counted` are the jobs that the quota's query saw.
unfoldable pub deploy_transaction :
    IpTexts
    → Settings
    → DeployBody
    → Option Template
    → Response (Unit {0})
    → Response String
    → Network
    → User
    → List Job
    → ℕ
    → Db
    → Response Db
unfolding enforce_active_job_quota enforce_vm_quota deploy_to
deploy_transaction ip s body tpl checked name default user counted now db = do
  enforce_active_job_quota s user counted
  enforce_vm_quota s user db
  elim tpl [
    | none ↦ http 404 "template not found"
    | some t ↦ do
      reject_if (not (visible t user)) 404 "template not found"
      reject_if (not t.has_base) 400 "template has no base image — edit it first"
      elim (get_opt t.connection_id db.connections) [
        | none ↦ http 400 "template has no location — edit it and pick a Proxmox connection"
        | some conn ↦ deploy_to ip s body t checked name default conn user now db
      ]
  ]

abbrev pub no_active : String → Option Job → Response (Unit {0})
no_active detail none = ok tt
no_active detail (some job) = http 409 detail

unfoldable pub queue_rebuild : Deployment → List IpAllocation → User → ℕ → Db → Db
queue_rebuild dep rows user now db = bump (
    record_audit user.id "vm.rebuild" dep.id dep.name (record db {
      deployments = put dep.id set_working db.deployments;
      allocations = rows;
      jobs = db.jobs ++ new_job rebuild dep user now db.jobs ∷ [];
    }))

-- `_vm_rebuild_transaction`; `prepared` is what `prepare_rebuild` answers, with the reservations it leaves.
unfoldable pub vm_rebuild :
    Settings
    → (Deployment → Response (List IpAllocation))
    → ℕ
    → User
    → List Job
    → ℕ
    → Db
    → Response Db
unfolding enforce_active_job_quota queue_rebuild
vm_rebuild s prepared dep_id user counted now db = do
  dep ← owned_deployment dep_id user db
  reject_cleanup_pending dep
  no_active "job already active for this deployment" (active_lifecycle_job dep.id db)
  enforce_active_job_quota s user counted
  reject_disabled_connection (get_opt dep.connection_id db.connections)
  rows ← prepared dep
  ok (queue_rebuild dep rows user now db)

-- `type in ("deploy", "rebuild", "configure")`
abbrev pub carries_plan : JobType → Bool
carries_plan deploy = true
carries_plan rebuild = true
carries_plan configure = true
carries_plan _ = false

abbrev pub is_rejected : CreateState → Bool
is_rejected rejected = true
is_rejected _ = false

-- The newest job with a plan, whose VM is confirmed.
unfoldable pub prior_plan : Deployment → Db → Response Job
prior_plan dep db = elim (latest (λ j. job_of dep.id j && carries_plan j.type) db.jobs) [
  | none ↦ http 409 "Captured plan or confirmed VM identity is unavailable"
  | some prior ↦
      if is_submitting prior.create_state
        || (is_submitting dep.identity_state || is_rejected dep.identity_state)
      then http 409 "Captured plan or confirmed VM identity is unavailable"
      else ok prior
]

abbrev pub start_work : Deployment → Deployment
start_work dep = record dep { status = DepStatus.working; error = "" }

unfoldable pub queue_configure : Deployment → User → ℕ → Db → Db
queue_configure dep user now db = bump (
    record_audit user.id "retry-configuration" dep.id dep.name (record db {
      deployments = put dep.id start_work db.deployments;
      jobs =
          db.jobs
          ++ record (new_job configure dep user now db.jobs) { create_state = accepted } ∷ [];
    }))

abbrev pub reachable : Deployment → Option Connection → Response (Unit {0})
reachable dep none = http 409 "VM identity or connection is missing"
reachable dep (some conn) = elim dep.vmid [
  | none ↦ http 409 "VM identity or connection is missing"
  | some v ↦ reject_disabled_connection (some conn)
]

-- `retry_configuration`; `checked` is what the checks of the prior job's plan answer.
unfoldable pub retry_configuration :
    Settings → Bool → (Job → Response (Unit {0})) → ℕ → User → List Job → ℕ → Db → Response Db
unfolding enforce_active_job_quota queue_configure prior_plan
retry_configuration s acknowledged checked dep_id user counted now db = do
  reject_if (not acknowledged) 400 "Acknowledge that captured post-boot scripts will run again"
  dep ← owned_deployment dep_id user db
  reject_cleanup_pending dep
  no_active "VM operation is still active" (active_lifecycle_job dep.id db)
  reachable dep (get_opt dep.connection_id db.connections)
  prior ← prior_plan dep db
  checked prior
  enforce_active_job_quota s user counted
  ok (queue_configure dep user now db)
