-- ===== src/Worker/Tests.antt =====
-- Runs of the worker's reconciliations on one deployment with one address.
use goblin_dock.Base.{
  ◌≡◌, refl, ◌⊎◌, true, false, none, some, [], ◌∷◌, first, select, any, get, get_opt, remove,
}
use goblin_dock.Models.{
  Db, Connection, connection_key, Deployment, deployment_key, DepStatus, IpAllocation, Job, job_key,
  deploy, JobStatus, unset, is_cleanup_pending,
}
use goblin_dock.Worker.Remote.{Answers, px_for_conn, probe_vm_presence}
use goblin_dock.Worker.Ownership.{drop_deployment_if_matches, delete_snippet_of}
use goblin_dock.Worker.Teardown.{retain_unsettled_task, best_effort_destroy}
use goblin_dock.Worker.Reconcile.{
  reconcile_canceled_job, reconcile_failed_job, retry_cleanup_deployment, tried_within_minute,
}
use goblin_dock.Worker.Reconcile.Same.{Same}
use goblin_dock.Worker.Reconcile.Owner.{KeepsOwner, Proven, reconcile_canceled_job-owner}
use goblin_dock.Worker.Reconcile.Failed.{reconcile_failed_job-owner}
use goblin_dock.Worker.Reconcile.Retry.{retry_cleanup_deployment-owner}
use goblin_dock.Worker.Reconcile.Disabled.{Disabled, reconcile_job-Disabled}

abbrev pub lab : Connection
lab = record {
  id = 1;
  name = "lab";
  node = "pve";
  ssh_key_path = "";
  max_cores = 0;
  max_ram_mb = 0;
  max_disk_gb = 0;
  disabled = false;
}

abbrev pub vm_dep : Deployment
vm_dep = record {
  id = 3;
  name = "vm";
  owner_id = some 2;
  connection_id = some 1;
  vmid = some 120;
  node = "pve";
  cpu = 2;
  ram = 4;
  disk = 32;
  ip = "10.0.0.9";
  status = DepStatus.working;
  error = "";
  identity_state = unset;
  cleanup_origin = none;
  cleanup_last_attempt_at = none;
}

abbrev pub deploy_job : Job
deploy_job = record {
  id = 5;
  type = deploy;
  deployment_id = some 3;
  image_id = none;
  connection_id = some 1;
  status = JobStatus.canceled;
  pct = 40;
  phase = "";
  created_by = some 2;
  cancel_requested = true;
  error = "boom";
  create_state = unset;
  remote_task = "";
  remote_node = "";
  waiting_since = none;
  created_at = 0;
  started_at = some 1;
  finished_at = some 2;
  dismissed = false;
  dismissed_at = none;
}

abbrev address_row : IpAllocation
address_row = record {
  id = 1;
  network_id = 1;
  ip = "10.0.0.9";
  deployment_id = some 3;
  state = "reserved";
}

abbrev pub lab_db : Db
lab_db = record {
  users = [];
  connections = lab ∷ [];
  deployments = vm_dep ∷ [];
  jobs = deploy_job ∷ [];
  allocations = address_row ∷ [];
  images = [];
  secrets = [];
  variables = [];
  audit = [];
  sent = [];
  version = 0;
}

-- A complete inventory does not list the VM, and its id is free.
abbrev pub gone_answers : Answers
gone_answers = record {
  client = true;
  task_stopped = true;
  vm_node = some none;
  power_before = none;
  power_after = none;
  stop_task = none;
  stop_waited = false;
  destroy_task = none;
  destroy_waited = false;
  guests = some (100 ∷ 101 ∷ []);
  vmid_free = true;
  detail = "not found";
}

-- The same, with an inventory that could not be read.
abbrev lost_answers : Answers
lost_answers = record gone_answers { guests = none; detail = "no inventory" }

-- A canceled deployment is dropped with its address once its VM is proven absent.
canceled_gone : (reconcile_canceled_job 5 gone_answers lab_db).deployments ≡ []
unfolding reconcile_canceled_job retain_unsettled_task get first best_effort_destroy px_for_conn
    probe_vm_presence any drop_deployment_if_matches delete_snippet_of remove select
canceled_gone = refl

reconcile_canceled_job-owner_example :
    KeepsOwner 3 5 lost_answers lab_db (reconcile_canceled_job 5 lost_answers lab_db)
reconcile_canceled_job-owner_example = reconcile_canceled_job-owner 3 5 lost_answers lab_db

reconcile_failed_job-owner_example :
    KeepsOwner 3 5 gone_answers lab_db (reconcile_failed_job 5 gone_answers lab_db)
reconcile_failed_job-owner_example = reconcile_failed_job-owner 3 5 gone_answers lab_db

abbrev pending_db : Db
pending_db = record lab_db {
  deployments =
      record vm_dep { status = DepStatus.cleanup_pending; cleanup_origin = some deploy } ∷ [];
}

retry_cleanup_deployment-owner_example :
    Same 3 pending_db (retry_cleanup_deployment 3 600 gone_answers pending_db)
    ⊎ ((dep : Deployment) × (get 3 pending_db.deployments ≡ some dep)
        × (is_cleanup_pending dep.status ≡ true)
        × (tried_within_minute 600 dep.cleanup_last_attempt_at ≡ false)
        × Proven 3 dep gone_answers pending_db)
retry_cleanup_deployment-owner_example =
    retry_cleanup_deployment-owner 3 3 600 gone_answers pending_db

abbrev pub off_db : Db
off_db = record lab_db { connections = record lab { disabled = true } ∷ [] }

job_row : get 5 off_db.jobs ≡ some deploy_job
unfolding get first
job_row = refl

dep_row : get_opt (some 3) off_db.deployments ≡ some vm_dep
unfolding get first
dep_row = refl

lab_off : Disabled (some 1) off_db.connections
unfolding get first
lab_off = (record lab { disabled = true }, refl, refl)

reconcile_job-Disabled_example :
    ((reconcile_canceled_job 5 gone_answers off_db).sent ≡ [])
    × ((reconcile_failed_job 5 gone_answers off_db).sent ≡ [])
reconcile_job-Disabled_example =
    reconcile_job-Disabled 5 gone_answers off_db deploy_job vm_dep job_row dep_row lab_off
