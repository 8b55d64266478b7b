-- ===== src/Lifecycle/Tests.antt =====
-- Runs of the lifecycle handlers on one deployment, its jobs and its owner.
use goblin_dock.Base.{
  ℕ, ◌≡◌, refl, ◌⊎◌, true, false, none, some, [], ◌∷◌, arith, count_if, exists, get, get_opt, first,
  put, update, remove, select, any, ok,
}
use goblin_dock.Models.{
  admin, User, Db, Connection, connection_key, Deployment, deployment_key, DepStatus, Job, job_key,
  deploy, JobStatus, unset, submitting, allocation_of, next_id,
}
use goblin_dock.Worker.Remote.{Answers, powered_on, probe_vm_presence, probe_inventory}
use goblin_dock.Worker.Teardown.{latest}
use goblin_dock.Lifecycle.{
  owned_deployment, reject_cleanup_pending, reject_disabled_connection, active_lifecycle_job,
  queue_destroy, admit_destroy, vm_destroy, retry_cleanup, vm_cleanup_local, presence_of,
  cleanup_detail, recovered, reconcile, recover_on, recover_found, recover_at, node_of, newest_job,
  is_unsettled, check_task, confirm_job, located_at,
}
use goblin_dock.Lifecycle.Admission.{OneActive, InFlight, vm_destroy-OneActive}
use goblin_dock.Lifecycle.Cleanup.{
  ShownAbsent, Overridden, vm_cleanup_local-safe, Recovers, reconcile-safe,
}
use goblin_dock.Lifecycle.Jobs.{
  owned_job, delete_job, purge_job_permanently, clear_jobs, purge_all_jobs, prune_old_jobs,
}
use goblin_dock.Lifecycle.Jobs.Active.{bulk-keeps-active}

abbrev owner : User
owner = record {
  id = 2;
  email = "guest@lab";
  name = "guest";
  password_hash = "";
  role = admin;
  disabled = false;
  deleted_at = none;
  last_login = none;
  session_epoch = 0;
  failed_logins = 0;
  locked_until = none;
  widget_key_hash = none;
  widget_key_last_used = none;
}

abbrev lab_source : Connection
lab_source = record {
  id = 1;
  name = "lab";
  node = "pve";
  ssh_key_path = "";
  max_cores = 0;
  max_ram_mb = 0;
  max_disk_gb = 0;
  disabled = false;
}

abbrev stopped_vm : Deployment
stopped_vm = record {
  id = 3;
  name = "vm";
  owner_id = some 2;
  connection_id = some 1;
  vmid = some 120;
  node = "pve";
  cpu = 2;
  ram = 4;
  disk = 32;
  ip = "10.0.0.9";
  status = DepStatus.stopped;
  error = "";
  identity_state = unset;
  cleanup_origin = none;
  cleanup_last_attempt_at = none;
}

abbrev job_in : ℕ → ℕ → JobStatus → Job
job_in id dep status = record {
  id = id;
  type = deploy;
  deployment_id = some dep;
  image_id = none;
  connection_id = some 1;
  status = status;
  pct = 100;
  phase = "";
  created_by = some 2;
  cancel_requested = false;
  error = "";
  create_state = unset;
  remote_task = "";
  remote_node = "";
  waiting_since = none;
  created_at = 0;
  started_at = some 1;
  finished_at = some 2;
  dismissed = false;
  dismissed_at = none;
}

abbrev done_job : Job
done_job = job_in 5 3 JobStatus.succeeded

-- Of another deployment.
abbrev busy_job : Job
busy_job = job_in 6 4 JobStatus.running

abbrev fleet : Db
fleet = record {
  users = owner ∷ [];
  connections = lab_source ∷ [];
  deployments = stopped_vm ∷ [];
  jobs = done_job ∷ busy_job ∷ [];
  allocations =
      record { id = 1; network_id = 1; ip = "10.0.0.9"; deployment_id = some 3; state = "reserved" }
      ∷ [];
  images = [];
  secrets = [];
  variables = [];
  audit = [];
  sent = [];
  version = 0;
}

fleet-OneActive : OneActive fleet.jobs
unfolding count_if
fleet-OneActive d = ground arith

abbrev destroyed : Db
destroyed = (queue_destroy stopped_vm owner 10 fleet).1

destroy_queued :
    vm_destroy 3 owner 10 fleet ≡ ok (record { job_id = 7; deduped = false }, destroyed)
unfolding vm_destroy owned_deployment reject_cleanup_pending reject_disabled_connection
    active_lifecycle_job admit_destroy queue_destroy latest get first next_id
destroy_queued = refl

vm_destroy-OneActive_example :
    OneActive destroyed.jobs × InFlight 3 (record { job_id = 7; deduped = false }) destroyed
vm_destroy-OneActive_example =
    vm_destroy-OneActive 3 owner 10 fleet (record { job_id = 7; deduped = false }) destroyed
      fleet-OneActive destroy_queued

-- Queued again, the same job is answered.
destroy_again :
    vm_destroy 3 owner 11 destroyed ≡ ok (record { job_id = 7; deduped = true }, destroyed)
unfolding vm_destroy owned_deployment reject_cleanup_pending reject_disabled_connection
    active_lifecycle_job admit_destroy queue_destroy latest get first next_id put update
destroy_again = refl

abbrev pending_fleet : Db
pending_fleet = record fleet {
  deployments = record stopped_vm { status = DepStatus.cleanup_pending } ∷ [];
}

abbrev errored_fleet : Db
errored_fleet = record fleet { deployments = record stopped_vm { status = DepStatus.error } ∷ [] }

abbrev retried : Db
retried = (queue_destroy (record stopped_vm { status = DepStatus.error }) owner 10 errored_fleet).1

cleanup_retried :
    retry_cleanup 3 owner 10 pending_fleet ≡ ok (record { job_id = 7; deduped = false }, retried)
unfolding retry_cleanup vm_destroy owned_deployment reject_cleanup_pending
    reject_disabled_connection active_lifecycle_job admit_destroy queue_destroy latest get first
    next_id put update
cleanup_retried = refl

-- A complete inventory does not list the VM.
abbrev not_listed : Answers
not_listed = record {
  client = true;
  task_stopped = true;
  vm_node = some (some "pve2");
  power_before = some powered_on;
  power_after = none;
  stop_task = none;
  stop_waited = false;
  destroy_task = none;
  destroy_waited = false;
  guests = some (100 ∷ []);
  vmid_free = true;
  detail = "absent";
}

abbrev cleaned : Db
cleaned = record fleet {
  deployments = [];
  allocations = [];
  audit =
      record {
        user_id = 2;
        action = "vm.cleanup_local";
        target_id = 3;
        detail = "vm — local record removed, Proxmox untouched (upstream absence confirmed)";
      }
      ∷ [];
  version = 1;
}

cleans_up : vm_cleanup_local 3 false owner not_listed fleet ≡ ok (true, cleaned)
unfolding vm_cleanup_local owned_deployment active_lifecycle_job presence_of cleanup_detail
    probe_vm_presence probe_inventory latest get first remove select any
cleans_up = refl

vm_cleanup_local-safe_example :
    (dep : Deployment) × (get 3 fleet.deployments ≡ some dep)
    × (active_lifecycle_job 3 fleet ≡ none)
    × (ShownAbsent dep not_listed fleet ⊎ Overridden false owner dep not_listed fleet)
    × (exists 3 cleaned.deployments ≡ false)
    × (count_if (allocation_of 3) cleaned.allocations ≡ 0)
    × (cleaned.sent ≡ fleet.sent)
vm_cleanup_local-safe_example =
    vm_cleanup_local-safe 3 false owner not_listed fleet true cleaned cleans_up

-- The response to a creation was lost; the VM is found on another node.
abbrev lost_fleet : Db
lost_fleet = record fleet { deployments = record stopped_vm { identity_state = submitting } ∷ [] }

abbrev found_fleet : Db
found_fleet = record fleet {
  deployments = located_at true "pve2" (record stopped_vm { identity_state = submitting }) ∷ [];
  jobs = confirm_job (some done_job) fleet.jobs;
  audit = record { user_id = 2; action = "reconcile"; target_id = 3; detail = "vm" } ∷ [];
  version = 1;
}

recovers : reconcile 3 true owner not_listed (some true) lost_fleet ≡ ok (recovered, found_fleet)
unfolding reconcile recover_on recover_found recover_at node_of newest_job is_unsettled check_task
    confirm_job located_at owned_deployment reject_disabled_connection active_lifecycle_job latest
    get first put update
recovers = refl

reconcile-safe_example :
    (dep : Deployment) × (get 3 lost_fleet.deployments ≡ some dep)
    × (active_lifecycle_job 3 lost_fleet ≡ none)
    × ((conn : Connection) × (get_opt dep.connection_id lost_fleet.connections ≡ some conn)
        × (conn.disabled ≡ false))
    × Recovers true (some true) dep lost_fleet recovered found_fleet
reconcile-safe_example =
    reconcile-safe 3 true owner not_listed (some true) lost_fleet recovered found_fleet recovers

busy_row : get 6 fleet.jobs ≡ some busy_job
unfolding get first
busy_row = refl

bulk-keeps-active_example :
    (get 6 (clear_jobs owner 900000 fleet).1.jobs ≡ some busy_job)
    × (get 6 (purge_all_jobs owner fleet).1.jobs ≡ some busy_job)
    × (get 6 (prune_old_jobs 7 900000 fleet).1.jobs ≡ some busy_job)
bulk-keeps-active_example = bulk-keeps-active 6 busy_job owner 900000 7 fleet busy_row refl

abbrev dismissed_fleet : Db
dismissed_fleet = record fleet {
  jobs = record done_job { dismissed = true; dismissed_at = some 20 } ∷ busy_job ∷ [];
  version = 1;
}

abbrev purged_fleet : Db
purged_fleet = record fleet { jobs = busy_job ∷ [] }

dismisses : delete_job 5 owner 20 fleet ≡ ok dismissed_fleet
unfolding delete_job owned_job get first put update
dismisses = refl

purges : purge_job_permanently 5 owner fleet ≡ ok purged_fleet
unfolding purge_job_permanently owned_job get first remove select
purges = refl
