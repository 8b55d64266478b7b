-- ===== src/Lifecycle/Queueing/Tests.antt =====
-- A rebuild of one deployment by its owner.
use goblin_dock.Base.{
  ◌+◌, ◌≡◌, refl, ◌⊎◌, ◌≤◌, true, arith, ok, http, get, put, first, update, count_if, Response,
  List,
}
use goblin_dock.Models.{Db, Deployment, is_admin, IpAllocation, next_id, deployment_key}
use goblin_dock.Accounts.Tests.{guest}
use goblin_dock.Network.Tests.{texts}
use goblin_dock.Worker.Tests.{lab_db, vm_dep}
use goblin_dock.Worker.Teardown.{latest}
use goblin_dock.Worker.Run.Limits.{}
use goblin_dock.Lifecycle.{
  owned_deployment, reject_cleanup_pending, reject_disabled_connection, active_lifecycle_job,
  is_active_for,
}
use goblin_dock.Lifecycle.Admission.{OneActive}
use goblin_dock.Lifecycle.Queueing.{
  Settings, active_of, enforce_active_job_quota, queue_rebuild, vm_rebuild,
}
use goblin_dock.Lifecycle.Queueing.Admitted.{rebuilt, Admitted-bounded}

abbrev settings : Settings
settings = record {
  caps = record { max_cores = 8; max_ram_mb = 8192; max_disk_gb = 64 };
  max_vms_per_user = 2;
  max_active_jobs_per_user = 1;
}

abbrev keeps_rows : Deployment → Response (List IpAllocation)
keeps_rows dep = ok lab_db.allocations

abbrev rebuilt_db : Db
rebuilt_db = queue_rebuild vm_dep lab_db.allocations guest 60 lab_db

rebuilds : vm_rebuild settings keeps_rows 3 guest lab_db.jobs 60 lab_db ≡ ok rebuilt_db
unfolding vm_rebuild owned_deployment reject_cleanup_pending reject_disabled_connection
    active_lifecycle_job enforce_active_job_quota latest get first count_if
rebuilds = refl

-- The second request meets the first one's job.
rebuild_twice :
    vm_rebuild settings keeps_rows 3 guest rebuilt_db.jobs 60 rebuilt_db
    ≡ http 409 "job already active for this deployment"
unfolding vm_rebuild queue_rebuild owned_deployment reject_cleanup_pending active_lifecycle_job
    latest get first put update next_id
rebuild_twice = refl

lab_one : OneActive lab_db.jobs
unfolding count_if
lab_one d = ground arith

lab_fresh : count_if (is_active_for (next_id lab_db.deployments)) lab_db.jobs ≡ 0
unfolding count_if next_id
lab_fresh = refl

Admitted-bounded_example :
    OneActive rebuilt_db.jobs
    × ((is_admin guest.role ≡ true)
        ⊎ (count_if (active_of guest) rebuilt_db.jobs + count_if (active_of guest) lab_db.jobs
            ≤ settings.max_active_jobs_per_user + count_if (active_of guest) lab_db.jobs))
Admitted-bounded_example =
    Admitted-bounded texts settings guest lab_db.jobs 60 lab_db rebuilt_db lab_one lab_fresh
      (rebuilt keeps_rows 3 rebuilds)
