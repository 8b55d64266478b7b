-- ===== src/Worker/Run/Tests.antt =====
-- Runs of the code of the job types on one deployment.
use goblin_dock.Base.{
  ◌≡◌, refl, true, false, none, some, [], ◌∷◌, get, put, first, any, update, str_append,
}
use goblin_dock.Models.{
  Db, deployment_key, connection_key, job_key, JobStatus, create_vm, put_snippet, configure_vm,
  resize_vm, start_vm,
}
use goblin_dock.Worker.Remote.{powered_on}
use goblin_dock.Worker.Queue.{}
use goblin_dock.Worker.Reconcile.Same.{}
use goblin_dock.Worker.Tests.{vm_dep, deploy_job, lab_db, gone_answers}
use goblin_dock.Worker.Run.{finished, load_job_targets, request, remote, progress, creation}
use goblin_dock.Worker.Run.Ends.{}
use goblin_dock.Network.Pool.{range_from}
use goblin_dock.Worker.Run.Limits.{next_free_vmid, clamp_resource, effective_resource_limits}
use goblin_dock.Worker.Run.Destroy.{Teardown, run_destroy}
use goblin_dock.Worker.Queue.{execute}
use goblin_dock.Worker.Run.{as_impl}
use goblin_dock.Worker.Run.Destroy.Executed.{Settled, execute-destroy}
use goblin_dock.Worker.Run.Destroy.Owner.{}
use goblin_dock.Worker.Run.Deploy.{
  Config, delivered, lost, task, silent, reports, Provision, Settings, run_deploy, deploy_on,
  choose_vmid, claim_identity, build, deliver, create, create_vm_answer, bring_up, grow_disk,
  wait_for_ip, apply_recipe, mark_running, record_facts,
}
use goblin_dock.Worker.Run.Deploy.Answered.{Tracked}
use goblin_dock.Worker.Run.Deploy.Identity.{run_deploy-identity}
use goblin_dock.Worker.Run.Rebuild.{run_rebuild}
use goblin_dock.Worker.Run.Rebuild.Safe.{ProvenFirst, run_rebuild-absent}

abbrev vm_teardown : Teardown
vm_teardown = record {
  current = some powered_on;
  seen = gone_answers;
  stop_task = some "UPID:pve:1";
  stop_wait = finished;
  destroy_task = some "UPID:pve:2";
  destroy_wait = finished;
  left = gone_answers;
  failure = "";
}

abbrev small : Config
small = record {
  cpu = 2;
  ram = 4;
  disk = 32;
  src_url = "https://images/debian.qcow2";
  static_ip = "";
}

abbrev settings : Settings
settings = record {
  caps = record { max_cores = 8; max_ram_mb = 0; max_disk_gb = 64 };
  vmid_min = 100;
  vmid_max = 110;
  title = λ n name. str_append "Phase: " name;
}

abbrev smooth : Provision
smooth = record {
  plan = some (record { recipe = true; ansible = true });
  client = true;
  picked = none;
  used = some (100 ∷ 101 ∷ []);
  is_free = λ v. true;
  compiled = some true;
  auto_root = false;
  delivery = delivered;
  image = finished;
  created = task "UPID:pve:3";
  create_wait = finished;
  cancel_config = false;
  config_task = some "UPID:pve:4";
  config_wait = finished;
  disk_now = some 2;
  cancel_resize = false;
  resize_task = some "UPID:pve:5";
  resize_wait = finished;
  start_task = some "UPID:pve:6";
  start_wait = finished;
  ready = finished;
  polls = silent ∷ reports "10.0.0.9" ∷ [];
  facts = true;
  applied = finished;
  now = 50;
  failure = "boom";
}

-- The creation's answer is lost.
abbrev broken : Provision
broken = record smooth { created = lost }

abbrev new_db : Db
new_db = record lab_db {
  deployments = record vm_dep { vmid = none } ∷ [];
  jobs = record deploy_job { status = JobStatus.running } ∷ [];
}

new_row : get 5 new_db.jobs ≡ some (record deploy_job { status = JobStatus.running })
unfolding get first
new_row = refl

run_deploy-identity_example :
    Tracked lost 3 new_db
      (run_deploy settings small broken (record deploy_job { status = JobStatus.running }) new_db).1
run_deploy-identity_example =
    run_deploy-identity settings small broken (record deploy_job { status = JobStatus.running }) 3
      new_db new_row refl

abbrev old_db : Db
old_db = record lab_db { jobs = record deploy_job { status = JobStatus.running } ∷ [] }

old_row : get 5 old_db.jobs ≡ some (record deploy_job { status = JobStatus.running })
unfolding get first
old_row = refl

run_rebuild-absent_example :
    Tracked
      (task "UPID:pve:3")
      3
      old_db
      (run_rebuild settings small false false true smooth vm_teardown smooth
        (record deploy_job { status = JobStatus.running })
        old_db).1
    × ProvenFirst
        (record deploy_job { status = JobStatus.running })
        vm_teardown
        old_db
        (run_rebuild settings small false false true smooth vm_teardown smooth
          (record deploy_job { status = JobStatus.running })
          old_db).1
run_rebuild-absent_example =
    run_rebuild-absent settings small false false true smooth vm_teardown smooth
      (record deploy_job { status = JobStatus.running }) 3 old_db old_row refl

-- A deployment whose answers are all good runs to its end, and takes the first free VM id.
deploy_sends :
    (run_deploy settings small smooth
      (record deploy_job { status = JobStatus.running })
      new_db).1.sent
    ≡ put_snippet 102 ∷ create_vm 102 ∷ configure_vm 102 ∷ resize_vm 102 ∷ start_vm 102 ∷ []
unfolding run_deploy load_job_targets deploy_on choose_vmid next_free_vmid first any get
    claim_identity build deliver create create_vm_answer bring_up request grow_disk wait_for_ip
    apply_recipe put update remote progress creation range_from mark_running record_facts
    clamp_resource effective_resource_limits
deploy_sends = refl

execute-destroy_example :
    Settled 3
      (record deploy_job { status = JobStatus.running })
      vm_teardown
      gone_answers
      old_db
      (execute (as_impl (run_destroy false true none vm_teardown)) 5 60 gone_answers old_db)
execute-destroy_example =
    execute-destroy 3 5 60 false true none vm_teardown gone_answers
      (record deploy_job { status = JobStatus.running }) old_db old_row
