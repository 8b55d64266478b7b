-- ===== src/Worker/Run/Deploy.antt =====
-- app/worker.py: `_run_deploy`, with `_preflight_deploy_cloud_init` as far as it talks to the node.
-- The cloud-init texts, the credential and the guest's facts other than its address are not modelled.
pub mod Stage
pub mod Boot
pub mod Answered
pub mod Identity
use goblin_dock.Base.{
  ℕ, zero, suc, ◌+◌, ◌*◌, ◌/◌, String, ◌≡◌, Bool, true, false, not, ◌&&◌, ◌||◌, Option, none, some,
  List, [], ◌∷◌, ◌++◌, ◌==◌, leb, if◌then◌else◌, get, put, str_eq,
}
use goblin_dock.Models.{
  Db, Connection, Deployment, deployment_key, DepStatus, CreateState, submitting, accepted,
  rejected, Job, job_key, JobStatus, Command, create_vm, start_vm, configure_vm, resize_vm,
  put_snippet, delete_snippet, send,
}
use goblin_dock.Worker.Ownership.{vmid_eq}
use goblin_dock.Worker.Queue.{Outcome, canceled, deferred, raised}
use goblin_dock.Worker.Run.{
  Ended, value, stopped, Run, give, fail_run, answer, continue, ◌>>=◌, ◌>>◌, write, stop_if, Waited,
  await, progress, remote, creation, request, load_job_targets, node_for,
}
use goblin_dock.Worker.Run.Limits.{
  Caps, effective_resource_limits, clamp_resource, effective_disk_gb, next_free_vmid,
}

-- The job's context, its defaults filled in.
pub record Config : Type 0 where
  pub cpu : ℕ
  pub ram : ℕ
  pub disk : ℕ
  pub src_url : String
  pub static_ip : String

-- What a plan holds: a recipe, and whether a block of it runs after the boot.
pub record Plan : Type 0 where
  pub recipe : Bool
  pub ansible : Bool

pub data Delivery : Type 0 where
  delivered undelivered invalid : Delivery

-- The answer to the request that creates the VM: refused with a status of 400 to 499, another
-- exception, an answer that is not the id of a task, or the id.
pub data Created : Type 0 where
  refused lost no_task : Created
  task : String → Created

-- One turn of `_wait_for_ip`.
pub data Poll : Type 0 where
  cancel_seen unread silent : Poll
  reports : String → Poll

-- What the calls of a deployment answer; `failure` is the text of the call that raised, if one did.
pub record Provision : Type 0 where
  pub plan : Option Plan
  pub client : Bool
  pub picked : Option String
  pub used : Option (List ℕ)
  pub is_free : ℕ → Bool
  -- `compile_cloudinit`: whether a command of the result is more than `set -e`.
  pub compiled : Option Bool
  pub auto_root : Bool
  pub delivery : Delivery
  pub image : Waited
  pub created : Created
  pub create_wait : Waited
  pub cancel_config : Bool
  pub config_task : Option String
  pub config_wait : Waited
  pub disk_now : Option ℕ
  pub cancel_resize : Bool
  pub resize_task : Option String
  pub resize_wait : Waited
  pub start_task : Option String
  pub start_wait : Waited
  pub ready : Waited
  pub polls : List Poll
  -- `mac_of` returned.
  pub facts : Bool
  pub applied : Waited
  pub now : ℕ
  pub failure : String

-- The settings that a deployment reads, and the title of its n-th phase, which a rebuild counts on.
pub record Settings : Type 0 where
  pub caps : Caps
  pub vmid_min : ℕ
  pub vmid_max : ℕ
  pub title : ℕ → String → String

-- `dep.vmid or px.next_free_vmid(...)`
unfoldable pub choose_vmid : Settings → Deployment → Provision → Run ℕ
choose_vmid s dep p = elim dep.vmid [
  | some v ↦ give v
  | none ↦ answer (next_free_vmid s.vmid_min s.vmid_max p.used p.is_free) p.failure
]

unfoldable pub claim_identity : ℕ → ℕ → String → Db → Db
claim_identity dep_id vmid node db = record db {
  deployments = put dep_id (λ d. record d { vmid = some vmid; node = node }) db.deployments;
}

abbrev pub without_vmid : ℕ → Deployment → Deployment
without_vmid vmid d = if vmid_eq d.vmid (some vmid) then record d { vmid = none } else d

-- `_clear_selected_vmid`
unfoldable pub clear_selected_vmid : ℕ → ℕ → Db → Db
clear_selected_vmid dep_id vmid db = record db {
  deployments = put dep_id (without_vmid vmid) db.deployments;
}

-- The handler of a failure before the creation was submitted, or after it was refused.
unfoldable pub undo_choice : ℕ → ℕ → Bool → Db → Db
unfolding clear_selected_vmid
undo_choice dep_id vmid true db = clear_selected_vmid dep_id vmid (send (delete_snippet vmid) db)
undo_choice dep_id vmid false db = clear_selected_vmid dep_id vmid db

abbrev pub after_stop {ℓ} : {A : Type ℓ} → (Db → Db) → Ended A × Db → Ended A × Db
after_stop undo (value a, db) = (value a, db)
after_stop undo (stopped o, db) = (stopped o, undo db)

-- The channel of the cloud-init data: a snippet where there is a recipe to run or a root password.
abbrev pub uses_snippet : Connection → Plan → Bool → Bool → Bool
uses_snippet conn plan commands auto_root =
    let effective = (plan.recipe && plan.ansible) || commands in
    effective || (auto_root && (effective || not (str_eq conn.ssh_key_path "")))

-- The upload of a snippet and the check of its volume; an invalid one is removed.
unfoldable pub deliver : Command → Command → Bool → Delivery → String → Run Bool
deliver upload drop false answered failure db = (value false, db)
deliver upload drop true delivered failure db = (value true, send upload db)
deliver upload drop true undelivered failure db = (stopped (raised failure), send upload db)
deliver upload drop true invalid failure db = (stopped (raised failure), send drop (send upload db))

-- `creation` and the handlers of the request's answer.
unfoldable pub create_vm_answer : Job → ℕ → ℕ → Bool → Created → String → Run String
unfolding undo_choice
create_vm_answer job dep_id vmid has_snippet refused failure db =
    (stopped (raised failure), undo_choice dep_id vmid has_snippet (creation job.id rejected db))
create_vm_answer job dep_id vmid has_snippet lost failure db = (stopped (raised failure), db)
create_vm_answer job dep_id vmid has_snippet no_task failure db =
    (stopped (raised "VM creation returned no valid task identity; reconcile in Recovery"), db)
create_vm_answer job dep_id vmid has_snippet (task upid) failure db = (value upid, db)

-- From the submission to the end of the import.
unfoldable pub create : Job → ℕ → ℕ → String → Bool → Provision → Run (Unit {0})
unfolding create_vm_answer
create job dep_id vmid node has_snippet p = do
  write (λ db. send (create_vm vmid) (creation job.id submitting db))
  upid ← create_vm_answer job dep_id vmid has_snippet p.created p.failure
  write (λ db. remote job.id upid node (creation job.id accepted db))
  await p.create_wait p.failure

-- The body of the `try` block.
unfoldable pub build : Settings → Job → ℕ → ℕ → String → Bool → Provision → Run (Unit {0})
unfolding deliver create undo_choice
build s job dep_id vmid node by_snippet p = do
  has_snippet ← λ db.
      after_stop (undo_choice dep_id vmid false)
        (deliver (put_snippet vmid) (delete_snippet vmid) by_snippet p.delivery p.failure db)
  write (progress job.id 8 (s.title 2 "Prepare image"))
  λ db. after_stop (undo_choice dep_id vmid has_snippet) (await p.image p.failure db)
  write (progress job.id 20 (s.title 3 "Create"))
  create job dep_id vmid node has_snippet p

-- The disk is never shrunk, and the VM is not started while a resize has not ended.
unfoldable pub grow_disk : Job → ℕ → String → ℕ → Provision → Run ℕ
unfolding request
grow_disk job vmid node wanted p = elim p.disk_now [
  | none ↦
      (stop_if p.cancel_resize canceled
        >> (request job.id (resize_vm vmid) p.resize_task p.resize_wait node p.failure
            >> give wanted))
  | some zero ↦
      (stop_if p.cancel_resize canceled
        >> (request job.id (resize_vm vmid) p.resize_task p.resize_wait node p.failure
            >> give wanted))
  | some (suc n) ↦
      if leb wanted (suc n)
      then give (suc n)
      else (stop_if p.cancel_resize canceled
          >> (request job.id (resize_vm vmid) p.resize_task p.resize_wait node p.failure
              >> give wanted))
]

-- `_wait_for_ip`; the turns end at the deadline.
unfoldable pub wait_for_ip : List Poll → String → Run (Option String)
wait_for_ip [] failure = give none
wait_for_ip (cancel_seen ∷ polls) failure = fail_run canceled
wait_for_ip (unread ∷ polls) failure = fail_run (raised failure)
wait_for_ip (silent ∷ polls) failure = wait_for_ip polls failure
wait_for_ip (reports ip ∷ polls) failure =
    let rest = wait_for_ip polls failure in if str_eq ip "" then rest else give (some ip)

abbrev pub or_static : Option String → String → String
or_static none ip = ip
or_static (some ip) _ = ip

-- `_defer_for_guest_ip`
unfoldable pub defer_for_guest_ip : ℕ → ℕ → Run (Unit {0})
defer_for_guest_ip job_id now db = elim (get job_id db.jobs) [
  | none ↦ (stopped (raised "missing job while deferring for guest IP"), db)
  | some job ↦ (
    stopped deferred,
    record db {
      jobs =
          put job_id
            (λ j. record j {
              status = JobStatus.waiting;
              waiting_since = elim j.waiting_since [ none ↦ some now | some t ↦ some t ];
              phase = "Waiting for guest IP";
              finished_at = none;
            })
            db.jobs;
    },
  )
]

unfoldable pub record_facts : ℕ → String → ℕ → ℕ → ℕ → Db → Db
record_facts dep_id ip cores ram disk db = record db {
  deployments =
      put dep_id (λ d. record d { ip = ip; cpu = cores; ram = ram; disk = disk }) db.deployments;
}

unfoldable pub mark_running : ℕ → Db → Db
mark_running dep_id db = record db {
  deployments =
      put dep_id
        (λ d. record d {
          status = DepStatus.running;
          error = "";
          cleanup_origin = none;
          cleanup_last_attempt_at = none;
        })
        db.deployments;
}

-- The blocks that run after the boot need an address.
unfoldable pub apply_recipe : Job → Plan → String → Provision → Run (Unit {0})
unfolding defer_for_guest_ip
apply_recipe job plan ip p =
    if plan.recipe && plan.ansible
    then (if str_eq ip "" then defer_for_guest_ip job.id p.now else await p.applied p.failure)
    else give tt

-- From the accepted creation on.
unfoldable pub bring_up :
    Settings → Config → Job → Connection → ℕ → ℕ → String → Plan → Provision → Run (Unit {0})
unfolding request grow_disk wait_for_ip apply_recipe
bring_up s cfg job conn dep_id vmid node plan p =
    let limits = effective_resource_limits conn s.caps in
    do
      write (progress job.id 45 (s.title 4 "Configure"))
      stop_if p.cancel_config canceled
      request job.id (configure_vm vmid) p.config_task p.config_wait node p.failure
      disk ← grow_disk job vmid node (clamp_resource cfg.disk limits.max_disk_gb) p
      write (progress job.id 65 (s.title 5 "Boot"))
      request job.id (start_vm vmid) p.start_task p.start_wait node p.failure
      write (progress job.id 75 "Verify cloud-init and first-boot recipe")
      await p.ready p.failure
      seen ← wait_for_ip p.polls p.failure
      stop_if (not p.facts) (raised p.failure)
      write (
          record_facts dep_id (or_static seen cfg.static_ip)
            (clamp_resource cfg.cpu limits.max_cores)
            (clamp_resource (cfg.ram * 1024) limits.max_ram_mb / 1024)
            (effective_disk_gb true disk none))
      apply_recipe job plan (or_static seen cfg.static_ip) p
      write (λ db. progress job.id 100 "Complete" (mark_running dep_id db))

-- From the choice of the VM id on.
unfoldable pub deploy_on :
    Settings → Config → Job → Connection → Deployment → Plan → String → Provision → Run (Unit {0})
unfolding choose_vmid build bring_up
deploy_on s cfg job conn dep plan node p = do
  write (progress job.id 2 (s.title 1 "Allocate"))
  vmid ← choose_vmid s dep p
  commands ← if plan.recipe then answer p.compiled p.failure else give false
  write (claim_identity dep.id vmid node)
  build s job dep.id vmid node (uses_snippet conn plan commands p.auto_root) p
  bring_up s cfg job conn dep.id vmid node plan p

-- `_run_deploy`
unfoldable pub run_deploy : Settings → Config → Provision → Job → Run (Unit {0})
unfolding deploy_on
run_deploy s cfg p job = do
  targets ← load_job_targets job
  plan ← answer p.plan p.failure
  stop_if (not p.client) (raised p.failure)
  node ← node_for targets.1 targets.0 p.picked p.failure
  stop_if (str_eq cfg.src_url "") (raised "template has no base image source URL")
  deploy_on s cfg job targets.0 targets.1 plan node p
