-- ===== src/Worker/Reconcile.antt =====
-- app/worker.py: `_reconcile_canceled_job`, `_reconcile_failed_job` and `_retry_cleanup_deployment`.
pub mod Same
pub mod Owner
pub mod Failed
pub mod Retry
pub mod Disabled
use goblin_dock.Base.{
  ℕ, zero, suc, ◌+◌, ◌-◌, String, ◌≡◌, Bool, true, false, not, ◌&&◌, ◌||◌, Option, none, some, List,
  [], ◌∷◌, ◌++◌, ◌==◌, leb, ltb, if◌then◌else◌, delete, get, put, get_opt, str_eq, str_append,
  take_chars,
}
use goblin_dock.Models.{
  Db, Connection, connection_key, Deployment, deployment_key, DepStatus, is_cleanup_pending, Job,
  job_key, JobType, deploy, rebuild, destroy, configure, image_sync, image_build, is_submitting,
  is_accepted, allocation_of,
}
use goblin_dock.Worker.Remote.{
  Answers, Power, powered_on, powered_off, other, Presence, absent, present, unknown, px_for_conn,
  probe_vm_presence,
}
use goblin_dock.Worker.Ownership.{
  set_dep_status, drop_deployment_if_matches, delete_snippet_of, vmid_eq,
}
use goblin_dock.Worker.Teardown.{best_effort_destroy, retain_unsettled_task}

abbrev pub type_name : JobType → String
type_name deploy = "deploy"
type_name rebuild = "rebuild"
type_name destroy = "destroy"
type_name configure = "configure"
type_name image_sync = "image_sync"
type_name image_build = "image_build"

abbrev pub is_deploy : JobType → Bool
is_deploy deploy = true
is_deploy _ = false

abbrev pub is_destroy : JobType → Bool
is_destroy destroy = true
is_destroy _ = false

abbrev pub is_rebuild : JobType → Bool
is_rebuild rebuild = true
is_rebuild _ = false

-- `px = _px_for_conn(conn_id) if vmid is not None else None`, then the probe.
abbrev pub probe : Option ℕ → Option ℕ → Answers → Db → Presence
probe conn_id vmid ans db = probe_vm_presence (px_for_conn conn_id db.connections ans) vmid ans

-- `dep.identity_state == "submitting" or job.create_state == "submitting"`
abbrev pub is_uncertain : Job → Deployment → Bool
is_uncertain job dep = is_submitting dep.identity_state || is_submitting job.create_state

unfoldable pub response_lost : ℕ → Db → Db
response_lost dep_id db = record db {
  deployments =
      put dep_id
        (λ d. record d {
          status = DepStatus.error;
          error = "Create response lost; reconcile VM identity before cleanup or retry";
        })
        db.deployments;
}

-- `_probe_vm_runtime_status`, and the status that is written from it.
unfoldable pub settle_present : ℕ → Option ℕ → JobType → Option Power → String → Db → Db
settle_present dep_id vmid type (some powered_on) detail db =
    set_dep_status dep_id DepStatus.running "" vmid none db
settle_present dep_id vmid type (some powered_off) detail db =
    set_dep_status dep_id DepStatus.stopped "" vmid none db
settle_present dep_id vmid type _ detail db =
    set_dep_status dep_id DepStatus.error
      (str_append "canceled "
        (str_append (type_name type) (str_append " VM status not confirmed: " detail)))
      vmid none db

unfoldable pub settle_absent : ℕ → Option ℕ → Option ℕ → JobType → Db → Db
settle_absent dep_id conn_id vmid type db =
    let after = delete_snippet_of conn_id vmid db in
    if is_deploy type || is_destroy type
    then drop_deployment_if_matches dep_id vmid false after
    else set_dep_status dep_id DepStatus.error
        "rebuild canceled after the old VM was removed — rebuild again to recreate" vmid none after

unfoldable pub settle_unknown : ℕ → Option ℕ → JobType → String → Db → Db
settle_unknown dep_id vmid type detail db =
    if is_deploy type || is_destroy type
    then set_dep_status dep_id DepStatus.cleanup_pending
        (str_append "canceled "
          (str_append (type_name type) (str_append " cleanup not confirmed: " detail)))
        vmid (some type) db
    else set_dep_status dep_id DepStatus.error
        (str_append "rebuild canceled while VM presence is unknown: " detail) vmid none db

-- What is written once the presence of the VM is probed.
unfoldable pub settle_canceled : Job → Deployment → Presence → Answers → Db → Db
unfolding settle_present settle_absent settle_unknown
settle_canceled job dep absent ans db = settle_absent dep.id dep.connection_id dep.vmid job.type db
settle_canceled job dep found ans db =
    if is_rebuild job.type && is_accepted job.create_state
    then set_dep_status dep.id DepStatus.error
        "Rebuild canceled after creating the replacement VM; review first-boot and configuration before recovery"
        dep.vmid none db
    else elim found [
      | present ↦
          if is_rebuild job.type || is_destroy job.type
          then settle_present dep.id dep.vmid job.type ans.power_after ans.detail db
          else settle_unknown dep.id dep.vmid job.type ans.detail db
      | other' ↦ settle_unknown dep.id dep.vmid job.type ans.detail db
    ]

abbrev pub gave_up : Option Bool → Bool
gave_up (some false) = true
gave_up _ = false

-- The reconciliation of a canceled job with its deployment.
unfoldable pub cancel_target : Job → Deployment → Answers → Db → Db
unfolding response_lost settle_canceled
cancel_target job dep ans db =
    if is_uncertain job dep
    then response_lost dep.id db
    else (let (outcome, after) =
          if is_deploy job.type
          then best_effort_destroy dep.connection_id dep.vmid ans db
          else (none, db) in
        if gave_up outcome
        then after
        else settle_canceled job dep (probe dep.connection_id dep.vmid ans after) ans after)

abbrev pub with_target : ℕ → (Job → Deployment → Db → Db) → Db → Db
with_target job_id act db = elim (get job_id db.jobs) [
  | none ↦ db
  | some job ↦ elim (get_opt job.deployment_id db.deployments) [
    | none ↦ db
    | some dep ↦ act job dep db
  ]
]

unfoldable pub reconcile_canceled_job : ℕ → Answers → Db → Db
unfolding cancel_target
reconcile_canceled_job job_id ans db =
    let (retained, after) = retain_unsettled_task job_id ans db in
    if retained
    then after
    else with_target job_id (λ job dep now. cancel_target job dep ans now) after

unfoldable pub fail_deployment : Option ℕ → String → Deployment → Deployment
fail_deployment vmid message d =
    if vmid_eq d.vmid vmid
    then record d {
      status = DepStatus.error;
      error = take_chars 300 message;
      cleanup_origin = none;
      cleanup_last_attempt_at = none;
    }
    else d

-- The last transaction of `_reconcile_failed_job`.
unfoldable pub mark_failed : Job → Deployment → Presence → Db → Db
unfolding fail_deployment
mark_failed job dep found db = elim (get dep.id db.deployments) [
  | none ↦ db
  | some d ↦
      if vmid_eq d.vmid dep.vmid
      then record db {
        deployments = put dep.id (fail_deployment dep.vmid job.error) db.deployments;
        allocations = elim found [
          | absent ↦
              if is_deploy job.type
              then delete (allocation_of dep.id) db.allocations
              else db.allocations
          | _ ↦ db.allocations
        ];
      }
      else db
]

unfoldable pub settle_failed : Job → Deployment → Presence → Db → Db
unfolding mark_failed
settle_failed job dep absent db =
    let after = delete_snippet_of dep.connection_id dep.vmid db in
    if is_destroy job.type
    then drop_deployment_if_matches dep.id dep.vmid false after
    else mark_failed job dep absent after
settle_failed job dep found db = mark_failed job dep found db

unfoldable pub fail_target : Job → Deployment → Answers → Db → Db
unfolding response_lost settle_failed
fail_target job dep ans db =
    if is_uncertain job dep
    then response_lost dep.id db
    else settle_failed job dep (probe dep.connection_id dep.vmid ans db) db

unfoldable pub reconcile_failed_job : ℕ → Answers → Db → Db
unfolding fail_target
reconcile_failed_job job_id ans db =
    let (retained, after) = retain_unsettled_task job_id ans db in
    if retained
    then after
    else with_target job_id (λ job dep now. fail_target job dep ans now) after

abbrev pub origin_is_deploy : Option JobType → Bool
origin_is_deploy (some deploy) = true
origin_is_deploy _ = false

abbrev pub origin_is_destroy : Option JobType → Bool
origin_is_destroy (some destroy) = true
origin_is_destroy _ = false

unfoldable pub settle_cleanup : Deployment → Presence → Answers → Db → Db
settle_cleanup dep absent ans db =
    drop_deployment_if_matches dep.id dep.vmid true
      (delete_snippet_of dep.connection_id dep.vmid db)
settle_cleanup dep present ans db =
    if origin_is_destroy dep.cleanup_origin
    then set_dep_status dep.id DepStatus.stopped "" dep.vmid none db
    else set_dep_status dep.id DepStatus.cleanup_pending
        (str_append "cleanup not confirmed: " ans.detail) dep.vmid none db
settle_cleanup dep unknown ans db =
    set_dep_status dep.id DepStatus.cleanup_pending
      (str_append "cleanup not confirmed: " ans.detail) dep.vmid none db

unfoldable pub attempt_cleanup : Deployment → Answers → Db → Db
unfolding settle_cleanup
attempt_cleanup dep ans db =
    let (outcome, after) =
      if origin_is_deploy dep.cleanup_origin
      then best_effort_destroy dep.connection_id dep.vmid ans db
      else (none, db) in
    if gave_up outcome
    then after
    else settle_cleanup dep (probe dep.connection_id dep.vmid ans after) ans after

abbrev pub tried_within_minute : ℕ → Option ℕ → Bool
tried_within_minute now none = false
tried_within_minute now (some t) = ltb now (t + 60)

unfoldable pub retry_cleanup_deployment : ℕ → ℕ → Answers → Db → Db
unfolding attempt_cleanup
retry_cleanup_deployment dep_id now ans db = elim (get dep_id db.deployments) [
  | none ↦ db
  | some dep ↦
      if not (is_cleanup_pending dep.status) || tried_within_minute now dep.cleanup_last_attempt_at
      then db
      else attempt_cleanup dep ans (record db {
        deployments =
            put dep_id (λ d. record d { cleanup_last_attempt_at = some now }) db.deployments;
      })
]
