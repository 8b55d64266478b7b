-- ===== src/Worker/Teardown.antt =====
-- app/worker.py: `_best_effort_destroy`, which tears down the VM of a canceled deployment, and
-- `_retain_unsettled_task`, which keeps ownership while an accepted task may still run.
use goblin_dock.Base.{
  ℕ, String, Bool, true, false, ◌&&◌, Option, none, some, List, [], ◌∷◌, leb, if◌then◌else◌, first,
  get, put, get_opt, is_key, str_eq,
}
use goblin_dock.Models.{
  Db, connection_key, Deployment, deployment_key, DepStatus, Job, job_key, job_of, submitting, send,
  stop_vm, destroy_vm,
}
use goblin_dock.Worker.Remote.{Answers, Power, is_off, px_for_conn}

-- The row with the largest primary key that passes a test: `order_by(Job.id.desc()).first()`.
unfoldable pub latest : (Job → Bool) → List Job → Option Job
latest p [] = none
latest p (x ∷ xs) =
    let rest = latest p xs in
    if p x
    then elim rest [ none ↦ some x | some y ↦ if leb x.id y.id then some y else some x ]
    else rest

abbrev pub owns_vm : ℕ → ℕ → Deployment → Bool
owns_vm conn_id vmid d = is_key conn_id d.connection_id && is_key vmid d.vmid

-- `track_task`: the task's id is committed on the deployment's newest job.
unfoldable pub track_task : ℕ → ℕ → String → String → Db → Db
track_task conn_id vmid upid node db = elim (first (owns_vm conn_id vmid) db.deployments) [
  | none ↦ db
  | some dep ↦ elim (latest (job_of dep.id) db.jobs) [
    | none ↦ db
    | some job ↦ record db {
      jobs = put job.id (λ j. record j { remote_task = upid; remote_node = node }) db.jobs;
    }
  ]
]

unfoldable pub unconfirmed : String → Deployment → Deployment
unconfirmed message d = record d {
  identity_state = submitting;
  status = DepStatus.error;
  error = message;
}

abbrev pub unknown_cleanup : String
unknown_cleanup =
    "Cleanup task outcome is unconfirmed; inspect Proxmox and confirm ownership in Recovery"

abbrev pub unknown_task : String
unknown_task =
    "Remote task outcome is unconfirmed; inspect Proxmox task history and confirm ownership in Recovery"

-- A request was sent and its outcome is not known.
unfoldable pub mark_unconfirmed : ℕ → ℕ → Db → Db
unfolding unconfirmed
mark_unconfirmed conn_id vmid db = elim (first (owns_vm conn_id vmid) db.deployments) [
  | none ↦ db
  | some dep ↦ record db { deployments = put dep.id (unconfirmed unknown_cleanup) db.deployments }
]

-- One request and the wait for its task: `false` when either raised.
unfoldable pub submit : ℕ → ℕ → String → Option String → Bool → Db → Bool × Db
unfolding track_task
submit conn_id vmid node none waited db = (false, db)
submit conn_id vmid node (some upid) waited db = (waited, track_task conn_id vmid upid node db)

-- The rest of the teardown, from the destroy request on.
unfoldable pub finish_destroy : ℕ → ℕ → String → Answers → Db → Option Bool × Db
unfolding submit mark_unconfirmed
finish_destroy conn_id vmid node ans db =
    let (gone, after) =
      submit conn_id vmid node ans.destroy_task ans.destroy_waited (send (destroy_vm vmid) db) in
    if gone then (some true, after) else (some false, mark_unconfirmed conn_id vmid after)

unfoldable pub stop_then_destroy : ℕ → ℕ → String → Power → Answers → Db → Option Bool × Db
unfolding submit mark_unconfirmed finish_destroy
stop_then_destroy conn_id vmid node power ans db =
    if is_off power
    then finish_destroy conn_id vmid node ans db
    else (let (stopped, after) =
          submit conn_id vmid node ans.stop_task ans.stop_waited (send (stop_vm vmid) db) in
        if stopped
        then finish_destroy conn_id vmid node ans after
        else (some false, mark_unconfirmed conn_id vmid after))

unfoldable pub teardown_at : ℕ → ℕ → Answers → Option (Option String) → Db → Option Bool × Db
unfolding stop_then_destroy
teardown_at conn_id vmid ans none db = (none, db)
teardown_at conn_id vmid ans (some none) db = (some true, db)
teardown_at conn_id vmid ans (some (some node)) db = elim ans.power_before [
  | none ↦ (none, db)
  | some power ↦ stop_then_destroy conn_id vmid node power ans db
]

-- `_best_effort_destroy`: `some true` when the VM is gone, `some false` when a request was sent and
-- its outcome is unknown, `none` when nothing was sent.
unfoldable pub best_effort_destroy : Option ℕ → Option ℕ → Answers → Db → Option Bool × Db
unfolding teardown_at
best_effort_destroy (some conn_id) (some vmid) ans db =
    if px_for_conn (some conn_id) db.connections ans
    then teardown_at conn_id vmid ans ans.vm_node db
    else (none, db)
best_effort_destroy _ _ ans db = (none, db)

-- `_retain_unsettled_task`: ownership is retained, and the deployment marked, unless the job has no
-- remote task or Proxmox says that the task has stopped.
unfoldable pub retain_unsettled_task : ℕ → Answers → Db → Bool × Db
unfolding unconfirmed
retain_unsettled_task job_id ans db = elim (get job_id db.jobs) [
  | none ↦ (false, db)
  | some job ↦ elim (get_opt job.deployment_id db.deployments) [
    | none ↦ (false, db)
    | some dep ↦
        if str_eq job.remote_task ""
        then (false, db)
        else if px_for_conn job.connection_id db.connections ans && ans.task_stopped
        then (false, db)
        else (
          true,
          record db { deployments = put dep.id (unconfirmed unknown_task) db.deployments },
        )
  ]
]
