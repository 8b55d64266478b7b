-- ===== src/Worker/Queue.antt =====
-- app/worker.py: the queue of jobs. `_claim_next_job` takes the oldest queued job, `_execute` runs a
-- job and ends it, `_finish_waiting_error` and `_timeout_waiting_job` end a job that waits, and
-- `_recover_orphans` ends what a former process left running. Log lines are not modelled.
pub mod Status
pub mod Passing
mod Oldest
pub mod Drain
pub mod Runs
mod Tests
use goblin_dock.Base.{
  ℕ, zero, suc, ◌+◌, ◌-◌, String, ◌≡◌, Bool, true, false, not, ◌&&◌, ◌||◌, Option, none, some, List,
  [], ◌∷◌, ◌++◌, ◌==◌, leb, if◌then◌else◌, get, put, update, get_opt, str_append,
}
use goblin_dock.Models.{
  Db, Connection, connection_key, Deployment, deployment_key, DepStatus, Job, job_key, JobType,
  image_build, JobStatus, Image, image_key, BuildStatus, building, is_queued, is_waiting,
  is_running, bump,
}
use goblin_dock.Worker.Remote.{Answers}
use goblin_dock.Worker.Reconcile.{reconcile_canceled_job, reconcile_failed_job}

-- The row with the smallest primary key that passes a test: `order_by(Job.id).first()`.
unfoldable pub oldest : (Job → Bool) → List Job → Option Job
oldest p [] = none
oldest p (x ∷ xs) =
    let rest = oldest p xs in
    if p x
    then elim rest [ none ↦ some x | some y ↦ if leb x.id y.id then some x else some y ]
    else rest

abbrev pub end_job : JobStatus → String → ℕ → Job → Job
end_job status message now job = record job {
  status = status;
  error = message;
  finished_at = some now;
}

abbrev pub source_disabled : Job → Db → Bool
source_disabled job db = elim (get_opt job.connection_id db.connections) [
  | none ↦ false
  | some conn ↦ conn.disabled
]

abbrev pub start_job : ℕ → Job → Job
start_job now job = record job { status = JobStatus.running; started_at = some now }

abbrev pub withdraw_job : ℕ → Job → Job
withdraw_job now job = record job { status = JobStatus.canceled; finished_at = some now }

-- What the claim does with the oldest queued job. `message` is the text for a job whose source was
-- disabled, with the name of the connection.
unfoldable pub claim : ℕ → String → Answers → Job → Db → Option ℕ × Db
claim now message ans job db =
    if job.cancel_requested
    then (
      none,
      bump (
          reconcile_canceled_job job.id ans
            (record db { jobs = put job.id (withdraw_job now) db.jobs })),
    )
    else if source_disabled job db
    then (
      none,
      bump (
          reconcile_failed_job job.id ans
            (record db { jobs = put job.id (end_job JobStatus.failed message now) db.jobs })),
    )
    else (some job.id, bump (record db { jobs = put job.id (start_job now) db.jobs }))

unfoldable pub claim_next_job : ℕ → String → Answers → Db → Option ℕ × Db
unfolding claim
claim_next_job now message ans db = elim (oldest (λ j. is_queued j.status) db.jobs) [
  | none ↦ (none, db)
  | some job ↦ claim now message ans job db
]

-- How the code of a job's type ends: it returns, defers the job, or raises.
pub data Outcome : Type 0 where
  returned deferred canceled : Outcome
  raised : String → Outcome

abbrev pub succeed_job : ℕ → Job → Job
succeed_job now job = record job { status = JobStatus.succeeded; pct = 100; finished_at = some now }

-- Legacy rows of an image build only.
unfoldable pub mark_image : BuildStatus → Job → Db → Db
mark_image status job db = elim job.type [
  | image_build ↦ elim job.image_id [
    | none ↦ db
    | some k ↦ record db { images = put k (λ img. record img { build_status = status }) db.images }
  ]
  | _ ↦ db
]

-- `if has_dep`
abbrev pub when_deployed : Job → (Db → Db) → Db → Db
when_deployed job act db = elim job.deployment_id [ none ↦ db | some d ↦ act db ]

abbrev pub settle_job : JobStatus → ℕ → Job → Job
settle_job status now job = record job { status = status; finished_at = some now }

-- The job stays active until its deployment is reconciled.
unfoldable pub end_run : ℕ → ℕ → Answers → Job → Outcome → Db → Db
unfolding mark_image
end_run job_id now ans job returned db =
    bump (record db { jobs = put job_id (succeed_job now) db.jobs })
end_run job_id now ans job deferred db = bump db
end_run job_id now ans job canceled db =
    let held = record db { jobs = put job_id (end_job JobStatus.running "canceled" now) db.jobs } in
    let settled =
      when_deployed job (reconcile_canceled_job job_id ans)
        (mark_image BuildStatus.not_built job held) in
    bump (record settled { jobs = put job_id (settle_job JobStatus.canceled now) settled.jobs })
end_run job_id now ans job (raised message) db =
    let held = record db { jobs = put job_id (end_job JobStatus.running message now) db.jobs } in
    let settled =
      when_deployed job (reconcile_failed_job job_id ans)
        (mark_image BuildStatus.failed job held) in
    bump (record settled { jobs = put job_id (settle_job JobStatus.failed now) settled.jobs })

-- `_execute`; `impl` is the entry of the dispatch table, run on the job's row as it was claimed.
unfoldable pub execute : (Job → Db → Outcome × Db) → ℕ → ℕ → Answers → Db → Db
unfolding end_run
execute impl job_id now ans db = elim (get job_id db.jobs) [
  | none ↦ db
  | some job ↦ let (outcome, after) = impl job db in end_run job_id now ans job outcome after
]

-- `_finish_waiting_error`; `message` is the text of the exception.
unfoldable pub finish_waiting_error : ℕ → Bool → String → ℕ → Answers → Db → Db
finish_waiting_error job_id cancelled message now ans db = elim (get job_id db.jobs) [
  | none ↦ db
  | some job ↦
      if not (is_waiting job.status || is_running job.status)
      then db
      else if cancelled
      then bump (
          when_deployed job (reconcile_canceled_job job_id ans)
            (record db { jobs = put job_id (end_job JobStatus.canceled "canceled" now) db.jobs }))
      else bump (
          when_deployed job (reconcile_failed_job job_id ans)
            (record db { jobs = put job_id (end_job JobStatus.failed message now) db.jobs }))
]

abbrev pub timeout_error : String
timeout_error = "guest IP was not reported within 30 minutes"

abbrev pub time_out : Deployment → Deployment
time_out dep = record dep {
  status = DepStatus.error;
  error = timeout_error;
  cleanup_origin = none;
  cleanup_last_attempt_at = none;
}

unfoldable pub mark_timed_out : Option ℕ → Db → Db
mark_timed_out none db = db
mark_timed_out (some d) db = record db { deployments = put d time_out db.deployments }

unfoldable pub timeout_waiting_job : ℕ → ℕ → Answers → Db → Db
unfolding finish_waiting_error mark_timed_out
timeout_waiting_job job_id now ans db = elim (get job_id db.jobs) [
  | none ↦ db
  | some job ↦
      if not (is_waiting job.status)
      then db
      else if job.cancel_requested
      then finish_waiting_error job_id true "" now ans db
      else bump (
          mark_timed_out job.deployment_id
            (record db { jobs = put job_id (end_job JobStatus.failed timeout_error now) db.jobs }))
]

-- The running jobs that have a deployment, in the order of the table.
unfoldable pub orphans : List Job → List ℕ
orphans [] = []
orphans (j ∷ jobs) =
    let rest = orphans jobs in
    if is_running j.status
    then elim j.deployment_id [ none ↦ rest | some d ↦ j.id ∷ rest ]
    else rest

abbrev pub is_building : BuildStatus → Bool
is_building building = true
is_building _ = false

abbrev pub fail_build : Image → Image
fail_build img =
    if is_building img.build_status then record img { build_status = BuildStatus.failed } else img

unfoldable pub fail_builds : List Job → List Image → List Image
fail_builds [] images = images
fail_builds (j ∷ jobs) images =
    let rest = fail_builds jobs in
    if is_running j.status
    then elim j.image_id [ none ↦ rest images | some k ↦ rest (put k fail_build images) ]
    else rest images

unfoldable pub reconcile_each : (ℕ → Answers) → List ℕ → Db → Db
reconcile_each ans [] db = db
reconcile_each ans (k ∷ ks) db = reconcile_each ans ks (reconcile_failed_job k (ans k) db)

-- `ans k` is what Proxmox answers during the reconciliation of job `k`.
unfoldable pub recover_orphans : ℕ → (ℕ → Answers) → Db → Db
unfolding orphans fail_builds reconcile_each
recover_orphans now ans db = reconcile_each ans (orphans db.jobs) (record db {
  jobs =
      update (λ j. is_running j.status)
        (end_job JobStatus.failed "interrupted (worker restart)" now) db.jobs;
  images = fail_builds db.jobs db.images;
})
