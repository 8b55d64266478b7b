-- ===== src/Worker/Run.antt =====
-- app/worker.py: the code of the job types. A run is a function of the database that ends with a
-- value or with an exception; what it wrote stays written. `JobCtx` writes a job's progress and the
-- remote task it waits for; job steps and events are not modelled. What Proxmox, SSH and Ansible
-- answer is an argument, and so is whether a cancellation was requested when the code looks.
pub mod Keeps
pub mod Ends
pub mod Limits
pub mod Destroy
pub mod Deploy
pub mod Rebuild
mod Tests
use goblin_dock.Base.{
  ℕ, zero, suc, ◌+◌, String, ◌≡◌, Bool, true, false, not, ◌&&◌, Option, none, some, List, [], ◌∷◌,
  ◌++◌, min, if◌then◌else◌, get, put, get_opt, str_eq, str_append,
}
use goblin_dock.Models.{
  Db, Connection, connection_key, Deployment, deployment_key, DepStatus, CreateState, Job, job_key,
  bump, send, Command,
}
use goblin_dock.Worker.Queue.{Outcome, returned, deferred, canceled, raised}

pub data Ended {ℓ} (A : Type ℓ) : Type ℓ where
  value : A → Ended A
  stopped : Outcome → Ended A

abbrev pub Run {ℓ} : Type ℓ → Type ℓ
Run A = Db → Ended A × Db

module _ {ℓ} {A : Type ℓ} where
  abbrev pub give : A → Run A
  give a db = (value a, db)

  abbrev pub fail_run : Outcome → Run A
  fail_run o db = (stopped o, db)

  -- A call that raises, with the text of its exception, or answers.
  abbrev pub answer : Option A → String → Run A
  answer none failure = fail_run (raised failure)
  answer (some a) failure = give a

-- What follows an ended part of a run: an exception skips it.
abbrev pub continue {ℓ κ} : {A : Type ℓ} {B : Type κ} → Ended A → Db → (A → Run B) → Ended B × Db
continue (stopped o) db next = (stopped o, db)
continue (value a) db next = next a db

infixl 5 ◌>>=◌
abbrev pub ◌>>=◌ {ℓ κ} : {A : Type ℓ} {B : Type κ} (m : Run A) (next : A → Run B) → Run B
◌>>=◌ m next db = let (end, after) = m db in continue end after next

infixl 5 ◌>>◌
abbrev pub ◌>>◌ {ℓ} : {B : Type ℓ} (m : Run (Unit {0})) (next : Run B) → Run B
m >> next = m >>= λ passed. next

abbrev pub write : (Db → Db) → Run (Unit {0})
write f db = (value tt, f db)

abbrev pub stop_if : Bool → Outcome → Run (Unit {0})
stop_if true o = fail_run o
stop_if false o = give tt

-- How a wait for a remote task, or other long work, ends.
pub data Waited : Type 0 where
  finished failed interrupted : Waited

abbrev pub await : Waited → String → Run (Unit {0})
await finished failure = give tt
await failed failure = fail_run (raised failure)
await interrupted failure = fail_run canceled

-- The entry of the dispatch table for a run.
abbrev pub outcome_of : Ended (Unit {0}) → Outcome
outcome_of (value passed) = returned
outcome_of (stopped o) = o

abbrev pub as_impl : (Job → Run (Unit {0})) → Job → Db → Outcome × Db
as_impl run job db = let (end, after) = run job db in (outcome_of end, after)

-- `JobCtx.progress`, with a percentage that is not negative.
unfoldable pub progress : ℕ → ℕ → String → Db → Db
progress job_id pct phase db =
    bump
      (record db { jobs = put job_id (λ j. record j { pct = min 100 pct; phase = phase }) db.jobs })

-- `JobCtx.remote`
unfoldable pub remote : ℕ → String → String → Db → Db
remote job_id upid node db = record db {
  jobs = put job_id (λ j. record j { remote_task = upid; remote_node = node }) db.jobs;
}

abbrev pub set_create_state : CreateState → Job → Job
set_create_state s j = record j { create_state = s }

abbrev pub set_identity : CreateState → Deployment → Deployment
set_identity s d = record d { identity_state = s }

-- `JobCtx.creation`
unfoldable pub creation : ℕ → CreateState → Db → Db
creation job_id s db = elim (get job_id db.jobs) [
  | none ↦ db
  | some job ↦ elim job.deployment_id [
    | none ↦ record db { jobs = put job_id (set_create_state s) db.jobs }
    | some d ↦ record db {
      jobs = put job_id (set_create_state s) db.jobs;
      deployments = put d (set_identity s) db.deployments;
    }
  ]
]

-- A request, the task that it answers with, and the wait for that task.
unfoldable pub request : ℕ → Command → Option String → Waited → String → String → Run (Unit {0})
unfolding remote
request job_id command task wait node failure = do
  write (send command)
  upid ← answer task failure
  write (remote job_id upid node)
  await wait failure

-- `_load_job_targets`
unfoldable pub load_job_targets : Job → Run (Connection × Deployment)
load_job_targets job db = elim (get_opt job.connection_id db.connections) [
  | none ↦ (stopped (raised "missing connection or deployment"), db)
  | some conn ↦ elim (get_opt job.deployment_id db.deployments) [
    | none ↦ (stopped (raised "missing connection or deployment"), db)
    | some dep ↦
        if conn.disabled
        then (stopped (raised "connection is disabled"), db)
        else (value (conn, dep), db)
  ]
]

-- `dep.node or conn.node or px.pick_node()`
abbrev pub node_for : Deployment → Connection → Option String → String → Run String
node_for dep conn picked failure =
    if not (str_eq dep.node "")
    then give dep.node
    else if not (str_eq conn.node "")
    then give conn.node
    else answer picked failure
