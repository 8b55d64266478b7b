-- ===== src/Lifecycle/Admission.antt =====
-- A deployment has one active lifecycle job at most.
use goblin_dock.Base.{
  ℕ, ◌≤◌, ◌≡◌, refl, inl, inr, subst, Bool, true, false, Option, none, some, List, [], ◌∷◌, ◌++◌,
  arith, ◌==◌, Bool-cases, count_if, count_if-append, get, put, get_id, ok, >>=-eq-ok,
}
use goblin_dock.Models.{User, Db, Deployment, deployment_key, connection_key, Job, job_key, destroy}
use goblin_dock.Worker.Teardown.{latest}
use goblin_dock.Worker.Reconcile.{is_destroy}
use goblin_dock.Lifecycle.{
  is_active_for, active_lifecycle_job, new_job, Queued, queue_destroy, admit_destroy, vm_destroy,
  retry_cleanup, owned_deployment, clear_pending,
}

abbrev pub OneActive : List Job → Type 0
OneActive jobs = (d : ℕ) → count_if (is_active_for d) jobs ≤ 1

pub latest-none : (p : Job → Bool) (jobs : List Job) → latest p jobs ≡ none → count_if p jobs ≡ 0
unfolding latest count_if
latest-none p [] h = refl
latest-none p (j ∷ jobs) h = ground (arith, latest-none p jobs)

-- A job that passes alone, at the end, is the newest.
latest-last :
    (p : Job → Bool) (jobs : List Job) (job : Job)
    → count_if p jobs ≡ 0
    → p job ≡ true
    → latest p (jobs ++ job ∷ []) ≡ some job
unfolding latest count_if
latest-last p [] job h new = rw new refl
latest-last p (j ∷ jobs) job h new =
    let off : p j ≡ false = ground arith in rw off (latest-last p jobs job (ground arith) new)

owned_row :
    (dep_id : ℕ) (user : User) (db : Db) (dep : Deployment)
    → owned_deployment dep_id user db ≡ ok dep
    → get dep_id db.deployments ≡ some dep
unfolding owned_deployment
owned_row dep_id user db dep h = ground arith

-- The deployment that a handler acts on is the one of its path.
pub owned_deployment-id :
    (dep_id : ℕ) (user : User) (db : Db) (dep : Deployment)
    → owned_deployment dep_id user db ≡ ok dep
    → (get dep_id db.deployments ≡ some dep) × (dep.id ≡ dep_id)
owned_deployment-id dep_id user db dep h =
    let row = owned_row dep_id user db dep h in (row, get_id dep_id db.deployments dep row)

-- What an admitted destruction leaves: its job is the active one of its deployment.
abbrev pub InFlight : ℕ → Queued → Db → Type 0
InFlight dep_id q db =
    (job : Job) × (active_lifecycle_job dep_id db ≡ some job)
    × (job.id ≡ q.job_id)
    × (is_destroy job.type ≡ true)

queue_destroy-OneActive :
    (dep : Deployment) (user : User) (now : ℕ) (db : Db)
    → OneActive db.jobs
    → active_lifecycle_job dep.id db ≡ none
    → OneActive (queue_destroy dep user now db).1.jobs
unfolding queue_destroy active_lifecycle_job count_if
queue_destroy-OneActive dep user now db one idle d =
    let job = new_job destroy dep user now db.jobs in
    let none_yet = latest-none (is_active_for dep.id) db.jobs idle in
    let more = count_if-append (is_active_for d) db.jobs (job ∷ []) in
    let before = one d in
    elim (Bool-cases (dep.id == d)) [
      | inl e ↦
          let p : dep.id ≡ d = ground arith in
          (let q = subst (λ k. count_if (is_active_for k) db.jobs ≡ 0) p none_yet in ground arith)
      | inr e ↦ ground arith
    ]

queue_destroy-InFlight :
    (dep : Deployment) (user : User) (now : ℕ) (db : Db)
    → active_lifecycle_job dep.id db ≡ none
    → InFlight dep.id (queue_destroy dep user now db).0 (queue_destroy dep user now db).1
unfolding queue_destroy active_lifecycle_job
queue_destroy-InFlight dep user now db idle =
    let job = new_job destroy dep user now db.jobs in
    (
      job,
      latest-last (is_active_for dep.id) db.jobs job
          (latest-none (is_active_for dep.id) db.jobs idle) (ground arith),
      refl,
      refl,
    )

-- Both results together, for either kind of admission.
Admitted : ℕ → Queued × Db → Type 0
Admitted dep_id out = OneActive out.1.jobs × InFlight dep_id out.0 out.1

admit_destroy-Admitted :
    (active : Option Job) (dep : Deployment) (user : User) (now : ℕ) (db : Db) (out : Queued × Db)
    → active_lifecycle_job dep.id db ≡ active
    → OneActive db.jobs
    → admit_destroy active dep user now db ≡ ok out
    → Admitted dep.id out
unfolding admit_destroy Admitted
admit_destroy-Admitted none dep user now db out idle one h =
    let e : queue_destroy dep user now db ≡ out = ground arith in
    subst (λ o. OneActive o.1.jobs × InFlight dep.id o.0 o.1) e
      (
        queue_destroy-OneActive dep user now db one idle,
        queue_destroy-InFlight dep user now db idle,
      )
admit_destroy-Admitted (some job) dep user now db out found one h =
    elim (Bool-cases (is_destroy job.type)) [
      | inl d ↦
          let e : (record { job_id = job.id; deduped = true }, db) ≡ out = ground arith in
          subst (λ o. OneActive o.1.jobs × InFlight dep.id o.0 o.1) e (one, (job, found, refl, d))
      | inr d ↦ cc (rw d at h)
    ]

-- A request to destroy a deployment that is admitted leaves it one active lifecycle job: a
-- destruction, and the one that is answered, whether it was queued now or in flight already. No
-- other deployment gets a second one.
pub vm_destroy-OneActive :
    (dep_id : ℕ) (user : User) (now : ℕ) (db : Db) (q : Queued) (db' : Db)
    → OneActive db.jobs
    → vm_destroy dep_id user now db ≡ ok (q, db')
    → OneActive db'.jobs × InFlight dep_id q db'
unfolding vm_destroy
vm_destroy-OneActive dep_id user now db q db' one h =
    let (dep, owned, h₁) = >>=-eq-ok (owned_deployment dep_id user db) _ h in
    let (row, id) = owned_deployment-id dep_id user db dep owned in
    let admitted : admit_destroy (active_lifecycle_job dep.id db) dep user now db ≡ ok (q, db') =
      ground arith in
    subst (λ k. OneActive db'.jobs × InFlight k q db') id
      (unfold Admitted in
        admit_destroy-Admitted (active_lifecycle_job dep.id db) dep user now db (q, db') refl one
          admitted)

-- Retrying a pending cleanup by hand queues a destruction under the same rule, and only when no
-- lifecycle job of the deployment was active and no remote operation on it is unconfirmed.
retry_cleanup-OneActive :
    (dep_id : ℕ) (user : User) (now : ℕ) (db : Db) (q : Queued) (db' : Db)
    → OneActive db.jobs
    → retry_cleanup dep_id user now db ≡ ok (q, db')
    → OneActive db'.jobs × InFlight dep_id q db' × (active_lifecycle_job dep_id db ≡ none)
unfolding retry_cleanup
retry_cleanup-OneActive dep_id user now db q db' one h =
    let (dep, owned, h₁) = >>=-eq-ok (owned_deployment dep_id user db) _ h in
    let (row, id) = owned_deployment-id dep_id user db dep owned in
    let cleared = record db { deployments = put dep.id clear_pending db.deployments } in
    let idle : active_lifecycle_job dep.id db ≡ none = ground arith in
    let next : vm_destroy dep_id user now cleared ≡ ok (q, db') = ground arith in
    let (still, flight) = vm_destroy-OneActive dep_id user now cleared q db' one next in
    (still, flight, subst (λ k. active_lifecycle_job k db ≡ none) id idle)
