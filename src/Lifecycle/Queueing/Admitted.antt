-- ===== src/Lifecycle/Queueing/Admitted.antt =====
-- What an admitted deployment, rebuild or retry of a configuration leaves in the queue.
use goblin_dock.Base.{
  ◌+◌, ℕ, ◌≤◌, String, ◌≡◌, refl, sym, subst, ◌⊎◌, inl, inr, Bool, true, false, not, ◌&&◌, Option,
  none, some, List, [], ◌∷◌, ◌++◌, arith, ◌==◌, leb, count_if, count_if-append, get_opt, Response,
  ok, http, ◌>>◌, reject_if, >>=-eq-ok, >>-eq-ok, reject_if-ok, ==_refl,
}
use goblin_dock.Models.{
  User, is_admin, Db, Connection, connection_key, Deployment, deployment_key, Job, job_key,
  IpAllocation, Network, next_id, deploy, rebuild, configure, accepted,
}
use goblin_dock.Network.Pool.{IpTexts}
use goblin_dock.Network.Context.{network_ctx}
use goblin_dock.Worker.Teardown.{}
use goblin_dock.Lifecycle.{
  owned_deployment, reject_cleanup_pending, reject_disabled_connection, is_active_for,
  active_lifecycle_job, new_job,
}
use goblin_dock.Lifecycle.Admission.{OneActive, latest-none}
use goblin_dock.Lifecycle.Queueing.{
  Settings, active_of, enforce_active_job_quota, enforce_vm_quota, Template, DeployBody, visible,
  template_network, new_deployment, queue_deploy, deploy_to, deploy_transaction, no_active,
  queue_rebuild, vm_rebuild, prior_plan, reachable, queue_configure, retry_configuration,
}

-- A handler whose quota query saw the jobs `counted` admitted a request of the user and led from `db` to
-- `after`.
pub data Admitted (ip : IpTexts) (s : Settings) (user : User) (counted : List Job) (now : ℕ)
    (db after : Db) : Type 0 where
  deployed :
      (body : DeployBody) (tpl : Option Template) (checked : Response (Unit {0}))
      (name : Response String) (default : Network)
      → deploy_transaction ip s body tpl checked name default user counted now db ≡ ok after
      → Admitted ip s user counted now db after
  rebuilt :
      (prepared : Deployment → Response (List IpAllocation)) (dep_id : ℕ)
      → vm_rebuild s prepared dep_id user counted now db ≡ ok after
      → Admitted ip s user counted now db after
  configured :
      (acknowledged : Bool) (checked : Job → Response (Unit {0})) (dep_id : ℕ)
      → retry_configuration s acknowledged checked dep_id user counted now db ≡ ok after
      → Admitted ip s user counted now db after

-- One job was queued by the user, below the quota, for a deployment with no active job.
abbrev pub Queued : Settings → User → List Job → Db → Db → Type 0
Queued s user counted db after =
    (job : Job) × (k : ℕ) × (after.jobs ≡ db.jobs ++ job ∷ [])
    × (job.deployment_id ≡ some k)
    × (count_if (is_active_for k) db.jobs ≡ 0)
    × (active_of user job ≡ true)
    × ((not (is_admin user.role)
          && leb s.max_active_jobs_per_user (count_if (active_of user) counted))
        ≡ false)

pub no_active-ok :
    {A : Type 0} (detail : String) (o : Option Job) (next : Response A) (a : A)
    → (no_active detail o >> next) ≡ ok a
    → (o ≡ none) × (next ≡ ok a)
no_active-ok detail none next a h = (refl, h)
no_active-ok detail (some job) next a h = cc

self_active : (user : User) → (user.id == user.id) ≡ true
self_active user = ==_refl user.id

vm_rebuild-Queued :
    (s : Settings) (prepared : Deployment → Response (List IpAllocation)) (dep_id : ℕ) (user : User)
    (counted : List Job) (now : ℕ) (db after : Db)
    → vm_rebuild s prepared dep_id user counted now db ≡ ok after
    → Queued s user counted db after
unfolding vm_rebuild enforce_active_job_quota queue_rebuild active_lifecycle_job
vm_rebuild-Queued s prepared dep_id user counted now db after h =
    let (dep, d, h1) = >>=-eq-ok (owned_deployment dep_id user db) _ h in
    let h2 = >>-eq-ok (reject_cleanup_pending dep) _ after h1 in
    let (idle, h3) = no_active-ok _ (active_lifecycle_job dep.id db) _ after h2 in
    let (quota, h4) = reject_if-ok _ _ _ _ after h3 in
    let h5 =
      >>-eq-ok (reject_disabled_connection (get_opt dep.connection_id db.connections)) _ after h4 in
    let (rows, r, h6) = >>=-eq-ok (prepared dep) _ h5 in
    (
      new_job rebuild dep user now db.jobs,
      dep.id,
      ground arith,
      refl,
      latest-none (is_active_for dep.id) db.jobs idle,
      (rw (==_refl user.id) refl),
      quota,
    )

retry_configuration-Queued :
    (s : Settings) (acknowledged : Bool) (checked : Job → Response (Unit {0})) (dep_id : ℕ)
    (user : User) (counted : List Job) (now : ℕ) (db after : Db)
    → retry_configuration s acknowledged checked dep_id user counted now db ≡ ok after
    → Queued s user counted db after
unfolding retry_configuration enforce_active_job_quota queue_configure active_lifecycle_job
retry_configuration-Queued s acknowledged checked dep_id user counted now db after h =
    let (ack, h0) = reject_if-ok (not acknowledged) _ _ _ after h in
    let (dep, d, h1) = >>=-eq-ok (owned_deployment dep_id user db) _ h0 in
    let h2 = >>-eq-ok (reject_cleanup_pending dep) _ after h1 in
    let (idle, h3) = no_active-ok _ (active_lifecycle_job dep.id db) _ after h2 in
    let h4 = >>-eq-ok (reachable dep (get_opt dep.connection_id db.connections)) _ after h3 in
    let (prior, p, h5) = >>=-eq-ok (prior_plan dep db) _ h4 in
    let h6 = >>-eq-ok (checked prior) _ after h5 in
    let (quota, h7) = reject_if-ok _ _ _ _ after h6 in
    (
      record (new_job configure dep user now db.jobs) { create_state = accepted },
      dep.id,
      ground arith,
      refl,
      latest-none (is_active_for dep.id) db.jobs idle,
      (rw (==_refl user.id) refl),
      quota,
    )

-- The rows that a new deployment adds.
deploy_to-jobs :
    (ip : IpTexts) (s : Settings) (body : DeployBody) (t : Template) (checked : Response (Unit {0}))
    (name : Response String) (default : Network) (conn : Connection) (user : User) (now : ℕ)
    (db after : Db)
    → deploy_to ip s body t checked name default conn user now db ≡ ok after
    → (dep : Deployment) × (dep.id ≡ next_id db.deployments)
      × (after.jobs ≡ db.jobs ++ new_job deploy dep user now db.jobs ∷ [])
unfolding deploy_to queue_deploy
deploy_to-jobs ip s body t checked name default conn user now db after h =
    let h1 = >>-eq-ok (reject_disabled_connection (some conn)) _ after h in
    let h2 = >>-eq-ok checked _ after h1 in
    let (called, n, h3) = >>=-eq-ok name _ h2 in
    let (net, m, h4) = >>=-eq-ok (template_network t.network conn default) _ h3 in
    let dep = new_deployment s body t conn user called db.deployments in
    let (ctx, c, h5) = >>=-eq-ok (network_ctx ip net dep.id db.allocations) _ h4 in
    (dep, refl, ground arith)

deploy_transaction-Queued :
    (ip : IpTexts) (s : Settings) (body : DeployBody) (tpl : Option Template)
    (checked : Response (Unit {0})) (name : Response String) (default : Network) (user : User)
    (counted : List Job) (now : ℕ) (db after : Db)
    → count_if (is_active_for (next_id db.deployments)) db.jobs ≡ 0
    → deploy_transaction ip s body tpl checked name default user counted now db ≡ ok after
    → Queued s user counted db after
unfolding deploy_transaction enforce_active_job_quota enforce_vm_quota
deploy_transaction-Queued ip s body tpl checked name default user counted now db after fresh h =
    let (quota, h1) = reject_if-ok _ _ _ _ after h in
    let (vms, h2) = reject_if-ok _ _ _ _ after h1 in at_template tpl quota h2
  where
    Below : Type 0
    Below =
        (not (is_admin user.role)
          && leb s.max_active_jobs_per_user (count_if (active_of user) counted))
        ≡ false

    from_row :
        Below
        → (dep : Deployment) × (dep.id ≡ next_id db.deployments)
          × (after.jobs ≡ db.jobs ++ new_job deploy dep user now db.jobs ∷ [])
        → Queued s user counted db after
    from_row quota (dep, i, rows) = (
      new_job deploy dep user now db.jobs,
      dep.id,
      rows,
      refl,
      subst (λ k. count_if (is_active_for k) db.jobs ≡ 0) (sym i) fresh,
      (rw (==_refl user.id) refl),
      quota,
    )

    at_conn :
        (t : Template) (o : Option Connection)
        → Below
        → (elim o as (λ _. Response Db) [
          | none ↦ http 400 "template has no location — edit it and pick a Proxmox connection"
          | some conn ↦ deploy_to ip s body t checked name default conn user now db
        ])
          ≡ ok after
        → Queued s user counted db after
    at_conn t none quota e = cc
    at_conn t (some conn) quota e =
        from_row quota (deploy_to-jobs ip s body t checked name default conn user now db after e)

    at_template :
        (o : Option Template)
        → Below
        → (elim o as (λ _. Response Db) [
          | none ↦ http 404 "template not found"
          | some t ↦
              reject_if (not (visible t user)) 404 "template not found"
              >> (reject_if (not t.has_base) 400 "template has no base image — edit it first"
                  >> elim (get_opt t.connection_id db.connections) as (λ _. Response Db) [
                    | none ↦
                        http 400 "template has no location — edit it and pick a Proxmox connection"
                    | some conn ↦ deploy_to ip s body t checked name default conn user now db
                  ])
        ])
          ≡ ok after
        → Queued s user counted db after
    at_template none quota e = cc
    at_template (some t) quota e =
        let (seen, e1) = reject_if-ok (not (visible t user)) _ _ _ after e in
        let (based, e2) = reject_if-ok (not t.has_base) _ _ _ after e1 in
        at_conn t (get_opt t.connection_id db.connections) quota e2

Admitted-Queued :
    (ip : IpTexts) (s : Settings) (user : User) (counted : List Job) (now : ℕ) (db after : Db)
    → count_if (is_active_for (next_id db.deployments)) db.jobs ≡ 0
    → Admitted ip s user counted now db after
    → Queued s user counted db after
Admitted-Queued ip s user counted now db after fresh (deployed body tpl checked name default h) =
    deploy_transaction-Queued ip s body tpl checked name default user counted now db after fresh h
Admitted-Queued ip s user counted now db after fresh (rebuilt prepared dep_id h) =
    vm_rebuild-Queued s prepared dep_id user counted now db after h
Admitted-Queued ip s user counted now db after fresh (configured acknowledged checked dep_id h) =
    retry_configuration-Queued s acknowledged checked dep_id user counted now db after h

-- Admitting a deployment, a rebuild or the retry of a configuration leaves every deployment with at most one
-- active lifecycle job, if it had at most one before and no active job has the key that a new deployment
-- gets. A user who is not an administrator then has at most as many active jobs as the quota, plus the
-- growth of their number between the handler's count and its step: no more than the quota where it did
-- not grow, and more where the retry of a configuration, which counts and queues without the admission
-- lock, came in between.
pub Admitted-bounded :
    (ip : IpTexts) (s : Settings) (user : User) (counted : List Job) (now : ℕ) (db after : Db)
    → OneActive db.jobs
    → count_if (is_active_for (next_id db.deployments)) db.jobs ≡ 0
    → Admitted ip s user counted now db after
    → OneActive after.jobs
      × ((is_admin user.role ≡ true)
          ⊎ (count_if (active_of user) after.jobs + count_if (active_of user) counted
              ≤ s.max_active_jobs_per_user + count_if (active_of user) db.jobs))
unfolding count_if
Admitted-bounded ip s user counted now db after one fresh admitted =
    go (Admitted-Queued ip s user counted now db after fresh admitted)
  where
    go :
        Queued s user counted db after
        → OneActive after.jobs
          × ((is_admin user.role ≡ true)
              ⊎ (count_if (active_of user) after.jobs + count_if (active_of user) counted
                  ≤ s.max_active_jobs_per_user + count_if (active_of user) db.jobs))
    go (job, k, rows, about, idle, mine, quota) =
        ((λ d. rw rows (each d (k == d) refl)), rw rows (bounded (is_admin user.role) refl))
      where
        each :
            (d : ℕ) (b : Bool) → (k == d) ≡ b → count_if (is_active_for d) (db.jobs ++ job ∷ []) ≤ 1
        each d true e =
            let same : k ≡ d = ground arith in
            let none_left = subst (λ i. count_if (is_active_for i) db.jobs ≡ 0) same idle in
            let more = count_if-append (is_active_for d) db.jobs (job ∷ []) in ground arith
        each d false e =
            let off : is_active_for d job ≡ false = rw about (rw e refl) in
            let more = count_if-append (is_active_for d) db.jobs (job ∷ []) in
            let before = one d in ground arith

        bounded :
            (b : Bool)
            → is_admin user.role ≡ b
            → (is_admin user.role ≡ true)
              ⊎ (count_if (active_of user) (db.jobs ++ job ∷ []) + count_if (active_of user) counted
                  ≤ s.max_active_jobs_per_user + count_if (active_of user) db.jobs)
        bounded true e = inl e
        bounded false e =
            let more = count_if-append (active_of user) db.jobs (job ∷ []) in inr (ground arith)
