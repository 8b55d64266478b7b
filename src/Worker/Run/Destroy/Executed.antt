-- ===== src/Worker/Run/Destroy/Executed.antt =====
-- `_execute` on a destroy job: the job's code together with the reconciliation that follows an exception.
use goblin_dock.Base.{
  ℕ, String, ◌≡◌, refl, sym, ap, ◌∙◌, subst, ◌⊎◌, inl, inr, Bool, true, false, Option, none, some,
  arith, ◌==◌, get, put, get_opt, get-put, min, exists, count_if,
}
use goblin_dock.Models.{
  Db, Deployment, deployment_key, Job, job_key, JobStatus, BuildStatus, Command, send, bump,
  allocation_of,
}
use goblin_dock.Worker.Remote.{Answers, ProvenAbsent, px_for_conn}
use goblin_dock.Worker.Ownership.{}
use goblin_dock.Worker.Queue.{
  Outcome, returned, deferred, canceled, raised, end_job, succeed_job, settle_job, mark_image,
  when_deployed, end_run, execute,
}
use goblin_dock.Worker.Reconcile.{reconcile_canceled_job, reconcile_failed_job}
use goblin_dock.Worker.Reconcile.Same.{Same, Same-trans}
use goblin_dock.Worker.Reconcile.Owner.{KeepsOwner, reconcile_canceled_job-owner}
use goblin_dock.Worker.Reconcile.Failed.{reconcile_failed_job-owner}
use goblin_dock.Worker.Run.{Ended, value, stopped, as_impl, outcome_of, progress, remote}
use goblin_dock.Worker.Run.Ends.{Ends}
use goblin_dock.Worker.Run.Destroy.{Teardown, run_destroy}
use goblin_dock.Worker.Run.Destroy.Torn.{Torn, run_destroy-Torn}
use goblin_dock.Worker.Run.Destroy.Owner.{Destroyed, run_destroy-owner}

-- The tables that say who owns what are those of `db`, and the job is about the same deployment.
pub record Frozen (job_id : ℕ) (about : Option ℕ) (db x : Db) : Type 0 where
  pub deployments : x.deployments ≡ db.deployments
  pub allocations : x.allocations ≡ db.allocations
  pub connections : x.connections ≡ db.connections
  pub job : (j : Job) × (get job_id x.jobs ≡ some j) × (j.deployment_id ≡ about)

module _ (job_id : ℕ) (about : Option ℕ) (db : Db) where
  put_job-Frozen :
      (f : Job → Job) (k : ℕ) (x : Db)
      → ((j : Job) → (f j).id ≡ j.id)
      → ((j : Job) → (f j).deployment_id ≡ j.deployment_id)
      → Frozen job_id about db x
      → (j : Job) × (get job_id (put k f x.jobs) ≡ some j) × (j.deployment_id ≡ about)
  put_job-Frozen f k x ids same h = go h.job (job_id == k) refl
    where
      go :
          (j : Job) × (get job_id x.jobs ≡ some j) × (j.deployment_id ≡ about)
          → (b : Bool) → (job_id == k) ≡ b
          → (j : Job) × (get job_id (put k f x.jobs) ≡ some j) × (j.deployment_id ≡ about)
      go (j, e, o) true b = (f j, get-put k job_id f x.jobs ids ∙ (rw (b, e) refl), same j ∙ o)
      go (j, e, o) false b = (j, get-put k job_id f x.jobs ids ∙ (rw (b, e) refl), o)

  progress-Frozen :
      (j k : ℕ) (s : String) (x : Db)
      → Frozen job_id about db x
      → Frozen job_id about db (progress j k s x)
  unfolding progress
  progress-Frozen j k s x h = record {
    deployments = h.deployments;
    allocations = h.allocations;
    connections = h.connections;
    job =
        put_job-Frozen (λ r. record r { pct = min 100 k; phase = s }) j x (λ r. refl) (λ r. refl) h;
  }

  remote-Frozen :
      (j : ℕ) (u n : String) (x : Db)
      → Frozen job_id about db x
      → Frozen job_id about db (remote j u n x)
  unfolding remote
  remote-Frozen j u n x h = record {
    deployments = h.deployments;
    allocations = h.allocations;
    connections = h.connections;
    job =
        put_job-Frozen (λ r. record r { remote_task = u; remote_node = n }) j x (λ r. refl)
          (λ r. refl) h;
  }

  send-Frozen :
      (c : Command) (x : Db) → Frozen job_id about db x → Frozen job_id about db (send c x)
  send-Frozen c x h = record {
    deployments = h.deployments;
    allocations = h.allocations;
    connections = h.connections;
    job = h.job;
  }

  -- A write to the job's row that keeps what it is about.
  job-Frozen :
      (f : Job → Job) (x : Db)
      → ((j : Job) → (f j).id ≡ j.id)
      → ((j : Job) → (f j).deployment_id ≡ j.deployment_id)
      → Frozen job_id about db x
      → Frozen job_id about db (record x { jobs = put job_id f x.jobs })
  job-Frozen f x ids same h = record {
    deployments = h.deployments;
    allocations = h.allocations;
    connections = h.connections;
    job = put_job-Frozen f job_id x ids same h;
  }

  mark_image-Frozen :
      (s : BuildStatus) (job : Job) (x : Db)
      → Frozen job_id about db x
      → Frozen job_id about db (mark_image s job x)
  unfolding mark_image
  mark_image-Frozen s job x h =
      let same : (mark_image s job x).jobs ≡ x.jobs = ground arith in
      let rows : (mark_image s job x).deployments ≡ x.deployments = ground arith in
      let held : (mark_image s job x).allocations ≡ x.allocations = ground arith in
      let sources : (mark_image s job x).connections ≡ x.connections = ground arith in
      record {
        deployments = rows ∙ h.deployments;
        allocations = held ∙ h.allocations;
        connections = sources ∙ h.connections;
        job =
            subst (λ l. (j : Job) × (get job_id l ≡ some j) × (j.deployment_id ≡ about)) (sym same)
              h.job;
      }

  Frozen-Same : (d : ℕ) (x : Db) → Frozen job_id about db x → Same d db x
  Frozen-Same d x h = record {
    row = ap (λ l. exists d l) h.deployments;
    addresses = ap (λ l. count_if (allocation_of d) l) h.allocations;
    connections = h.connections;
  }

-- The deployment keeps its row and its addresses, or it is the job's and its VM was proven absent by the
-- job's own last look or by the reconciliation.
abbrev pub Settled : ℕ → Job → Teardown → Answers → Db → Db → Type 0
Settled d job t ans db after =
    Same d db after
    ⊎ ((dep : Deployment) × (get_opt job.deployment_id db.deployments ≡ some dep)
        × (dep.id ≡ d)
        × (ProvenAbsent true dep.vmid t.left
            ⊎ ProvenAbsent (px_for_conn dep.connection_id db.connections ans) dep.vmid ans))

module _ (d : ℕ) (job : Job) (t : Teardown) (ans : Answers) (db : Db) where
  -- What a reconciliation proves of the frozen tables, it proves of those before the run.
  KeepsOwner-Settled :
      (job_id : ℕ) (x after : Db)
      → Frozen job_id job.deployment_id db x
      → KeepsOwner d job_id ans x after
      → Settled d job t ans db after
  KeepsOwner-Settled job_id x after f (inl same) =
      inl (Same-trans d db x after (Frozen-Same job_id job.deployment_id db d x f) same)
  KeepsOwner-Settled job_id x after f (inr (j, dep, found, row, (here, absence))) = go f.job
    where
      go :
          (k : Job) × (get job_id x.jobs ≡ some k) × (k.deployment_id ≡ job.deployment_id)
          → Settled d job t ans db after
      go (k, e, o) =
          let both : some j ≡ some k = sym found ∙ e in
          let one : j ≡ k = ground arith in
          let about : j.deployment_id ≡ job.deployment_id = ap (λ r. r.deployment_id) one ∙ o in
          inr (
            dep,
            subst (λ l. get_opt job.deployment_id l ≡ some dep) f.deployments
                (subst (λ i. get_opt i x.deployments ≡ some dep) about row),
            here,
            inr (
                subst (λ cs. ProvenAbsent (px_for_conn dep.connection_id cs ans) dep.vmid ans)
                  f.connections absence),
          )

  -- The job's row is written and the counter goes up.
  ended-Settled :
      (f : Job → Job) (k : ℕ) (x : Db)
      → Settled d job t ans db x
      → Settled d job t ans db (bump (record x { jobs = put k f x.jobs }))
  ended-Settled f k x (inl h) =
      inl (record { row = h.row; addresses = h.addresses; connections = h.connections })
  ended-Settled f k x (inr p) = inr p

  when_deployed-Settled :
      (job_id : ℕ) (act : Db → Db) (x : Db)
      → Frozen job_id job.deployment_id db x
      → KeepsOwner d job_id ans x (act x)
      → Settled d job t ans db (when_deployed job act x)
  when_deployed-Settled job_id act x f k = at_dep job.deployment_id
    where
      at_dep :
          (o : Option ℕ)
          → Settled d job t ans db (elim o as (λ _. Db) [ none ↦ x | some i ↦ act x ])
      at_dep none = inl (Frozen-Same job_id job.deployment_id db d x f)
      at_dep (some i) = KeepsOwner-Settled job_id x (act x) f k

  stopped-Settled :
      (job_id now : ℕ) (o : Outcome) (x : Db)
      → Frozen job_id job.deployment_id db x
      → Settled d job t ans db (end_run job_id now ans job o x)
  unfolding end_run
  stopped-Settled job_id now returned x f =
      ended-Settled (succeed_job now) job_id x (inl (Frozen-Same job_id job.deployment_id db d x f))
  stopped-Settled job_id now deferred x f =
      let h = Frozen-Same job_id job.deployment_id db d x f in
      inl (record { row = h.row; addresses = h.addresses; connections = h.connections })
  stopped-Settled job_id now canceled x f =
      let held = record x { jobs = put job_id (end_job JobStatus.running "canceled" now) x.jobs } in
      let y = mark_image BuildStatus.not_built job held in
      let g = mark_image-Frozen job_id job.deployment_id db BuildStatus.not_built job held (
        job-Frozen job_id job.deployment_id db (end_job JobStatus.running "canceled" now) x
          (λ r. refl) (λ r. refl) f) in
      ended-Settled (settle_job JobStatus.canceled now) job_id
        (when_deployed job (reconcile_canceled_job job_id ans) y)
        (when_deployed-Settled job_id (reconcile_canceled_job job_id ans) y g
          (reconcile_canceled_job-owner d job_id ans y))
  stopped-Settled job_id now (raised message) x f =
      let held = record x { jobs = put job_id (end_job JobStatus.running message now) x.jobs } in
      let y = mark_image BuildStatus.failed job held in
      let g = mark_image-Frozen job_id job.deployment_id db BuildStatus.failed job held (
        job-Frozen job_id job.deployment_id db (end_job JobStatus.running message now) x (λ r. refl)
          (λ r. refl) f) in
      ended-Settled (settle_job JobStatus.failed now) job_id
        (when_deployed job (reconcile_failed_job job_id ans) y)
        (when_deployed-Settled job_id (reconcile_failed_job job_id ans) y g
          (reconcile_failed_job-owner d job_id ans y))

  run-Settled :
      (job_id now : ℕ) (e : Ended (Unit {0})) (x : Db)
      → Ends (Destroyed d job t db) (Same d db) (e, x)
      → Ends
          (Torn (Frozen job_id job.deployment_id db) job t db)
          (Frozen job_id job.deployment_id db)
          (e, x)
      → Settled d job t ans db (end_run job_id now ans job (outcome_of e) x)
  unfolding end_run
  run-Settled job_id now (value done) x (dep, row, absence, gone, inl here) torn =
      inr (dep, row, here, inl absence)
  run-Settled job_id now (value done) x (dep, row, absence, gone, inr same) torn =
      ended-Settled (succeed_job now) job_id x (inl same)
  run-Settled job_id now (stopped o) x same f = stopped-Settled job_id now o x f

-- A destroy job is carried out to its end, with the reconciliation that follows an exception. Whatever Proxmox
-- answers to the job's code and then to the reconciliation, and wherever a cancellation comes, a
-- deployment loses its row or an address only if it is the one of the job and it never had a VM id, or one
-- of the two found its VM absent in a complete inventory and Proxmox confirmed that the id is free.
pub execute-destroy :
    (d job_id now : ℕ) (cancel client : Bool) (picked : Option String) (t : Teardown)
    (ans : Answers) (job : Job) (db : Db)
    → get job_id db.jobs ≡ some job
    → Settled d job t ans db
        (execute (as_impl (run_destroy cancel client picked t)) job_id now ans db)
unfolding execute
execute-destroy d job_id now cancel client picked t ans job db found =
    subst
      (λ o. Settled d job t ans db (elim o as (λ _. Db) [
        | none ↦ db
        | some row ↦
            let (outcome, after) = as_impl (run_destroy cancel client picked t) row db in
            end_run job_id now ans row outcome after
      ]))
      (sym found)
      (run-Settled d job t ans db job_id now (run_destroy cancel client picked t job db).0
        (run_destroy cancel client picked t job db).1
        (run_destroy-owner d cancel client picked t job db)
        (run_destroy-Torn (Frozen job_id job.deployment_id db)
          (progress-Frozen job_id job.deployment_id db) (remote-Frozen job_id job.deployment_id db)
          (send-Frozen job_id job.deployment_id db) cancel client picked t job db
          (record {
            deployments = refl;
            allocations = refl;
            connections = refl;
            job = (job, found, refl);
          })))
