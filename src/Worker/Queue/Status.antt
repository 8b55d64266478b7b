-- ===== src/Worker/Queue/Status.antt =====
-- A reconciliation writes no job, the teardown of a VM apart.
use goblin_dock.Base.{
  ℕ, String, ◌≡◌, refl, ◌∙◌, Bool, false, ◌||◌, Option, none, some, arith, Bool-cases, inl, inr,
  get, get_opt,
}
use goblin_dock.Models.{Db, connection_key, Deployment, deployment_key, Job, job_key, JobType}
use goblin_dock.Worker.Remote.{
  Answers, Power, powered_on, powered_off, other, Presence, absent, present, unknown,
}
use goblin_dock.Worker.Ownership.{
  release, drop_deployment_if_matches, set_dep_status, delete_snippet_of,
}
use goblin_dock.Worker.Teardown.{retain_unsettled_task}
use goblin_dock.Worker.Reconcile.{
  is_deploy, is_destroy, probe, is_uncertain, response_lost, settle_present, settle_absent,
  settle_unknown, settle_canceled, with_target, mark_failed, settle_failed, fail_target,
  reconcile_failed_job,
}

settle_present-jobs :
    (k : ℕ) (v : Option ℕ) (t : JobType) (p : Option Power) (m : String) (db : Db)
    → (settle_present k v t p m db).jobs ≡ db.jobs
unfolding settle_present set_dep_status
settle_present-jobs k v t (some powered_on) m db = refl
settle_present-jobs k v t (some powered_off) m db = refl
settle_present-jobs k v t (some other) m db = refl
settle_present-jobs k v t none m db = refl

settle_unknown-jobs :
    (k : ℕ) (v : Option ℕ) (t : JobType) (m : String) (db : Db)
    → (settle_unknown k v t m db).jobs ≡ db.jobs
unfolding settle_unknown set_dep_status
settle_unknown-jobs k v t m db = ground arith

delete_snippet_of-jobs : (c v : Option ℕ) (db : Db) → (delete_snippet_of c v db).jobs ≡ db.jobs
unfolding delete_snippet_of
delete_snippet_of-jobs c v db = ground arith

drop-jobs :
    (k : ℕ) (v : Option ℕ) (b : Bool) (db : Db)
    → (drop_deployment_if_matches k v b db).jobs ≡ db.jobs
unfolding drop_deployment_if_matches release
drop-jobs k v b db = ground arith

settle_absent-jobs :
    (k : ℕ) (c v : Option ℕ) (t : JobType) (db : Db) → (settle_absent k c v t db).jobs ≡ db.jobs
unfolding settle_absent set_dep_status
settle_absent-jobs k c v t db =
    let after = delete_snippet_of c v db in
    elim (Bool-cases (is_deploy t || is_destroy t)) [
      | inl e ↦ rw e (drop-jobs k v false after ∙ delete_snippet_of-jobs c v db)
      | inr e ↦ rw e (delete_snippet_of-jobs c v db)
    ]

pub settle_canceled-jobs :
    (job : Job) (dep : Deployment) (p : Presence) (ans : Answers) (db : Db)
    → (settle_canceled job dep p ans db).jobs ≡ db.jobs
unfolding settle_canceled set_dep_status
settle_canceled-jobs job dep absent ans db =
    settle_absent-jobs dep.id dep.connection_id dep.vmid job.type db
settle_canceled-jobs job dep present ans db =
    let a = settle_present-jobs dep.id dep.vmid job.type ans.power_after ans.detail db in
    let b = settle_unknown-jobs dep.id dep.vmid job.type ans.detail db in ground arith
settle_canceled-jobs job dep unknown ans db =
    let b = settle_unknown-jobs dep.id dep.vmid job.type ans.detail db in ground arith

mark_failed-jobs :
    (job : Job) (dep : Deployment) (p : Presence) (db : Db)
    → (mark_failed job dep p db).jobs ≡ db.jobs
unfolding mark_failed
mark_failed-jobs job dep p db = ground arith

settle_failed-jobs :
    (job : Job) (dep : Deployment) (p : Presence) (db : Db)
    → (settle_failed job dep p db).jobs ≡ db.jobs
unfolding settle_failed
settle_failed-jobs job dep absent db =
    let after = delete_snippet_of dep.connection_id dep.vmid db in
    elim (Bool-cases (is_destroy job.type)) [
      | inl e ↦ rw e (
          drop-jobs dep.id dep.vmid false after
          ∙ delete_snippet_of-jobs dep.connection_id dep.vmid db)
      | inr e ↦ rw e (
          mark_failed-jobs job dep absent after
          ∙ delete_snippet_of-jobs dep.connection_id dep.vmid db)
    ]
settle_failed-jobs job dep present db = mark_failed-jobs job dep present db
settle_failed-jobs job dep unknown db = mark_failed-jobs job dep unknown db

fail_target-jobs :
    (job : Job) (dep : Deployment) (ans : Answers) (db : Db)
    → (fail_target job dep ans db).jobs ≡ db.jobs
unfolding fail_target response_lost
fail_target-jobs job dep ans db = elim (Bool-cases (is_uncertain job dep)) [
  | inl e ↦ rw e
  | inr e ↦ rw e (settle_failed-jobs job dep (probe dep.connection_id dep.vmid ans db) db)
]

pub retain-jobs :
    (j : ℕ) (ans : Answers) (db : Db) → (retain_unsettled_task j ans db).1.jobs ≡ db.jobs
unfolding retain_unsettled_task
retain-jobs j ans db = ground arith

-- The reconciliation of a failed job leaves the table of jobs as it is.
pub reconcile_failed_job-jobs :
    (k : ℕ) (ans : Answers) (db : Db) → (reconcile_failed_job k ans db).jobs ≡ db.jobs
unfolding reconcile_failed_job
reconcile_failed_job-jobs k ans db =
    let (kept, after) = retain_unsettled_task k ans db in
    elim (Bool-cases kept) [
      | inl e ↦ rw e (retain-jobs k ans db)
      | inr e ↦ rw e (target after ∙ retain-jobs k ans db)
    ]
  where
    target :
        (now : Db)
        → (with_target k (λ job dep later. fail_target job dep ans later) now).jobs ≡ now.jobs
    target now = at_job (get k now.jobs)
      where
        at_dep :
            (job : Job) (o : Option Deployment)
            → (elim o as (λ x. Db) [ none ↦ now | some dep ↦ fail_target job dep ans now ]).jobs
              ≡ now.jobs
        at_dep job none = refl
        at_dep job (some dep) = fail_target-jobs job dep ans now

        at_job :
            (o : Option Job)
            → (elim o as (λ x. Db) [
              | none ↦ now
              | some job ↦ elim (get_opt job.deployment_id now.deployments) [
                | none ↦ now
                | some dep ↦ fail_target job dep ans now
              ]
            ]).jobs
              ≡ now.jobs
        at_job none = refl
        at_job (some job) = at_dep job (get_opt job.deployment_id now.deployments)
