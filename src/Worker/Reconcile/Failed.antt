-- ===== src/Worker/Reconcile/Failed.antt =====
-- Failed jobs release ownership only when the VM's absence is proven.
use goblin_dock.Base.{
  ℕ, String, ◌≡◌, refl, ◌⊎◌, ◌≢◌, inl, inr, false, Option, none, some, arith, ◌==◌, if◌then◌else◌,
  Bool-cases, count_if, delete, get, put, exists, exists-put,
}
use goblin_dock.Models.{Db, connection_key, Deployment, deployment_key, Job, job_key, allocation_of}
use goblin_dock.Worker.Remote.{Answers, Presence, absent, present, unknown}
use goblin_dock.Worker.Ownership.{delete_snippet_of, vmid_eq}
use goblin_dock.Worker.Teardown.{retain_unsettled_task}
use goblin_dock.Worker.Reconcile.{
  is_deploy, is_destroy, probe, is_uncertain, fail_deployment, mark_failed, settle_failed,
  fail_target, reconcile_failed_job,
}
use goblin_dock.Worker.Reconcile.Same.{
  Same, Same-refl, Same-trans, delete_snippet_of-Same, response_lost-Same,
  retain_unsettled_task-Same, retain_unsettled_task-settled, drop_deployment_if_matches-Same,
  count_if-released,
}
use goblin_dock.Worker.Reconcile.Owner.{
  Presence-cases, Proven, Proven-probe, KeepsOwner, with_target-owner,
}

fail_deployment-id :
    (v : Option ℕ) (m : String) (d : Deployment) → (fail_deployment v m d).id ≡ d.id
unfolding fail_deployment
fail_deployment-id v m d = ground arith

-- Marking the failure frees the addresses only of a deployment whose VM is absent.
mark_failed-Same :
    (d : ℕ) (job : Job) (dep : Deployment) (p : Presence) (db : Db)
    → ((d == dep.id) ≡ false) ⊎ (p ≢ absent)
    → Same d db (mark_failed job dep p db)
unfolding mark_failed
mark_failed-Same d job dep p db h = go p h (get dep.id db.deployments)
  where
    rows :
        exists d (put dep.id (fail_deployment dep.vmid job.error) db.deployments)
        ≡ exists d db.deployments
    rows =
        exists-put dep.id d (fail_deployment dep.vmid job.error) db.deployments
          (fail_deployment-id dep.vmid job.error)

    freed :
        (d == dep.id) ≡ false
        → count_if (allocation_of d) (delete (allocation_of dep.id) db.allocations)
          ≡ count_if (allocation_of d) db.allocations
    freed away = count_if-released d dep.id db.allocations away

    go :
        (p : Presence)
        → ((d == dep.id) ≡ false) ⊎ (p ≢ absent)
        → (o : Option Deployment)
        → Same d db (elim o [
          | none ↦ db
          | some r ↦
              if vmid_eq r.vmid dep.vmid
              then record db {
                deployments = put dep.id (fail_deployment dep.vmid job.error) db.deployments;
                allocations = elim p [
                  | absent ↦
                      if is_deploy job.type
                      then delete (allocation_of dep.id) db.allocations
                      else db.allocations
                  | _ ↦ db.allocations
                ];
              }
              else db
        ])
    go p k none = Same-refl d db
    go absent (inl away) (some r) = let f = freed away in let q = rows in ground arith
    go absent (inr wrong) (some r) = absurd (wrong refl)
    go present k (some r) = let q = rows in ground arith
    go unknown k (some r) = let q = rows in ground arith

settle_failed-Same :
    (d : ℕ) (job : Job) (dep : Deployment) (p : Presence) (db : Db)
    → ((d == dep.id) ≡ false) ⊎ (p ≢ absent)
    → Same d db (settle_failed job dep p db)
unfolding settle_failed
settle_failed-Same d job dep absent db (inr h) = absurd (h refl)
settle_failed-Same d job dep absent db (inl h) =
    let after = delete_snippet_of dep.connection_id dep.vmid db in
    let s = delete_snippet_of-Same d dep.connection_id dep.vmid db in
    elim (Bool-cases (is_destroy job.type)) [
      | inl e ↦
          rw e
            (Same-trans d _ _ _ s (drop_deployment_if_matches-Same d dep.id dep.vmid false after h))
      | inr e ↦ rw e (Same-trans d _ _ _ s (mark_failed-Same d job dep absent after (inl h)))
    ]
settle_failed-Same d job dep present db h = mark_failed-Same d job dep present db h
settle_failed-Same d job dep unknown db h = mark_failed-Same d job dep unknown db h

fail_target-owner :
    (d : ℕ) (job : Job) (dep : Deployment) (ans : Answers) (db : Db)
    → Same d db (fail_target job dep ans db) ⊎ Proven d dep ans db
unfolding fail_target
fail_target-owner d job dep ans db =
    let found = probe dep.connection_id dep.vmid ans db in
    elim (Bool-cases (is_uncertain job dep)) [
      | inl e ↦ inl (rw e (response_lost-Same d dep.id db))
      | inr e ↦ elim (Bool-cases (d == dep.id)) [
        | inr away ↦ inl (rw e (settle_failed-Same d job dep found db (inl away)))
        | inl here ↦ elim (Presence-cases found) [
          | inl gone ↦ inr (Proven-probe d dep ans db db here (Same-refl d db) gone)
          | inr seen ↦ inl (rw e (settle_failed-Same d job dep found db (inr seen)))
        ]
      ]
    ]

-- The reconciliation of a failed job, too, leaves each deployment its row and as many reserved
-- addresses as it had, unless the deployment is the job's own and its VM is proven absent.
pub reconcile_failed_job-owner :
    (d job_id : ℕ) (ans : Answers) (db : Db)
    → KeepsOwner d job_id ans db (reconcile_failed_job job_id ans db)
unfolding reconcile_failed_job
reconcile_failed_job-owner d job_id ans db =
    elim (Bool-cases (retain_unsettled_task job_id ans db).0) [
      | inl kept ↦ inl (rw kept (retain_unsettled_task-Same d job_id ans db))
      | inr settled ↦
          rw (settled, retain_unsettled_task-settled job_id ans db settled)
            (with_target-owner d job_id ans (λ job dep now. fail_target job dep ans now) db
              (λ job dep. fail_target-owner d job dep ans db))
    ]
