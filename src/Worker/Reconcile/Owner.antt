-- ===== src/Worker/Reconcile/Owner.antt =====
-- Ownership is released only when the VM's absence is proven.
use goblin_dock.Base.{
  ℕ, String, ◌≡◌, refl, ◌⊎◌, ◌≢◌, inl, inr, subst, Bool, true, false, ◌&&◌, ◌||◌, Option, none,
  some, arith, ◌==◌, if◌then◌else◌, Bool-cases, get, get_opt,
}
use goblin_dock.Models.{
  Db, connection_key, Deployment, deployment_key, Job, job_key, JobType, deploy, destroy, rebuild,
  configure, image_sync, image_build, is_accepted,
}
use goblin_dock.Worker.Remote.{
  Answers, Power, powered_on, powered_off, other, Presence, absent, present, unknown, px_for_conn,
  ProvenAbsent, probe-absent,
}
use goblin_dock.Worker.Ownership.{delete_snippet_of}
use goblin_dock.Worker.Teardown.{best_effort_destroy, retain_unsettled_task}
use goblin_dock.Worker.Reconcile.{
  is_deploy, is_destroy, is_rebuild, probe, is_uncertain, settle_present, settle_absent,
  settle_unknown, settle_canceled, cancel_target, with_target, reconcile_canceled_job, gave_up,
}
use goblin_dock.Worker.Reconcile.Same.{
  Same, Same-refl, Same-trans, set_dep_status-Same, delete_snippet_of-Same, response_lost-Same,
  best_effort_destroy-Same, retain_unsettled_task-Same, retain_unsettled_task-settled,
  drop_deployment_if_matches-Same,
}

settle_present-Same :
    (d k : ℕ) (v : Option ℕ) (t : JobType) (p : Option Power) (m : String) (db : Db)
    → Same d db (settle_present k v t p m db)
unfolding settle_present
settle_present-Same d k v t (some powered_on) m db = set_dep_status-Same d k _ _ v none db
settle_present-Same d k v t (some powered_off) m db = set_dep_status-Same d k _ _ v none db
settle_present-Same d k v t (some other) m db = set_dep_status-Same d k _ _ v none db
settle_present-Same d k v t none m db = set_dep_status-Same d k _ _ v none db

settle_unknown-Same :
    (d k : ℕ) (v : Option ℕ) (t : JobType) (m : String) (db : Db)
    → Same d db (settle_unknown k v t m db)
unfolding settle_unknown
settle_unknown-Same d k v deploy m db = set_dep_status-Same d k _ _ v _ db
settle_unknown-Same d k v destroy m db = set_dep_status-Same d k _ _ v _ db
settle_unknown-Same d k v rebuild m db = set_dep_status-Same d k _ _ v _ db
settle_unknown-Same d k v configure m db = set_dep_status-Same d k _ _ v _ db
settle_unknown-Same d k v image_sync m db = set_dep_status-Same d k _ _ v _ db
settle_unknown-Same d k v image_build m db = set_dep_status-Same d k _ _ v _ db

settle_absent-Same :
    (d k : ℕ) (c v : Option ℕ) (t : JobType) (db : Db)
    → (d == k) ≡ false
    → Same d db (settle_absent k c v t db)
unfolding settle_absent
settle_absent-Same d k c v t db h =
    let after = delete_snippet_of c v db in
    let s = delete_snippet_of-Same d c v db in
    elim (Bool-cases (is_deploy t || is_destroy t)) [
      | inl e ↦ rw e (Same-trans d _ _ _ s (drop_deployment_if_matches-Same d k v false after h))
      | inr e ↦ rw e (Same-trans d _ _ _ s (set_dep_status-Same d k _ _ v none after))
    ]

-- Whatever was found, only the absent VM's deployment may lose something.
settle_canceled-Same :
    (d : ℕ) (job : Job) (dep : Deployment) (p : Presence) (ans : Answers) (db : Db)
    → (d == dep.id) ≡ false ⊎ (p ≢ absent)
    → Same d db (settle_canceled job dep p ans db)
unfolding settle_canceled
settle_canceled-Same d job dep absent ans db (inl h) =
    settle_absent-Same d dep.id dep.connection_id dep.vmid job.type db h
settle_canceled-Same d job dep absent ans db (inr h) = absurd (h refl)
settle_canceled-Same d job dep present ans db h =
    elim (Bool-cases (is_rebuild job.type && is_accepted job.create_state)) [
      | inl e ↦ rw e (set_dep_status-Same d dep.id _ _ dep.vmid none db)
      | inr e ↦ rw e (elim (Bool-cases (is_rebuild job.type || is_destroy job.type)) [
        | inl f ↦
            rw f (settle_present-Same d dep.id dep.vmid job.type ans.power_after ans.detail db)
        | inr f ↦ rw f (settle_unknown-Same d dep.id dep.vmid job.type ans.detail db)
      ])
    ]
settle_canceled-Same d job dep unknown ans db h =
    elim (Bool-cases (is_rebuild job.type && is_accepted job.create_state)) [
      | inl e ↦ rw e (set_dep_status-Same d dep.id _ _ dep.vmid none db)
      | inr e ↦ rw e (settle_unknown-Same d dep.id dep.vmid job.type ans.detail db)
    ]

pub Presence-cases : (p : Presence) → (p ≡ absent) ⊎ (p ≢ absent)
Presence-cases absent = inl refl
Presence-cases present = inr (λ e. cc)
Presence-cases unknown = inr (λ e. cc)

-- The deployment was the target, and its VM was proven absent.
abbrev pub Proven : ℕ → Deployment → Answers → Db → Type 0
Proven d dep ans db =
    (dep.id ≡ d) × ProvenAbsent (px_for_conn dep.connection_id db.connections ans) dep.vmid ans

-- What a probe after the teardown proves, it proves of the connections before.
pub Proven-probe :
    (d : ℕ) (dep : Deployment) (ans : Answers) (db after : Db)
    → (d == dep.id) ≡ true
    → Same d db after
    → probe dep.connection_id dep.vmid ans after ≡ absent
    → Proven d dep ans db
Proven-probe d dep ans db after here s e =
    let p : dep.id ≡ d = ground arith in
    (
      p,
      subst (λ cs. ProvenAbsent (px_for_conn dep.connection_id cs ans) dep.vmid ans) s.connections
          (probe-absent (px_for_conn dep.connection_id after.connections ans) dep.vmid ans e),
    )

pub torn_down-Same :
    (d : ℕ) (b : Bool) (c v : Option ℕ) (ans : Answers) (db : Db)
    → Same d db (if b then best_effort_destroy c v ans db else (none, db)).1
torn_down-Same d true c v ans db = best_effort_destroy-Same d c v ans db
torn_down-Same d false c v ans db = Same-refl d db

cancel_target-owner :
    (d : ℕ) (job : Job) (dep : Deployment) (ans : Answers) (db : Db)
    → Same d db (cancel_target job dep ans db) ⊎ Proven d dep ans db
unfolding cancel_target
cancel_target-owner d job dep ans db =
    let t =
      if is_deploy job.type
      then best_effort_destroy dep.connection_id dep.vmid ans db
      else (none, db) in
    let torn = torn_down-Same d (is_deploy job.type) dep.connection_id dep.vmid ans db in
    let found = probe dep.connection_id dep.vmid ans t.1 in
    elim (Bool-cases (is_uncertain job dep)) [
      | inl e ↦ inl (rw e (response_lost-Same d dep.id db))
      | inr e ↦ elim (Bool-cases (gave_up t.0)) [
        | inl g ↦ inl (rw (e, g) torn)
        | inr g ↦ elim (Bool-cases (d == dep.id)) [
          | inr away ↦ inl (
              rw (e, g)
                (Same-trans d _ _ _ torn (settle_canceled-Same d job dep found ans t.1 (inl away))))
          | inl here ↦ elim (Presence-cases found) [
            | inl gone ↦ inr (Proven-probe d dep ans db t.1 here torn gone)
            | inr seen ↦ inl (
                rw (e, g)
                  (Same-trans d _ _ _ torn
                    (settle_canceled-Same d job dep found ans t.1 (inr seen))))
          ]
        ]
      ]
    ]

-- Either the deployment keeps its row and its addresses, or it is the one of the job, and its VM was
-- proven absent.
abbrev pub KeepsOwner : ℕ → ℕ → Answers → Db → Db → Type 0
KeepsOwner d job_id ans db db' =
    Same d db db'
    ⊎ ((job : Job) × (dep : Deployment) × (get job_id db.jobs ≡ some job)
        × (get_opt job.deployment_id db.deployments ≡ some dep)
        × Proven d dep ans db)

pub with_target-owner :
    (d job_id : ℕ) (ans : Answers) (act : Job → Deployment → Db → Db) (db : Db)
    → ((job : Job) (dep : Deployment) → Same d db (act job dep db) ⊎ Proven d dep ans db)
    → KeepsOwner d job_id ans db (with_target job_id act db)
with_target-owner d job_id ans act db h = at_job (get job_id db.jobs) refl
  where
    at_dep :
        (job : Job) (o : Option Deployment)
        → get job_id db.jobs ≡ some job
        → get_opt job.deployment_id db.deployments ≡ o
        → KeepsOwner d job_id ans db (elim o [ none ↦ db | some dep ↦ act job dep db ])
    at_dep job none e f = inl (Same-refl d db)
    at_dep job (some dep) e f = elim (h job dep) [
      | inl same ↦ inl same
      | inr p ↦ inr (job, dep, e, f, p)
    ]

    at_job :
        (o : Option Job)
        → get job_id db.jobs ≡ o
        → KeepsOwner d job_id ans db (elim o [
          | none ↦ db
          | some job ↦ elim (get_opt job.deployment_id db.deployments) [
            | none ↦ db
            | some dep ↦ act job dep db
          ]
        ])
    at_job none e = inl (Same-refl d db)
    at_job (some job) e = at_dep job (get_opt job.deployment_id db.deployments) e refl

-- For every database, every job and all answers of Proxmox, the reconciliation of a canceled job
-- leaves each deployment its row and as many reserved addresses as it had, unless the deployment is
-- the job's own and its VM is proven absent: no VM id was ever assigned, or an enabled connection
-- has a complete inventory without it and Proxmox confirms that the id is free.
pub reconcile_canceled_job-owner :
    (d job_id : ℕ) (ans : Answers) (db : Db)
    → KeepsOwner d job_id ans db (reconcile_canceled_job job_id ans db)
unfolding reconcile_canceled_job
reconcile_canceled_job-owner d job_id ans db =
    elim (Bool-cases (retain_unsettled_task job_id ans db).0) [
      | inl kept ↦ inl (rw kept (retain_unsettled_task-Same d job_id ans db))
      | inr settled ↦
          rw (settled, retain_unsettled_task-settled job_id ans db settled)
            (with_target-owner d job_id ans (λ job dep now. cancel_target job dep ans now) db
              (λ job dep. cancel_target-owner d job dep ans db))
    ]
