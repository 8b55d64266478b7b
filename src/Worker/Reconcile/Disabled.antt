-- ===== src/Worker/Reconcile/Disabled.antt =====
-- A connection that an administrator disabled is never contacted.
use goblin_dock.Base.{
  ℕ, String, ◌≡◌, refl, subst, sym, Bool, true, false, ◌||◌, Option, none, some, List, arith,
  if◌then◌else◌, Bool-cases, inl, inr, get, get_opt,
}
use goblin_dock.Models.{
  Db, Connection, connection_key, Deployment, deployment_key, Job, job_key, JobType,
}
use goblin_dock.Worker.Remote.{
  Answers, Power, powered_on, powered_off, other, Presence, absent, present, unknown, px_for_conn,
}
use goblin_dock.Worker.Ownership.{
  drop_deployment_if_matches, delete_snippet_of, set_dep_status, release,
}
use goblin_dock.Worker.Teardown.{best_effort_destroy, retain_unsettled_task}
use goblin_dock.Worker.Reconcile.{
  is_deploy, is_destroy, probe, is_uncertain, response_lost, settle_present, settle_absent,
  settle_unknown, settle_canceled, cancel_target, with_target, reconcile_canceled_job, mark_failed,
  settle_failed, fail_target, reconcile_failed_job,
}
use goblin_dock.Worker.Reconcile.Same.{retain_unsettled_task-settled}

-- The connection exists and is disabled.
abbrev pub Disabled : Option ℕ → List Connection → Type 0
Disabled c connections =
    (conn : Connection) × (get_opt c connections ≡ some conn) × (conn.disabled ≡ true)

no_client :
    (c : Option ℕ) (connections : List Connection) (ans : Answers)
    → Disabled c connections
    → px_for_conn c connections ans ≡ false
unfolding px_for_conn
no_client c connections ans (conn, e, off) = ground arith

no_teardown :
    (c v : Option ℕ) (ans : Answers) (db : Db)
    → Disabled c db.connections
    → best_effort_destroy c v ans db ≡ (none, db)
unfolding best_effort_destroy
no_teardown none v ans db h = refl
no_teardown (some c) none ans db h = refl
no_teardown (some c) (some v) ans db h = rw (no_client (some c) db.connections ans h)

no_snippet : (c v : Option ℕ) (db : Db) → Disabled c db.connections → delete_snippet_of c v db ≡ db
unfolding delete_snippet_of
no_snippet c none db h = refl
no_snippet c (some v) db (conn, e, off) = ground arith

drop-sent :
    (k : ℕ) (v : Option ℕ) (b : Bool) (db : Db)
    → (drop_deployment_if_matches k v b db).sent ≡ db.sent
unfolding drop_deployment_if_matches release
drop-sent k v b db = ground arith

settle_present-sent :
    (k : ℕ) (v : Option ℕ) (t : JobType) (p : Option Power) (m : String) (db : Db)
    → (settle_present k v t p m db).sent ≡ db.sent
unfolding settle_present set_dep_status
settle_present-sent k v t (some powered_on) m db = refl
settle_present-sent k v t (some powered_off) m db = refl
settle_present-sent k v t (some other) m db = refl
settle_present-sent k v t none m db = refl

settle_unknown-sent :
    (k : ℕ) (v : Option ℕ) (t : JobType) (m : String) (db : Db)
    → (settle_unknown k v t m db).sent ≡ db.sent
unfolding settle_unknown set_dep_status
settle_unknown-sent k v t m db = elim (Bool-cases (is_deploy t || is_destroy t)) [
  | inl e ↦ rw e
  | inr e ↦ rw e
]

settle_absent-sent :
    (k : ℕ) (c v : Option ℕ) (t : JobType) (db : Db)
    → Disabled c db.connections
    → (settle_absent k c v t db).sent ≡ db.sent
unfolding settle_absent set_dep_status
settle_absent-sent k c v t db h = elim (Bool-cases (is_deploy t || is_destroy t)) [
  | inl e ↦ rw (e, no_snippet c v db h) (drop-sent k v false db)
  | inr e ↦ rw (e, no_snippet c v db h)
]

settle_canceled-sent :
    (job : Job) (dep : Deployment) (p : Presence) (ans : Answers) (db : Db)
    → Disabled dep.connection_id db.connections
    → (settle_canceled job dep p ans db).sent ≡ db.sent
unfolding settle_canceled set_dep_status
settle_canceled-sent job dep absent ans db h =
    settle_absent-sent dep.id dep.connection_id dep.vmid job.type db h
settle_canceled-sent job dep present ans db h =
    let a = settle_present-sent dep.id dep.vmid job.type ans.power_after ans.detail db in
    let b = settle_unknown-sent dep.id dep.vmid job.type ans.detail db in ground arith
settle_canceled-sent job dep unknown ans db h =
    let b = settle_unknown-sent dep.id dep.vmid job.type ans.detail db in ground arith

torn_down :
    (b : Bool) (c v : Option ℕ) (ans : Answers) (db : Db)
    → Disabled c db.connections
    → (if b then best_effort_destroy c v ans db else (none, db)) ≡ (none, db)
torn_down true c v ans db h = no_teardown c v ans db h
torn_down false c v ans db h = refl

cancel_target-sent :
    (job : Job) (dep : Deployment) (ans : Answers) (db : Db)
    → Disabled dep.connection_id db.connections
    → (cancel_target job dep ans db).sent ≡ db.sent
unfolding cancel_target response_lost
cancel_target-sent job dep ans db h = elim (Bool-cases (is_uncertain job dep)) [
  | inl e ↦ rw e
  | inr e ↦
      rw (e, torn_down (is_deploy job.type) dep.connection_id dep.vmid ans db h)
        (settle_canceled-sent job dep (probe dep.connection_id dep.vmid ans db) ans db h)
]

mark_failed-sent :
    (job : Job) (dep : Deployment) (p : Presence) (db : Db)
    → (mark_failed job dep p db).sent ≡ db.sent
unfolding mark_failed
mark_failed-sent job dep p db = ground arith

fail_target-sent :
    (job : Job) (dep : Deployment) (ans : Answers) (db : Db)
    → Disabled dep.connection_id db.connections
    → (fail_target job dep ans db).sent ≡ db.sent
unfolding fail_target settle_failed response_lost
fail_target-sent job dep ans db h = elim (Bool-cases (is_uncertain job dep)) [
  | inl e ↦ rw e
  | inr e ↦ rw e (settled (probe dep.connection_id dep.vmid ans db))
]
  where
    settled : (p : Presence) → (settle_failed job dep p db).sent ≡ db.sent
    settled absent = elim (Bool-cases (is_destroy job.type)) [
      | inl e ↦
          rw (e, no_snippet dep.connection_id dep.vmid db h) (drop-sent dep.id dep.vmid false db)
      | inr e ↦
          rw (e, no_snippet dep.connection_id dep.vmid db h) (mark_failed-sent job dep absent db)
    ]
    settled present = mark_failed-sent job dep present db
    settled unknown = mark_failed-sent job dep unknown db

retain_unsettled_task-sent :
    (job_id : ℕ) (ans : Answers) (db : Db) → (retain_unsettled_task job_id ans db).1.sent ≡ db.sent
unfolding retain_unsettled_task
retain_unsettled_task-sent job_id ans db = ground arith

with_target-sent :
    (job_id : ℕ) (act : Job → Deployment → Db → Db) (db : Db) (job : Job) (dep : Deployment)
    → get job_id db.jobs ≡ some job
    → get_opt job.deployment_id db.deployments ≡ some dep
    → (act job dep db).sent ≡ db.sent
    → (with_target job_id act db).sent ≡ db.sent
with_target-sent job_id act db job dep row found same =
    let at : with_target job_id act db ≡ act job dep db = ground arith in
    subst (λ r. r.sent ≡ db.sent) (sym at) same

-- Reconciling a canceled or a failed job sends nothing to Proxmox while the connection of its
-- deployment is disabled, however Proxmox would answer.
pub reconcile_job-Disabled :
    (job_id : ℕ) (ans : Answers) (db : Db) (job : Job) (dep : Deployment)
    → get job_id db.jobs ≡ some job
    → get_opt job.deployment_id db.deployments ≡ some dep
    → Disabled dep.connection_id db.connections
    → ((reconcile_canceled_job job_id ans db).sent ≡ db.sent)
      × ((reconcile_failed_job job_id ans db).sent ≡ db.sent)
unfolding reconcile_canceled_job reconcile_failed_job
reconcile_job-Disabled job_id ans db job dep row found off =
    let sent = retain_unsettled_task-sent job_id ans db in
    elim (Bool-cases (retain_unsettled_task job_id ans db).0) [
      | inl r ↦ (rw r sent, rw r sent)
      | inr r ↦
          let same = retain_unsettled_task-settled job_id ans db r in
          (
            rw (r, same)
                (with_target-sent job_id (λ job dep now. cancel_target job dep ans now) db job dep
                  row found (cancel_target-sent job dep ans db off)),
            rw (r, same)
                (with_target-sent job_id (λ job dep now. fail_target job dep ans now) db job dep row
                  found (fail_target-sent job dep ans db off)),
          )
    ]
