-- ===== src/Worker/Reconcile/Retry.antt =====
-- The periodic retry of a pending cleanup releases ownership only on proven absence, and at most
-- once a minute.
use goblin_dock.Base.{
  ℕ, ◌≡◌, refl, ◌⊎◌, ◌≢◌, inl, inr, true, false, not, ◌||◌, Option, none, some, arith, ◌==◌,
  if◌then◌else◌, Bool-cases, get, put, exists-put,
}
use goblin_dock.Models.{Db, connection_key, Deployment, deployment_key, is_cleanup_pending}
use goblin_dock.Worker.Remote.{Answers, Presence, absent, present, unknown}
use goblin_dock.Worker.Ownership.{delete_snippet_of}
use goblin_dock.Worker.Teardown.{best_effort_destroy}
use goblin_dock.Worker.Reconcile.{
  probe, gave_up, origin_is_deploy, origin_is_destroy, settle_cleanup, attempt_cleanup,
  tried_within_minute, retry_cleanup_deployment,
}
use goblin_dock.Worker.Reconcile.Same.{
  Same, Same-refl, Same-trans, set_dep_status-Same, delete_snippet_of-Same,
  drop_deployment_if_matches-Same,
}
use goblin_dock.Worker.Reconcile.Owner.{Presence-cases, Proven, Proven-probe, torn_down-Same}

settle_cleanup-Same :
    (d : ℕ) (dep : Deployment) (p : Presence) (ans : Answers) (db : Db)
    → ((d == dep.id) ≡ false) ⊎ (p ≢ absent)
    → Same d db (settle_cleanup dep p ans db)
unfolding settle_cleanup
settle_cleanup-Same d dep absent ans db (inr h) = absurd (h refl)
settle_cleanup-Same d dep absent ans db (inl h) =
    Same-trans d _ _ _ (delete_snippet_of-Same d dep.connection_id dep.vmid db) (
      drop_deployment_if_matches-Same d dep.id dep.vmid true
        (delete_snippet_of dep.connection_id dep.vmid db) h)
settle_cleanup-Same d dep present ans db h =
    elim (Bool-cases (origin_is_destroy dep.cleanup_origin)) [
      | inl e ↦ rw e (set_dep_status-Same d dep.id _ _ dep.vmid none db)
      | inr e ↦ rw e (set_dep_status-Same d dep.id _ _ dep.vmid none db)
    ]
settle_cleanup-Same d dep unknown ans db h = set_dep_status-Same d dep.id _ _ dep.vmid none db

attempt_cleanup-owner :
    (d : ℕ) (dep : Deployment) (ans : Answers) (db : Db)
    → Same d db (attempt_cleanup dep ans db) ⊎ Proven d dep ans db
unfolding attempt_cleanup
attempt_cleanup-owner d dep ans db =
    let b = origin_is_deploy dep.cleanup_origin in
    let t = if b then best_effort_destroy dep.connection_id dep.vmid ans db else (none, db) in
    let torn = torn_down-Same d b dep.connection_id dep.vmid ans db in
    let found = probe dep.connection_id dep.vmid ans t.1 in
    elim (Bool-cases (gave_up t.0)) [
      | inl g ↦ inl (rw g torn)
      | inr g ↦ elim (Bool-cases (d == dep.id)) [
        | inr away ↦
            inl
              (rw g (Same-trans d _ _ _ torn (settle_cleanup-Same d dep found ans t.1 (inl away))))
        | inl here ↦ elim (Presence-cases found) [
          | inl gone ↦ inr (Proven-probe d dep ans db t.1 here torn gone)
          | inr seen ↦
              inl (
                rw g (Same-trans d _ _ _ torn (settle_cleanup-Same d dep found ans t.1 (inr seen))))
        ]
      ]
    ]

-- A retry of the cleanup of `dep_id` leaves every deployment its row and addresses, unless it is the
-- one that is retried, its status is `cleanup_pending`, its last attempt lies at least a minute back,
-- and its VM is proven absent.
pub retry_cleanup_deployment-owner :
    (d dep_id now : ℕ) (ans : Answers) (db : Db)
    → Same d db (retry_cleanup_deployment dep_id now ans db)
      ⊎ ((dep : Deployment) × (get dep_id db.deployments ≡ some dep)
          × (is_cleanup_pending dep.status ≡ true)
          × (tried_within_minute now dep.cleanup_last_attempt_at ≡ false)
          × Proven d dep ans db)
unfolding retry_cleanup_deployment
retry_cleanup_deployment-owner d dep_id now ans db = at_dep (get dep_id db.deployments) refl
  where
    stamped : Db
    stamped = record db {
      deployments =
          put dep_id (λ r. record r { cleanup_last_attempt_at = some now }) db.deployments;
    }

    stamped-Same : Same d db stamped
    stamped-Same = record {
      row = exists-put dep_id d _ db.deployments (λ r. refl);
      addresses = refl;
      connections = refl;
    }

    at_dep :
        (o : Option Deployment)
        → get dep_id db.deployments ≡ o
        → Same d db (elim o [
          | none ↦ db
          | some dep ↦
              if not (is_cleanup_pending dep.status)
                || tried_within_minute now dep.cleanup_last_attempt_at
              then db
              else attempt_cleanup dep ans stamped
        ])
          ⊎ ((dep : Deployment) × (get dep_id db.deployments ≡ some dep)
              × (is_cleanup_pending dep.status ≡ true)
              × (tried_within_minute now dep.cleanup_last_attempt_at ≡ false)
              × Proven d dep ans db)
    at_dep none e = inl (Same-refl d db)
    at_dep (some dep) e =
        elim (Bool-cases (
          not (is_cleanup_pending dep.status)
          || tried_within_minute now dep.cleanup_last_attempt_at)) [
            | inl skip ↦ inl (rw skip (Same-refl d db))
            | inr go ↦ elim (attempt_cleanup-owner d dep ans stamped) [
              | inl same ↦ inl (rw go (Same-trans d _ _ _ stamped-Same same))
              | inr p ↦ inr (dep, e, ground arith, ground arith, p)
            ]
          ]
