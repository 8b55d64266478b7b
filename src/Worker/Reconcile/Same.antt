-- ===== src/Worker/Reconcile/Same.antt =====
-- The steps of a reconciliation that release nothing: each deployment's row and addresses stay.
use goblin_dock.Base.{
  ℕ, String, ◌≡◌, refl, Bool, true, false, not, ◌&&◌, Option, none, some, List, [], ◌∷◌, arith,
  ◌==◌, if◌then◌else◌, count_if, select, first, get, put, get_opt, exists, exists-put,
  exists-remove, str_eq,
}
use goblin_dock.Models.{
  Db, connection_key, Deployment, deployment_key, DepStatus, Job, job_key, JobType, allocation_of,
  IpAllocation, send, stop_vm, destroy_vm,
}
use goblin_dock.Worker.Remote.{Answers, Power, px_for_conn}
use goblin_dock.Worker.Ownership.{
  release, drop_deployment_if_matches, written, set_dep_status, delete_snippet_of,
}
use goblin_dock.Worker.Teardown.{
  track_task, unconfirmed, mark_unconfirmed, submit, finish_destroy, stop_then_destroy, teardown_at,
  best_effort_destroy, retain_unsettled_task, owns_vm, unknown_cleanup, unknown_task,
}
use goblin_dock.Worker.Reconcile.{response_lost}

-- The deployment `d` has a row, and so many addresses, in one database as in the other; and the
-- connections are those of before.
pub record Same (d : ℕ) (db db' : Db) : Type 0 where
  pub row : exists d db'.deployments ≡ exists d db.deployments
  pub addresses :
      count_if (allocation_of d) db'.allocations ≡ count_if (allocation_of d) db.allocations
  pub connections : db'.connections ≡ db.connections

pub Same-refl : (d : ℕ) (db : Db) → Same d db db
Same-refl d db = record { row = refl; addresses = refl; connections = refl }

pub Same-trans : (d : ℕ) (a b c : Db) → Same d a b → Same d b c → Same d a c
Same-trans d a b c p q = ground arith

pub set_dep_status-Same :
    (d k : ℕ) (s : DepStatus) (m : String) (v : Option ℕ) (o : Option JobType) (db : Db)
    → Same d db (set_dep_status k s m v o db)
unfolding set_dep_status
set_dep_status-Same d k s m v o db = record {
  row = exists-put k d (written s m v o) db.deployments (keeps_id s m v o);
  addresses = refl;
  connections = refl;
}
  where
    keeps_id :
        (s : DepStatus) (m : String) (v : Option ℕ) (o : Option JobType) (b : Deployment)
        → (written s m v o b).id ≡ b.id
    keeps_id s m v o b = ground arith

pub delete_snippet_of-Same :
    (d : ℕ) (c v : Option ℕ) (db : Db) → Same d db (delete_snippet_of c v db)
unfolding delete_snippet_of
delete_snippet_of-Same d c v db = ground arith

pub response_lost-Same : (d k : ℕ) (db : Db) → Same d db (response_lost k db)
unfolding response_lost
response_lost-Same d k db = record {
  row = exists-put k d _ db.deployments (λ b. refl);
  addresses = refl;
  connections = refl;
}

track_task-Same : (d c v : ℕ) (u n : String) (db : Db) → Same d db (track_task c v u n db)
unfolding track_task
track_task-Same d c v u n db = ground arith

-- A row that is marked keeps its key.
mark_one-Same :
    (d : ℕ) (m : String) (dep : Deployment) (db : Db)
    → Same d db (record db { deployments = put dep.id (unconfirmed m) db.deployments })
mark_one-Same d m dep db = record {
  row = exists-put dep.id d (unconfirmed m) db.deployments (λ b. unfold unconfirmed in refl);
  addresses = refl;
  connections = refl;
}

mark_unconfirmed-Same : (d c v : ℕ) (db : Db) → Same d db (mark_unconfirmed c v db)
unfolding mark_unconfirmed
mark_unconfirmed-Same d c v db = go (first (owns_vm c v) db.deployments)
  where
    go :
        (o : Option Deployment)
        → Same d db (elim o [
          | none ↦ db
          | some dep ↦ record db {
            deployments = put dep.id (unconfirmed unknown_cleanup) db.deployments;
          }
        ])
    go none = Same-refl d db
    go (some dep) = mark_one-Same d unknown_cleanup dep db

submit-Same :
    (d c v : ℕ) (n : String) (t : Option String) (w : Bool) (db : Db)
    → Same d db (submit c v n t w db).1
unfolding submit
submit-Same d c v n none w db = Same-refl d db
submit-Same d c v n (some u) w db = track_task-Same d c v u n db

finish_destroy-Same :
    (d c v : ℕ) (n : String) (ans : Answers) (db : Db) → Same d db (finish_destroy c v n ans db).1
unfolding finish_destroy
finish_destroy-Same d c v n ans db =
    let sent = send (destroy_vm v) db in
    let (gone, after) = submit c v n ans.destroy_task ans.destroy_waited sent in
    let s : Same d sent after = submit-Same d c v n ans.destroy_task ans.destroy_waited sent in
    let m = mark_unconfirmed-Same d c v after in ground arith

stop_then_destroy-Same :
    (d c v : ℕ) (n : String) (p : Power) (ans : Answers) (db : Db)
    → Same d db (stop_then_destroy c v n p ans db).1
unfolding stop_then_destroy
stop_then_destroy-Same d c v n p ans db =
    let sent = send (stop_vm v) db in
    let (stopped, after) = submit c v n ans.stop_task ans.stop_waited sent in
    let s : Same d sent after = submit-Same d c v n ans.stop_task ans.stop_waited sent in
    let m = mark_unconfirmed-Same d c v after in
    let f = finish_destroy-Same d c v n ans db in
    let g = finish_destroy-Same d c v n ans after in ground arith

teardown_at-Same :
    (d c v : ℕ) (ans : Answers) (o : Option (Option String)) (db : Db)
    → Same d db (teardown_at c v ans o db).1
unfolding teardown_at
teardown_at-Same d c v ans none db = Same-refl d db
teardown_at-Same d c v ans (some none) db = Same-refl d db
teardown_at-Same d c v ans (some (some n)) db = go ans.power_before
  where
    go :
        (o : Option Power)
        → Same d db
            (elim o as (λ _. Option Bool × Db) [
              | none ↦ (none, db)
              | some p ↦ stop_then_destroy c v n p ans db
            ]).1
    go none = Same-refl d db
    go (some p) = stop_then_destroy-Same d c v n p ans db

pub best_effort_destroy-Same :
    (d : ℕ) (c v : Option ℕ) (ans : Answers) (db : Db)
    → Same d db (best_effort_destroy c v ans db).1
unfolding best_effort_destroy
best_effort_destroy-Same d none v ans db = Same-refl d db
best_effort_destroy-Same d (some c) none ans db = Same-refl d db
best_effort_destroy-Same d (some c) (some v) ans db =
    let t = teardown_at-Same d c v ans ans.vm_node db in ground arith

-- Retaining an unsettled task marks the row; settling it changes nothing.
pub retain_unsettled_task-Same :
    (d j : ℕ) (ans : Answers) (db : Db) → Same d db (retain_unsettled_task j ans db).1
unfolding retain_unsettled_task
retain_unsettled_task-Same d j ans db = at_job (get j db.jobs)
  where
    kept : (job : Job) (dep : Deployment) → Option Deployment → Bool × Db
    kept job dep _ =
        if str_eq job.remote_task ""
        then (false, db)
        else if px_for_conn job.connection_id db.connections ans && ans.task_stopped
        then (false, db)
        else (
          true,
          record db { deployments = put dep.id (unconfirmed unknown_task) db.deployments },
        )

    at_dep :
        (job : Job) (o : Option Deployment)
        → Same d db
            (elim o as (λ _. Bool × Db) [ none ↦ (false, db) | some dep ↦ kept job dep o ]).1
    at_dep job none = Same-refl d db
    at_dep job (some dep) =
        let m = mark_one-Same d unknown_task dep db in let r = Same-refl d db in ground arith

    at_job :
        (o : Option Job)
        → Same d db
            (elim o as (λ _. Bool × Db) [
              | none ↦ (false, db)
              | some job ↦ elim (get_opt job.deployment_id db.deployments) as (λ _. Bool × Db) [
                | none ↦ (false, db)
                | some dep ↦ kept job dep none
              ]
            ]).1
    at_job none = Same-refl d db
    at_job (some job) = at_dep job (get_opt job.deployment_id db.deployments)

pub retain_unsettled_task-settled :
    (j : ℕ) (ans : Answers) (db : Db)
    → (retain_unsettled_task j ans db).0 ≡ false
    → (retain_unsettled_task j ans db).1 ≡ db
unfolding retain_unsettled_task
retain_unsettled_task-settled j ans db h = ground arith

-- Other deployments keep their rows and addresses when one is dropped.
pub count_if-released :
    (d k : ℕ) (rows : List IpAllocation)
    → (d == k) ≡ false
    → count_if (allocation_of d) (select (λ a. not (allocation_of k a)) rows)
      ≡ count_if (allocation_of d) rows
unfolding count_if select
count_if-released d k [] h = refl
count_if-released d k (a ∷ rows) h = ground (arith, count_if-released d k rows h)

pub release-Same : (d k : ℕ) (db : Db) → (d == k) ≡ false → Same d db (release k db)
unfolding release
release-Same d k db h = record {
  row = exists-remove k d db.deployments h;
  addresses = count_if-released d k db.allocations h;
  connections = refl;
}

pub drop_deployment_if_matches-Same :
    (d k : ℕ) (v : Option ℕ) (pending : Bool) (db : Db)
    → (d == k) ≡ false
    → Same d db (drop_deployment_if_matches k v pending db)
unfolding drop_deployment_if_matches
drop_deployment_if_matches-Same d k v pending db h =
    let m = release-Same d k db h in let r = Same-refl d db in ground arith
