-- ===== src/Worker/Queue/Passing.antt =====
-- A reconciliation changes no job's key or status: the teardown of a VM writes at most where a job's
-- remote task is.
use goblin_dock.Base.{
  ℕ, String, ◌≡◌, refl, ◌∙◌, ap, Bool, true, false, Option, none, some, arith, if◌then◌else◌,
  Bool-cases, inl, inr, count_if, first, get, put, get_opt, count_if-update,
}
use goblin_dock.Models.{
  Db, connection_key, Deployment, deployment_key, Job, job_key, JobStatus, job_of, send, stop_vm,
  destroy_vm,
}
use goblin_dock.Worker.Remote.{Answers, Power, is_off, px_for_conn}
use goblin_dock.Worker.Ownership.{}
use goblin_dock.Worker.Teardown.{
  latest, owns_vm, track_task, mark_unconfirmed, submit, finish_destroy, stop_then_destroy,
  teardown_at, best_effort_destroy, retain_unsettled_task,
}
use goblin_dock.Worker.Reconcile.{
  is_deploy, probe, is_uncertain, response_lost, gave_up, cancel_target, with_target,
  reconcile_canceled_job,
}
use goblin_dock.Worker.Queue.Status.{settle_canceled-jobs, retain-jobs}

-- As many jobs pass a test of their key and status.
module _ (p : ℕ → JobStatus → Bool) where
  abbrev pub passing : Db → ℕ
  passing db = count_if (λ j. p j.id j.status) db.jobs

  track_task-passing :
      (c v : ℕ) (u n : String) (db : Db) → passing (track_task c v u n db) ≡ passing db
  unfolding track_task put
  track_task-passing c v u n db = at_dep (first (owns_vm c v) db.deployments)
    where
      at_job :
          (o : Option Job)
          → passing (elim o [
            | none ↦ db
            | some job ↦ record db {
              jobs = put job.id (λ j. record j { remote_task = u; remote_node = n }) db.jobs;
            }
          ])
            ≡ passing db
      at_job none = refl
      at_job (some job) = count_if-update (λ j. p j.id j.status) _ _ db.jobs (λ j h. refl)

      at_dep :
          (o : Option Deployment)
          → passing (elim o [
            | none ↦ db
            | some dep ↦ elim (latest (job_of dep.id) db.jobs) [
              | none ↦ db
              | some job ↦ record db {
                jobs = put job.id (λ j. record j { remote_task = u; remote_node = n }) db.jobs;
              }
            ]
          ])
            ≡ passing db
      at_dep none = refl
      at_dep (some dep) = at_job (latest (job_of dep.id) db.jobs)

  mark_unconfirmed-passing : (c v : ℕ) (db : Db) → passing (mark_unconfirmed c v db) ≡ passing db
  unfolding mark_unconfirmed
  mark_unconfirmed-passing c v db =
      let e : (mark_unconfirmed c v db).jobs ≡ db.jobs = ground arith in
      ap (count_if (λ j. p j.id j.status)) e

  submit-passing :
      (c v : ℕ) (n : String) (t : Option String) (w : Bool) (db : Db)
      → passing (submit c v n t w db).1 ≡ passing db
  unfolding submit
  submit-passing c v n none w db = refl
  submit-passing c v n (some u) w db = track_task-passing c v u n db

  finish_destroy-passing :
      (c v : ℕ) (n : String) (ans : Answers) (db : Db)
      → passing (finish_destroy c v n ans db).1 ≡ passing db
  unfolding finish_destroy
  finish_destroy-passing c v n ans db =
      let sent = send (destroy_vm v) db in
      let (gone, after) = submit c v n ans.destroy_task ans.destroy_waited sent in
      let s : passing after ≡ passing db =
        submit-passing c v n ans.destroy_task ans.destroy_waited sent in
      elim (Bool-cases gone) [
        | inl e ↦ rw e s
        | inr e ↦ rw e (mark_unconfirmed-passing c v after ∙ s)
      ]

  stop_then_destroy-passing :
      (c v : ℕ) (n : String) (w : Power) (ans : Answers) (db : Db)
      → passing (stop_then_destroy c v n w ans db).1 ≡ passing db
  unfolding stop_then_destroy
  stop_then_destroy-passing c v n w ans db =
      let sent = send (stop_vm v) db in
      let (stopped, after) = submit c v n ans.stop_task ans.stop_waited sent in
      let s : passing after ≡ passing db =
        submit-passing c v n ans.stop_task ans.stop_waited sent in
      elim (Bool-cases (is_off w)) [
        | inl off ↦ rw off (finish_destroy-passing c v n ans db)
        | inr on ↦ elim (Bool-cases stopped) [
          | inl e ↦ rw (on, e) (finish_destroy-passing c v n ans after ∙ s)
          | inr e ↦ rw (on, e) (mark_unconfirmed-passing c v after ∙ s)
        ]
      ]

  teardown_at-passing :
      (c v : ℕ) (ans : Answers) (o : Option (Option String)) (db : Db)
      → passing (teardown_at c v ans o db).1 ≡ passing db
  unfolding teardown_at
  teardown_at-passing c v ans none db = refl
  teardown_at-passing c v ans (some none) db = refl
  teardown_at-passing c v ans (some (some n)) db = go ans.power_before
    where
      go :
          (o : Option Power)
          → passing
              (elim o as (λ x. Option Bool × Db) [
                | none ↦ (none, db)
                | some w ↦ stop_then_destroy c v n w ans db
              ]).1
            ≡ passing db
      go none = refl
      go (some w) = stop_then_destroy-passing c v n w ans db

  best_effort_destroy-passing :
      (c v : Option ℕ) (ans : Answers) (db : Db)
      → passing (best_effort_destroy c v ans db).1 ≡ passing db
  unfolding best_effort_destroy
  best_effort_destroy-passing none v ans db = refl
  best_effort_destroy-passing (some c) none ans db = refl
  best_effort_destroy-passing (some c) (some v) ans db =
      elim (Bool-cases (px_for_conn (some c) db.connections ans)) [
        | inl e ↦ rw e (teardown_at-passing c v ans ans.vm_node db)
        | inr e ↦ rw e refl
      ]

  torn_down-passing :
      (b : Bool) (c v : Option ℕ) (ans : Answers) (db : Db)
      → passing (if b then best_effort_destroy c v ans db else (none, db)).1 ≡ passing db
  torn_down-passing true c v ans db = best_effort_destroy-passing c v ans db
  torn_down-passing false c v ans db = refl

  cancel_target-passing :
      (job : Job) (dep : Deployment) (ans : Answers) (db : Db)
      → passing (cancel_target job dep ans db) ≡ passing db
  unfolding cancel_target response_lost
  cancel_target-passing job dep ans db =
      let t =
        if is_deploy job.type
        then best_effort_destroy dep.connection_id dep.vmid ans db
        else (none, db) in
      let torn = torn_down-passing (is_deploy job.type) dep.connection_id dep.vmid ans db in
      let found = probe dep.connection_id dep.vmid ans t.1 in
      elim (Bool-cases (is_uncertain job dep)) [
        | inl e ↦ rw e
        | inr e ↦ elim (Bool-cases (gave_up t.0)) [
          | inl g ↦ rw (e, g) torn
          | inr g ↦
              rw (e, g)
                (ap (count_if (λ j. p j.id j.status)) (settle_canceled-jobs job dep found ans t.1)
                  ∙ torn)
        ]
      ]

  -- The reconciliation of a canceled job leaves every job its key and status.
  pub reconcile_canceled_job-passing :
      (k : ℕ) (ans : Answers) (db : Db) → passing (reconcile_canceled_job k ans db) ≡ passing db
  unfolding reconcile_canceled_job
  reconcile_canceled_job-passing k ans db =
      let (kept, after) = retain_unsettled_task k ans db in
      let same = ap (count_if (λ j. p j.id j.status)) (retain-jobs k ans db) in
      elim (Bool-cases kept) [ inl e ↦ rw e same | inr e ↦ rw e (target after ∙ same) ]
    where
      target :
          (now : Db)
          → passing (with_target k (λ job dep later. cancel_target job dep ans later) now)
            ≡ passing now
      target now = at_job (get k now.jobs)
        where
          at_dep :
              (job : Job) (o : Option Deployment)
              → passing (elim o [ none ↦ now | some dep ↦ cancel_target job dep ans now ])
                ≡ passing now
          at_dep job none = refl
          at_dep job (some dep) = cancel_target-passing job dep ans now

          at_job :
              (o : Option Job)
              → passing (elim o [
                | none ↦ now
                | some job ↦ elim (get_opt job.deployment_id now.deployments) [
                  | none ↦ now
                  | some dep ↦ cancel_target job dep ans now
                ]
              ])
                ≡ passing now
          at_job none = refl
          at_job (some job) = at_dep job (get_opt job.deployment_id now.deployments)
