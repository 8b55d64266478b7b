-- ===== src/Worker/Queue/Runs.antt =====
-- What a run, a restart and an expired wait leave behind.
use goblin_dock.Base.{
  ℕ, String, ◌≡◌, refl, sym, ◌∙◌, ap, subst, ◌≢◌, Bool, true, false, ◌&&◌, Option, none, some, List,
  [], ◌∷◌, arith, ◌==◌, count_if, update, get, put, has_id, count_if-update, exists-put,
}
use goblin_dock.Models.{
  Db, connection_key, deployment_key, Job, job_key, JobStatus, is_queued, is_waiting, is_running,
  is_active, image_key, BuildStatus, bump,
}
use goblin_dock.Worker.Remote.{Answers}
use goblin_dock.Worker.Reconcile.{reconcile_canceled_job, reconcile_failed_job}
use goblin_dock.Worker.Reconcile.Same.{Same}
use goblin_dock.Worker.Queue.{
  end_job, Outcome, returned, deferred, canceled, raised, succeed_job, mark_image, when_deployed,
  settle_job, end_run, execute, reconcile_each, orphans, recover_orphans, timeout_waiting_job,
  mark_timed_out, time_out, timeout_error,
}
use goblin_dock.Worker.Queue.Status.{reconcile_failed_job-jobs}
use goblin_dock.Worker.Queue.Passing.{passing, reconcile_canceled_job-passing}

abbrev pub active_with : ℕ → Db → ℕ
active_with k db = count_if (λ j. has_id k j && is_active j.status) db.jobs

-- A rewriting that ends the job leaves none of its key active, and as many rows of its key.
ended :
    (k : ℕ) (s : JobStatus) (now : ℕ) (jobs : List Job)
    → is_active s ≡ false
    → (count_if (λ j. has_id k j && is_active j.status) (put k (settle_job s now) jobs) ≡ 0)
      × (count_if (has_id k) (put k (settle_job s now) jobs) ≡ count_if (has_id k) jobs)
unfolding put update count_if
ended k s now [] h = (refl, refl)
ended k s now (j ∷ jobs) h = let rest = ended k s now jobs h in ground arith

failed_all :
    (k now : ℕ) (jobs : List Job)
    → count_if
        (λ j. has_id k j && is_active j.status)
        (put k (end_job JobStatus.failed timeout_error now) jobs)
      ≡ 0
unfolding put update count_if
failed_all k now [] = refl
failed_all k now (j ∷ jobs) = ground (arith, failed_all k now jobs)

mark_image-jobs : (s : BuildStatus) (job : Job) (db : Db) → (mark_image s job db).jobs ≡ db.jobs
unfolding mark_image
mark_image-jobs s job db = ground arith

-- Ending a run that was held active: nothing of its key is active, and its rows are all there.
settled :
    (k : ℕ) (s : JobStatus) (message : String) (now : ℕ) (db mid : Db)
    → is_active s ≡ false
    → passing (λ j t. j == k) mid
      ≡ count_if (has_id k) (put k (end_job JobStatus.running message now) db.jobs)
    → (active_with k (record mid { jobs = put k (settle_job s now) mid.jobs }) ≡ 0)
      × (count_if (has_id k) (put k (settle_job s now) mid.jobs) ≡ count_if (has_id k) db.jobs)
unfolding put
settled k s message now db mid off same =
    let (none_active, kept) = ended k s now mid.jobs off in
    (
      none_active,
      kept
          ∙ same
          ∙ count_if-update (has_id k) (has_id k) (end_job JobStatus.running message now) db.jobs
              (λ j h. refl),
    )

when_deployed-passing :
    (p : ℕ → JobStatus → Bool) (job : Job) (act : Db → Db) (db : Db)
    → ((d : Db) → passing p (act d) ≡ passing p d)
    → passing p (when_deployed job act db) ≡ passing p db
when_deployed-passing p job act db h = at_deployment job.deployment_id
  where
    at_deployment :
        (o : Option ℕ) → passing p (elim o [ none ↦ db | some d ↦ act db ]) ≡ passing p db
    at_deployment none = refl
    at_deployment (some d) = h db

succeeded_all :
    (k now : ℕ) (jobs : List Job)
    → (count_if (λ j. has_id k j && is_active j.status) (put k (succeed_job now) jobs) ≡ 0)
      × (count_if (has_id k) (put k (succeed_job now) jobs) ≡ count_if (has_id k) jobs)
unfolding put update count_if
succeeded_all k now [] = (refl, refl)
succeeded_all k now (j ∷ jobs) = let rest = succeeded_all k now jobs in ground arith

end_run-over :
    (k now : ℕ) (ans : Answers) (job : Job) (outcome : Outcome) (db : Db)
    → outcome ≢ deferred
    → (active_with k (end_run k now ans job outcome db) ≡ 0)
      × (count_if (has_id k) (end_run k now ans job outcome db).jobs ≡ count_if (has_id k) db.jobs)
unfolding end_run
end_run-over k now ans job returned db h = succeeded_all k now db.jobs
end_run-over k now ans job deferred db h = absurd (h refl)
end_run-over k now ans job canceled db h =
    let held = record db { jobs = put k (end_job JobStatus.running "canceled" now) db.jobs } in
    let start = mark_image BuildStatus.not_built job held in
    settled k JobStatus.canceled "canceled" now db
      (when_deployed job (reconcile_canceled_job k ans) start) refl
      (when_deployed-passing (λ j t. j == k) job (reconcile_canceled_job k ans) start
          (reconcile_canceled_job-passing (λ j t. j == k) k ans)
        ∙ ap (count_if (has_id k)) (mark_image-jobs BuildStatus.not_built job held))
end_run-over k now ans job (raised message) db h =
    let held = record db { jobs = put k (end_job JobStatus.running message now) db.jobs } in
    let start = mark_image BuildStatus.failed job held in
    settled k JobStatus.failed message now db (when_deployed job (reconcile_failed_job k ans) start)
      refl
      (when_deployed-passing (λ j t. j == k) job (reconcile_failed_job k ans) start
          (λ d. ap (count_if (has_id k)) (reconcile_failed_job-jobs k ans d))
        ∙ ap (count_if (has_id k)) (mark_image-jobs BuildStatus.failed job held))

-- However the code of a job ends, unless it defers the job: after the run no row of the job's key is
-- active, and every row of that key that the code left is still there, so the job has ended and is
-- neither lost nor left running.
pub execute-over :
    (impl : Job → Db → Outcome × Db) (k now : ℕ) (ans : Answers) (db : Db) (job : Job)
    → get k db.jobs ≡ some job
    → (impl job db).0 ≢ deferred
    → (active_with k (execute impl k now ans db) ≡ 0)
      × (count_if (has_id k) (execute impl k now ans db).jobs
          ≡ count_if (has_id k) (impl job db).1.jobs)
unfolding execute
execute-over impl k now ans db job row ends =
    let run : execute impl k now ans db ≡ end_run k now ans job (impl job db).0 (impl job db).1 =
      ground arith in
    subst
      (λ d.
        (active_with k d ≡ 0)
        × (count_if (has_id k) d.jobs ≡ count_if (has_id k) (impl job db).1.jobs))
      (sym run) (end_run-over k now ans job (impl job db).0 (impl job db).1 ends)

reconcile_each-jobs :
    (ans : ℕ → Answers) (ks : List ℕ) (db : Db) → (reconcile_each ans ks db).jobs ≡ db.jobs
unfolding reconcile_each
reconcile_each-jobs ans [] db = refl
reconcile_each-jobs ans (k ∷ ks) db =
    reconcile_each-jobs ans ks (reconcile_failed_job k (ans k) db)
    ∙ reconcile_failed_job-jobs k (ans k) db

interrupted :
    (now : ℕ) (m : String) (jobs : List Job)
    → (count_if
          (λ j. is_running j.status)
          (update (λ j. is_running j.status) (end_job JobStatus.failed m now) jobs)
        ≡ 0)
      × (count_if
            (λ j. is_queued j.status)
            (update (λ j. is_running j.status) (end_job JobStatus.failed m now) jobs)
          ≡ count_if (λ j. is_queued j.status) jobs)
      × (count_if
            (λ j. is_waiting j.status)
            (update (λ j. is_running j.status) (end_job JobStatus.failed m now) jobs)
          ≡ count_if (λ j. is_waiting j.status) jobs)
unfolding update count_if
interrupted now m [] = (refl, refl, refl)
interrupted now m (j ∷ jobs) = let rest = interrupted now m jobs in ground arith

-- After the recovery at startup no job is running, and as many are queued and as many wait as before,
-- whatever Proxmox answers to the reconciliations.
pub recover_orphans-over :
    (now : ℕ) (ans : ℕ → Answers) (db : Db)
    → (count_if (λ j. is_running j.status) (recover_orphans now ans db).jobs ≡ 0)
      × (count_if (λ j. is_queued j.status) (recover_orphans now ans db).jobs
          ≡ count_if (λ j. is_queued j.status) db.jobs)
      × (count_if (λ j. is_waiting j.status) (recover_orphans now ans db).jobs
          ≡ count_if (λ j. is_waiting j.status) db.jobs)
unfolding recover_orphans
recover_orphans-over now ans db =
    rw (reconcile_each-jobs ans (orphans db.jobs) _) (interrupted now _ db.jobs)

-- An expired wait that nobody canceled fails its job and marks its deployment, and every deployment
-- keeps its row and its addresses; nothing is sent.
timeout_waiting_job-Same :
    (d k now : ℕ) (ans : Answers) (db : Db) (job : Job)
    → get k db.jobs ≡ some job
    → is_waiting job.status ≡ true
    → job.cancel_requested ≡ false
    → Same d db (timeout_waiting_job k now ans db)
      × ((timeout_waiting_job k now ans db).sent ≡ db.sent)
      × (active_with k (timeout_waiting_job k now ans db) ≡ 0)
unfolding timeout_waiting_job mark_timed_out
timeout_waiting_job-Same d k now ans db job row waits wanted =
    let ended_db = record db {
      jobs = put k (end_job JobStatus.failed timeout_error now) db.jobs;
    } in
    let run : timeout_waiting_job k now ans db ≡ bump (mark_timed_out job.deployment_id ended_db) =
      ground arith in
    subst (λ r. Same d db r × (r.sent ≡ db.sent) × (active_with k r ≡ 0)) (sym run)
      (marked job.deployment_id)
  where
    marked :
        (o : Option ℕ)
        → Same d db (
            bump (
              mark_timed_out o
                (record db { jobs = put k (end_job JobStatus.failed timeout_error now) db.jobs })))
          × ((mark_timed_out o (record db {
            jobs = put k (end_job JobStatus.failed timeout_error now) db.jobs;
          })).sent
              ≡ db.sent)
          × (active_with k (
                mark_timed_out o
                  (record db { jobs = put k (end_job JobStatus.failed timeout_error now) db.jobs }))
              ≡ 0)
    marked none = (
      record { row = refl; addresses = refl; connections = refl },
      refl,
      failed_all k now db.jobs,
    )
    marked (some c) = (
      record {
        row = exists-put c d time_out db.deployments (λ b. refl);
        addresses = refl;
        connections = refl;
      },
      refl,
      failed_all k now db.jobs,
    )
