-- ===== src/Worker/Queue/Tests.antt =====
-- Runs of the queue on one deployment and three jobs.
use goblin_dock.Base.{
  ℕ, ◌<◌, ◌≡◌, ◌⊎◌, refl, none, false, some, [], ◌∷◌, arith, count_if, get, first, put, update,
  has_id,
}
use goblin_dock.Models.{Db, Job, job_key, JobStatus, is_queued, is_running, is_waiting}
use goblin_dock.Worker.Remote.{}
use goblin_dock.Worker.Tests.{lab_db, deploy_job, gone_answers}
use goblin_dock.Worker.Reconcile.Same.{}
use goblin_dock.Worker.Queue.{
  oldest, claim, claim_next_job, Outcome, raised, execute, recover_orphans, start_job,
}
use goblin_dock.Worker.Queue.Drain.{
  Started, Withdrawn, queued_jobs, claim_next_job-Started, claim_next_job-drains,
}
use goblin_dock.Worker.Queue.Runs.{active_with, execute-over, recover_orphans-over}

abbrev job_at : ℕ → JobStatus → Job
job_at id status = record deploy_job { id = id; status = status; cancel_requested = false }

-- The rows are not in the order of their keys.
abbrev queue_db : Db
queue_db = record lab_db {
  jobs =
      job_at 9 JobStatus.queued
      ∷ job_at 8 JobStatus.queued
      ∷ job_at 7 JobStatus.running
      ∷ job_at 6 JobStatus.waiting
      ∷ [];
}

abbrev claimed_db : Db
claimed_db = record queue_db {
  jobs =
      job_at 9 JobStatus.queued
      ∷ start_job 50 (job_at 8 JobStatus.queued)
      ∷ job_at 7 JobStatus.running
      ∷ job_at 6 JobStatus.waiting
      ∷ [];
  version = 1;
}

claims : claim_next_job 50 "disabled" gone_answers queue_db ≡ (some 8, claimed_db)
unfolding claim_next_job claim oldest get first put update
claims = refl

claim_next_job-Started_example : Started 50 8 queue_db claimed_db
claim_next_job-Started_example =
    claim_next_job-Started 50 8 "disabled" gone_answers queue_db claimed_db claims

two_queued : 0 < queued_jobs queue_db.jobs
unfolding count_if
two_queued = omega arith

claim_next_job-drains_example :
    (queued_jobs (claim_next_job 50 "disabled" gone_answers queue_db).1.jobs
      < queued_jobs queue_db.jobs)
    × (((k : ℕ) × ((claim_next_job 50 "disabled" gone_answers queue_db).0 ≡ some k)
          × Started 50 k queue_db (claim_next_job 50 "disabled" gone_answers queue_db).1)
        ⊎ (((claim_next_job 50 "disabled" gone_answers queue_db).0 ≡ none)
            × Withdrawn queue_db (claim_next_job 50 "disabled" gone_answers queue_db).1))
claim_next_job-drains_example = claim_next_job-drains 50 "disabled" gone_answers queue_db two_queued

-- The code of job 7 raises and changes nothing.
abbrev failing : Job → Db → Outcome × Db
failing job db = (raised "boom", db)

running_row : get 7 queue_db.jobs ≡ some (job_at 7 JobStatus.running)
unfolding get first
running_row = refl

execute-over_example :
    (active_with 7 (execute failing 7 60 gone_answers queue_db) ≡ 0)
    × (count_if (has_id 7) (execute failing 7 60 gone_answers queue_db).jobs
        ≡ count_if (has_id 7) queue_db.jobs)
execute-over_example =
    execute-over failing 7 60 gone_answers queue_db (job_at 7 JobStatus.running) running_row
      (λ e. cc)

recover_orphans-over_example :
    (count_if (λ j. is_running j.status) (recover_orphans 60 (λ k. gone_answers) queue_db).jobs ≡ 0)
    × (count_if (λ j. is_queued j.status) (recover_orphans 60 (λ k. gone_answers) queue_db).jobs
        ≡ count_if (λ j. is_queued j.status) queue_db.jobs)
    × (count_if (λ j. is_waiting j.status) (recover_orphans 60 (λ k. gone_answers) queue_db).jobs
        ≡ count_if (λ j. is_waiting j.status) queue_db.jobs)
recover_orphans-over_example = recover_orphans-over 60 (λ k. gone_answers) queue_db
