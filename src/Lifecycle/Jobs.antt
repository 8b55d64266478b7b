-- ===== src/Lifecycle/Jobs.antt =====
-- app/api.py: canceling, dismissing, clearing and purging jobs, and the daily pruning. The steps and
-- events of a purged job go with it.
pub mod Active
use goblin_dock.Base.{
  ℕ, zero, suc, ◌+◌, ◌-◌, ◌*◌, String, ◌≡◌, refl, Bool, true, false, not, ◌&&◌, ◌||◌, Option, none,
  some, List, [], ◌∷◌, ◌==◌, ltb, if◌then◌else◌, Bool-cases, inl, inr, delete, select, update,
  count_if, length, get, put, remove, is_key, Response, ok, http, ◌>>=◌, ◌>>◌, reject_if, >>=-eq-ok,
  arith, first, has_id, get_id, subst, ap, ◌∙◌, sym, count_if-update,
}
use goblin_dock.Models.{User, is_admin, Db, Job, job_key, is_active, is_finished, bump}

abbrev pub job_owned : Job → User → Bool
job_owned job user = is_admin user.role || is_key user.id job.created_by

unfoldable pub owned_job : ℕ → User → Db → Response Job
owned_job job_id user db = elim (get job_id db.jobs) [
  | none ↦ http 404 "not found"
  | some job ↦ if not (job_owned job user) then http 403 "not your job" else ok job
]

abbrev pub request_cancel : Job → Job
request_cancel j = record j { cancel_requested = true }

unfoldable pub cancel_job : ℕ → User → Db → Response Db
cancel_job job_id user db = do
  job ← owned_job job_id user db
  (if is_active job.status
      then ok (record db { jobs = put job.id request_cancel db.jobs })
      else ok db)

abbrev pub dismiss : ℕ → Job → Job
dismiss now job = record job { dismissed = true; dismissed_at = some now }

unfoldable pub delete_job : ℕ → User → ℕ → Db → Response Db
delete_job job_id user now db = do
  job ← owned_job job_id user db
  reject_if (is_active job.status) 409 "job is still running"
  ok (bump (record db { jobs = put job.id (dismiss now) db.jobs }))

-- What an administrator sees is every job, and what a user sees are the own ones.
abbrev pub visible_to : User → Job → Bool
visible_to user job = is_admin user.role || is_key user.id job.created_by

abbrev pub is_clearable : User → Job → Bool
is_clearable user job = is_finished job.status && (not job.dismissed && visible_to user job)

-- The answer is the number of cleared jobs.
unfoldable pub clear_jobs : User → ℕ → Db → ℕ × Db
clear_jobs user now db = (
  count_if (is_clearable user) db.jobs,
  bump (record db { jobs = update (is_clearable user) (dismiss now) db.jobs }),
)

unfoldable pub purge_job_permanently : ℕ → User → Db → Response Db
purge_job_permanently job_id user db = do
  job ← owned_job job_id user db
  reject_if (is_active job.status) 409 "job is still running"
  ok (record db { jobs = remove job.id db.jobs })

abbrev pub is_purgeable : User → Job → Bool
is_purgeable user job = is_finished job.status && visible_to user job

unfoldable pub purge_all_jobs : User → Db → ℕ × Db
purge_all_jobs user db = (
  count_if (is_purgeable user) db.jobs,
  bump (record db { jobs = delete (is_purgeable user) db.jobs }),
)

-- `now - timedelta(days)`; a time before the clock's zero prunes nothing.
abbrev pub ended_before : ℕ → Job → Bool
ended_before cutoff job =
    is_finished job.status && elim job.finished_at [ none ↦ false | some t ↦ ltb t cutoff ]

unfoldable pub prune_old_jobs : ℕ → ℕ → Db → ℕ × Db
prune_old_jobs zero now db = (0, db)
prune_old_jobs (suc n) now db =
    let cutoff = now - (n + 1) * 86400 in
    (
      count_if (ended_before cutoff) db.jobs,
      record db { jobs = delete (ended_before cutoff) db.jobs },
    )
