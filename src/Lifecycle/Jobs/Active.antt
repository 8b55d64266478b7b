-- ===== src/Lifecycle/Jobs/Active.antt =====
-- Cleaning the job list never touches a job that is queued, running or waiting.
use goblin_dock.Base.{
  ℕ, zero, suc, ◌+◌, ◌-◌, ◌*◌, ◌≡◌, refl, sym, ◌∙◌, Bool, true, false, some, List, [], ◌∷◌, arith,
  ◌==◌, Bool-cases, inl, inr, delete, select, update, get, put, remove, get-put_other, get-remove,
  get_id, first, ok, >>=-eq-ok,
}
use goblin_dock.Models.{User, Db, Job, job_key, JobStatus, is_active, is_finished}
use goblin_dock.Lifecycle.Jobs.{
  owned_job, dismiss, delete_job, is_clearable, clear_jobs, purge_job_permanently, is_purgeable,
  purge_all_jobs, ended_before, prune_old_jobs,
}

get-delete :
    (k : ℕ) (p : Job → Bool) (jobs : List Job) (job : Job)
    → get k jobs ≡ some job
    → p job ≡ false
    → get k (delete p jobs) ≡ some job
unfolding get first select
get-delete k p [] job found stays = cc
get-delete k p (j ∷ jobs) job found stays = ground (arith, get-delete k p jobs job)

get-update :
    (k now : ℕ) (p : Job → Bool) (jobs : List Job) (job : Job)
    → get k jobs ≡ some job
    → p job ≡ false
    → get k (update p (dismiss now) jobs) ≡ some job
unfolding get first update
get-update k now p [] job found stays = cc
get-update k now p (j ∷ jobs) job found stays = ground (arith, get-update k now p jobs job)

unfinished : (s : JobStatus) → is_active s ≡ true → is_finished s ≡ false
unfinished s h = ground arith

-- A queued, running or waiting job is left exactly as it is by clearing the list, by purging all
-- jobs, and by the daily pruning, whoever asks and whatever the retention is.
pub bulk-keeps-active :
    (k : ℕ) (job : Job) (user : User) (now days : ℕ) (db : Db)
    → get k db.jobs ≡ some job
    → is_active job.status ≡ true
    → (get k (clear_jobs user now db).1.jobs ≡ some job)
      × (get k (purge_all_jobs user db).1.jobs ≡ some job)
      × (get k (prune_old_jobs days now db).1.jobs ≡ some job)
unfolding clear_jobs purge_all_jobs prune_old_jobs
bulk-keeps-active k job user now days db found active =
    let off = unfinished job.status active in
    (
      get-update k now (is_clearable user) db.jobs job found (ground arith),
      get-delete k (is_purgeable user) db.jobs job found (ground arith),
      pruned days,
    )
  where
    pruned : (n : ℕ) → get k (prune_old_jobs n now db).1.jobs ≡ some job
    pruned zero = found
    pruned (suc n) =
        let off = unfinished job.status active in
        get-delete k (ended_before (now - (n + 1) * 86400)) db.jobs job found (ground arith)

owned_job-row :
    (job_id : ℕ) (user : User) (db : Db) (job : Job)
    → owned_job job_id user db ≡ ok job
    → get job_id db.jobs ≡ some job
unfolding owned_job
owned_job-row job_id user db job h = ground arith

away :
    (k j : ℕ) (job other : Job) (db : Db)
    → get k db.jobs ≡ some job
    → get j db.jobs ≡ some other
    → is_active job.status ≡ true
    → is_active other.status ≡ false
    → (k == j) ≡ false
away k j job other db found row on off = elim (Bool-cases (k == j)) [
  | inr e ↦ e
  | inl e ↦ let p : k ≡ j = ground arith in (let q : some job ≡ some other = cc in ground arith)
]

-- Dismissing or purging one job is refused while that job is active, and leaves every other active
-- job as it is.
single-keeps-active :
    (k j : ℕ) (job : Job) (user : User) (now : ℕ) (db dismissed purged : Db)
    → get k db.jobs ≡ some job
    → is_active job.status ≡ true
    → delete_job j user now db ≡ ok dismissed
    → purge_job_permanently j user db ≡ ok purged
    → ((k == j) ≡ false) × (get k dismissed.jobs ≡ some job) × (get k purged.jobs ≡ some job)
unfolding delete_job purge_job_permanently
single-keeps-active k j job user now db dismissed purged found on hd hp =
    let (other, owned, h₁) = >>=-eq-ok (owned_job j user db) _ hd in
    let row = owned_job-row j user db other owned in
    let id = get_id j db.jobs other row in
    let off : is_active other.status ≡ false = ground arith in
    let apart = away k j job other db found row on off in
    let one : put other.id (dismiss now) db.jobs ≡ dismissed.jobs = ground arith in
    let two : remove other.id db.jobs ≡ purged.jobs = ground arith in
    let here : (k == other.id) ≡ false = ground arith in
    (
      apart,
      rw (sym one) (get-put_other other.id k (dismiss now) db.jobs (λ b. refl) here ∙ found),
      rw (sym two, get-remove other.id k db.jobs, here) found,
    )
