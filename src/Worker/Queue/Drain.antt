-- ===== src/Worker/Queue/Drain.antt =====
-- The queue moves: which job a claim starts, and that each claim takes one off the queue.
use goblin_dock.Base.{
  ℕ, ◌+◌, ◌<◌, String, ◌≡◌, refl, sym, ◌∙◌, ap, Bool, true, false, ◌&&◌, ◌||◌, not, ◌++◌, ◌⊎◌,
  Option, none, some, List, [], ◌∷◌, arith, ltb, ◌==◌, Bool-cases, inl, inr, count_if, update, put,
  has_id,
}
use goblin_dock.Models.{
  Db, connection_key, deployment_key, Job, job_key, JobStatus, is_queued, is_finished, image_key,
}
use goblin_dock.Worker.Remote.{Answers}
use goblin_dock.Worker.Reconcile.{}
use goblin_dock.Worker.Reconcile.Same.{}
use goblin_dock.Worker.Queue.{
  oldest, end_job, source_disabled, start_job, withdraw_job, claim, claim_next_job,
}
use goblin_dock.Worker.Queue.Status.{reconcile_failed_job-jobs}
use goblin_dock.Worker.Queue.Passing.{reconcile_canceled_job-passing}
use goblin_dock.Worker.Queue.Oldest.{oldest-least, oldest-In}

-- The rows with one key pass no more once they are rewritten so that they do not pass.
count_if-put_out :
    (p : Job → Bool) (k : ℕ) (f : Job → Job) (jobs : List Job)
    → ((j : Job) → p (f j) ≡ false)
    → count_if p (put k f jobs) + count_if (λ j. p j && has_id k j) jobs ≡ count_if p jobs
unfolding put update count_if
count_if-put_out p k f [] h = refl
count_if-put_out p k f (j ∷ jobs) h = ground (arith, h j, count_if-put_out p k f jobs h)

abbrev pub queued_jobs : List Job → ℕ
queued_jobs jobs = count_if (λ j. is_queued j.status) jobs

claim-drains :
    (now : ℕ) (message : String) (ans : Answers) (job : Job) (db : Db)
    → 0 < count_if (λ j. is_queued j.status && has_id job.id j) db.jobs
    → queued_jobs (claim now message ans job db).1.jobs < queued_jobs db.jobs
unfolding claim
claim-drains now message ans job db there =
    let q = λ (j : Job). is_queued j.status in
    let withdrawn = record db { jobs = put job.id (withdraw_job now) db.jobs } in
    let stranded = record db { jobs = put job.id (end_job JobStatus.failed message now) db.jobs } in
    elim (Bool-cases job.cancel_requested) [
      | inl c ↦ rw c (
          omega (
            arith,
            reconcile_canceled_job-passing (λ k s. is_queued s) job.id ans withdrawn,
            count_if-put_out q job.id (withdraw_job now) db.jobs (λ j. refl),
          ))
      | inr c ↦ elim (Bool-cases (source_disabled job db)) [
        | inl d ↦
            rw (c, d)
              (omega (
                arith,
                ap queued_jobs (reconcile_failed_job-jobs job.id ans stranded),
                count_if-put_out q job.id (end_job JobStatus.failed message now) db.jobs
                    (λ j. refl),
              ))
        | inr d ↦
            rw (c, d) (omega (arith, count_if-put_out q job.id (start_job now) db.jobs (λ j. refl)))
      ]
    ]

-- What a claim that starts a job says of it.
abbrev pub Started : ℕ → ℕ → Db → Db → Type 0
Started now k db db' =
    (job : Job) × (bs : List Job) × (rest : List Job) × (db.jobs ≡ bs ++ job ∷ rest)
    × (job.id ≡ k)
    × (is_queued job.status ≡ true)
    × (count_if (λ j. is_queued j.status && ltb j.id k) db.jobs ≡ 0)
    × (job.cancel_requested ≡ false)
    × (source_disabled job db ≡ false)
    × (db'.jobs ≡ put k (start_job now) db.jobs)

claim-Started :
    (now k : ℕ) (message : String) (ans : Answers) (job : Job) (db db' : Db)
    → oldest (λ j. is_queued j.status) db.jobs ≡ some job
    → claim now message ans job db ≡ (some k, db')
    → Started now k db db'
unfolding claim
claim-Started now k message ans job db db' found h = elim (Bool-cases job.cancel_requested) [
  | inl c ↦ cc (rw c at h)
  | inr c ↦ elim (Bool-cases (source_disabled job db)) [
    | inl d ↦ cc (rw (c, d) at h)
    | inr d ↦
        let id : job.id ≡ k = ground arith in
        let rows : put job.id (start_job now) db.jobs ≡ db'.jobs = ground arith in
        let (queued, least, there) =
          oldest-least (λ j. is_queued j.status) db.jobs job k (omega (arith, id)) found in
        let (bs, rest, at) = oldest-In (λ j. is_queued j.status) db.jobs job found in
        (
          job,
          bs,
          rest,
          at,
          id,
          queued,
          least,
          c,
          d,
          sym rows ∙ ap (λ i. put i (start_job now) db.jobs) id,
        )
  ]
]

-- A job that a claim starts is one of the table and was queued, no queued job has a smaller key, no
-- cancellation of it was requested and its connection is not disabled; of the jobs it alone changes, and
-- runs from then on.
pub claim_next_job-Started :
    (now k : ℕ) (message : String) (ans : Answers) (db db' : Db)
    → claim_next_job now message ans db ≡ (some k, db')
    → Started now k db db'
unfolding claim_next_job
claim_next_job-Started now k message ans db db' h =
    at_oldest (oldest (λ j. is_queued j.status) db.jobs) refl h
  where
    at_oldest :
        (o : Option Job)
        → oldest (λ j. is_queued j.status) db.jobs ≡ o
        → (elim o as (λ x. Option ℕ × Db) [
          | none ↦ (none, db)
          | some job ↦ claim now message ans job db
        ])
          ≡ (some k, db')
        → Started now k db db'
    at_oldest none e g = cc
    at_oldest (some job) e g = claim-Started now k message ans job db db' e g

nobody_queued :
    (jobs : List Job) → oldest (λ j. is_queued j.status) jobs ≡ none → queued_jobs jobs ≡ 0
unfolding oldest count_if
nobody_queued [] h = refl
nobody_queued (j ∷ jobs) h = ground (arith, nobody_queued jobs)

-- The rows of a job that a claim ends: as many as before, and every one of them finished.
abbrev pub Ended : ℕ → Db → Db → Type 0
Ended k db db' =
    (count_if (has_id k) db'.jobs ≡ count_if (has_id k) db.jobs)
    × (count_if (λ j. has_id k j && not (is_finished j.status)) db'.jobs ≡ 0)

put_ends :
    (k : ℕ) (f : Job → Job) (jobs : List Job)
    → ((j : Job) → (f j).id ≡ j.id)
    → ((j : Job) → is_finished (f j).status ≡ true)
    → (count_if (has_id k) (put k f jobs) ≡ count_if (has_id k) jobs)
      × (count_if (λ j. has_id k j && not (is_finished j.status)) (put k f jobs) ≡ 0)
unfolding put update count_if
put_ends k f [] same ends = (refl, refl)
put_ends k f (j ∷ jobs) same ends =
    let (a, b) = put_ends k f jobs same ends in
    let s = same j in let e = ends j in (ground arith, ground arith)

-- A job that a claim withdraws or fails had its cancellation requested or its connection disabled.
abbrev pub Withdrawn : Db → Db → Type 0
Withdrawn db db' =
    (job : Job) × (bs : List Job) × (rest : List Job) × (db.jobs ≡ bs ++ job ∷ rest)
    × (is_queued job.status ≡ true)
    × (count_if (λ j. is_queued j.status && ltb j.id job.id) db.jobs ≡ 0)
    × ((job.cancel_requested || source_disabled job db) ≡ true)
    × Ended job.id db db'

claim-Ended :
    (now : ℕ) (message : String) (ans : Answers) (job : Job) (db : Db)
    → (job.cancel_requested || source_disabled job db) ≡ true
    → ((claim now message ans job db).0 ≡ none) × Ended job.id db (claim now message ans job db).1
unfolding claim
claim-Ended now message ans job db over = elim (Bool-cases job.cancel_requested) [
  | inl c ↦
      let withdrawn = record db { jobs = put job.id (withdraw_job now) db.jobs } in
      let (rows, ended) = put_ends job.id (withdraw_job now) db.jobs (λ j. refl) (λ j. refl) in
      rw c (
        refl,
        (
          reconcile_canceled_job-passing (λ i s. i == job.id) job.id ans withdrawn ∙ rows,
          reconcile_canceled_job-passing (λ i s. (i == job.id) && not (is_finished s)) job.id ans
                withdrawn
              ∙ ended,
        ),
      )
  | inr c ↦
      let d : source_disabled job db ≡ true = ground arith in
      let stop_it = end_job JobStatus.failed message now in
      let stranded = record db { jobs = put job.id stop_it db.jobs } in
      let same = reconcile_failed_job-jobs job.id ans stranded in
      let (rows, ended) = put_ends job.id stop_it db.jobs (λ j. refl) (λ j. refl) in
      rw (c, d)
        (
          refl,
          (
            ap (count_if (has_id job.id)) same ∙ rows,
            ap (count_if (λ j. has_id job.id j && not (is_finished j.status))) same ∙ ended,
          ),
        )
]

claim-free :
    (now : ℕ) (message : String) (ans : Answers) (job : Job) (db : Db)
    → (job.cancel_requested || source_disabled job db) ≡ false
    → claim now message ans job db ≡ (some job.id, (claim now message ans job db).1)
unfolding claim
claim-free now message ans job db free =
    let c : job.cancel_requested ≡ false = ground arith in
    let d : source_disabled job db ≡ false = ground arith in rw (c, d) refl

-- While a job is queued, each claim takes one off the queue, whatever Proxmox answers: either it starts
-- the oldest queued job, or it starts none, and the oldest queued job, whose cancellation was requested
-- or whose connection is disabled, is finished afterwards.
pub claim_next_job-drains :
    (now : ℕ) (message : String) (ans : Answers) (db : Db)
    → 0 < queued_jobs db.jobs
    → (queued_jobs (claim_next_job now message ans db).1.jobs < queued_jobs db.jobs)
      × (((k : ℕ) × ((claim_next_job now message ans db).0 ≡ some k)
            × Started now k db (claim_next_job now message ans db).1)
          ⊎ (((claim_next_job now message ans db).0 ≡ none)
              × Withdrawn db (claim_next_job now message ans db).1))
unfolding claim_next_job
claim_next_job-drains now message ans db some_queued =
    at_oldest (oldest (λ j. is_queued j.status) db.jobs) refl
  where
    Drained : Option ℕ × Db → Type 0
    Drained end =
        (queued_jobs end.1.jobs < queued_jobs db.jobs)
        × (((k : ℕ) × (end.0 ≡ some k) × Started now k db end.1)
            ⊎ ((end.0 ≡ none) × Withdrawn db end.1))

    at_oldest :
        (o : Option Job)
        → oldest (λ j. is_queued j.status) db.jobs ≡ o
        → Drained (elim o as (λ x. Option ℕ × Db) [
          | none ↦ (none, db)
          | some job ↦ claim now message ans job db
        ])
    at_oldest none e = absurd (omega (arith, some_queued, nobody_queued db.jobs e))
    at_oldest (some job) e =
        let (q, least, there) =
          oldest-least (λ j. is_queued j.status) db.jobs job job.id (omega arith) e in
        let (bs, rest, at) = oldest-In (λ j. is_queued j.status) db.jobs job e in
        (
          claim-drains now message ans job db there,
          elim (Bool-cases (job.cancel_requested || source_disabled job db)) [
            | inl over ↦
                let (nobody, ended) = claim-Ended now message ans job db over in
                inr (nobody, (job, bs, rest, at, q, least, over, ended))
            | inr free ↦
                let run = claim-free now message ans job db free in
                inl (
                  job.id,
                  ap (λ end. end.0) run,
                  claim-Started now job.id message ans job db (claim now message ans job db).1 e
                      run,
                )
          ],
        )
