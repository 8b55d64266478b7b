-- ===== src/Worker/Queue/Oldest.antt =====
-- What `order_by(Job.id).first()` finds.
use goblin_dock.Base.{
  ℕ, ◌≤◌, ◌<◌, ◌≡◌, refl, ◌∙◌, ap, Bool, true, ◌&&◌, ◌++◌, Option, none, some, List, [], ◌∷◌, arith,
  leb, ltb, Bool-cases, inl, inr, count_if, has_id,
}
use goblin_dock.Models.{connection_key, deployment_key, Job, job_key, image_key}
use goblin_dock.Worker.Remote.{}
use goblin_dock.Worker.Reconcile.{}
use goblin_dock.Worker.Reconcile.Same.{}
use goblin_dock.Worker.Queue.{oldest}
use goblin_dock.Worker.Queue.Status.{}
use goblin_dock.Worker.Queue.Passing.{}

pub oldest-none :
    (p : Job → Bool) (jobs : List Job) (n : ℕ)
    → oldest p jobs ≡ none
    → count_if (λ j. p j && ltb j.id n) jobs ≡ 0
unfolding oldest count_if
oldest-none p [] n h = refl
oldest-none p (j ∷ jobs) n h = ground (arith, oldest-none p jobs n)

-- The oldest passes, it is in the table, and no job that passes has a smaller key.
pub oldest-least :
    (p : Job → Bool) (jobs : List Job) (job : Job) (n : ℕ)
    → n ≤ job.id
    → oldest p jobs ≡ some job
    → (p job ≡ true)
      × (count_if (λ j. p j && ltb j.id n) jobs ≡ 0)
      × (0 < count_if (λ j. p j && has_id job.id j) jobs)
unfolding oldest count_if
oldest-least p [] job n le h = cc
oldest-least p (j ∷ jobs) job n le h = at_rest (oldest p jobs) refl (λ y. oldest-least p jobs y n)
  where
    at_rest :
        (o : Option Job)
        → oldest p jobs ≡ o
        → ((y : Job)
            → n ≤ y.id
            → oldest p jobs ≡ some y
            → (p y ≡ true)
              × (count_if (λ i. p i && ltb i.id n) jobs ≡ 0)
              × (0 < count_if (λ i. p i && has_id y.id i) jobs))
        → (p job ≡ true)
          × (count_if (λ i. p i && ltb i.id n) (j ∷ jobs) ≡ 0)
          × (0 < count_if (λ i. p i && has_id job.id i) (j ∷ jobs))
    at_rest none e rec = let none_less = oldest-none p jobs n e in ground arith
    at_rest (some y) e rec = elim (Bool-cases (p j && leb j.id y.id)) [
      | inl first' ↦
          let same : j ≡ job = ground arith in let rest = rec y (ground arith) e in ground arith
      | inr later ↦
          let same : y ≡ job = ground arith in let rest = rec y (ground arith) e in ground arith
    ]

-- The job that is found stands in the table.
pub oldest-In :
    (p : Job → Bool) (jobs : List Job) (job : Job)
    → oldest p jobs ≡ some job
    → (bs : List Job) × (rest : List Job) × (jobs ≡ bs ++ job ∷ rest)
unfolding oldest
oldest-In p [] job h = cc
oldest-In p (j ∷ jobs) job h = at_rest (oldest p jobs) refl (oldest-In p jobs)
  where
    at_rest :
        (o : Option Job)
        → oldest p jobs ≡ o
        → ((y : Job)
            → oldest p jobs ≡ some y
            → (bs : List Job) × (rest : List Job) × (jobs ≡ bs ++ y ∷ rest))
        → (bs : List Job) × (rest : List Job) × (j ∷ jobs ≡ bs ++ job ∷ rest)
    at_rest none e rec = let same : j ≡ job = ground arith in ([], jobs, ap (λ i. i ∷ jobs) same)
    at_rest (some y) e rec = elim (Bool-cases (p j && leb j.id y.id)) [
      | inl first' ↦ let same : j ≡ job = ground arith in ([], jobs, ap (λ i. i ∷ jobs) same)
      | inr later ↦
          let same : y ≡ job = ground arith in
          let (bs, rest, at) = rec y e in
          (j ∷ bs, rest, ap (λ l. j ∷ l) at ∙ ap (λ i. j ∷ (bs ++ i ∷ rest)) same)
    ]
