-- ===== src/Worker/Run/Deploy/Stage.antt =====
-- What a deployment's code keeps: the job's row and the deployment's row, and the creations sent.
use goblin_dock.Base.{
  ℕ, String, ◌≡◌, refl, ◌∙◌, ap, Bool, true, false, some, List, [], ◌∷◌, ◌++◌, arith, ◌==◌, get,
  put, get-put_self, get-put_other, min,
}
use goblin_dock.Models.{
  Db, Deployment, deployment_key, CreateState, Job, job_key, Command, stop_vm, destroy_vm,
  delete_snippet, create_vm, start_vm, configure_vm, resize_vm, put_snippet, put_staged,
  drop_staged, send,
}
use goblin_dock.Worker.Run.{progress, remote, creation, set_create_state, set_identity}
use goblin_dock.Worker.Run.Keeps.{}

-- The VM ids whose creation was sent.
abbrev pub created_by : Command → List ℕ
created_by (create_vm v) = v ∷ []
created_by (stop_vm v) = []
created_by (destroy_vm v) = []
created_by (delete_snippet v) = []
created_by (start_vm v) = []
created_by (configure_vm v) = []
created_by (resize_vm v) = []
created_by (put_snippet v) = []
created_by (put_staged j) = []
created_by (drop_staged j) = []

unfoldable pub creations : List Command → List ℕ
creations [] = []
creations (c ∷ cs) = created_by c ++ creations cs

pub creations-send :
    (cs : List Command) (c : Command) → creations (cs ++ c ∷ []) ≡ creations cs ++ created_by c
unfolding creations
creations-send [] (create_vm v) = refl
creations-send [] (stop_vm v) = refl
creations-send [] (destroy_vm v) = refl
creations-send [] (delete_snippet v) = refl
creations-send [] (start_vm v) = refl
creations-send [] (configure_vm v) = refl
creations-send [] (resize_vm v) = refl
creations-send [] (put_snippet v) = refl
creations-send [] (put_staged j) = refl
creations-send [] (drop_staged j) = refl
creations-send (create_vm w ∷ cs) c = ap (λ l. w ∷ l) (creations-send cs c)
creations-send (stop_vm w ∷ cs) c = creations-send cs c
creations-send (destroy_vm w ∷ cs) c = creations-send cs c
creations-send (delete_snippet w ∷ cs) c = creations-send cs c
creations-send (start_vm w ∷ cs) c = creations-send cs c
creations-send (configure_vm w ∷ cs) c = creations-send cs c
creations-send (resize_vm w ∷ cs) c = creations-send cs c
creations-send (put_snippet w ∷ cs) c = creations-send cs c
creations-send (put_staged w ∷ cs) c = creations-send cs c
creations-send (drop_staged w ∷ cs) c = creations-send cs c

-- The row of job `jid` is about deployment `d`, whose row has `Q`; the creations sent are `vs`.
pub record Stage (jid d : ℕ) (Q : Deployment → Type 0) (vs : List ℕ) (x : Db) : Type 0 where
  pub job : (j : Job) × (get jid x.jobs ≡ some j) × (j.deployment_id ≡ some d)
  pub dep : (r : Deployment) × (get d x.deployments ≡ some r) × Q r
  pub sent : creations x.sent ≡ vs

module _ (jid d : ℕ) (vs : List ℕ) where
  pub put_job-Stage :
      (Q : Deployment → Type 0) (f : Job → Job) (k : ℕ) (x : Db)
      → ((j : Job) → (f j).id ≡ j.id)
      → ((j : Job) → (f j).deployment_id ≡ j.deployment_id)
      → Stage jid d Q vs x
      → Stage jid d Q vs (record x { jobs = put k f x.jobs })
  put_job-Stage Q f k x h g s = record {
    job = go s.job (k == jid) refl;
    dep = s.dep;
    sent = s.sent;
  }
    where
      go :
          (j : Job) × (get jid x.jobs ≡ some j) × (j.deployment_id ≡ some d)
          → (b : Bool) → (k == jid) ≡ b
          → (j : Job) × (get jid (put k f x.jobs) ≡ some j) × (j.deployment_id ≡ some d)
      go (j, e, o) true b =
          let same : k ≡ jid = ground arith in
          (f j, rw same (get-put_self jid f x.jobs j h e), g j ∙ o)
      go (j, e, o) false b = (j, get-put_other k jid f x.jobs h (flip b) ∙ e, o)
        where
          flip : (k == jid) ≡ false → (jid == k) ≡ false
          flip c = ground arith

  pub progress-Stage :
      (Q : Deployment → Type 0) (j p : ℕ) (s : String) (x : Db)
      → Stage jid d Q vs x
      → Stage jid d Q vs (progress j p s x)
  unfolding progress
  progress-Stage Q j p s x h =
      let t =
        put_job-Stage Q (λ r. record r { pct = min 100 p; phase = s }) j x (λ r. refl) (λ r. refl)
          h in
      record { job = t.job; dep = t.dep; sent = t.sent }

  pub remote-Stage :
      (Q : Deployment → Type 0) (j : ℕ) (u n : String) (x : Db)
      → Stage jid d Q vs x
      → Stage jid d Q vs (remote j u n x)
  unfolding remote
  remote-Stage Q j u n x h =
      put_job-Stage Q (λ r. record r { remote_task = u; remote_node = n }) j x (λ r. refl)
        (λ r. refl) h

  pub send-Stage :
      (Q : Deployment → Type 0) (c : Command) (x : Db)
      → Stage jid d Q vs x
      → Stage jid d Q (vs ++ created_by c) (send c x)
  send-Stage Q c x h = record {
    job = h.job;
    dep = h.dep;
    sent = creations-send x.sent c ∙ ap (λ l. l ++ created_by c) h.sent;
  }

  -- A write to the deployment's row.
  pub put_dep-Stage :
      (Q R : Deployment → Type 0) (f : Deployment → Deployment) (x : Db)
      → ((r : Deployment) → (f r).id ≡ r.id)
      → ((r : Deployment) → Q r → R (f r))
      → Stage jid d Q vs x
      → Stage jid d R vs (record x { deployments = put d f x.deployments })
  put_dep-Stage Q R f x h g s = record { job = s.job; dep = go s.dep; sent = s.sent }
    where
      go :
          (r : Deployment) × (get d x.deployments ≡ some r) × Q r
          → (r : Deployment) × (get d (put d f x.deployments) ≡ some r) × R r
      go (r, e, q) = (f r, get-put_self d f x.deployments r h e, g r q)

  -- `JobCtx.creation` writes its state to both rows.
  pub creation-Stage :
      (Q R : Deployment → Type 0) (c : CreateState) (x : Db)
      → ((r : Deployment) → Q r → R (set_identity c r))
      → Stage jid d Q vs x
      → Stage jid d R vs (creation jid c x)
  unfolding creation
  creation-Stage Q R c x g s = at_job s.job
    where
      both : Db
      both = record x { jobs = put jid (set_create_state c) x.jobs }

      written :
          Stage jid d R vs (record both { deployments = put d (set_identity c) both.deployments })
      written =
          put_dep-Stage Q R (set_identity c) both (λ r. refl) g
            (put_job-Stage Q (set_create_state c) jid x (λ r. refl) (λ r. refl) s)

      at_job :
          (j : Job) × (get jid x.jobs ≡ some j) × (j.deployment_id ≡ some d)
          → Stage jid d R vs (creation jid c x)
      at_job (j, e, o) = rw (creation, e, o) written
