-- ===== src/Worker/Run/Deploy/Identity.antt =====
-- `_run_deploy`: the row of the deployment says which VM may exist, wherever the code ends.
use goblin_dock.Base.{
  ℕ, String, ◌≡◌, refl, sym, ◌∙◌, ap, inl, Bool, true, false, not, Option, none, some, List, [],
  ◌∷◌, ◌++◌, if◌then◌else◌, get, get_opt, get_id, subst, str_eq,
}
use goblin_dock.Models.{
  Db, Connection, Deployment, deployment_key, submitting, accepted, Job, job_key, create_vm,
  delete_snippet, put_snippet, send, connection_key,
}
use goblin_dock.Worker.Ownership.{}
use goblin_dock.Worker.Queue.{raised}
use goblin_dock.Worker.Run.{
  Ended, value, stopped, Run, give, write, stop_if, answer, await, progress, remote, creation,
  load_job_targets, node_for, ◌>>=◌, ◌>>◌,
}
use goblin_dock.Worker.Run.Keeps.{Keeps, Keeps-stop_if, Keeps-await, Keeps-answer, node_for-Keeps}
use goblin_dock.Worker.Run.Ends.{Ends, Ends->>=, Targets, load_job_targets-Targets}
use goblin_dock.Worker.Run.Limits.{next_free_vmid}
use goblin_dock.Worker.Run.Deploy.{
  Config, Plan, task, Provision, Settings, choose_vmid, claim_identity, undo_choice, after_stop,
  uses_snippet, deliver, create_vm_answer, create, build, bring_up, deploy_on, run_deploy,
}
use goblin_dock.Worker.Run.Deploy.Boot.{OnIdentity, bring_up-Stage}
use goblin_dock.Worker.Run.Deploy.Answered.{
  TracksId, Tracked, IsId, IsSent, AnyId, Ends-by-Keeps, unsent-Tracked, sent-Tracked,
  deliver-Tracked, image-Tracked, IsTask, answer-Tracked,
}
use goblin_dock.Worker.Run.Deploy.Stage.{
  creations, Stage, progress-Stage, remote-Stage, send-Stage, put_dep-Stage, creation-Stage,
}

module _ (jid d : ℕ) (db : Db) where
  create-Tracked :
      (job : Job) (v : ℕ) (n : String) (b : Bool) (p : Provision) (x : Db)
      → job.id ≡ jid
      → Stage jid d (OnIdentity (IsId v)) (creations db.sent) x
      → Ends
          (λ _. Stage jid d (OnIdentity (TracksId p.created v)) (creations db.sent ++ v ∷ []))
          (Tracked p.created d db)
          (create job d v n b p x)
  unfolding create
  create-Tracked job v n b p x e h =
      Ends->>= (λ _ z. Sent z × IsTask p.created) (λ _. Done) (Tracked p.created d db)
        (create_vm_answer job d v b p.created p.failure) waited y
        (answer-Tracked jid d db p.created job v b p.failure y e submitted)
        (λ u z q.
          Ends-by-Keeps Done (Tracked p.created d db) (await p.create_wait p.failure)
            (remote job.id u n (creation job.id accepted z)) (sent-Tracked jid d db p.created v)
            (Keeps-await Done p.create_wait p.failure)
            (remote-Stage jid d ws (OnIdentity (TracksId p.created v)) job.id u n
              (creation job.id accepted z) (accepts z q.1 q.0)))
    where
      ws : List ℕ
      ws = creations db.sent ++ v ∷ []

      Sent : Db → Type 0
      Sent = Stage jid d (OnIdentity (IsSent v)) ws

      Done : Db → Type 0
      Done = Stage jid d (OnIdentity (TracksId p.created v)) ws

      y : Db
      y = send (create_vm v) (creation job.id submitting x)

      waited : String → Run (Unit {0})
      waited u =
          write (λ db'. remote job.id u n (creation job.id accepted db'))
          >> await p.create_wait p.failure

      submitted : Sent y
      submitted =
          send-Stage jid d (creations db.sent) (OnIdentity (IsSent v)) (create_vm v)
            (creation job.id submitting x)
            (subst
              (λ k.
                Stage jid d (OnIdentity (IsSent v)) (creations db.sent) (creation k submitting x))
              (sym e)
              (creation-Stage jid d (creations db.sent) (OnIdentity (IsId v))
                (OnIdentity (IsSent v)) submitting x (λ r q. (q, refl)) h))

      accepts : (z : Db) → IsTask p.created → Sent z → Done (creation job.id accepted z)
      accepts z (u, t) s =
          subst (λ a. Stage jid d (OnIdentity (TracksId a v)) ws (creation job.id accepted z))
            (sym t)
            (subst (λ k. Stage jid d (OnIdentity (TracksId (task u) v)) ws (creation k accepted z))
              (sym e)
              (creation-Stage jid d ws (OnIdentity (IsSent v)) (OnIdentity (TracksId (task u) v))
                accepted z (λ r q. (q.0, refl)) s))

  build-Tracked :
      (s : Settings) (job : Job) (v : ℕ) (n : String) (b : Bool) (p : Provision) (x : Db)
      → job.id ≡ jid
      → Stage jid d (OnIdentity (IsId v)) (creations db.sent) x
      → Ends
          (λ _. Stage jid d (OnIdentity (TracksId p.created v)) (creations db.sent ++ v ∷ []))
          (Tracked p.created d db)
          (build s job d v n b p x)
  unfolding build
  build-Tracked s job v n b p x e h =
      Ends->>= (λ _. Chosen) (λ _. Done) S
        (λ db'.
          after_stop (undo_choice d v false)
            (deliver (put_snippet v) (delete_snippet v) b p.delivery p.failure db'))
        prepared x (deliver-Tracked jid d db p.created v b p.delivery p.failure x h)
        (λ has y k.
          Ends->>= (λ _. Chosen) (λ _. Done) S
            (λ db'. after_stop (undo_choice d v has) (await p.image p.failure db'))
            (λ _. imported has) (progress job.id 8 (s.title 2 "Prepare image") y)
            (image-Tracked jid d db p.created v has p.image p.failure
              (progress job.id 8 (s.title 2 "Prepare image") y)
              (progress-Stage jid d _ (OnIdentity (IsId v)) job.id 8 (s.title 2 "Prepare image") y
                k))
            (λ _ z l.
              create-Tracked job v n has p (progress job.id 20 (s.title 3 "Create") z) e
                (progress-Stage jid d _ (OnIdentity (IsId v)) job.id 20 (s.title 3 "Create") z l)))
    where
      S : Db → Type 0
      S = Tracked p.created d db

      Chosen : Db → Type 0
      Chosen = Stage jid d (OnIdentity (IsId v)) (creations db.sent)

      Done : Db → Type 0
      Done = Stage jid d (OnIdentity (TracksId p.created v)) (creations db.sent ++ v ∷ [])

      imported : Bool → Run (Unit {0})
      imported has = write (progress job.id 20 (s.title 3 "Create")) >> create job d v n has p

      prepared : Bool → Run (Unit {0})
      prepared has =
          write (progress job.id 8 (s.title 2 "Prepare image"))
          >> ((λ db'. after_stop (undo_choice d v has) (await p.image p.failure db'))
              >> imported has)

  -- Once the choice of the VM id is written.
  chosen-Tracked :
      (s : Settings) (cfg : Config) (job : Job) (conn : Connection) (v : ℕ) (n : String)
      (plan : Plan) (b : Bool) (p : Provision) (x : Db)
      → job.id ≡ jid
      → Stage jid d (OnIdentity (IsId v)) (creations db.sent) x
      → Ends
          (λ _. Tracked p.created d db)
          (Tracked p.created d db)
          ((build s job d v n b p >> bring_up s cfg job conn d v n plan p) x)
  chosen-Tracked s cfg job conn v n plan b p x e h =
      Ends->>= (λ _. Done) (λ _. S) S (build s job d v n b p)
        (λ _. bring_up s cfg job conn d v n plan p) x (build-Tracked s job v n b p x e h)
        (λ _ y k.
          settled (bring_up s cfg job conn d v n plan p y).0
            (bring_up s cfg job conn d v n plan p y).1
            (bring_up-Stage jid d (creations db.sent ++ v ∷ []) (TracksId p.created v) s cfg job
              conn v n plan p y k))
    where
      S : Db → Type 0
      S = Tracked p.created d db

      Done : Db → Type 0
      Done = Stage jid d (OnIdentity (TracksId p.created v)) (creations db.sent ++ v ∷ [])

      settled : (end : Ended (Unit {0})) (y : Db) → Done y → Ends (λ _. S) S (end, y)
      settled (value a) y k = sent-Tracked jid d db p.created v y k
      settled (stopped o) y k = sent-Tracked jid d db p.created v y k

  deploy_on-Tracked :
      (s : Settings) (cfg : Config) (job : Job) (conn : Connection) (dep : Deployment) (plan : Plan)
      (n : String) (p : Provision) (x : Db)
      → job.id ≡ jid
      → dep.id ≡ d
      → Stage jid d (OnIdentity AnyId) (creations db.sent) x
      → Ends
          (λ _. Tracked p.created d db)
          (Tracked p.created d db)
          (deploy_on s cfg job conn dep plan n p x)
  unfolding deploy_on choose_vmid
  deploy_on-Tracked s cfg job conn dep plan n p x e o h =
      Ends->>= (λ _. Free) (λ _. S) S (choose_vmid s dep p) compiled y
        (Ends-by-Keeps Free S (choose_vmid s dep p) y (unsent-Tracked jid d db p.created AnyId)
          (chooses dep.vmid)
          (progress-Stage jid d _ (OnIdentity AnyId) job.id 2 (s.title 1 "Allocate") x h))
        (λ v z k.
          Ends->>= (λ _. Free) (λ _. S) S commands (claimed v) z
            (Ends-by-Keeps Free S commands z (unsent-Tracked jid d db p.created AnyId)
              (compiles plan.recipe) k)
            (λ b w l.
              subst (λ i. Ends (λ _. S) S (at_row i v b w)) (sym o)
                (chosen-Tracked s cfg job conn v n plan (uses_snippet conn plan b p.auto_root) p
                  (claim_identity d v n w) e (claims v w l))))
    where
      S : Db → Type 0
      S = Tracked p.created d db

      Free : Db → Type 0
      Free = Stage jid d (OnIdentity AnyId) (creations db.sent)

      y : Db
      y = progress job.id 2 (s.title 1 "Allocate") x

      commands : Run Bool
      commands = if plan.recipe then answer p.compiled p.failure else give false

      at_row : ℕ → ℕ → Bool → Db → Ended (Unit {0}) × Db
      at_row i v b w =
          (build s job i v n (uses_snippet conn plan b p.auto_root) p
              >> bring_up s cfg job conn i v n plan p)
            (claim_identity i v n w)

      claimed : ℕ → Bool → Run (Unit {0})
      claimed v b w = at_row dep.id v b w

      compiled : ℕ → Run (Unit {0})
      compiled v = commands >>= claimed v

      chooses :
          (c : Option ℕ)
          → Keeps Free (elim c as (λ _. Run ℕ) [
            | some v ↦ give v
            | none ↦ answer (next_free_vmid s.vmid_min s.vmid_max p.used p.is_free) p.failure
          ])
      chooses (some v) w k = k
      chooses none w k =
          Keeps-answer Free (next_free_vmid s.vmid_min s.vmid_max p.used p.is_free) p.failure w k

      compiles : (b : Bool) → Keeps Free (if b then answer p.compiled p.failure else give false)
      compiles true w k = Keeps-answer Free p.compiled p.failure w k
      compiles false w k = k

      claims :
          (v : ℕ) (w : Db)
          → Free w
          → Stage jid d (OnIdentity (IsId v)) (creations db.sent) (claim_identity d v n w)
      claims v w k =
          unfold claim_identity in
          put_dep-Stage jid d (creations db.sent) (OnIdentity AnyId) (OnIdentity (IsId v))
            (λ r. record r { vmid = some v; node = n }) w (λ r. refl) (λ r q. refl) k

-- The same from a database `x` in which no creation was sent since `db`.
pub run_deploy-Tracked :
    (s : Settings) (cfg : Config) (p : Provision) (job : Job) (d : ℕ) (db x : Db)
    → (j : Job) × (get job.id x.jobs ≡ some j) × (j.deployment_id ≡ some d)
    → job.deployment_id ≡ some d
    → creations x.sent ≡ creations db.sent
    → Tracked p.created d db (run_deploy s cfg p job x).1
unfolding run_deploy
run_deploy-Tracked s cfg p job d db x row_of about unsent =
    last (run_deploy s cfg p job x).0 (run_deploy s cfg p job x).1 (
      Ends->>= (Targets job x) (λ _. S) S (load_job_targets job) planned x
        (start (load_job_targets job x).0 (load_job_targets job x).1
          (load_job_targets-Targets job x))
        at_targets)
  where
    S : Db → Type 0
    S = Tracked p.created d db

    Free : Db → Type 0
    Free = Stage job.id d (OnIdentity AnyId) (creations db.sent)

    weaken : (y : Db) → Free y → S y
    weaken = unsent-Tracked job.id d db p.created AnyId

    sourced : Connection × Deployment → Plan → String → Run (Unit {0})
    sourced t plan n =
        stop_if (str_eq cfg.src_url "") (raised "template has no base image source URL")
        >> deploy_on s cfg job t.0 t.1 plan n p

    placed : Connection × Deployment → Plan → Run (Unit {0})
    placed t plan = node_for t.1 t.0 p.picked p.failure >>= sourced t plan

    opened : Connection × Deployment → Plan → Run (Unit {0})
    opened t plan = stop_if (not p.client) (raised p.failure) >> placed t plan

    planned : Connection × Deployment → Run (Unit {0})
    planned t = answer p.plan p.failure >>= opened t

    last : (e : Ended (Unit {0})) (y : Db) → Ends (λ _. S) S (e, y) → S y
    last (value a) y k = k
    last (stopped o) y k = k

    start :
        (e : Ended (Connection × Deployment)) (y : Db)
        → Ends (Targets job x) (λ after. after ≡ x) (e, y)
        → Ends (Targets job x) S (e, y)
    start (value t) y k = k
    start (stopped o) y k = inl (ap (λ z. creations z.sent) k ∙ unsent)

    at_targets :
        (t : Connection × Deployment) (y : Db) → Targets job x t y → Ends (λ _. S) S (planned t y)
    at_targets t y (same, c, e, on) =
        Ends->>= (λ _. Free) (λ _. S) S (answer p.plan p.failure) (opened t) y
          (Ends-by-Keeps Free S (answer p.plan p.failure) y weaken
            (Keeps-answer Free p.plan p.failure) free)
          (λ plan z k.
            Ends->>= (λ _. Free) (λ _. S) S (stop_if (not p.client) (raised p.failure))
              (λ _. placed t plan) z
              (Ends-by-Keeps Free S (stop_if (not p.client) (raised p.failure)) z weaken
                (Keeps-stop_if Free (not p.client) (raised p.failure)) k)
              (λ _ w l.
                Ends->>= (λ _. Free) (λ _. S) S (node_for t.1 t.0 p.picked p.failure)
                  (sourced t plan) w
                  (Ends-by-Keeps Free S (node_for t.1 t.0 p.picked p.failure) w weaken
                    (node_for-Keeps Free t.1 t.0 p.picked p.failure) l)
                  (λ n u m.
                    Ends->>= (λ _. Free) (λ _. S) S
                      (stop_if (str_eq cfg.src_url "")
                        (raised "template has no base image source URL"))
                      (λ _. deploy_on s cfg job t.0 t.1 plan n p) u
                      (Ends-by-Keeps Free S
                        (stop_if (str_eq cfg.src_url "")
                          (raised "template has no base image source URL"))
                        u weaken
                        (Keeps-stop_if Free (str_eq cfg.src_url "")
                          (raised "template has no base image source URL"))
                        m)
                      (λ _ q r.
                        deploy_on-Tracked job.id d db s cfg job t.0 t.1 plan n p q refl here r))))
      where
        row : get d x.deployments ≡ some t.1
        row = subst (λ o. get_opt o x.deployments ≡ some t.1) about e

        here : t.1.id ≡ d
        here = get_id d x.deployments t.1 row

        free : Free y
        free = subst Free (sym same) (record { job = row_of; dep = (t.1, row, tt); sent = unsent })

-- A deploy job's code sends at most one request that creates a VM. If it sent one, then, wherever the code
-- ended, the row of the job's deployment tells of that VM: after a refusal (a status of 400 to 499) the row has
-- no VM id and the creation is "rejected"; after an answer that was lost or names no task, it has the id of the
-- request and "submitting"; after a task it has that id and "accepted", whatever fails later. The job's row is
-- in the database and is about deployment `d`.
pub run_deploy-identity :
    (s : Settings) (cfg : Config) (p : Provision) (job : Job) (d : ℕ) (db : Db)
    → get job.id db.jobs ≡ some job
    → job.deployment_id ≡ some d
    → Tracked p.created d db (run_deploy s cfg p job db).1
run_deploy-identity s cfg p job d db found about =
    run_deploy-Tracked s cfg p job d db db (job, found, about) about refl
