-- ===== src/Worker/Run/Rebuild/Safe.antt =====
-- `_run_rebuild`: no new VM before the old one is confirmed absent.
use goblin_dock.Base.{
  ℕ, String, ◌≡◌, refl, ap, sym, subst, ◌⊎◌, inl, inr, Bool, true, false, not, Option, none, some,
  List, if◌then◌else◌, get, get_opt,
}
use goblin_dock.Models.{
  Db, Connection, Deployment, deployment_key, Job, job_key, stop_vm, destroy_vm, put_staged,
  drop_staged, send,
}
use goblin_dock.Worker.Remote.{ProvenAbsent, probe-absent, probe_vm_presence}
use goblin_dock.Worker.Queue.{canceled, raised}
use goblin_dock.Worker.Run.{
  Ended, value, stopped, Run, give, answer, ◌>>=◌, ◌>>◌, write, stop_if, await, progress,
  load_job_targets, node_for,
}
use goblin_dock.Worker.Run.Limits.{next_free_vmid}
use goblin_dock.Worker.Run.Keeps.{
  Keeps, Keeps->>=, Keeps-stop_if, Keeps-await, Keeps-answer, node_for-Keeps,
}
use goblin_dock.Worker.Run.Ends.{Ends, Ends->>=, Targets, load_job_targets-Targets}
use goblin_dock.Worker.Run.Destroy.{
  Teardown, stop_vm_for_lifecycle, destroy_present, is_confirmed_absent,
}
use goblin_dock.Worker.Run.Destroy.Stopping.{stop_vm_for_lifecycle-Keeps}
use goblin_dock.Worker.Run.Destroy.Torn.{is_confirmed_absent_lem}
use goblin_dock.Worker.Run.Deploy.{
  Config, Plan, Delivery, delivered, undelivered, invalid, Provision, Settings, choose_vmid,
  deliver, uses_snippet, run_deploy,
}
use goblin_dock.Worker.Run.Deploy.Stage.{creations, Stage, progress-Stage}
use goblin_dock.Worker.Run.Deploy.Boot.{OnIdentity, send_plain-Stage, request-Stage}
use goblin_dock.Worker.Run.Deploy.Answered.{Tracked, AnyId, Ends-by-Keeps}
use goblin_dock.Worker.Run.Deploy.Identity.{run_deploy-Tracked}
use goblin_dock.Worker.Run.Rebuild.{destroy_old, drop_staged_snippet, preflight, run_rebuild}

module _ (jid d : ℕ) (vs : List ℕ) where
  abbrev pub Free : Db → Type 0
  Free x = Stage jid d (OnIdentity AnyId) vs x

  progress-Free : (j k : ℕ) (title : String) → Keeps Free (write (progress j k title))
  progress-Free j k title x h = progress-Stage jid d vs (OnIdentity AnyId) j k title x h

  deliver-Free :
      (j : ℕ) (b : Bool) (answered : Delivery) (f : String)
      → Keeps Free (deliver (put_staged j) (drop_staged j) b answered f)
  unfolding deliver
  deliver-Free j false answered f x h = h
  deliver-Free j true delivered f x h =
      send_plain-Stage jid d vs (OnIdentity AnyId) (put_staged j) x refl h
  deliver-Free j true undelivered f x h =
      send_plain-Stage jid d vs (OnIdentity AnyId) (put_staged j) x refl h
  deliver-Free j true invalid f x h =
      send_plain-Stage jid d vs (OnIdentity AnyId) (drop_staged j) (send (put_staged j) x) refl
        (send_plain-Stage jid d vs (OnIdentity AnyId) (put_staged j) x refl h)

  drop_staged_snippet-Free :
      (j : ℕ) (staged dropped : Bool) (f : String)
      → Keeps Free (drop_staged_snippet j staged dropped f)
  unfolding drop_staged_snippet
  drop_staged_snippet-Free j false dropped f x h = h
  drop_staged_snippet-Free j true dropped f x h =
      Keeps-stop_if Free (not dropped) (raised f) (send (drop_staged j) x)
        (send_plain-Stage jid d vs (OnIdentity AnyId) (drop_staged j) x refl h)

  preflight-Free :
      (s : Settings) (job : Job) (conn : Connection) (dep : Deployment) (q : Provision)
      (dropped : Bool)
      → Keeps Free (preflight s job conn dep q dropped)
  unfolding preflight choose_vmid
  preflight-Free s job conn dep q dropped =
      Keeps->>= Free (answer q.plan q.failure) compiled (Keeps-answer Free q.plan q.failure)
        (λ plan. Keeps->>= Free (commands plan) (titled plan) (compiles plan.recipe) (λ b x h.
          Keeps->>= Free (await q.image q.failure) (λ _. chosen plan b)
            (Keeps-await Free q.image q.failure)
            (λ _.
              Keeps->>= Free (choose_vmid s dep q) (λ _. sent plan b) (chooses dep.vmid)
                (λ v.
                  Keeps->>= Free (upload plan b) cleaned
                    (deliver-Free job.id (uses_snippet conn plan b q.auto_root) q.delivery
                      q.failure)
                    (λ staged. drop_staged_snippet-Free job.id staged dropped q.failure)))
            (progress job.id 1 "Preflight rebuild: image and cloud-init delivery" x)
            (progress-Free job.id 1 "Preflight rebuild: image and cloud-init delivery" x h)))
    where
      cleaned : Bool → Run (Unit {0})
      cleaned staged = drop_staged_snippet job.id staged dropped q.failure

      upload : Plan → Bool → Run Bool
      upload plan b =
          deliver (put_staged job.id) (drop_staged job.id) (uses_snippet conn plan b q.auto_root)
            q.delivery q.failure

      sent : Plan → Bool → Run (Unit {0})
      sent plan b = upload plan b >>= cleaned

      chosen : Plan → Bool → Run (Unit {0})
      chosen plan b = choose_vmid s dep q >>= λ v. sent plan b

      commands : Plan → Run Bool
      commands plan = if plan.recipe then answer q.compiled q.failure else give false

      titled : Plan → Bool → Run (Unit {0})
      titled plan b =
          write (progress job.id 1 "Preflight rebuild: image and cloud-init delivery")
          >> (await q.image q.failure >> chosen plan b)

      compiled : Plan → Run (Unit {0})
      compiled plan = commands plan >>= titled plan

      compiles : (b : Bool) → Keeps Free (if b then answer q.compiled q.failure else give false)
      compiles true x h = Keeps-answer Free q.compiled q.failure x h
      compiles false x h = h

      chooses :
          (c : Option ℕ)
          → Keeps Free (elim c as (λ _. Run ℕ) [
            | some v ↦ give v
            | none ↦ answer (next_free_vmid s.vmid_min s.vmid_max q.used q.is_free) q.failure
          ])
      chooses (some v) x h = h
      chooses none x h =
          Keeps-answer Free (next_free_vmid s.vmid_min s.vmid_max q.used q.is_free) q.failure x h

  destroy_present-Free :
      (j v : ℕ) (n : String) (t : Teardown) (b : Bool) → Keeps Free (destroy_present j v n t b)
  unfolding destroy_present
  destroy_present-Free j v n t false x h = h
  destroy_present-Free j v n t true x h =
      request-Stage jid d vs (OnIdentity AnyId) j (destroy_vm v) t.destroy_task t.destroy_wait n
        t.failure refl x h

  -- What follows knows that the old VM is absent.
  destroy_old-Free :
      (S : Db → Type 0) (j : ℕ) (v : Option ℕ) (n : String) (t : Teardown) (x : Db)
      → ((y : Db) → Free y → S y)
      → Free x
      → Ends (λ _ y. Free y × ProvenAbsent true v t.left) S (destroy_old j v n t x)
  unfolding destroy_old
  destroy_old-Free S j none n t x weaken h = (h, tt)
  destroy_old-Free S j (some v) n t x weaken h =
      Ends->>= (λ _. Free) (λ _ y. Free y × ProvenAbsent true (some v) t.left) S
        (stop_vm_for_lifecycle j v n t) removed x
        (Ends-by-Keeps Free S (stop_vm_for_lifecycle j v n t) x weaken
          (stop_vm_for_lifecycle-Keeps Free j v n t (
            request-Stage jid d vs (OnIdentity AnyId) j (stop_vm v) t.stop_task t.stop_wait n
              t.failure refl))
          h)
        (λ b y k.
          Ends->>= (λ _. Free) (λ _ z. Free z × ProvenAbsent true (some v) t.left) S
            (destroy_present j v n t b) (λ _. checked) y
            (Ends-by-Keeps Free S (destroy_present j v n t b) y weaken
              (destroy_present-Free j v n t b) k)
            (λ _ z l.
              at_presence (is_confirmed_absent (probe_vm_presence true (some v) t.left)) refl z l))
    where
      checked : Run (Unit {0})
      checked =
          stop_if (not (is_confirmed_absent (probe_vm_presence true (some v) t.left)))
            (raised t.failure)

      removed : Bool → Run (Unit {0})
      removed b = destroy_present j v n t b >> checked

      at_presence :
          (b : Bool)
          → is_confirmed_absent (probe_vm_presence true (some v) t.left) ≡ b
          → (z : Db) → Free z
          → Ends
              (λ _ z. Free z × ProvenAbsent true (some v) t.left)
              S
              (stop_if (not b) (raised t.failure) z)
      at_presence true e z l = (l, probe-absent true (some v) t.left (is_confirmed_absent_lem _ e))
      at_presence false e z l = weaken z l

-- No creation was sent, or the job's deployment had no VM or an absent one.
abbrev pub ProvenFirst : Job → Teardown → Db → Db → Type 0
ProvenFirst job t db after =
    (creations after.sent ≡ creations db.sent)
    ⊎ ((dep : Deployment) × (get_opt job.deployment_id db.deployments ≡ some dep)
        × ProvenAbsent true dep.vmid t.left)

-- A rebuild's code sends at most one request that creates a VM, and sends it only when the deployment had no
-- VM, or when, after the destruction, a complete inventory did not list the old VM and Proxmox confirmed that
-- its id is free. If it sent one, the deployment's row tells of that VM as after a deploy job, wherever
-- the code ended. The job's row is in the database and is about deployment `d`.
pub run_rebuild-absent :
    (s : Settings) (cfg : Config) (cancel cancel_later dropped : Bool) (q : Provision)
    (t : Teardown) (p : Provision) (job : Job) (d : ℕ) (db : Db)
    → get job.id db.jobs ≡ some job
    → job.deployment_id ≡ some d
    → Tracked p.created d db (run_rebuild s cfg cancel cancel_later dropped q t p job db).1
      × ProvenFirst job t db (run_rebuild s cfg cancel cancel_later dropped q t p job db).1
unfolding run_rebuild
run_rebuild-absent s cfg cancel cancel_later dropped q t p job d db found about =
    last (run_rebuild s cfg cancel cancel_later dropped q t p job db).0
      (run_rebuild s cfg cancel cancel_later dropped q t p job db).1
      (Ends->>= (Targets job db) (λ _. S) S (load_job_targets job) asked db
        (start (load_job_targets job db).0 (load_job_targets job db).1
          (load_job_targets-Targets job db))
        at_targets)
  where
    S : Db → Type 0
    S y = Tracked p.created d db y × ProvenFirst job t db y

    F : Db → Type 0
    F = Free job.id d (creations db.sent)

    weaken : (y : Db) → F y → S y
    weaken y h = (inl h.sent, inl h.sent)

    gone : Connection × Deployment → String → Run (Unit {0})
    gone a n = destroy_old job.id a.1.vmid n t >> run_deploy s cfg p job

    stage : Connection × Deployment → String → Run (Unit {0})
    stage a n = write (progress job.id 1 "Phase 1 of 6 · Destroy") >> gone a n

    looked : Connection × Deployment → String → Run (Unit {0})
    looked a n = stop_if cancel_later canceled >> stage a n

    placed : Connection × Deployment → String → Run (Unit {0})
    placed a n = preflight s job a.0 a.1 q dropped >> looked a n

    opened : Connection × Deployment → Run (Unit {0})
    opened a = node_for a.1 a.0 q.picked q.failure >>= placed a

    uncanceled : Connection × Deployment → Run (Unit {0})
    uncanceled a = stop_if (not q.client) (raised q.failure) >> opened a

    asked : Connection × Deployment → Run (Unit {0})
    asked a = stop_if cancel canceled >> uncanceled a

    last : (e : Ended (Unit {0})) (y : Db) → Ends (λ _. S) S (e, y) → S y
    last (value a) y k = k
    last (stopped o) y k = k

    start :
        (e : Ended (Connection × Deployment)) (y : Db)
        → Ends (Targets job db) (λ after. after ≡ db) (e, y)
        → Ends (Targets job db) S (e, y)
    start (value a) y k = k
    start (stopped o) y k = (inl (ap (λ z. creations z.sent) k), inl (ap (λ z. creations z.sent) k))

    deployed :
        (a : Connection × Deployment)
        → get_opt job.deployment_id db.deployments ≡ some a.1
        → ProvenAbsent true a.1.vmid t.left
        → (y : Db) → F y
        → S (run_deploy s cfg p job y).1
    deployed a e proven y k =
        (run_deploy-Tracked s cfg p job d db y k.job about k.sent, inr (a.1, e, proven))

    ends : (e : Ended (Unit {0})) (y : Db) → S y → Ends (λ _. S) S (e, y)
    ends (value a) y k = k
    ends (stopped o) y k = k

    at_gone :
        (a : Connection × Deployment)
        → get_opt job.deployment_id db.deployments ≡ some a.1
        → (n : String) (y : Db) → F y
        → Ends (λ _. S) S (gone a n y)
    at_gone a e n y h =
        Ends->>= (λ _ z. F z × ProvenAbsent true a.1.vmid t.left) (λ _. S) S
          (destroy_old job.id a.1.vmid n t) (λ _. run_deploy s cfg p job) y
          (destroy_old-Free job.id d (creations db.sent) S job.id a.1.vmid n t y weaken h)
          (λ _ z k.
            ends (run_deploy s cfg p job z).0 (run_deploy s cfg p job z).1 (deployed a e k.1 z k.0))

    then_ :
        {B : Type 0} (m : Run B) (next : B → Run (Unit {0})) (y : Db)
        → Keeps F m
        → F y
        → ((b : B) (z : Db) → F z → Ends (λ _. S) S (next b z))
        → Ends (λ _. S) S ((m >>= next) y)
    then_ m next y keeps h rest =
        Ends->>= (λ _. F) (λ _. S) S m next y (Ends-by-Keeps F S m y weaken keeps h) rest

    at_targets :
        (a : Connection × Deployment) (y : Db) → Targets job db a y → Ends (λ _. S) S (asked a y)
    at_targets a y (same, c, e, on) =
        then_ (stop_if cancel canceled) (λ _. uncanceled a) y (Keeps-stop_if F cancel canceled) free
          (λ _ y1 h1.
            then_ (stop_if (not q.client) (raised q.failure)) (λ _. opened a) y1
              (Keeps-stop_if F (not q.client) (raised q.failure)) h1
              (λ _ y2 h2.
                then_ (node_for a.1 a.0 q.picked q.failure) (placed a) y2
                  (node_for-Keeps F a.1 a.0 q.picked q.failure) h2
                  (λ n y3 h3.
                    then_ (preflight s job a.0 a.1 q dropped) (λ _. looked a n) y3
                      (preflight-Free job.id d (creations db.sent) s job a.0 a.1 q dropped) h3
                      (λ _ y4 h4.
                        then_ (stop_if cancel_later canceled) (λ _. stage a n) y4
                          (Keeps-stop_if F cancel_later canceled) h4
                          (λ _ y5 h5.
                            at_gone a e n (progress job.id 1 "Phase 1 of 6 · Destroy" y5) (
                              progress-Free job.id d (creations db.sent) job.id 1
                                "Phase 1 of 6 · Destroy" y5 h5))))))
      where
        free : F y
        free = subst F (sym same) (record {
          job = (job, found, about);
          dep = (a.1, subst (λ o. get_opt o db.deployments ≡ some a.1) about e, tt);
          sent = refl;
        })
