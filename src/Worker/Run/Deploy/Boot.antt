-- ===== src/Worker/Run/Deploy/Boot.antt =====
-- `_run_deploy` after the creation: no part of it changes what the row says of the VM's identity.
use mathlib.Core.List.{append-nil}
use goblin_dock.Base.{
  ℕ, zero, suc, String, ◌≡◌, refl, ◌∙◌, ap, inl, inr, true, not, ◌&&◌, Option, none, some, List, [],
  ◌∷◌, ◌++◌, if◌then◌else◌, leb, ◌*◌, ◌/◌, get, put, Bool-cases, str_eq,
}
use goblin_dock.Models.{
  Db, Connection, Deployment, deployment_key, CreateState, DepStatus, JobStatus, Job, job_key,
  Command, send, connection_key,
}
use goblin_dock.Worker.Ownership.{}
use goblin_dock.Worker.Queue.{canceled, deferred, raised}
use goblin_dock.Worker.Run.{
  Ended, stopped, Run, give, write, stop_if, await, Waited, request, progress, ◌>>=◌, ◌>>◌,
}
use goblin_dock.Worker.Run.Keeps.{Keeps, Keeps->>=, Keeps-stop_if, Keeps-await, request-Keeps}
use goblin_dock.Worker.Run.Ends.{}
use goblin_dock.Worker.Run.Limits.{
  Caps, effective_resource_limits, clamp_resource, effective_disk_gb,
}
use goblin_dock.Worker.Run.Deploy.{
  Config, Plan, Poll, cancel_seen, unread, silent, reports, Provision, Settings, grow_disk,
  wait_for_ip, or_static, defer_for_guest_ip, record_facts, mark_running, apply_recipe, bring_up,
}
use goblin_dock.Worker.Run.Deploy.Stage.{
  created_by, Stage, put_job-Stage, progress-Stage, remote-Stage, send-Stage, put_dep-Stage,
}

-- A property of a row that the VM's identity decides.
abbrev pub OnIdentity : (Option ℕ → CreateState → Type 0) → Deployment → Type 0
OnIdentity T r = T r.vmid r.identity_state

module _ (jid d : ℕ) (vs : List ℕ) where
  abbrev On : (Deployment → Type 0) → Db → Type 0
  On Q x = Stage jid d Q vs x

  pub send_plain-Stage :
      (Q : Deployment → Type 0) (c : Command) (x : Db)
      → created_by c ≡ []
      → Stage jid d Q vs x
      → Stage jid d Q vs (send c x)
  send_plain-Stage Q c x e h =
      let s = send-Stage jid d vs Q c x h in
      record { job = h.job; dep = h.dep; sent = s.sent ∙ (ap (λ l. vs ++ l) e ∙ append-nil vs) }

  pub request-Stage :
      (Q : Deployment → Type 0) (j : ℕ) (c : Command) (t : Option String) (w : Waited)
      (n f : String)
      → created_by c ≡ []
      → Keeps (Stage jid d Q vs) (request j c t w n f)
  request-Stage Q j c t w n f e =
      request-Keeps (Stage jid d Q vs) j c t w n f (λ x h. send_plain-Stage Q c x e h)
        (λ u x h. remote-Stage jid d vs Q j u n x h)

  grow-Stage :
      (Q : Deployment → Type 0) (job : Job) (v : ℕ) (n : String) (wanted : ℕ) (p : Provision)
      → Keeps (Stage jid d Q vs) (
          stop_if p.cancel_resize canceled
          >> (request job.id (Command.resize_vm v) p.resize_task p.resize_wait n p.failure
              >> give wanted))
  grow-Stage Q job v n wanted p =
      Keeps->>= (Stage jid d Q vs) (stop_if p.cancel_resize canceled)
        (λ _.
          request job.id (Command.resize_vm v) p.resize_task p.resize_wait n p.failure
          >> give wanted)
        (Keeps-stop_if (Stage jid d Q vs) p.cancel_resize canceled)
        (λ _.
          Keeps->>= (Stage jid d Q vs)
            (request job.id (Command.resize_vm v) p.resize_task p.resize_wait n p.failure)
            (λ _. give wanted)
            (request-Stage Q job.id (Command.resize_vm v) p.resize_task p.resize_wait n p.failure
              refl)
            (λ _ x h. h))

  grow_disk-Stage :
      (Q : Deployment → Type 0) (job : Job) (v : ℕ) (n : String) (wanted : ℕ) (p : Provision)
      → Keeps (Stage jid d Q vs) (grow_disk job v n wanted p)
  unfolding grow_disk
  grow_disk-Stage Q job v n wanted p x h = at_disk p.disk_now
    where
      grown : Run ℕ
      grown =
          stop_if p.cancel_resize canceled
          >> (request job.id (Command.resize_vm v) p.resize_task p.resize_wait n p.failure
              >> give wanted)

      at_disk :
          (o : Option ℕ)
          → Stage jid d Q vs
              ((elim o as (λ _. Run ℕ) [
                | none ↦ grown
                | some zero ↦ grown
                | some (suc k) ↦ if leb wanted (suc k) then give (suc k) else grown
              ])
                x).1
      at_disk none = grow-Stage Q job v n wanted p x h
      at_disk (some zero) = grow-Stage Q job v n wanted p x h
      at_disk (some (suc k)) = elim (Bool-cases (leb wanted (suc k))) [
        | inl e ↦ rw e h
        | inr e ↦ rw e (grow-Stage Q job v n wanted p x h)
      ]

  wait_for_ip-Stage :
      (Q : Deployment → Type 0) (polls : List Poll) (f : String)
      → Keeps (Stage jid d Q vs) (wait_for_ip polls f)
  unfolding wait_for_ip
  wait_for_ip-Stage Q [] f x h = h
  wait_for_ip-Stage Q (cancel_seen ∷ polls) f x h = h
  wait_for_ip-Stage Q (unread ∷ polls) f x h = h
  wait_for_ip-Stage Q (silent ∷ polls) f x h = wait_for_ip-Stage Q polls f x h
  wait_for_ip-Stage Q (reports ip ∷ polls) f x h =
      let r = wait_for_ip-Stage Q polls f x h in
      elim (Bool-cases (str_eq ip "")) [ inl e ↦ rw e r | inr e ↦ rw e h ]

  module _ (T : Option ℕ → CreateState → Type 0) where
    defer_for_guest_ip-Stage :
        (j now : ℕ) → Keeps (Stage jid d (OnIdentity T) vs) (defer_for_guest_ip j now)
    unfolding defer_for_guest_ip
    defer_for_guest_ip-Stage j now x h = at_job (get j x.jobs)
      where
        waits : Job → Job
        waits r = record r {
          status = JobStatus.waiting;
          waiting_since = elim r.waiting_since [ none ↦ some now | some t ↦ some t ];
          phase = "Waiting for guest IP";
          finished_at = none;
        }

        at_job :
            (o : Option Job)
            → Stage jid d
                (OnIdentity T)
                vs
                (elim o as (λ _. Ended (Unit {0}) × Db) [
                  | none ↦ (stopped (raised "missing job while deferring for guest IP"), x)
                  | some job ↦ (stopped deferred, record x { jobs = put j waits x.jobs })
                ]).1
        at_job none = h
        at_job (some job) =
            put_job-Stage jid d vs (OnIdentity T) waits j x (λ r. refl) (λ r. refl) h

    apply_recipe-Stage :
        (job : Job) (plan : Plan) (ip : String) (p : Provision)
        → Keeps (Stage jid d (OnIdentity T) vs) (apply_recipe job plan ip p)
    unfolding apply_recipe
    apply_recipe-Stage job plan ip p x h =
        let a = Keeps-await (Stage jid d (OnIdentity T) vs) p.applied p.failure x h in
        let b = defer_for_guest_ip-Stage job.id p.now x h in
        elim (Bool-cases (plan.recipe && plan.ansible)) [
          | inl e ↦ rw e (elim (Bool-cases (str_eq ip "")) [ inl f ↦ rw f b | inr f ↦ rw f a ])
          | inr e ↦ rw e h
        ]

    record_facts-Stage :
        (ip : String) (c r k : ℕ) (x : Db)
        → Stage jid d (OnIdentity T) vs x
        → Stage jid d (OnIdentity T) vs (record_facts d ip c r k x)
    unfolding record_facts
    record_facts-Stage ip c r k x h =
        put_dep-Stage jid d vs (OnIdentity T) (OnIdentity T)
          (λ b. record b { ip = ip; cpu = c; ram = r; disk = k }) x (λ b. refl) (λ b q. q) h

    mark_running-Stage :
        (x : Db)
        → Stage jid d (OnIdentity T) vs x
        → Stage jid d (OnIdentity T) vs (mark_running d x)
    unfolding mark_running
    mark_running-Stage x h =
        put_dep-Stage jid d vs (OnIdentity T) (OnIdentity T)
          (λ b. record b {
            status = DepStatus.running;
            error = "";
            cleanup_origin = none;
            cleanup_last_attempt_at = none;
          })
          x (λ b. refl) (λ b q. q) h

    pub bring_up-Stage :
        (s : Settings) (cfg : Config) (job : Job) (conn : Connection) (v : ℕ) (n : String)
        (plan : Plan) (p : Provision)
        → Keeps (Stage jid d (OnIdentity T) vs) (bring_up s cfg job conn d v n plan p)
    unfolding bring_up
    bring_up-Stage s cfg job conn v n plan p =
        Keeps->>= P (write (progress job.id 45 (s.title 4 "Configure"))) (λ _. configured)
          (moves 45 (s.title 4 "Configure"))
          (λ _.
            Keeps->>= P (stop_if p.cancel_config canceled) (λ _. asked)
              (Keeps-stop_if P p.cancel_config canceled)
              (λ _.
                Keeps->>= P
                  (request job.id (Command.configure_vm v) p.config_task p.config_wait n p.failure)
                  (λ _. grown)
                  (request-Stage Q job.id (Command.configure_vm v) p.config_task p.config_wait n
                    p.failure refl)
                  (λ _.
                    Keeps->>= P (grow_disk job v n wanted p) sized
                      (grow_disk-Stage Q job v n wanted p)
                      (λ disk.
                        Keeps->>= P (write (progress job.id 65 (s.title 5 "Boot")))
                          (λ _. started disk) (moves 65 (s.title 5 "Boot"))
                          (λ _.
                            Keeps->>= P
                              (request job.id (Command.start_vm v) p.start_task p.start_wait n
                                p.failure)
                              (λ _. verified disk)
                              (request-Stage Q job.id (Command.start_vm v) p.start_task p.start_wait
                                n p.failure refl)
                              (λ _.
                                Keeps->>= P
                                  (write
                                    (progress job.id 75 "Verify cloud-init and first-boot recipe"))
                                  (λ _. ready disk)
                                  (moves 75 "Verify cloud-init and first-boot recipe")
                                  (λ _.
                                    Keeps->>= P (await p.ready p.failure) (λ _. addressed disk)
                                      (Keeps-await P p.ready p.failure)
                                      (λ _.
                                        Keeps->>= P (wait_for_ip p.polls p.failure) (seen_at disk)
                                          (wait_for_ip-Stage Q p.polls p.failure)
                                          (λ o.
                                            Keeps->>= P (stop_if (not p.facts) (raised p.failure))
                                              (λ _. recorded disk o)
                                              (Keeps-stop_if P (not p.facts) (raised p.failure))
                                              (λ _.
                                                Keeps->>= P (write (facts disk o)) (λ _. applied o)
                                                  (record_facts-Stage (or_static o cfg.static_ip)
                                                    (clamp_resource cfg.cpu limits.max_cores)
                                                    (clamp_resource (cfg.ram * 1024)
                                                        limits.max_ram_mb
                                                      / 1024)
                                                    (effective_disk_gb true disk none))
                                                  (λ _.
                                                    Keeps->>= P
                                                      (apply_recipe job plan
                                                        (or_static o cfg.static_ip) p)
                                                      (λ _. last)
                                                      (apply_recipe-Stage job plan
                                                        (or_static o cfg.static_ip) p)
                                                      (λ _ x h.
                                                        progress-Stage jid d vs Q job.id 100
                                                          "Complete" (mark_running d x)
                                                          (mark_running-Stage x h)))))))))))))
      where
        Q : Deployment → Type 0
        Q = OnIdentity T

        P : Db → Type 0
        P = Stage jid d Q vs

        limits : Caps
        limits = effective_resource_limits conn s.caps

        wanted : ℕ
        wanted = clamp_resource cfg.disk limits.max_disk_gb

        moves : (k : ℕ) (title : String) → Keeps P (write (progress job.id k title))
        moves k title x h = progress-Stage jid d vs Q job.id k title x h

        facts : ℕ → Option String → Db → Db
        facts disk o =
            record_facts d (or_static o cfg.static_ip) (clamp_resource cfg.cpu limits.max_cores)
              (clamp_resource (cfg.ram * 1024) limits.max_ram_mb / 1024)
              (effective_disk_gb true disk none)

        last : Run (Unit {0})
        last = write (λ db. progress job.id 100 "Complete" (mark_running d db))

        applied : Option String → Run (Unit {0})
        applied o = apply_recipe job plan (or_static o cfg.static_ip) p >> last

        recorded : ℕ → Option String → Run (Unit {0})
        recorded disk o = write (facts disk o) >> applied o

        seen_at : ℕ → Option String → Run (Unit {0})
        seen_at disk o = stop_if (not p.facts) (raised p.failure) >> recorded disk o

        addressed : ℕ → Run (Unit {0})
        addressed disk = wait_for_ip p.polls p.failure >>= seen_at disk

        ready : ℕ → Run (Unit {0})
        ready disk = await p.ready p.failure >> addressed disk

        verified : ℕ → Run (Unit {0})
        verified disk =
            write (progress job.id 75 "Verify cloud-init and first-boot recipe") >> ready disk

        started : ℕ → Run (Unit {0})
        started disk =
            request job.id (Command.start_vm v) p.start_task p.start_wait n p.failure
            >> verified disk

        sized : ℕ → Run (Unit {0})
        sized disk = write (progress job.id 65 (s.title 5 "Boot")) >> started disk

        grown : Run (Unit {0})
        grown = grow_disk job v n wanted p >>= sized

        asked : Run (Unit {0})
        asked =
            request job.id (Command.configure_vm v) p.config_task p.config_wait n p.failure >> grown

        configured : Run (Unit {0})
        configured = stop_if p.cancel_config canceled >> asked
