-- ===== src/Worker/Run/Destroy/Torn.antt =====
-- How `_run_destroy` ends, for any property of the database that progress, the id of a remote task and
-- requests keep.
use goblin_dock.Base.{
  Bool-cases, str_eq, ℕ, String, ◌≡◌, refl, inl, inr, Bool, true, false, not, Option, none, some,
  get_opt, str_append,
}
use goblin_dock.Models.{
  Db, Connection, connection_key, Deployment, deployment_key, Job, Command, send,
}
use goblin_dock.Worker.Remote.{
  Presence, absent, present, unknown, ProvenAbsent, probe-absent, probe_vm_presence,
}
use goblin_dock.Worker.Ownership.{drop_deployment}
use goblin_dock.Worker.Queue.{canceled, raised}
use goblin_dock.Worker.Reconcile.Same.{}
use goblin_dock.Worker.Run.{
  Ended, value, stopped, Run, write, stop_if, request, progress, remote, load_job_targets, node_for,
  Waited, ◌>>◌, ◌>>=◌,
}
use goblin_dock.Worker.Run.Keeps.{Keeps, Keeps->>=, request-Keeps, node_for-Keeps}
use goblin_dock.Worker.Run.Ends.{Ends, Ends->>=, Ends-Keeps, Targets, load_job_targets-Targets}
use goblin_dock.Worker.Run.Destroy.Stopping.{stop_vm_for_lifecycle-Keeps}
use goblin_dock.Worker.Run.Destroy.{
  Teardown, stop_vm_for_lifecycle, destroy_present, is_confirmed_absent, take_down, drop_snippet,
  release_after, run_destroy,
}

pub is_confirmed_absent_lem : (p : Presence) → is_confirmed_absent p ≡ true → p ≡ absent
is_confirmed_absent_lem absent h = refl
is_confirmed_absent_lem present h = cc
is_confirmed_absent_lem unknown h = cc

-- The end without an exception: the deployment was released, in a database that has the property, after
-- its VM was proven absent.
abbrev pub Torn : (Db → Type 0) → Job → Teardown → Db → Unit {0} → Db → Type 0
Torn P job t db done after =
    (dep : Deployment) × (x : Db) × (get_opt job.deployment_id db.deployments ≡ some dep)
    × ProvenAbsent true dep.vmid t.left
    × P x
    × (after ≡ progress job.id 100 "Complete" (drop_deployment dep.id x))

module _ (P : Db → Type 0)
    (on_progress : (j k : ℕ) (s : String) (x : Db) → P x → P (progress j k s x))
    (on_remote : (j : ℕ) (u n : String) (x : Db) → P x → P (remote j u n x))
    (on_send : (c : Command) (x : Db) → P x → P (send c x)) where
  requested :
      (j : ℕ) (c : Command) (t : Option String) (w : Waited) (n f : String)
      → Keeps P (request j c t w n f)
  requested j c t w n f = request-Keeps P j c t w n f (on_send c) (λ u. on_remote j u n)

  destroy_present-Keeps :
      (j v : ℕ) (n : String) (t : Teardown) (b : Bool) → Keeps P (destroy_present j v n t b)
  unfolding destroy_present
  destroy_present-Keeps j v n t false x h = h
  destroy_present-Keeps j v n t true x h =
      requested j _ t.destroy_task t.destroy_wait n t.failure x h

  take_down-Keeps : (j : ℕ) (v : Option ℕ) (n : String) (t : Teardown) → Keeps P (take_down j v n t)
  unfolding take_down
  take_down-Keeps j none n t x h = on_progress j 50 "Destroying" x h
  take_down-Keeps j (some v) n t x h =
      Keeps->>= P (stop_vm_for_lifecycle j v n t)
        (λ is_there db'. destroy_present j v n t is_there (progress j 50 "Destroying" db'))
        (stop_vm_for_lifecycle-Keeps P j v n t
          (requested j (Command.stop_vm v) t.stop_task t.stop_wait n t.failure))
        (λ b y k.
          destroy_present-Keeps j v n t b (progress j 50 "Destroying" y)
            (on_progress j 50 "Destroying" y k))
        x h

  drop_snippet-kept : (conn : Connection) (v : Option ℕ) (x : Db) → P x → P (drop_snippet conn v x)
  drop_snippet-kept conn none x h = h
  drop_snippet-kept conn (some v) x h = elim (Bool-cases (str_eq conn.ssh_key_path "")) [
    | inl e ↦ rw e h
    | inr e ↦ rw e (on_send (Command.delete_snippet v) x h)
  ]

  release_after-Torn :
      (job : Job) (conn : Connection) (dep : Deployment) (t : Teardown) (db x : Db)
      → get_opt job.deployment_id db.deployments ≡ some dep
      → P x
      → Ends (Torn P job t db) P (release_after job.id conn dep t x)
  unfolding release_after
  release_after-Torn job conn dep t db x e s =
      at_presence (is_confirmed_absent (probe_vm_presence true dep.vmid t.left)) refl
    where
      at_presence :
          (b : Bool)
          → is_confirmed_absent (probe_vm_presence true dep.vmid t.left) ≡ b
          → Ends (Torn P job t db) P (
              (stop_if (not b) (
                    raised
                      (str_append "destroy cleanup requires confirmed VM absence: " t.left.detail))
                  >> write (λ db'.
                    progress job.id 100 "Complete"
                      (drop_deployment dep.id (drop_snippet conn dep.vmid db'))))
                x)
      at_presence false h = s
      at_presence true h = (
        dep,
        drop_snippet conn dep.vmid x,
        e,
        probe-absent true dep.vmid t.left (is_confirmed_absent_lem _ h),
        drop_snippet-kept conn dep.vmid x s,
        refl,
      )

  pub run_destroy-Torn :
      (cancel client : Bool) (picked : Option String) (t : Teardown) (job : Job) (db : Db)
      → P db
      → Ends (Torn P job t db) P (run_destroy cancel client picked t job db)
  unfolding run_destroy
  run_destroy-Torn cancel client picked t job db p =
      Ends->>= (Targets job db) (Torn P job t db) P (load_job_targets job) rest db
        (start (load_job_targets job db).0 (load_job_targets job db).1
          (load_job_targets-Targets job db))
        at_targets
    where
      after_node : Connection × Deployment → String → Run (Unit {0})
      after_node targets node =
          write (progress job.id 10 "Stopping")
          >> (take_down job.id targets.1.vmid node t >> release_after job.id targets.0 targets.1 t)

      after_client : Connection × Deployment → Run (Unit {0})
      after_client targets = node_for targets.1 targets.0 picked t.failure >>= after_node targets

      after_stop : Connection × Deployment → Run (Unit {0})
      after_stop targets = stop_if (not client) (raised t.failure) >> after_client targets

      rest : Connection × Deployment → Run (Unit {0})
      rest targets = stop_if cancel canceled >> after_stop targets

      start :
          (e : Ended (Connection × Deployment)) (x : Db)
          → Ends (Targets job db) (λ after. after ≡ db) (e, x)
          → Ends (Targets job db) P (e, x)
      start (value a) x h = h
      start (stopped o) x h = rw h (p)

      at_release :
          (a : Connection × Deployment)
          → get_opt job.deployment_id db.deployments ≡ some a.1
          → (x : Db) → P x
          → Ends (Torn P job t db) P (release_after job.id a.0 a.1 t x)
      at_release a e x h = release_after-Torn job a.0 a.1 t db x e h

      at_node :
          (a : Connection × Deployment)
          → get_opt job.deployment_id db.deployments ≡ some a.1
          → (n : String) (x : Db) → P x
          → Ends (Torn P job t db) P (after_node a n x)
      at_node a e n x h =
          let y = progress job.id 10 "Stopping" x in
          Ends->>= (λ _ z. P z) (Torn P job t db) P (take_down job.id a.1.vmid n t)
            (λ _. release_after job.id a.0 a.1 t) y
            (Ends-Keeps P (take_down job.id a.1.vmid n t) y (take_down-Keeps job.id a.1.vmid n t)
              (on_progress job.id 10 "Stopping" x h))
            (λ _ z k. at_release a e z k)

      at_client :
          (a : Connection × Deployment)
          → get_opt job.deployment_id db.deployments ≡ some a.1
          → (x : Db) → P x
          → Ends (Torn P job t db) P (after_client a x)
      at_client a e x h =
          Ends->>= (λ _ z. P z) (Torn P job t db) P (node_for a.1 a.0 picked t.failure)
            (after_node a) x
            (Ends-Keeps P (node_for a.1 a.0 picked t.failure) x
              (node_for-Keeps P a.1 a.0 picked t.failure) h)
            (λ n z k. at_node a e n z k)

      at_stop :
          (b : Bool) (a : Connection × Deployment)
          → get_opt job.deployment_id db.deployments ≡ some a.1
          → (x : Db) → P x
          → Ends (Torn P job t db) P ((stop_if b (raised t.failure) >> after_client a) x)
      at_stop true a e x h = h
      at_stop false a e x h = at_client a e x h

      at_cancel :
          (b : Bool) (a : Connection × Deployment)
          → get_opt job.deployment_id db.deployments ≡ some a.1
          → (x : Db) → P x
          → Ends (Torn P job t db) P ((stop_if b canceled >> after_stop a) x)
      at_cancel true a e x h = h
      at_cancel false a e x h = at_stop (not client) a e x h

      at_targets :
          (a : Connection × Deployment) (x : Db)
          → Targets job db a x
          → Ends (Torn P job t db) P (rest a x)
      at_targets a x (same, c, e, on) = at_cancel cancel a e x (rw same (p))
