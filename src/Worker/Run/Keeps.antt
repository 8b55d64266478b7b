-- ===== src/Worker/Run/Keeps.antt =====
-- A run keeps what each of its parts keeps.
use goblin_dock.Base.{
  ℕ, String, Bool, true, false, Option, none, some, if◌then◌else◌, get_opt, Bool-cases, inl, inr,
  not, str_eq,
}
use goblin_dock.Models.{
  Db, Connection, connection_key, Deployment, deployment_key, Job, job_key, Command, send,
}
use goblin_dock.Worker.Queue.{Outcome}
use goblin_dock.Worker.Run.{
  Ended, value, stopped, Run, answer, continue, ◌>>=◌, stop_if, Waited, finished, failed,
  interrupted, await, remote, request, load_job_targets, node_for,
}

module _ {κ} (P : Db → Type κ) where
  abbrev pub Keeps {ℓ} : {A : Type ℓ} → Run A → Type κ
  Keeps m = (db : Db) → P db → P (m db).1

  pub Keeps->>= {ℓ λ'} :
      {A : Type ℓ} {B : Type λ'} (m : Run A) (next : A → Run B)
      → Keeps m
      → ((a : A) → Keeps (next a))
      → Keeps (m >>= next)
  Keeps->>= {A = A} m next first' rest db p = after (m db).0 (m db).1 (first' db p)
    where
      after : (e : Ended A) (d : Db) → P d → P (continue e d next).1
      after (value a) d q = rest a d q
      after (stopped o) d q = q

  pub Keeps-stop_if : (b : Bool) (o : Outcome) → Keeps (stop_if b o)
  Keeps-stop_if true o db p = p
  Keeps-stop_if false o db p = p

  pub Keeps-await : (w : Waited) (failure : String) → Keeps (await w failure)
  Keeps-await finished failure db p = p
  Keeps-await failed failure db p = p
  Keeps-await interrupted failure db p = p

  pub Keeps-answer {ℓ} : {A : Type ℓ} (o : Option A) (failure : String) → Keeps (answer o failure)
  Keeps-answer none failure db p = p
  Keeps-answer (some a) failure db p = p

  pub Keeps-if {ℓ} :
      {A : Type ℓ} (b : Bool) (m n : Run A)
      → Keeps m
      → Keeps n
      → Keeps (λ db. (if b then m else n) db)
  Keeps-if true m n h k = h
  Keeps-if false m n h k = k

  pub load_job_targets-Keeps : (job : Job) → Keeps (load_job_targets job)
  unfolding load_job_targets
  load_job_targets-Keeps job db p = at_conn (get_opt job.connection_id db.connections)
    where
      at_dep :
          (conn : Connection) (o : Option Deployment)
          → P
              (elim o as (λ x. Ended (Connection × Deployment) × Db) [
                | none ↦ (stopped (Outcome.raised "missing connection or deployment"), db)
                | some dep ↦
                    if conn.disabled
                    then (stopped (Outcome.raised "connection is disabled"), db)
                    else (value (conn, dep), db)
              ]).1
      at_dep conn none = p
      at_dep conn (some dep) = elim (Bool-cases conn.disabled) [ inl e ↦ rw e p | inr e ↦ rw e p ]

      at_conn :
          (o : Option Connection)
          → P
              (elim o as (λ x. Ended (Connection × Deployment) × Db) [
                | none ↦ (stopped (Outcome.raised "missing connection or deployment"), db)
                | some conn ↦ elim (get_opt job.deployment_id db.deployments) [
                  | none ↦ (stopped (Outcome.raised "missing connection or deployment"), db)
                  | some dep ↦
                      if conn.disabled
                      then (stopped (Outcome.raised "connection is disabled"), db)
                      else (value (conn, dep), db)
                ]
              ]).1
      at_conn none = p
      at_conn (some conn) = at_dep conn (get_opt job.deployment_id db.deployments)

  pub request-Keeps :
      (job_id : ℕ) (command : Command) (task : Option String) (wait : Waited)
      (node failure : String)
      → ((db : Db) → P db → P (send command db))
      → ((upid : String) (db : Db) → P db → P (remote job_id upid node db))
      → Keeps (request job_id command task wait node failure)
  unfolding request
  request-Keeps job_id command none wait node failure h k db p = h db p
  request-Keeps job_id command (some upid) wait node failure h k db p =
      Keeps-await wait failure (remote job_id upid node (send command db))
        (k upid (send command db) (h db p))

  pub node_for-Keeps :
      (dep : Deployment) (conn : Connection) (picked : Option String) (failure : String)
      → Keeps (node_for dep conn picked failure)
  node_for-Keeps dep conn picked failure db p =
      let a = Keeps-answer picked failure db p in
      elim (Bool-cases (not (str_eq dep.node ""))) [
        | inl e ↦ rw e p
        | inr e ↦
            rw e (elim (Bool-cases (not (str_eq conn.node ""))) [ inl f ↦ rw f p | inr f ↦ rw f a ])
      ]
