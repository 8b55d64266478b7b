-- ===== src/Worker/Run/Ends.antt =====
-- What holds where a run ends: after its value, and after an exception.
use goblin_dock.Base.{◌≡◌, refl, Bool, true, false, Option, none, some, if◌then◌else◌, get_opt}
use goblin_dock.Models.{Db, Connection, connection_key, Deployment, deployment_key, Job}
use goblin_dock.Worker.Queue.{raised}
use goblin_dock.Worker.Run.{Ended, value, stopped, Run, continue, ◌>>=◌, load_job_targets}
use goblin_dock.Worker.Run.Keeps.{Keeps}

-- `V` holds of the value and the database, or `S` of the database that an exception leaves.
abbrev pub Ends {ℓ κ} : {A : Type ℓ} → (A → Db → Type κ) → (Db → Type κ) → Ended A × Db → Type κ
Ends V S (value a, db) = V a db
Ends V S (stopped o, db) = S db

pub Ends-Keeps {ℓ κ} :
    {A : Type ℓ} (P : Db → Type κ) (m : Run A) (db : Db)
    → Keeps P m
    → P db
    → Ends (λ (a : A). P) P (m db)
Ends-Keeps {A = A} P m db keeps p = either (m db).0 (m db).1 (keeps db p)
  where
    either : (e : Ended A) (d : Db) → P d → Ends (λ (a : A). P) P (e, d)
    either (value a) d q = q
    either (stopped o) d q = q

pub Ends->>= {ℓ μ κ} :
    {A : Type ℓ} {B : Type μ} (V : A → Db → Type κ) (W : B → Db → Type κ) (S : Db → Type κ)
    (m : Run A) (next : A → Run B) (db : Db)
    → Ends V S (m db)
    → ((a : A) (d : Db) → V a d → Ends W S (next a d))
    → Ends W S ((m >>= next) db)
Ends->>= {A = A} {B = B} V W S m next db first' rest = after (m db).0 (m db).1 first'
  where
    after : (e : Ended A) (d : Db) → Ends V S (e, d) → Ends W S (continue e d next)
    after (value a) d v = rest a d v
    after (stopped o) d s = s

-- The rows that a job is about, read and not changed.
abbrev pub Targets : Job → Db → Connection × Deployment → Db → Type 0
Targets job db targets after =
    (after ≡ db)
    × (get_opt job.connection_id db.connections ≡ some targets.0)
    × (get_opt job.deployment_id db.deployments ≡ some targets.1)
    × (targets.0.disabled ≡ false)

pub load_job_targets-Targets :
    (job : Job) (db : Db) → Ends (Targets job db) (λ after. after ≡ db) (load_job_targets job db)
unfolding load_job_targets
load_job_targets-Targets job db = at_conn (get_opt job.connection_id db.connections) refl
  where
    at_flag :
        (conn : Connection) (dep : Deployment) (b : Bool)
        → conn.disabled ≡ b
        → get_opt job.connection_id db.connections ≡ some conn
        → get_opt job.deployment_id db.deployments ≡ some dep
        → Ends
            (Targets job db)
            (λ after. after ≡ db)
            (if b then (stopped (raised "connection is disabled"), db) else (value (conn, dep), db))
    at_flag conn dep true f c e = refl
    at_flag conn dep false f c e = (refl, c, e, f)

    at_dep :
        (conn : Connection) (o : Option Deployment)
        → get_opt job.connection_id db.connections ≡ some conn
        → get_opt job.deployment_id db.deployments ≡ o
        → Ends
            (Targets job db)
            (λ after. after ≡ db)
            (elim o as (λ x. Ended (Connection × Deployment) × Db) [
              | none ↦ (stopped (raised "missing connection or deployment"), db)
              | some dep ↦
                  if conn.disabled
                  then (stopped (raised "connection is disabled"), db)
                  else (value (conn, dep), db)
            ])
    at_dep conn none c e = refl
    at_dep conn (some dep) c e = at_flag conn dep conn.disabled refl c e

    at_conn :
        (o : Option Connection)
        → get_opt job.connection_id db.connections ≡ o
        → Ends
            (Targets job db)
            (λ after. after ≡ db)
            (elim o as (λ x. Ended (Connection × Deployment) × Db) [
              | none ↦ (stopped (raised "missing connection or deployment"), db)
              | some conn ↦ elim (get_opt job.deployment_id db.deployments) [
                | none ↦ (stopped (raised "missing connection or deployment"), db)
                | some dep ↦
                    if conn.disabled
                    then (stopped (raised "connection is disabled"), db)
                    else (value (conn, dep), db)
              ]
            ])
    at_conn none c = refl
    at_conn (some conn) c = at_dep conn (get_opt job.deployment_id db.deployments) c refl
