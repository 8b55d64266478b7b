-- ===== src/Models.antt =====
-- app/models.py: the rows of the tables that the lifecycle, account and network code reads and
-- writes. A column that none of it reads is left out. Times are seconds; texts are native strings.
-- `Db` is the database together with what leaves the process: the commands sent to Proxmox, and
-- the counter of app/statebus.py.
use goblin_dock.Base.{
  ℕ, ◌+◌, max, String, Bool, true, false, Option, none, some, List, [], ◌∷◌, ◌++◌, Keyed, ◌==◌,
}

pub data Role : Type 0 where
  admin user : Role

abbrev pub is_admin : Role → Bool
is_admin admin = true
is_admin user = false

pub record User : Type 0 where
  pub id : ℕ
  pub email : String
  pub name : String
  pub password_hash : String
  pub role : Role
  pub disabled : Bool
  pub deleted_at : Option ℕ
  pub last_login : Option ℕ
  pub session_epoch : ℕ
  pub failed_logins : ℕ
  pub locked_until : Option ℕ
  pub widget_key_hash : Option String
  pub widget_key_last_used : Option ℕ

pub record Connection : Type 0 where
  pub id : ℕ
  pub name : String
  pub node : String
  pub ssh_key_path : String
  pub max_cores : ℕ
  pub max_ram_mb : ℕ
  pub max_disk_gb : ℕ
  pub disabled : Bool

pub data DepStatus : Type 0 where
  running stopped working error cleanup_pending : DepStatus

-- `identity_state` and `create_state`: how far the submission of the VM's creation came.
pub data CreateState : Type 0 where
  unset submitting accepted rejected : CreateState

abbrev pub is_submitting : CreateState → Bool
is_submitting submitting = true
is_submitting _ = false

abbrev pub is_accepted : CreateState → Bool
is_accepted accepted = true
is_accepted _ = false

pub data JobType : Type 0 where
  deploy rebuild destroy configure image_sync image_build : JobType

pub data JobStatus : Type 0 where
  queued running waiting succeeded failed canceled : JobStatus

pub record Deployment : Type 0 where
  pub id : ℕ
  pub name : String
  pub owner_id : Option ℕ
  pub connection_id : Option ℕ
  pub vmid : Option ℕ
  pub node : String
  pub cpu : ℕ
  pub ram : ℕ
  pub disk : ℕ
  pub ip : String
  pub status : DepStatus
  pub error : String
  pub identity_state : CreateState
  pub cleanup_origin : Option JobType
  pub cleanup_last_attempt_at : Option ℕ

pub record Job : Type 0 where
  pub id : ℕ
  pub type : JobType
  pub deployment_id : Option ℕ
  pub image_id : Option ℕ
  pub connection_id : Option ℕ
  pub status : JobStatus
  pub pct : ℕ
  pub phase : String
  pub created_by : Option ℕ
  pub cancel_requested : Bool
  pub error : String
  pub create_state : CreateState
  pub remote_task : String
  pub remote_node : String
  pub waiting_since : Option ℕ
  pub created_at : ℕ
  pub started_at : Option ℕ
  pub finished_at : Option ℕ
  pub dismissed : Bool
  pub dismissed_at : Option ℕ

pub data NetworkMode : Type 0 where
  dhcp static : NetworkMode

pub record Network : Type 0 where
  pub id : ℕ
  pub mode : NetworkMode
  pub subnet_cidr : String
  pub gateway : String
  pub range_start : String
  pub range_end : String

pub record IpAllocation : Type 0 where
  pub id : ℕ
  pub network_id : ℕ
  pub ip : String
  pub deployment_id : Option ℕ
  pub state : String

pub data Scope : Type 0 where
  global own : Scope

-- A `Secret` (its value encrypted) or a `Variable` (its value plain).
pub record Entry : Type 0 where
  pub id : ℕ
  pub scope : Scope
  pub owner_id : Option ℕ
  pub name : String
  pub value : String

pub record Audit : Type 0 where
  pub user_id : ℕ
  pub action : String
  pub target_id : ℕ
  pub detail : String

pub data BuildStatus : Type 0 where
  not_built ready building failed : BuildStatus

pub record Image : Type 0 where
  pub id : ℕ
  pub build_status : BuildStatus

-- What a worker sends to Proxmox that changes something there; a staged snippet is named by its job,
-- all else by the VM.
pub data Command : Type 0 where
  stop_vm destroy_vm delete_snippet create_vm start_vm configure_vm resize_vm put_snippet put_staged
        drop_staged :
      ℕ → Command

pub record Db : Type 0 where
  pub users : List User
  pub connections : List Connection
  pub deployments : List Deployment
  pub jobs : List Job
  pub allocations : List IpAllocation
  pub images : List Image
  pub secrets : List Entry
  pub variables : List Entry
  pub audit : List Audit
  pub sent : List Command
  pub version : ℕ

instance abbrev pub user_key : Keyed User
user_key = record { id = λ r. r.id }

instance abbrev pub connection_key : Keyed Connection
connection_key = record { id = λ r. r.id }

instance abbrev pub deployment_key : Keyed Deployment
deployment_key = record { id = λ r. r.id }

instance abbrev pub job_key : Keyed Job
job_key = record { id = λ r. r.id }

instance abbrev pub allocation_key : Keyed IpAllocation
allocation_key = record { id = λ r. r.id }

instance abbrev pub image_key : Keyed Image
image_key = record { id = λ r. r.id }

-- `record_audit`
abbrev pub record_audit : ℕ → String → ℕ → String → Db → Db
record_audit who action target detail db = record db {
  audit =
      db.audit
      ++ record { user_id = who; action = action; target_id = target; detail = detail } ∷ [];
}

-- The primary key that SQLite gives a new row: one more than the largest in the table.
unfoldable pub next_id : {A : Type 0} ⦃t : Keyed A⦄ → List A → ℕ
next_id [] = 1
next_id ⦃t⦄ (r ∷ rows) = max (t.id r + 1) (next_id ⦃t = t⦄ rows)

-- `statebus.bump`
abbrev pub bump : Db → Db
bump db = record db { version = db.version + 1 }

abbrev pub send : Command → Db → Db
send c db = record db { sent = db.sent ++ c ∷ [] }

-- `column in ("queued", "running", "waiting")`
abbrev pub is_active : JobStatus → Bool
is_active queued = true
is_active running = true
is_active waiting = true
is_active _ = false

-- `column in ("succeeded", "failed", "canceled")`
abbrev pub is_finished : JobStatus → Bool
is_finished succeeded = true
is_finished failed = true
is_finished canceled = true
is_finished _ = false

abbrev pub is_queued : JobStatus → Bool
is_queued queued = true
is_queued _ = false

abbrev pub is_waiting : JobStatus → Bool
is_waiting waiting = true
is_waiting _ = false

abbrev pub is_running : JobStatus → Bool
is_running JobStatus.running = true
is_running _ = false

-- `column in ("deploy", "rebuild", "destroy", "configure")`
abbrev pub is_lifecycle : JobType → Bool
is_lifecycle deploy = true
is_lifecycle rebuild = true
is_lifecycle destroy = true
is_lifecycle configure = true
is_lifecycle _ = false

abbrev pub is_cleanup_pending : DepStatus → Bool
is_cleanup_pending cleanup_pending = true
is_cleanup_pending _ = false

-- `fk == k` for two nullable keys that are both set.
abbrev pub job_of : ℕ → Job → Bool
job_of k j = elim j.deployment_id [ none ↦ false | some d ↦ d == k ]

abbrev pub allocation_of : ℕ → IpAllocation → Bool
allocation_of k a = elim a.deployment_id [ none ↦ false | some d ↦ d == k ]
