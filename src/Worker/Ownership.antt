-- ===== src/Worker/Ownership.antt =====
-- The rows that say which VM and which addresses a deployment owns: the writes of app/worker.py that
-- change or release them.
use goblin_dock.Base.{
  ℕ, String, Bool, true, false, not, ◌&&◌, ◌||◌, Option, none, some, ◌==◌, if◌then◌else◌, delete,
  get, put, remove, get_opt, str_eq, take_chars,
}
use goblin_dock.Models.{
  Db, connection_key, Deployment, deployment_key, DepStatus, is_cleanup_pending, JobType, deploy,
  destroy, allocation_of, send, delete_snippet,
}

abbrev pub vmid_eq : Option ℕ → Option ℕ → Bool
vmid_eq none none = true
vmid_eq (some a) (some b) = a == b
vmid_eq _ _ = false

unfoldable pub release : ℕ → Db → Db
release dep_id db = record db {
  allocations = delete (allocation_of dep_id) db.allocations;
  deployments = remove dep_id db.deployments;
}

-- `_drop_deployment`
unfoldable pub drop_deployment : ℕ → Db → Db
unfolding release
drop_deployment dep_id db = release dep_id db

-- `_drop_deployment_if_matches(dep_id, vmid, required_status)`
unfoldable pub drop_deployment_if_matches : ℕ → Option ℕ → Bool → Db → Db
unfolding release
drop_deployment_if_matches dep_id vmid pending_only db = elim (get dep_id db.deployments) [
  | none ↦ db
  | some d ↦
      if not (vmid_eq d.vmid vmid) || (pending_only && not (is_cleanup_pending d.status))
      then db
      else release dep_id db
]

abbrev pub origin_eq : Option JobType → JobType → Bool
origin_eq (some deploy) deploy = true
origin_eq (some destroy) destroy = true
origin_eq _ _ = false

-- The fields `cleanup_origin` and `cleanup_last_attempt_at` for a new status.
unfoldable pub clean_fields : DepStatus → Option JobType → Deployment → Deployment
clean_fields DepStatus.cleanup_pending (some deploy) d = record d {
  cleanup_origin = some deploy;
  cleanup_last_attempt_at =
      if is_cleanup_pending d.status && origin_eq d.cleanup_origin deploy
      then d.cleanup_last_attempt_at
      else none;
}
clean_fields DepStatus.cleanup_pending (some destroy) d = record d {
  cleanup_origin = some destroy;
  cleanup_last_attempt_at =
      if is_cleanup_pending d.status && origin_eq d.cleanup_origin destroy
      then d.cleanup_last_attempt_at
      else none;
}
clean_fields DepStatus.cleanup_pending _ d = d
clean_fields _ _ d = record d { cleanup_origin = none; cleanup_last_attempt_at = none }

unfoldable pub written : DepStatus → String → Option ℕ → Option JobType → Deployment → Deployment
unfolding clean_fields
written status message expected origin d =
    if vmid_eq d.vmid expected
    then record (clean_fields status origin d) { status = status; error = take_chars 300 message }
    else d

-- `_set_dep_status(dep_id, status, error, expected_vmid, cleanup_origin)`
unfoldable pub set_dep_status : ℕ → DepStatus → String → Option ℕ → Option JobType → Db → Db
unfolding written
set_dep_status dep_id status message expected origin db = record db {
  deployments = put dep_id (written status message expected origin) db.deployments;
}

-- `_best_effort_delete_snippet`
unfoldable pub delete_snippet_of : Option ℕ → Option ℕ → Db → Db
delete_snippet_of conn_id none db = db
delete_snippet_of conn_id (some v) db = elim (get_opt conn_id db.connections) [
  | none ↦ db
  | some conn ↦
      if conn.disabled || str_eq conn.ssh_key_path "" then db else send (delete_snippet v) db
]
