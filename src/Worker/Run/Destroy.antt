-- ===== src/Worker/Run/Destroy.antt =====
-- app/worker.py: `_stop_vm_for_lifecycle` and `_run_destroy`.
pub mod Stopping
pub mod Torn
pub mod Owner
pub mod Executed
use goblin_dock.Base.{
  ℕ, zero, suc, ◌+◌, String, ◌≡◌, Bool, true, false, not, ◌&&◌, Option, none, some, List, [], ◌∷◌,
  ◌++◌, if◌then◌else◌, str_eq, str_append,
}
use goblin_dock.Models.{
  Db, Connection, Deployment, Job, Command, stop_vm, destroy_vm, delete_snippet, send,
}
use goblin_dock.Worker.Remote.{
  Answers, Power, is_off, Presence, absent, present, unknown, probe_vm_presence,
}
use goblin_dock.Worker.Ownership.{drop_deployment}
use goblin_dock.Worker.Queue.{Outcome, canceled, raised}
use goblin_dock.Worker.Run.{
  Ended, value, stopped, Run, give, fail_run, answer, continue, ◌>>=◌, ◌>>◌, write, stop_if, Waited,
  await, progress, request, load_job_targets, node_for,
}

-- What the calls of a destruction answer. `seen` is the probe after the VM's state could not be read,
-- `left` the one after the destruction; `failure` is the text of the call that raised, if one did.
pub record Teardown : Type 0 where
  pub current : Option Power
  pub seen : Answers
  pub stop_task : Option String
  pub stop_wait : Waited
  pub destroy_task : Option String
  pub destroy_wait : Waited
  pub left : Answers
  pub failure : String

unfoldable pub stop_running : ℕ → ℕ → String → Teardown → Run Bool
unfolding request
stop_running job_id vmid node t = do
  request job_id (stop_vm vmid) t.stop_task t.stop_wait node t.failure
  give true

-- Before a stop whose VM could not be read.
unfoldable pub stop_unread : ℕ → ℕ → String → Teardown → Presence → Run Bool
unfolding stop_running
stop_unread job_id vmid node t absent = give false
stop_unread job_id vmid node t unknown = fail_run (raised "could not inspect VM before stop")
stop_unread job_id vmid node t present = stop_running job_id vmid node t

-- `false` means that the inventory confirmed that the VM is already absent.
unfoldable pub stop_vm_for_lifecycle : ℕ → ℕ → String → Teardown → Run Bool
unfolding stop_unread stop_running
stop_vm_for_lifecycle job_id vmid node t = elim t.current [
  | none ↦ stop_unread job_id vmid node t (probe_vm_presence true (some vmid) t.seen)
  | some power ↦ if is_off power then give true else stop_running job_id vmid node t
]

unfoldable pub destroy_present : ℕ → ℕ → String → Teardown → Bool → Run (Unit {0})
unfolding request
destroy_present job_id vmid node t false = give tt
destroy_present job_id vmid node t true =
    request job_id (destroy_vm vmid) t.destroy_task t.destroy_wait node t.failure

abbrev pub is_confirmed_absent : Presence → Bool
is_confirmed_absent absent = true
is_confirmed_absent _ = false

-- The VM is stopped and destroyed, where it has an id.
unfoldable pub take_down : ℕ → Option ℕ → String → Teardown → Run (Unit {0})
unfolding stop_vm_for_lifecycle destroy_present
take_down job_id none node t = write (progress job_id 50 "Destroying")
take_down job_id (some vmid) node t = do
  is_there ← stop_vm_for_lifecycle job_id vmid node t
  write (progress job_id 50 "Destroying")
  destroy_present job_id vmid node t is_there

abbrev pub drop_snippet : Connection → Option ℕ → Db → Db
drop_snippet conn none db = db
drop_snippet conn (some vmid) db =
    if str_eq conn.ssh_key_path "" then db else send (delete_snippet vmid) db

-- The rest, once the VM is torn down.
unfoldable pub release_after : ℕ → Connection → Deployment → Teardown → Run (Unit {0})
release_after job_id conn dep t = do
  stop_if (not (is_confirmed_absent (probe_vm_presence true dep.vmid t.left)))
      (raised (str_append "destroy cleanup requires confirmed VM absence: " t.left.detail))
  write (λ db.
      progress job_id 100 "Complete" (drop_deployment dep.id (drop_snippet conn dep.vmid db)))

-- `cancel` is whether a cancellation was requested before the first request; `client` whether
-- `Proxmox(conn)` returned; `picked` the answer of `pick_node`.
unfoldable pub run_destroy : Bool → Bool → Option String → Teardown → Job → Run (Unit {0})
unfolding take_down release_after
run_destroy cancel client picked t job = do
  targets ← load_job_targets job
  stop_if cancel canceled
  stop_if (not client) (raised t.failure)
  node ← node_for targets.1 targets.0 picked t.failure
  write (progress job.id 10 "Stopping")
  take_down job.id targets.1.vmid node t
  release_after job.id targets.0 targets.1 t
