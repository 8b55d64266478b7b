-- ===== src/Worker/Run/Rebuild.antt =====
-- app/worker.py: `_run_rebuild`, `_run_configure` and `_run_image_sync`. Texts that hold a number
-- come with the answers.
pub mod Safe
use goblin_dock.Base.{
  ℕ, String, ◌≡◌, Bool, true, false, not, ◌&&◌, ◌||◌, Option, none, some, List, if◌then◌else◌,
  get_opt, str_eq,
}
use goblin_dock.Models.{
  Db, Connection, connection_key, Deployment, DepStatus, Job, JobType, Command, destroy_vm,
  put_staged, drop_staged, send,
}
use goblin_dock.Worker.Remote.{Answers, Power, powered_on, powered_off, other, probe_vm_presence}
use goblin_dock.Worker.Ownership.{set_dep_status}
use goblin_dock.Worker.Queue.{Outcome, canceled, raised}
use goblin_dock.Worker.Run.{
  Run, give, fail_run, answer, ◌>>=◌, ◌>>◌, write, stop_if, Waited, await, progress, request,
  load_job_targets, node_for,
}
use goblin_dock.Worker.Run.Limits.{next_free_vmid}
use goblin_dock.Worker.Run.Destroy.{
  Teardown, stop_vm_for_lifecycle, destroy_present, is_confirmed_absent,
}
use goblin_dock.Worker.Run.Deploy.{
  Config, Plan, Delivery, Provision, Settings, choose_vmid, deliver, uses_snippet, run_deploy,
}

-- The old VM is stopped and destroyed if it is there, and must then be confirmed absent.
unfoldable pub destroy_old : ℕ → Option ℕ → String → Teardown → Run (Unit {0})
unfolding stop_vm_for_lifecycle destroy_present
destroy_old job_id none node t = give tt
destroy_old job_id (some vmid) node t = do
  is_there ← stop_vm_for_lifecycle job_id vmid node t
  destroy_present job_id vmid node t is_there
  stop_if (not (is_confirmed_absent (probe_vm_presence true (some vmid) t.left))) (raised t.failure)

-- A staged snippet is removed again.
unfoldable pub drop_staged_snippet : ℕ → Bool → Bool → String → Run (Unit {0})
drop_staged_snippet job_id false dropped failure = give tt
drop_staged_snippet job_id true dropped failure = do
  write (send (drop_staged job_id))
  stop_if (not dropped) (raised failure)

-- The image and the cloud-init data are prepared once while the old VM is there. `q` has the answers of
-- that; `dropped` is whether the staged snippet could be removed.
unfoldable pub preflight :
    Settings → Job → Connection → Deployment → Provision → Bool → Run (Unit {0})
unfolding choose_vmid deliver drop_staged_snippet
preflight s job conn dep q dropped = do
  plan ← answer q.plan q.failure
  commands ← if plan.recipe then answer q.compiled q.failure else give false
  write (progress job.id 1 "Preflight rebuild: image and cloud-init delivery")
  await q.image q.failure
  vmid ← choose_vmid s dep q
  staged ←
      deliver (put_staged job.id) (drop_staged job.id) (uses_snippet conn plan commands q.auto_root)
        q.delivery q.failure
  drop_staged_snippet job.id staged dropped q.failure

-- `_run_rebuild`. `cancel` and `cancel_later` are what the two looks at the request for a cancellation
-- saw; `q` answers the preparation, `t` the destruction, `p` the deployment.
unfoldable pub run_rebuild :
    Settings → Config → Bool → Bool → Bool → Provision → Teardown → Provision → Job → Run (Unit {0})
unfolding preflight destroy_old run_deploy
run_rebuild s cfg cancel cancel_later dropped q t p job = do
  targets ← load_job_targets job
  stop_if cancel canceled
  stop_if (not q.client) (raised q.failure)
  node ← node_for targets.1 targets.0 q.picked q.failure
  preflight s job targets.0 targets.1 q dropped
  stop_if cancel_later canceled
  write (progress job.id 1 "Phase 1 of 6 · Destroy")
  destroy_old job.id targets.1.vmid node t
  run_deploy s cfg p job

-- What the calls of a configuration answer; `node` is that of `find_vm_node`.
pub record Replay : Type 0 where
  pub plan : Option Plan
  pub client : Bool
  pub node : Option (Option String)
  pub power : Option Power
  pub ready : Waited
  pub address : Option String
  pub applied : Waited
  pub failure : String

abbrev pub is_on : Power → Bool
is_on powered_on = true
is_on powered_off = false
is_on other = false

-- `not node or px.vm_current(...) != "running"`
unfoldable pub require_running : Replay → Run (Unit {0})
require_running r = elim r.node [
  | none ↦ fail_run (raised r.failure)
  | some none ↦ fail_run (raised "configuration retry requires the existing VM to be running")
  | some (some node) ↦ elim r.power [
    | none ↦ fail_run (raised r.failure)
    | some power ↦
        stop_if (str_eq node "" || not (is_on power))
          (raised "configuration retry requires the existing VM to be running")
  ]
]

-- `_run_configure`
unfoldable pub run_configure : Bool → Replay → Job → Run (Unit {0})
unfolding require_running
run_configure cancel r job = do
  targets ← load_job_targets job
  stop_if cancel canceled
  plan ← answer r.plan r.failure
  stop_if (not plan.ansible) (raised "captured plan has no post-boot configuration to retry")
  stop_if (not r.client) (raised r.failure)
  require_running r
  write (progress job.id 10 "Verify first-boot completion")
  await r.ready r.failure
  seen ← answer r.address r.failure
  stop_if (str_eq (if str_eq seen "" then targets.1.ip else seen) "")
      (raised "guest IP is unavailable")
  write (progress job.id 50 "Retry post-boot configuration")
  await r.applied r.failure
  write (set_dep_status targets.1.id DepStatus.running "" targets.1.vmid none)
  write (progress job.id 100 "Complete")

-- `_run_image_sync`
unfoldable pub run_image_sync : Bool → Option String → Waited → String → Job → Run (Unit {0})
run_image_sync client picked image failure job db =
    elim (get_opt job.connection_id db.connections) [
      | none ↦ fail_run (raised "missing connection") db
      | some conn ↦
          (stop_if conn.disabled (raised "connection is disabled")
              >> (stop_if (not client) (raised failure)
                  >> ((if str_eq conn.node "" then answer picked failure else give conn.node)
                      >>= (λ node.
                          write (progress job.id 5 "Phase 1 of 1 · Prepare image")
                          >> (await image failure >> write (progress job.id 100 "Complete"))))))
            db
    ]
