-- ===== src/Worker/Remote.antt =====
-- What Proxmox answers to a worker. A run of a reconciliation makes each of these calls at most once,
-- so its answers are one record, in which `none` is a call that raised. The texts of exceptions come
-- with the answers. `app/proxmox.py` makes the calls; of it, `probe_vm_presence` is here.
use goblin_dock.Base.{
  ℕ, String, ◌≡◌, Bool, true, false, Option, none, some, List, ◌==◌, if◌then◌else◌, any, get_opt,
  arith,
}
use goblin_dock.Models.{Connection, connection_key}

pub data Power : Type 0 where
  powered_on powered_off other : Power

abbrev pub is_off : Power → Bool
is_off powered_off = true
is_off _ = false

pub record Answers : Type 0 where
  -- `Proxmox(conn)` returned.
  pub client : Bool
  -- `task_status` returned and says "stopped".
  pub task_stopped : Bool
  -- `find_vm_node`
  pub vm_node : Option (Option String)
  -- `vm_current`, before a stop and in the runtime probe.
  pub power_before : Option Power
  pub power_after : Option Power
  -- The task of `stop` and of `destroy`, and whether `wait_task` returned.
  pub stop_task : Option String
  pub stop_waited : Bool
  pub destroy_task : Option String
  pub destroy_waited : Bool
  -- `list_cluster_guests`, as VM ids.
  pub guests : Option (List ℕ)
  -- `_assert_vmid_free` returned.
  pub vmid_free : Bool
  -- The text of the probe's detail.
  pub detail : String

pub data Presence : Type 0 where
  absent present unknown : Presence

-- `_px_for_conn(conn_id) is not None`: an admin-disabled source is never contacted.
unfoldable pub px_for_conn : Option ℕ → List Connection → Answers → Bool
px_for_conn conn_id connections ans = elim (get_opt conn_id connections) [
  | none ↦ false
  | some conn ↦ if conn.disabled then false else ans.client
]

unfoldable pub probe_inventory : ℕ → Answers → Presence
probe_inventory v ans = elim ans.guests [
  | none ↦ unknown
  | some listed ↦
      if any (λ g. g == v) listed then present else if ans.vmid_free then absent else unknown
]

-- `probe_vm_presence(px, vmid, node)`; the client is asked for only when there is a VM id.
unfoldable pub probe_vm_presence : Bool → Option ℕ → Answers → Presence
unfolding probe_inventory
probe_vm_presence px none ans = absent
probe_vm_presence px (some v) ans = if px then probe_inventory v ans else unknown

-- The VM id was never assigned, or a client was there, a complete inventory does not list the VM, and
-- Proxmox confirms that the id is free.
abbrev pub ProvenAbsent : Bool → Option ℕ → Answers → Type 0
ProvenAbsent px none ans = Unit
ProvenAbsent px (some v) ans =
    (l : List ℕ) × (px ≡ true)
    × (ans.guests ≡ some l)
    × (any (λ g. g == v) l ≡ false)
    × (ans.vmid_free ≡ true)

pub probe-absent :
    (px : Bool) (vmid : Option ℕ) (ans : Answers)
    → probe_vm_presence px vmid ans ≡ absent
    → ProvenAbsent px vmid ans
unfolding probe_vm_presence
probe-absent px none ans h = tt
probe-absent px (some v) ans h = ground arith
