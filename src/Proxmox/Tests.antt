-- ===== src/Proxmox/Tests.antt =====
-- Polls of the API.
use goblin_dock.Base.{
  ◌≡◌, refl, true, false, none, some, [], ◌∷◌, any, List, strip, lstrip, rstrip, is_space, is_blank,
}
use goblin_dock.Proxmox.{
  answered, qemu, lxc, RawGuest, Guest, Inventory, identity_of, check_guests, list_cluster_guests,
  find_in, find_vm_node, runs, exited, TaskPoll, wait_task, not_ready, pid, unread, running, exit,
  GuestPoll, wait_guest_ready, read_status, guest_turn, poll_guest,
}
use goblin_dock.Proxmox.Polling.{Ready, wait_guest_ready-Ready}

abbrev listed : List RawGuest
listed =
    record { type = some qemu; node = some "pve"; vmid = some 100 }
    ∷ record { type = some lxc; node = some "pve"; vmid = some 101 }
    ∷ []

abbrev cluster : Inventory
cluster = record { may_audit = true; resources = some listed }

abbrev guests : List Guest
guests =
    record { type = qemu; node = "pve"; vmid = 100 }
    ∷ record { type = lxc; node = "pve"; vmid = 101 }
    ∷ []

accepts : list_cluster_guests cluster ≡ answered guests
unfolding list_cluster_guests check_guests identity_of any strip lstrip rstrip is_space is_blank
accepts = refl

finds : find_vm_node 100 cluster none ≡ answered (some "pve")
unfolding find_vm_node list_cluster_guests check_guests identity_of any find_in strip lstrip rstrip
    is_space is_blank
finds = refl

abbrev task_turns : List TaskPoll
task_turns = runs ∷ runs ∷ exited "OK" ∷ []

task_ends : (wait_task task_turns "").0 ≡ answered tt
unfolding wait_task
task_ends = refl

-- The agent is not ready, then starts a process, then does not answer, then says that it ended.
abbrev guest_turns : List GuestPoll
guest_turns =
    record { cancel = false; start = not_ready; status = unread }
    ∷ record { cancel = false; start = pid 7; status = unread }
    ∷ record { cancel = false; start = pid 8; status = running }
    ∷ record { cancel = false; start = pid 9; status = exit 0 }
    ∷ []

one_start : wait_guest_ready false guest_turns ≡ (
  answered tt,
  record { accepted = 7 ∷ []; asked = (7, exit 0) ∷ (7, running) ∷ (7, unread) ∷ [] },
)
unfolding wait_guest_ready poll_guest guest_turn read_status
one_start = refl

wait_guest_ready-Ready_example : Ready (wait_guest_ready false guest_turns)
wait_guest_ready-Ready_example = wait_guest_ready-Ready false guest_turns
