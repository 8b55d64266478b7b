-- ===== src/Proxmox.antt =====
-- app/proxmox.py: the checks of the cluster's inventory, the search for a VM in it, and the two loops
-- that poll. What the API answers at a turn of a loop is an argument; the turns end at the deadline.
pub mod Polling
pub mod Guests
mod Tests
use goblin_dock.Base.{
  ℕ, zero, suc, ◌+◌, String, ◌≡◌, Bool, true, false, not, ◌&&◌, ◌||◌, Option, none, some, List, [],
  ◌∷◌, ◌==◌, leb, if◌then◌else◌, any, first, str_eq, strip, map,
}

-- How a call ends: with its answer, with `JobCancelled`, or with an error and its text.
pub data Answer {ℓ} (A : Type ℓ) : Type ℓ where
  answered : A → Answer A
  cancelled : Answer A
  failing : String → Answer A

-- One guest of `/cluster/resources`: its type, node and id, as far as each can be read.
pub data GuestType : Type 0 where
  qemu lxc : GuestType

pub record RawGuest : Type 0 where
  pub type : Option GuestType
  pub node : Option String
  pub vmid : Option ℕ

pub record Guest : Type 0 where
  pub type : GuestType
  pub node : String
  pub vmid : ℕ

-- A node's name that is not blank.
abbrev pub read_node : Option String → Option String
read_node none = none
read_node (some n) = if str_eq (strip n) "" then none else some n

-- The identity of a guest, where all of it can be read.
unfoldable pub identity_of : RawGuest → Option Guest
identity_of raw = elim raw.type [
  | none ↦ none
  | some t ↦ elim (read_node raw.node) [
    | none ↦ none
    | some n ↦ elim raw.vmid [
      | none ↦ none
      | some v ↦ some (record { type = t; node = n; vmid = v })
    ]
  ]
]

abbrev pub cons_guest : Guest → Answer (List Guest) → Answer (List Guest)
cons_guest g (answered gs) = answered (g ∷ gs)
cons_guest g cancelled = cancelled
cons_guest g (failing text) = failing text

-- The loop over the guests, with the ids seen before.
unfoldable pub check_guests : List ℕ → List RawGuest → Answer (List Guest)
unfolding identity_of
check_guests seen [] = answered []
check_guests seen (raw ∷ rest) = elim (identity_of raw) [
  | none ↦ failing "cluster guest inventory has incomplete identity"
  | some g ↦
      let others = check_guests (g.vmid ∷ seen) rest in
      if (g.vmid == 0) || any (λ v. v == g.vmid) seen
      then failing "cluster guest inventory has ambiguous identity"
      else cons_guest g others
]

-- What `/access/permissions` and `/cluster/resources` answer; `none` is an answer of another shape, or an
-- exception, whose text is left out.
pub record Inventory : Type 0 where
  pub may_audit : Bool
  pub resources : Option (List RawGuest)

-- `list_cluster_guests`
unfoldable pub list_cluster_guests : Inventory → Answer (List Guest)
unfolding check_guests
list_cluster_guests i =
    if not i.may_audit
    then failing "complete cluster inventory requires propagated VM.Audit on /vms"
    else elim i.resources [
      | none ↦ failing "cluster guest inventory is unavailable or incomplete"
      | some raws ↦ check_guests [] raws
    ]

-- `_assert_vmid_free`: the registry's answer to the question about an id; `none` is an exception.
unfoldable pub assert_vmid_free : ℕ → Option ℕ → Answer (Unit {0})
assert_vmid_free v none = failing "cannot confirm VM is absent"
assert_vmid_free v (some free) =
    if free == v then answered tt else failing "cannot confirm VM is absent"

abbrev pub is_qemu : GuestType → Bool
is_qemu qemu = true
is_qemu lxc = false

unfoldable pub find_in : ℕ → Option ℕ → List Guest → Answer (Option String)
unfolding assert_vmid_free
find_in v registry [] = elim (assert_vmid_free v registry) [
  | answered free ↦ answered none
  | cancelled ↦ cancelled
  | failing text ↦ failing text
]
find_in v registry (g ∷ rest) =
    let others = find_in v registry rest in
    if g.vmid == v
    then (if is_qemu g.type then answered (some g.node) else failing "VM ID belongs to a container")
    else others

-- `find_vm_node`: `none` means that no guest of the cluster has the id.
unfoldable pub find_vm_node : ℕ → Inventory → Option ℕ → Answer (Option String)
unfolding list_cluster_guests find_in
find_vm_node v i registry = elim (list_cluster_guests i) [
  | answered guests ↦ find_in v registry guests
  | cancelled ↦ cancelled
  | failing text ↦ failing text
]

-- What one turn of `wait_task` sees: a request to cancel, a call that raises, a task that runs, or one that
-- stopped with an exit status.
pub data TaskPoll : Type 0 where
  cancel_asked raises runs : TaskPoll
  exited : String → TaskPoll

-- The answer, and how often the task was told to stop.
unfoldable pub wait_task : List TaskPoll → String → Answer (Unit {0}) × ℕ
wait_task [] failure = (failing "timed out", 1)
wait_task (cancel_asked ∷ polls) failure = (cancelled, 1)
wait_task (raises ∷ polls) failure = (failing failure, 0)
wait_task (runs ∷ polls) failure = wait_task polls failure
wait_task (exited status ∷ polls) failure =
    if str_eq status "OK" then (answered tt, 0) else (failing "failed", 0)

-- What one turn of `wait_guest_ready` sees: whether a cancellation was asked for, what the start of the
-- check answers if it is made (a `ResourceException`, an answer without a process id, another exception
-- with its text, or an id), and what the state of the process answers (`unread` is a `ResourceException`).
pub data Started : Type 0 where
  not_ready bad_pid : Started
  start_raises : String → Started
  pid : ℕ → Started

pub data ExecStatus : Type 0 where
  unread malformed running : ExecStatus
  status_raises : String → ExecStatus
  exit : ℕ → ExecStatus

pub record GuestPoll : Type 0 where
  pub cancel : Bool
  pub start : Started
  pub status : ExecStatus

-- The process ids that the agent's replies gave, and the ids that were asked about with the answers,
-- the latest first. A call that raises may have started a process too, which gives no id.
pub record Trail : Type 0 where
  pub accepted : List ℕ
  pub asked : List (ℕ × ExecStatus)

abbrev pub ask : ℕ → ExecStatus → Trail → Trail
ask p s t = record t { asked = (p, s) ∷ t.asked }

-- The end of a turn, once a process id is known.
unfoldable pub read_status :
    ℕ
    → ExecStatus
    → (Option ℕ → Trail → Answer (Unit {0}) × Trail)
    → Trail
    → Answer (Unit {0}) × Trail
read_status p unread next t = next (some p) (ask p unread t)
read_status p (status_raises text) next t = (failing text, ask p (status_raises text) t)
read_status p malformed next t =
    (failing "guest readiness returned malformed process status", ask p malformed t)
read_status p running next t = next (some p) (ask p running t)
read_status p (exit code) next t =
    if code == 0
    then (answered tt, ask p (exit code) t)
    else (failing "guest initialization failed", ask p (exit code) t)

-- One turn: the check is started only while no process id is known.
unfoldable pub guest_turn :
    Option ℕ
    → GuestPoll
    → (Option ℕ → Trail → Answer (Unit {0}) × Trail)
    → Trail
    → Answer (Unit {0}) × Trail
unfolding read_status
guest_turn (some p) poll next t = read_status p poll.status next t
guest_turn none poll next t = elim poll.start [
  | not_ready ↦ next none t
  | bad_pid ↦ (failing "guest agent returned no valid readiness process ID", t)
  | start_raises text ↦ (failing text, t)
  | pid p ↦
      if p == 0
      then (failing "guest agent returned no valid readiness process ID", t)
      else read_status p poll.status next (record t { accepted = p ∷ t.accepted })
]

unfoldable pub poll_guest : List GuestPoll → Option ℕ → Trail → Answer (Unit {0}) × Trail
unfolding guest_turn
poll_guest [] known t = (failing "guest initialization timed out", t)
poll_guest (poll ∷ polls) known t =
    let turn = guest_turn known poll (poll_guest polls) t in
    if poll.cancel then (cancelled, t) else turn

-- `wait_guest_ready`
unfoldable pub wait_guest_ready : Bool → List GuestPoll → Answer (Unit {0}) × Trail
unfolding poll_guest
wait_guest_ready cancel polls =
    if cancel
    then (cancelled, record { accepted = []; asked = [] })
    else poll_guest polls none (record { accepted = []; asked = [] })
