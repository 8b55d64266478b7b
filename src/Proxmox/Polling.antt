-- ===== src/Proxmox/Polling.antt =====
-- What the polling loops of app/proxmox.py promise.
use goblin_dock.Base.{
  ℕ, String, ◌≡◌, refl, ap, ◌⊎◌, inl, inr, Bool, true, false, Option, none, some, List, [], ◌∷◌,
  arith, ◌==◌, if◌then◌else◌, Bool-cases, first, not, All, str_eq, eq_iff, ◌↔◌,
}
use goblin_dock.Proxmox.{
  Answer, answered, cancelled, failing, TaskPoll, cancel_asked, raises, runs, exited, wait_task,
  Started, not_ready, bad_pid, start_raises, pid, ExecStatus, unread, malformed, running,
  status_raises, exit, GuestPoll, Trail, ask, read_status, guest_turn, poll_guest, wait_guest_ready,
}

abbrev pub task_runs : TaskPoll → Bool
task_runs runs = true
task_runs cancel_asked = false
task_runs raises = false
task_runs (exited s) = false

-- The wait for a task returns exactly when the first turn at which the task does not run finds it stopped with
-- the exit status "OK": a task that failed, a call that raised, a cancellation and an expired wait
-- are never taken for success.
wait_task-succeeds :
    (polls : List TaskPoll) (failure : String)
    → (wait_task polls failure).0 ≡ answered tt
      ↔ first (λ p. not (task_runs p)) polls ≡ some (exited "OK")
unfolding wait_task first
wait_task-succeeds [] failure = ((λ h. cc), λ h. cc)
wait_task-succeeds (cancel_asked ∷ polls) failure = ((λ h. cc), λ h. cc)
wait_task-succeeds (raises ∷ polls) failure = ((λ h. cc), λ h. cc)
wait_task-succeeds (runs ∷ polls) failure = wait_task-succeeds polls failure
wait_task-succeeds (exited s ∷ polls) failure = (there, back)
  where
    end : Answer (Unit {0}) × ℕ
    end = if str_eq s "OK" then (answered tt, 0) else (failing "failed", 0)

    there : end.0 ≡ answered tt → some (exited s) ≡ some (exited "OK")
    there h = elim (Bool-cases (str_eq s "OK")) [
      | inl e ↦ ap (λ t. some (exited t)) ((eq_iff s "OK").0 e)
      | inr e ↦ ground arith
    ]

    back : some (exited s) ≡ some (exited "OK") → end.0 ≡ answered tt
    back h = let same : s ≡ "OK" = cc in rw ((eq_iff s "OK").1 same) refl

-- At most one process id was accepted, and only it was asked about.
abbrev pub OneProcess : Trail → Type 0
OneProcess t =
    ((t.accepted ≡ []) × (t.asked ≡ []))
    ⊎ ((p : ℕ) × (t.accepted ≡ p ∷ []) × All (λ q. q.0 ≡ p) t.asked)

-- Success is the last answer about the process that was accepted: it ended with the exit code 0.
abbrev pub Ready : Answer (Unit {0}) × Trail → Type 0
Ready (answered done, t) =
    (p : ℕ) × (earlier : List (ℕ × ExecStatus)) × (t.accepted ≡ p ∷ [])
    × (t.asked ≡ (p, exit 0) ∷ earlier)
    × All (λ q. q.0 ≡ p) earlier
Ready (cancelled, t) = OneProcess t
Ready (failing text, t) = OneProcess t

abbrev Known : Option ℕ → Trail → Type 0
Known none t = (t.accepted ≡ []) × (t.asked ≡ [])
Known (some p) t = (t.accepted ≡ p ∷ []) × All (λ q. q.0 ≡ p) t.asked

Known-OneProcess : (known : Option ℕ) (t : Trail) → Known known t → OneProcess t
Known-OneProcess none t k = inl k
Known-OneProcess (some p) t k = inr (p, k.0, k.1)

read_status-Ready :
    (p : ℕ) (s : ExecStatus) (next : Option ℕ → Trail → Answer (Unit {0}) × Trail) (t : Trail)
    → ((known : Option ℕ) (t : Trail) → Known known t → Ready (next known t))
    → Known (some p) t
    → Ready (read_status p s next t)
unfolding read_status
read_status-Ready p unread next t ready (e, a) = ready (some p) (ask p unread t) (e, (refl, a))
read_status-Ready p (status_raises text) next t ready (e, a) = inr (p, e, (refl, a))
read_status-Ready p malformed next t ready (e, a) = inr (p, e, (refl, a))
read_status-Ready p running next t ready (e, a) = ready (some p) (ask p running t) (e, (refl, a))
read_status-Ready p (exit code) next t ready (e, a) = elim (Bool-cases (code == 0)) [
  | inl zero_code ↦
      let zero_is : code ≡ 0 = ground arith in
      rw zero_code (p, t.asked, e, ap (λ c. (p, exit c) ∷ t.asked) zero_is, a)
  | inr other ↦ rw other (inr (p, e, (refl, a)))
]

guest_turn-Ready :
    (known : Option ℕ) (poll : GuestPoll) (next : Option ℕ → Trail → Answer (Unit {0}) × Trail)
    (t : Trail)
    → ((known : Option ℕ) (t : Trail) → Known known t → Ready (next known t))
    → Known known t
    → Ready (guest_turn known poll next t)
unfolding guest_turn
guest_turn-Ready (some p) poll next t ready k = read_status-Ready p poll.status next t ready k
guest_turn-Ready none poll next t ready (e, a) = at_start poll.start
  where
    at_start :
        (s : Started)
        → Ready (elim s as (λ _. Answer (Unit {0}) × Trail) [
          | not_ready ↦ next none t
          | bad_pid ↦ (failing "guest agent returned no valid readiness process ID", t)
          | start_raises text ↦ (failing text, t)
          | pid p ↦
              if p == 0
              then (failing "guest agent returned no valid readiness process ID", t)
              else read_status p poll.status next (record t { accepted = p ∷ t.accepted })
        ])
    at_start not_ready = ready none t (e, a)
    at_start bad_pid = inl (e, a)
    at_start (start_raises text) = inl (e, a)
    at_start (pid p) = elim (Bool-cases (p == 0)) [
      | inl h ↦ rw h (inl (e, a))
      | inr h ↦ rw h (
          read_status-Ready p poll.status next (record t { accepted = p ∷ t.accepted }) ready
            (ap (λ l. p ∷ l) e, (rw a tt)))
    ]

poll_guest-Ready :
    (polls : List GuestPoll) (known : Option ℕ) (t : Trail)
    → Known known t
    → Ready (poll_guest polls known t)
unfolding poll_guest
poll_guest-Ready [] known t k = Known-OneProcess known t k
poll_guest-Ready (poll ∷ polls) known t k =
    at_cancel poll.cancel
      (guest_turn-Ready known poll (poll_guest polls) t (poll_guest-Ready polls) k)
  where
    turn : Answer (Unit {0}) × Trail
    turn = guest_turn known poll (poll_guest polls) t

    at_cancel : (b : Bool) → Ready turn → Ready (if b then (cancelled, t) else turn)
    at_cancel true good = Known-OneProcess known t k
    at_cancel false good = good

-- Whatever the agent answers and however often its calls raise, the wait for a guest takes at most one
-- process id from the agent and asks about no other process;
-- and where it returns without an error, the last thing asked was that process, which had ended with the
-- exit code 0. (A call that raises may have started a process whose id is never learned.)
pub wait_guest_ready-Ready :
    (cancel : Bool) (polls : List GuestPoll) → Ready (wait_guest_ready cancel polls)
unfolding wait_guest_ready
wait_guest_ready-Ready true polls = inl (refl, refl)
wait_guest_ready-Ready false polls =
    poll_guest-Ready polls none (record { accepted = []; asked = [] }) (refl, refl)
