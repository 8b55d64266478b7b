-- ===== src/Worker/Run/Destroy/Stopping.antt =====
-- `_stop_vm_for_lifecycle` keeps what its one request keeps.
use goblin_dock.Base.{
  ℕ, String, Bool, true, Option, none, some, if◌then◌else◌, Bool-cases, inl, inr,
}
use goblin_dock.Models.{Db, stop_vm}
use goblin_dock.Worker.Remote.{Presence, absent, present, unknown, probe_vm_presence, is_off, Power}
use goblin_dock.Worker.Run.{Run, give, request}
use goblin_dock.Worker.Run.Keeps.{Keeps, Keeps->>=}
use goblin_dock.Worker.Run.Destroy.{Teardown, stop_running, stop_unread, stop_vm_for_lifecycle}

module _ {κ} (P : Db → Type κ) (j v : ℕ) (n : String) (t : Teardown)
    (asked : Keeps P (request j (stop_vm v) t.stop_task t.stop_wait n t.failure)) where
  stop_running-Keeps : Keeps P (stop_running j v n t)
  unfolding stop_running
  stop_running-Keeps =
      Keeps->>= P (request j (stop_vm v) t.stop_task t.stop_wait n t.failure) (λ _. give true) asked
        (λ _ x h. h)

  stop_unread-Keeps : (p : Presence) → Keeps P (stop_unread j v n t p)
  unfolding stop_unread
  stop_unread-Keeps absent x h = h
  stop_unread-Keeps unknown x h = h
  stop_unread-Keeps present x h = stop_running-Keeps x h

  pub stop_vm_for_lifecycle-Keeps : Keeps P (stop_vm_for_lifecycle j v n t)
  unfolding stop_vm_for_lifecycle
  stop_vm_for_lifecycle-Keeps x h = at_power t.current
    where
      at_power :
          (o : Option Power)
          → P
              ((elim o as (λ _. Run Bool) [
                | none ↦ stop_unread j v n t (probe_vm_presence true (some v) t.seen)
                | some power ↦ if is_off power then give true else stop_running j v n t
              ])
                x).1
      at_power none = stop_unread-Keeps (probe_vm_presence true (some v) t.seen) x h
      at_power (some power) = elim (Bool-cases (is_off power)) [
        | inl e ↦ rw e h
        | inr e ↦ rw e (stop_running-Keeps x h)
      ]
