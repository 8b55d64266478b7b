-- ===== src/Worker/Run/Destroy/Owner.antt =====
-- `_run_destroy`: when it ends without an exception, the deployment and its addresses are released, and
-- its VM is proven absent; when an exception ends it, nothing is released.
use goblin_dock.Base.{
  subst, sym, ℕ, String, ◌≡◌, refl, ◌⊎◌, inl, inr, Bool, true, false, Option, some, List, [], ◌∷◌,
  arith, ◌==◌, ==_refl, get_opt, exists, get-remove, count_if, select, delete,
}
use goblin_dock.Models.{
  Db, connection_key, Deployment, deployment_key, Job, Command, send, allocation_of,
}
use goblin_dock.Worker.Remote.{ProvenAbsent}
use goblin_dock.Worker.Ownership.{drop_deployment, release}
use goblin_dock.Worker.Queue.{}
use goblin_dock.Worker.Reconcile.Same.{Same, Same-refl, Same-trans, release-Same}
use goblin_dock.Worker.Run.{Ended, value, stopped, progress, remote}
use goblin_dock.Worker.Run.Keeps.{}
use goblin_dock.Worker.Run.Ends.{Ends}
use goblin_dock.Worker.Run.Destroy.Torn.{Torn, run_destroy-Torn}
use goblin_dock.Worker.Run.Destroy.Stopping.{}
use goblin_dock.Worker.Run.Destroy.{Teardown, run_destroy}

module _ (d : ℕ) (db : Db) where
  pub progress-Same : (j p : ℕ) (s : String) (x : Db) → Same d db x → Same d db (progress j p s x)
  unfolding progress
  progress-Same j p s x h = record {
    row = h.row;
    addresses = h.addresses;
    connections = h.connections;
  }

  pub remote-Same : (j : ℕ) (u n : String) (x : Db) → Same d db x → Same d db (remote j u n x)
  unfolding remote
  remote-Same j u n x h = record {
    row = h.row;
    addresses = h.addresses;
    connections = h.connections;
  }

  pub send-Same : (c : Command) (x : Db) → Same d db x → Same d db (send c x)
  send-Same c x h = record { row = h.row; addresses = h.addresses; connections = h.connections }

count_if-delete : {A : Type 0} (p : A → Bool) (rows : List A) → count_if p (delete p rows) ≡ 0
unfolding count_if select
count_if-delete p [] = refl
count_if-delete p (x ∷ xs) = ground (arith, count_if-delete p xs)

-- The deployment's row and addresses are gone.
abbrev pub Released : ℕ → Db → Type 0
Released d after =
    (exists d after.deployments ≡ false) × (count_if (allocation_of d) after.allocations ≡ 0)

drop_deployment-Released : (d : ℕ) (db : Db) → Released d (drop_deployment d db)
unfolding drop_deployment release
drop_deployment-Released d db = (
  ground (arith, get-remove d d db.deployments, ==_refl d),
  count_if-delete (allocation_of d) db.allocations,
)

-- How a destruction ends: with everything of the deployment released after its VM was proven absent,
-- and nothing of any other deployment.
abbrev pub Destroyed : ℕ → Job → Teardown → Db → Unit {0} → Db → Type 0
Destroyed d job t db done after =
    (dep : Deployment) × (get_opt job.deployment_id db.deployments ≡ some dep)
    × ProvenAbsent true dep.vmid t.left
    × Released dep.id after
    × ((dep.id ≡ d) ⊎ Same d db after)

Torn-Destroyed :
    (d : ℕ) (job : Job) (t : Teardown) (db : Db) (e : Ended (Unit {0})) (after : Db)
    → Ends (Torn (Same d db) job t db) (Same d db) (e, after)
    → Ends (Destroyed d job t db) (Same d db) (e, after)
Torn-Destroyed d job t db (stopped o) after h = h
Torn-Destroyed d job t db (value done) after (dep, x, e, absence, same, after_is) = (
  dep,
  e,
  absence,
  subst (Released dep.id) (sym after_is) (unfold progress in drop_deployment-Released dep.id x),
  others (d == dep.id) refl,
)
  where
    others : (b : Bool) → (d == dep.id) ≡ b → (dep.id ≡ d) ⊎ Same d db after
    others true h = inl (ground arith)
    others false h = inr (
        subst (Same d db) (sym after_is) (
          progress-Same d db job.id 100 "Complete" (drop_deployment dep.id x)
            (unfold drop_deployment in Same-trans d db x _ same (release-Same d dep.id x h))))

-- When a destroy job's code ends without an exception, the deployment that the job is about had a VM id
-- that was never assigned, or whose VM is absent (the final inventory was complete and does not list it,
-- and Proxmox confirms that the id is free); its row and every address of it are gone; and any other
-- deployment has its row and addresses as before. When an exception ends it, every deployment has them as
-- before. So it is for every answer of Proxmox and wherever a cancellation comes.
pub run_destroy-owner :
    (d : ℕ) (cancel client : Bool) (picked : Option String) (t : Teardown) (job : Job) (db : Db)
    → Ends (Destroyed d job t db) (Same d db) (run_destroy cancel client picked t job db)
run_destroy-owner d cancel client picked t job db =
    Torn-Destroyed d job t db (run_destroy cancel client picked t job db).0
      (run_destroy cancel client picked t job db).1
      (run_destroy-Torn (Same d db) (progress-Same d db) (remote-Same d db) (send-Same d db) cancel
        client picked t job db (Same-refl d db))
