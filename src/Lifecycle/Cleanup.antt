-- ===== src/Lifecycle/Cleanup.antt =====
-- When a local record may go without its VM being destroyed, and what the recovery handler changes.
use goblin_dock.Base.{
  ℕ, String, ◌≡◌, refl, ◌⊎◌, inl, inr, subst, sym, ap, Bool, true, false, Option, none, some, List,
  [], ◌∷◌, arith, Bool-cases, count_if, select, delete, get, put, remove, get_opt, get-remove,
  get-put_other, ◌∙◌, ◌==◌, exists, exists-put, ok, >>=-eq-ok, str_eq, ==_refl,
}
use goblin_dock.Models.{
  User, is_admin, Db, Connection, connection_key, Deployment, deployment_key, Job, job_key,
  allocation_of,
}
use goblin_dock.Worker.Remote.{Answers, absent, probe_vm_presence, ProvenAbsent, probe-absent}
use goblin_dock.Lifecycle.{
  owned_deployment, active_lifecycle_job, presence_of, is_absent, is_present, vm_cleanup_local,
  Recovery, recovered, reconcile, recover_at, recover_found, recover_on, node_of, newest_job,
  is_unsettled, check_task, located_at, reject_disabled_connection,
}
use goblin_dock.Lifecycle.Admission.{owned_deployment-id}

deleted_none {ℓ} : {A : Type ℓ} (p : A → Bool) (rows : List A) → count_if p (delete p rows) ≡ 0
unfolding count_if select
deleted_none p [] = refl
deleted_none p (x ∷ rows) = ground (arith, deleted_none p rows)

removed : (k : ℕ) (rows : List Deployment) → exists k (remove k rows) ≡ false
removed k rows = let self = ==_refl k in ground (arith, get-remove k k rows)

-- There is an enabled connection, and where the deployment has a VM id, Proxmox shows that VM gone.
abbrev pub ShownAbsent : Deployment → Answers → Db → Type 0
ShownAbsent dep ans db =
    (conn : Connection) × (get_opt dep.connection_id db.connections ≡ some conn)
    × (conn.disabled ≡ false)
    × ProvenAbsent ans.client dep.vmid ans

-- An administrator took the risk of an orphan, and the VM was not seen.
abbrev pub Overridden : Bool → User → Deployment → Answers → Db → Type 0
Overridden acknowledge user dep ans db =
    (is_admin user.role ≡ true)
    × (acknowledge ≡ true)
    × (is_present (presence_of (get_opt dep.connection_id db.connections) dep.vmid ans).0 ≡ false)

shown_absent :
    (dep : Deployment) (ans : Answers) (db : Db) (o : Option Connection)
    → get_opt dep.connection_id db.connections ≡ o
    → is_absent (presence_of o dep.vmid ans).0 ≡ true
    → ShownAbsent dep ans db
unfolding presence_of
shown_absent dep ans db none e h = cc
shown_absent dep ans db (some conn) e h = elim (Bool-cases conn.disabled) [
  | inl off ↦ cc (rw off at h)
  | inr on ↦
      let a : probe_vm_presence ans.client dep.vmid ans ≡ absent = ground arith in
      (conn, e, on, probe-absent ans.client dep.vmid ans a)
]

-- A local cleanup that is accepted removes the record and its addresses and sends nothing. No
-- lifecycle job of the deployment was active; and either its connection is there and enabled and the
-- VM counts as absent (no VM id was ever assigned, in which case Proxmox is not asked, or the complete
-- inventory lacks the VM and Proxmox confirms that the id is free), or an administrator acknowledged
-- the risk and the VM was not seen.
pub vm_cleanup_local-safe :
    (dep_id : ℕ) (acknowledge : Bool) (user : User) (ans : Answers) (db : Db) (verified : Bool)
    (db' : Db)
    → vm_cleanup_local dep_id acknowledge user ans db ≡ ok (verified, db')
    → (dep : Deployment) × (get dep_id db.deployments ≡ some dep)
      × (active_lifecycle_job dep_id db ≡ none)
      × (ShownAbsent dep ans db ⊎ Overridden acknowledge user dep ans db)
      × (exists dep_id db'.deployments ≡ false)
      × (count_if (allocation_of dep_id) db'.allocations ≡ 0)
      × (db'.sent ≡ db.sent)
unfolding vm_cleanup_local
vm_cleanup_local-safe dep_id acknowledge user ans db verified db' h =
    let (dep, owned, h₁) = >>=-eq-ok (owned_deployment dep_id user db) _ h in
    let (row, id) = owned_deployment-id dep_id user db dep owned in
    let idle : active_lifecycle_job dep.id db ≡ none = ground arith in
    let found = presence_of (get_opt dep.connection_id db.connections) dep.vmid ans in
    let unseen : is_present found.0 ≡ false = ground arith in
    let rows : remove dep.id db.deployments ≡ db'.deployments = ground arith in
    let addresses : delete (allocation_of dep.id) db.allocations ≡ db'.allocations = ground arith in
    (
      dep,
      row,
      subst (λ k. active_lifecycle_job k db ≡ none) id idle,
      elim (Bool-cases (is_absent found.0)) [
        | inl gone ↦
            inl (shown_absent dep ans db (get_opt dep.connection_id db.connections) refl gone)
        | inr open' ↦ inr (ground arith, ground arith, unseen)
      ],
      subst (λ ds. exists dep_id ds ≡ false) rows
          (subst (λ k. exists dep_id (remove k db.deployments) ≡ false) (sym id)
            (removed dep_id db.deployments)),
      subst (λ k. count_if (allocation_of k) db'.allocations ≡ 0) id
          (subst (λ rs. count_if (allocation_of dep.id) rs ≡ 0) addresses
            (deleted_none (allocation_of dep.id) db.allocations)),
      ground arith,
    )

-- The remote task of a job, where it has one, is known to have stopped.
abbrev pub TaskEnded : Option Job → Option Bool → Type 0
TaskEnded none task = Unit
TaskEnded (some job) task = (str_eq job.remote_task "" ≡ true) ⊎ (task ≡ some true)

check_task-TaskEnded :
    (job : Option Job) (task : Option Bool) → check_task job task ≡ ok tt → TaskEnded job task
unfolding check_task
check_task-TaskEnded none task h = tt
check_task-TaskEnded (some job) none h = elim (Bool-cases (str_eq job.remote_task "")) [
  | inl blank ↦ inl blank
  | inr named ↦ cc (rw named at h)
]
check_task-TaskEnded (some job) (some stopped) h = elim (Bool-cases (str_eq job.remote_task "")) [
  | inl blank ↦ inl blank
  | inr named ↦ inr (ground arith)
]

-- What the recovery handler may change: with the operator's confirmation, the deployment's own row
-- and its newest job, and a submission that is unsettled only once its remote task, if it has one,
-- has stopped.
abbrev pub Confirmed : Bool → Option Bool → Option Job → Deployment → Recovery → Type 0
Confirmed confirm task job dep answer =
    (answer ≡ recovered) × (confirm ≡ true) × ((is_unsettled job dep ≡ false) ⊎ TaskEnded job task)

abbrev pub Recovers : Bool → Option Bool → Deployment → Db → Recovery → Db → Type 0
Recovers confirm task dep db answer db' =
    ((db' ≡ db) ⊎ Confirmed confirm task (newest_job dep.id db) dep answer)
    × (db'.allocations ≡ db.allocations)
    × (db'.sent ≡ db.sent)
    × ((k : ℕ) → exists k db'.deployments ≡ exists k db.deployments)
    × ((k : ℕ) → (k == dep.id) ≡ false → get k db'.deployments ≡ get k db.deployments)

unmoved :
    (confirm : Bool) (task : Option Bool) (dep : Deployment) (db : Db) (answer : Recovery)
    (db' : Db)
    → db' ≡ db
    → Recovers confirm task dep db answer db'
unmoved confirm task dep db answer db' e = (
  inl e,
  ap (λ d. d.allocations) e,
  ap (λ d. d.sent) e,
  (λ k. ap (λ d. exists k d.deployments) e),
  (λ k other. ap (λ d. get k d.deployments) e),
)

row_kept :
    (b : Bool) (node : String) (k j : ℕ) (rows : List Deployment)
    → exists j (put k (located_at b node) rows) ≡ exists j rows
row_kept b node k j rows = exists-put k j (located_at b node) rows (λ d. unfold located_at in refl)

other_kept :
    (b : Bool) (node : String) (k j : ℕ) (rows : List Deployment)
    → (j == k) ≡ false
    → get j (put k (located_at b node) rows) ≡ get j rows
other_kept b node k j rows other =
    get-put_other k j (located_at b node) rows (λ d. unfold located_at in refl) other

recover_at-Recovers :
    (confirm : Bool) (node : String) (task : Option Bool) (dep : Deployment) (user : User) (db : Db)
    (answer : Recovery) (db' : Db)
    → recover_at confirm node task (newest_job dep.id db) dep user db ≡ ok (answer, db')
    → Recovers confirm task dep db answer db'
unfolding recover_at
recover_at-Recovers confirm node task dep user db answer db' h =
    let job = newest_job dep.id db in
    elim (Bool-cases confirm) [
      | inr no' ↦ unmoved confirm task dep db answer db' (ground arith)
      | inl yes' ↦
          let put_row : put dep.id (located_at (is_unsettled job dep) node) db.deployments
              ≡ db'.deployments =
            ground arith in
          let kept : (k : ℕ) → exists k db'.deployments ≡ exists k db.deployments = λ k.
            sym (ap (exists k) put_row)
            ∙ row_kept (is_unsettled job dep) node dep.id k db.deployments in
          let others : (k : ℕ)
              → (k == dep.id) ≡ false
              → get k db'.deployments ≡ get k db.deployments =
            λ k o.
              sym (ap (get k) put_row)
              ∙ other_kept (is_unsettled job dep) node dep.id k db.deployments o in
          elim (Bool-cases (is_unsettled job dep)) [
            | inr settled ↦
                (inr (ground arith, yes', inl settled), ground arith, ground arith, kept, others)
            | inl open' ↦
                let ended = check_task-TaskEnded job task (ground arith) in
                (inr (ground arith, yes', inr ended), ground arith, ground arith, kept, others)
          ]
    ]

recover_found-Recovers :
    (found : Option (Option String)) (confirm : Bool) (ans : Answers) (task : Option Bool)
    (dep : Deployment) (user : User) (db : Db) (answer : Recovery) (db' : Db)
    → recover_found found confirm ans task dep user db ≡ ok (answer, db')
    → Recovers confirm task dep db answer db'
unfolding recover_found
recover_found-Recovers none confirm ans task dep user db answer db' h = cc
recover_found-Recovers (some none) confirm ans task dep user db answer db' h =
    unmoved confirm task dep db answer db' (ground arith)
recover_found-Recovers (some (some node)) confirm ans task dep user db answer db' h =
    recover_at-Recovers confirm node task dep user db answer db' (ground arith)

-- The recovery handler, when it answers, sends nothing, releases no address, removes no deployment's
-- row and changes no row of another deployment. Without
-- the operator's confirmation it changes nothing at all; with it, an unsettled submission counts
-- as accepted only once the newest job's remote task, if there is one, has stopped. It answers
-- only while no lifecycle job of the deployment is active and its connection is enabled.
pub reconcile-safe :
    (dep_id : ℕ) (confirm : Bool) (user : User) (ans : Answers) (task : Option Bool) (db : Db)
    (answer : Recovery) (db' : Db)
    → reconcile dep_id confirm user ans task db ≡ ok (answer, db')
    → (dep : Deployment) × (get dep_id db.deployments ≡ some dep)
      × (active_lifecycle_job dep_id db ≡ none)
      × ((conn : Connection) × (get_opt dep.connection_id db.connections ≡ some conn)
          × (conn.disabled ≡ false))
      × Recovers confirm task dep db answer db'
unfolding reconcile recover_on
reconcile-safe dep_id confirm user ans task db answer db' h =
    let (dep, owned, h₁) = >>=-eq-ok (owned_deployment dep_id user db) _ h in
    let (row, id) = owned_deployment-id dep_id user db dep owned in
    let idle : active_lifecycle_job dep.id db ≡ none = ground arith in
    let next : recover_on (get_opt dep.connection_id db.connections) confirm ans task dep user db
        ≡ ok (answer, db') =
      ground arith in
    let (enabled, result) =
      on_connection dep (get_opt dep.connection_id db.connections) refl next in
    (dep, row, subst (λ k. active_lifecycle_job k db ≡ none) id idle, enabled, result)
  where
    on_connection :
        (dep : Deployment) (o : Option Connection)
        → get_opt dep.connection_id db.connections ≡ o
        → recover_on o confirm ans task dep user db ≡ ok (answer, db')
        → ((conn : Connection) × (get_opt dep.connection_id db.connections ≡ some conn)
            × (conn.disabled ≡ false))
          × Recovers confirm task dep db answer db'
    on_connection dep none e k = cc
    on_connection dep (some conn) e k =
        let found = node_of dep.vmid ans.vm_node in
        let on : conn.disabled ≡ false = unfold reject_disabled_connection in ground arith in
        let seen : recover_found found confirm ans task dep user db ≡ ok (answer, db') =
          unfold reject_disabled_connection in ground arith in
        ((conn, e, on), recover_found-Recovers found confirm ans task dep user db answer db' seen)
