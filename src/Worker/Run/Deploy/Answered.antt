-- ===== src/Worker/Run/Deploy/Answered.antt =====
-- `_run_deploy`: what the row of the deployment says after a failed preparation and after each answer to
-- the request that creates the VM.
use goblin_dock.Base.{
  ℕ, String, ◌≡◌, refl, sym, ◌∙◌, ap, ◌⊎◌, inl, inr, Bool, true, false, Option, none, some, List,
  [], ◌∷◌, ◌++◌, arith, if◌then◌else◌, get, subst, ==_refl,
}
use goblin_dock.Models.{
  Db, Deployment, deployment_key, CreateState, submitting, accepted, rejected, Job, job_key,
  delete_snippet, put_snippet, send, connection_key,
}
use goblin_dock.Worker.Ownership.{vmid_eq}
use goblin_dock.Worker.Queue.{}
use goblin_dock.Worker.Run.{
  Ended, value, stopped, Run, await, Waited, finished, failed, interrupted, creation,
}
use goblin_dock.Worker.Run.Keeps.{Keeps}
use goblin_dock.Worker.Run.Ends.{Ends}
use goblin_dock.Worker.Run.Deploy.{
  Delivery, delivered, undelivered, invalid, Created, refused, lost, no_task, task, without_vmid,
  clear_selected_vmid, undo_choice, after_stop, deliver, create_vm_answer,
}
use goblin_dock.Worker.Run.Deploy.Boot.{OnIdentity, send_plain-Stage}
use goblin_dock.Worker.Run.Deploy.Stage.{creations, Stage, put_dep-Stage, creation-Stage}

-- What the row says of the VM id and of the creation, once the creation of `v` was sent and answered.
abbrev pub TracksId : Created → ℕ → Option ℕ → CreateState → Type 0
TracksId refused v vmid s = (vmid ≡ none) × (s ≡ rejected)
TracksId lost v vmid s = (vmid ≡ some v) × (s ≡ submitting)
TracksId no_task v vmid s = (vmid ≡ some v) × (s ≡ submitting)
TracksId (task upid) v vmid s = (vmid ≡ some v) × (s ≡ accepted)

-- No creation was sent; or one was, of the VM that the row tracks.
abbrev pub Tracked : Created → ℕ → Db → Db → Type 0
Tracked answered d db after =
    (creations after.sent ≡ creations db.sent)
    ⊎ ((v : ℕ) × (r : Deployment) × (creations after.sent ≡ creations db.sent ++ v ∷ [])
        × (get d after.deployments ≡ some r)
        × TracksId answered v r.vmid r.identity_state)

abbrev pub IsId : ℕ → Option ℕ → CreateState → Type 0
IsId v vmid s = vmid ≡ some v

abbrev pub IsSent : ℕ → Option ℕ → CreateState → Type 0
IsSent v vmid s = (vmid ≡ some v) × (s ≡ submitting)

abbrev pub AnyId : Option ℕ → CreateState → Type 0
AnyId vmid s = Unit

abbrev pub IsTask : Created → Type 0
IsTask a = (upid : String) × (a ≡ task upid)

-- An exception leaves what the code kept until then.
pub Ends-by-Keeps {ℓ} :
    {A : Type ℓ} (P S : Db → Type 0) (m : Run A) (x : Db)
    → ((y : Db) → P y → S y)
    → Keeps P m
    → P x
    → Ends (λ (a : A). P) S (m x)
Ends-by-Keeps {A = A} P S m x weaken keeps p = either (m x).0 (m x).1 (keeps x p)
  where
    either : (e : Ended A) (y : Db) → P y → Ends (λ (a : A). P) S (e, y)
    either (value a) y q = q
    either (stopped o) y q = weaken y q

module _ (jid d : ℕ) (db : Db) where
  pub unsent-Tracked :
      (a : Created) (T : Option ℕ → CreateState → Type 0) (y : Db)
      → Stage jid d (OnIdentity T) (creations db.sent) y
      → Tracked a d db y
  unsent-Tracked a T y s = inl s.sent

  pub sent-Tracked :
      (a : Created) (v : ℕ) (y : Db)
      → Stage jid d (OnIdentity (TracksId a v)) (creations db.sent ++ v ∷ []) y
      → Tracked a d db y
  sent-Tracked a v y s = go s.dep
    where
      go :
          (r : Deployment) × (get d y.deployments ≡ some r) × TracksId a v r.vmid r.identity_state
          → Tracked a d db y
      go (r, e, q) = inr (v, r, s.sent, e, q)

  -- The handler removes the choice and leaves the state of the creation.
  undo_choice-Stage :
      (ws : List ℕ) (c : CreateState → Type 0) (v : ℕ) (b : Bool) (x : Db)
      → Stage jid d (OnIdentity (λ i s. (i ≡ some v) × c s)) ws x
      → Stage jid d (OnIdentity (λ i s. (i ≡ none) × c s)) ws (undo_choice d v b x)
  unfolding undo_choice clear_selected_vmid
  undo_choice-Stage ws c v b x h = at_snippet b
    where
      keeps_id : (r : Deployment) → (without_vmid v r).id ≡ r.id
      keeps_id r = ground arith

      cleared :
          (r : Deployment)
          → (r.vmid ≡ some v) × c r.identity_state
          → ((without_vmid v r).vmid ≡ none) × c (without_vmid v r).identity_state
      cleared r (e, q) =
          subst
            (λ b.
              ((if b then record r { vmid = none } else r).vmid ≡ none)
              × c (if b then record r { vmid = none } else r).identity_state)
            (sym (ap (λ i. vmid_eq i (some v)) e ∙ ==_refl v)) (refl, q)

      drops :
          (y : Db)
          → Stage jid d (OnIdentity (λ i s. (i ≡ some v) × c s)) ws y
          → Stage jid d (OnIdentity (λ i s. (i ≡ none) × c s)) ws (clear_selected_vmid d v y)
      drops y k =
          put_dep-Stage jid d ws (OnIdentity (λ i s. (i ≡ some v) × c s))
            (OnIdentity (λ i s. (i ≡ none) × c s)) (without_vmid v) y keeps_id cleared k

      at_snippet :
          (b : Bool) → Stage jid d (OnIdentity (λ i s. (i ≡ none) × c s)) ws (undo_choice d v b x)
      at_snippet true = drops (send (delete_snippet v) x) (
          send_plain-Stage jid d ws (OnIdentity (λ i s. (i ≡ some v) × c s)) (delete_snippet v) x
            refl h)
      at_snippet false = drops x h

  undone-Tracked :
      (a : Created) (v : ℕ) (b : Bool) (x : Db)
      → Stage jid d (OnIdentity (IsId v)) (creations db.sent) x
      → Tracked a d db (undo_choice d v b x)
  undone-Tracked a v b x h =
      unsent-Tracked a (λ i s. (i ≡ none) × Unit {0}) (undo_choice d v b x)
        (undo_choice-Stage (creations db.sent) (λ s. Unit {0}) v b x
          (record { job = h.job; dep = (h.dep.0, h.dep.1, (h.dep.2, tt)); sent = h.sent }))

  pub deliver-Tracked :
      (a : Created) (v : ℕ) (by_snippet : Bool) (answered : Delivery) (f : String) (x : Db)
      → Stage jid d (OnIdentity (IsId v)) (creations db.sent) x
      → Ends
          (λ _. Stage jid d (OnIdentity (IsId v)) (creations db.sent))
          (Tracked a d db)
          (after_stop
            (undo_choice d v false)
            (deliver (put_snippet v) (delete_snippet v) by_snippet answered f x))
  unfolding deliver
  deliver-Tracked a v false answered f x h = h
  deliver-Tracked a v true delivered f x h =
      send_plain-Stage jid d _ (OnIdentity (IsId v)) (put_snippet v) x refl h
  deliver-Tracked a v true undelivered f x h =
      undone-Tracked a v false (send (put_snippet v) x)
        (send_plain-Stage jid d _ (OnIdentity (IsId v)) (put_snippet v) x refl h)
  deliver-Tracked a v true invalid f x h =
      undone-Tracked a v false (send (delete_snippet v) (send (put_snippet v) x)) (
        send_plain-Stage jid d _ (OnIdentity (IsId v)) (delete_snippet v) (send (put_snippet v) x)
          refl (send_plain-Stage jid d _ (OnIdentity (IsId v)) (put_snippet v) x refl h))

  pub image-Tracked :
      (a : Created) (v : ℕ) (b : Bool) (w : Waited) (f : String) (x : Db)
      → Stage jid d (OnIdentity (IsId v)) (creations db.sent) x
      → Ends
          (λ _. Stage jid d (OnIdentity (IsId v)) (creations db.sent))
          (Tracked a d db)
          (after_stop (undo_choice d v b) (await w f x))
  image-Tracked a v b finished f x h = h
  image-Tracked a v b failed f x h = undone-Tracked a v b x h
  image-Tracked a v b interrupted f x h = undone-Tracked a v b x h

  -- What the answer to the creation leaves, when the creation of `v` was the last request.
  pub answer-Tracked :
      (a : Created) (job : Job) (v : ℕ) (b : Bool) (f : String) (y : Db)
      → job.id ≡ jid
      → Stage jid d (OnIdentity (IsSent v)) (creations db.sent ++ v ∷ []) y
      → Ends
          (λ _ z. Stage jid d (OnIdentity (IsSent v)) (creations db.sent ++ v ∷ []) z × IsTask a)
          (Tracked a d db)
          (create_vm_answer job d v b a f y)
  unfolding create_vm_answer
  answer-Tracked refused job v b f y e h = sent-Tracked refused v _ (
      undo_choice-Stage _ (λ s. s ≡ rejected) v b (creation job.id rejected y)
        (subst
          (λ k.
            Stage jid d (OnIdentity (λ i s. (i ≡ some v) × (s ≡ rejected)))
              (creations db.sent ++ v ∷ []) (creation k rejected y))
          (sym e)
          (creation-Stage jid d _ (OnIdentity (IsSent v))
            (OnIdentity (λ i s. (i ≡ some v) × (s ≡ rejected))) rejected y (λ r q. (q.0, refl)) h)))
  answer-Tracked lost job v b f y e h = sent-Tracked lost v y h
  answer-Tracked no_task job v b f y e h = sent-Tracked no_task v y h
  answer-Tracked (task upid) job v b f y e h = (h, (upid, refl))
