-- ===== src/Accounts/Admins.antt =====
-- There is always an administrator who can log in.
use goblin_dock.Base.{
  ℕ, ◌+◌, ◌≤◌, ◌<◌, String, ◌≡◌, refl, ◌⊎◌, Bool, true, false, ◌&&◌, Option, some, List, [], ◌∷◌,
  arith, leb, count_if, update, get, put, has_id, get_id, ok, >>=-eq-ok, first, subst, sym,
  Bool-cases, inl, inr,
}
use goblin_dock.Models.{Role, is_admin, User, Db, user_key}
use goblin_dock.Accounts.{
  UserEdit, active_admin, is_set, existing_user, last_admin_guard, edit_name, edit_role,
  edit_disabled, edit_user, delete_user, tombstone,
}

-- Two ways to rewrite one row differ by one administrator at most.
put-lose-one :
    (k : ℕ) (f g : User → User) (rows : List User)
    → count_if active_admin (put k f rows)
      ≤ count_if active_admin (put k g rows) + count_if (has_id k) rows
unfolding put update count_if
put-lose-one k f g [] = omega arith
put-lose-one k f g (x ∷ rows) = ground (arith, put-lose-one k f g rows)

put-absent :
    (k : ℕ) (f : User → User) (rows : List User)
    → count_if (has_id k) rows ≡ 0
    → count_if active_admin (put k f rows) ≡ count_if active_admin rows
unfolding put update count_if
put-absent k f [] h = refl
put-absent k f (x ∷ rows) h = ground (arith, put-absent k f rows)

-- An administrator's row that is rewritten by one, or a row that was none, loses nobody.
put-lose-none :
    (k : ℕ) (u w : User) (rows : List User)
    → count_if (has_id k) rows ≤ 1
    → get k rows ≡ some u
    → (active_admin u ≡ false) ⊎ (active_admin w ≡ true)
    → count_if active_admin rows ≤ count_if active_admin (put k (λ _. w) rows)
unfolding put update count_if get first
put-lose-none k u w [] one found h = cc
put-lose-none k u w (x ∷ rows) one found h =
    ground (arith, put-lose-none k u w rows, put-absent k (λ _. w) rows)

put-lose-rows :
    (k : ℕ) (f : User → User) (rows : List User)
    → count_if active_admin rows ≤ count_if active_admin (put k f rows) + count_if (has_id k) rows
unfolding put update count_if
put-lose-rows k f [] = omega arith
put-lose-rows k f (x ∷ rows) = ground (arith, put-lose-rows k f rows)

put-other :
    (k : ℕ) (u : User) (f : User → User) (rows : List User)
    → count_if (has_id k) rows ≤ 1
    → get k rows ≡ some u
    → active_admin u ≡ false
    → count_if active_admin rows ≤ count_if active_admin (put k f rows)
unfolding put update count_if get first
put-other k u f [] one found h = cc
put-other k u f (x ∷ rows) one found h = ground (arith, put-other k u f rows, put-absent k f rows)

-- A stage of an edit goes from one administrator to another, unless the guard saw two.
abbrev Keeps : List User → User → User → Type 0
Keeps users v w =
    (active_admin v ≡ false)
    ⊎ (active_admin w ≡ true)
    ⊎ (2 ≤ count_if active_admin (put v.id (λ _. v) users))

edit_name-Keeps :
    (n : Option String) (u : User)
    → ((edit_name n u).id ≡ u.id) × (active_admin (edit_name n u) ≡ active_admin u)
unfolding edit_name
edit_name-Keeps n u = ground arith

edit_role-Keeps :
    (users : List User) (r : Option Role) (v w : User)
    → edit_role users r v ≡ ok w
    → (w.id ≡ v.id) × Keeps users v w
unfolding edit_role last_admin_guard
edit_role-Keeps users r v w h = ground arith

edit_disabled-Keeps :
    (users : List User) (actor : User) (d : Option Bool) (v w : User)
    → edit_disabled users actor d v ≡ ok w
    → (w.id ≡ v.id) × Keeps users v w
unfolding edit_disabled last_admin_guard
edit_disabled-Keeps users actor d v w h = ground arith

existing :
    (o : Option User) (u : User)
    → existing_user o ≡ ok u
    → (o ≡ some u) × (is_set u.deleted_at ≡ false)
unfolding existing_user
existing o u h = ground arith

-- Two stages of an edit of the row `u`, with key `k`.
module _ (users : List User) (k : ℕ) (one : count_if (has_id k) users ≤ 1) where
  two_seen :
      (v x : User)
      → v.id ≡ k
      → 2 ≤ count_if active_admin (put v.id (λ _. v) users)
      → 0 < count_if active_admin (put k (λ _. x) users)
  two_seen v x e two = omega (
    arith,
    subst (λ j. 2 ≤ count_if active_admin (put j (λ _. v) users)) e two,
    put-lose-one k (λ _. v) (λ _. x) users,
  )

  stages :
      (u v w x : User)
      → get k users ≡ some u
      → v.id ≡ k
      → w.id ≡ k
      → active_admin v ≡ active_admin u
      → Keeps users v w
      → Keeps users w x
      → 0 < count_if active_admin users
      → 0 < count_if active_admin (put k (λ _. x) users)
  stages u v w x found ev ew same (inl off) second h =
      omega (arith, put-lose-none k u x users one found (inl (cc)))
  stages u v w x found ev ew same (inr (inr two)) second h = two_seen v x ev two
  stages u v w x found ev ew same (inr (inl on)) (inl off) h = cc
  stages u v w x found ev ew same (inr (inl on)) (inr (inl kept)) h =
      omega (arith, put-lose-none k u x users one found (inr kept))
  stages u v w x found ev ew same (inr (inl on)) (inr (inr two)) h = two_seen w x ew two

-- Editing an account (its name, role or disabled flag) leaves an active administrator where there
-- was one, whoever edits whom: an edit that would remove the last one is refused.
pub edit_user-admin :
    (uid : ℕ) (body : UserEdit) (actor : User) (db db' : Db)
    → count_if (has_id uid) db.users ≤ 1
    → 0 < count_if active_admin db.users
    → edit_user uid body actor db ≡ ok db'
    → 0 < count_if active_admin db'.users
unfolding edit_user
edit_user-admin uid body actor db db' one h e =
    let (u, found, h₁) = >>=-eq-ok (existing_user (get uid db.users)) _ e in
    let v = edit_name body.name u in
    let (w, placed, h₂) = >>=-eq-ok (edit_role db.users body.role v) _ h₁ in
    let (x, finished, h₃) = >>=-eq-ok (edit_disabled db.users actor body.disabled w) _ h₂ in
    let (got, live) = existing (get uid db.users) u found in
    let (iv, av) = edit_name-Keeps body.name u in
    let (iw, kw) = edit_role-Keeps db.users body.role v w placed in
    let (ix, kx) = edit_disabled-Keeps db.users actor body.disabled w x finished in
    let iu = get_id uid db.users u got in
    let users : put x.id (λ _. x) db.users ≡ db'.users = ground arith in
    let key : x.id ≡ uid = cc in
    subst (λ rows. 0 < count_if active_admin rows) users
      (rw key (stages db.users uid one u v w x got (cc) (cc) av kw kx h))

-- Deleting an account leaves an active administrator where there was one.
pub delete_user-admin :
    (uid : ℕ) (actor : User) (now : ℕ) (scrubbed label : String) (db db' : Db)
    → count_if (has_id uid) db.users ≤ 1
    → 0 < count_if active_admin db.users
    → delete_user uid actor now scrubbed label db ≡ ok db'
    → 0 < count_if active_admin db'.users
unfolding delete_user last_admin_guard
delete_user-admin uid actor now scrubbed label db db' one h e =
    let (u, found, h₁) = >>=-eq-ok (existing_user (get uid db.users)) _ e in
    let (got, live) = existing (get uid db.users) u found in
    let iu = get_id uid db.users u got in
    let guarded : (is_admin u.role && leb (count_if active_admin db.users) 1) ≡ false =
      ground arith in
    let users : put u.id (tombstone now scrubbed label) db.users ≡ db'.users = ground arith in
    let f = tombstone now scrubbed label in
    subst (λ rows. 0 < count_if active_admin rows) users
      (subst (λ j. 0 < count_if active_admin (put j f db.users)) (sym iu)
        (elim (Bool-cases (is_admin u.role)) [
          | inl yes' ↦ ground (arith, put-lose-rows uid f db.users)
          | inr no' ↦ omega (arith, put-other uid u f db.users one got (rw no'))
        ]))
