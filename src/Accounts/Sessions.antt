-- ===== src/Accounts/Sessions.antt =====
-- What a session cookie is worth after its account was changed.
use goblin_dock.Base.{
  ℕ, ◌+◌, String, ◌≡◌, refl, Bool, false, not, Option, none, some, List, [], ◌∷◌, arith, count_if,
  select, get, put, get-put_self, get_id, ◌∙◌, ok, http, >>=-eq-ok, subst, sym,
}
use goblin_dock.Models.{User, Db, user_key}
use goblin_dock.Accounts.{
  current_user, user_of_session, is_set, existing_user, delete_user, tombstone, owned_by,
  reset_user_password, reset_password,
}

-- The rows that are left after a deletion pass the test no more.
deleted_none {ℓ} :
    {A : Type ℓ} (p : A → Bool) (rows : List A) → count_if p (select (λ x. not (p x)) rows) ≡ 0
unfolding count_if select
deleted_none p [] = refl
deleted_none p (x ∷ rows) = ground (arith, deleted_none p rows)

existing_row : (o : Option User) (u : User) → existing_user o ≡ ok u → o ≡ some u
unfolding existing_user
existing_row o u h = ground arith

existing_live : (o : Option User) (u : User) → existing_user o ≡ ok u → is_set u.deleted_at ≡ false
unfolding existing_user
existing_live o u h = ground arith

-- After an account is deleted, no session cookie of it is accepted, whatever epoch it carries, and
-- no secret or variable that it owned is left.
pub delete_user-revokes :
    (uid : ℕ) (actor : User) (now : ℕ) (scrubbed label : String) (db db' : Db) (sv : ℕ)
    → delete_user uid actor now scrubbed label db ≡ ok db'
    → (current_user (record { uid = some uid; sv = sv }) db'.users ≡ http 401 "not authenticated")
      × (count_if (owned_by uid) db'.secrets ≡ 0)
      × (count_if (owned_by uid) db'.variables ≡ 0)
unfolding delete_user current_user
delete_user-revokes uid actor now scrubbed label db db' sv e =
    let (u, found, h₁) = >>=-eq-ok (existing_user (get uid db.users)) _ e in
    let got = existing_row (get uid db.users) u found in
    let iu = get_id uid db.users u got in
    let moved =
      get-put_self uid (tombstone now scrubbed label) db.users u (λ a. unfold tombstone in refl)
        got in
    let users : put u.id (tombstone now scrubbed label) db.users ≡ db'.users = ground arith in
    let secrets : select (λ x. not (owned_by uid x)) db.secrets ≡ db'.secrets = ground arith in
    let variables : select (λ x. not (owned_by uid x)) db.variables ≡ db'.variables =
      ground arith in
    let row : get uid db'.users ≡ some (tombstone now scrubbed label u) =
      subst (λ rows. get uid rows ≡ some (tombstone now scrubbed label u)) users
        (subst
          (λ j.
            get uid (put j (tombstone now scrubbed label) db.users)
            ≡ some (tombstone now scrubbed label u))
          (sym iu) moved) in
    (
      rw row (unfold user_of_session tombstone in refl),
      subst (λ rows. count_if (owned_by uid) rows ≡ 0) secrets
          (deleted_none (owned_by uid) db.secrets),
      subst (λ rows. count_if (owned_by uid) rows ≡ 0) variables
          (deleted_none (owned_by uid) db.variables),
    )

-- After an administrator sets a new password, a cookie that was issued under the account's former
-- epoch is refused, and a lockout is over.
reset_user_password-revokes :
    (uid : ℕ) (hashed : String) (actor u : User) (db db' : Db)
    → get uid db.users ≡ some u
    → u.disabled ≡ false
    → reset_user_password uid none hashed actor db ≡ ok db'
    → (current_user (record { uid = some uid; sv = u.session_epoch }) db'.users
        ≡ http 401 "session expired")
      × (get uid db'.users
          ≡ some (record u {
            password_hash = hashed;
            session_epoch = u.session_epoch + 1;
            failed_logins = 0;
            locked_until = none;
          }))
unfolding reset_user_password current_user
reset_user_password-revokes uid hashed actor u db db' got on e =
    let (v, found, h₁) = >>=-eq-ok (existing_user (get uid db.users)) _ e in
    let gotv = existing_row (get uid db.users) v found in
    let same : v ≡ u = ground arith in
    let live : is_set u.deleted_at ≡ false =
      existing_live (get uid db.users) u (rw same at found) in
    let iu = get_id uid db.users u got in
    let moved =
      get-put_self uid (reset_password hashed) db.users u (λ a. unfold reset_password in refl)
        got in
    let users : put v.id (reset_password hashed) db.users ≡ db'.users = ground arith in
    let row : get uid db'.users ≡ some (reset_password hashed u) =
      subst (λ rows. get uid rows ≡ some (reset_password hashed u)) users
        (subst
          (λ j. get uid (put j (reset_password hashed) db.users) ≡ some (reset_password hashed u))
          (cc) moved) in
    (
      rw row (unfold user_of_session reset_password in ground arith),
      row ∙ unfold reset_password in refl,
    )
