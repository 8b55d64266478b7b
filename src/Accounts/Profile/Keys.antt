-- ===== src/Accounts/Profile/Keys.antt =====
-- What a new password and a widget key are worth.
use goblin_dock.Base.{
  ℕ, ◌+◌, String, ◌≡◌, refl, subst, sym, Bool, true, false, Option, none, some, List, [], ◌∷◌,
  arith, ◌==◌, first, get, put, get-put_self, get_id, update, str_eq, take_chars, ok, http,
}
use goblin_dock.Models.{User, Db, user_key}
use goblin_dock.Accounts.{is_live, current_user, user_of_session}
use goblin_dock.Accounts.Profile.{
  renew_password, change_password, set_widget_key, revoke_widget_key, has_key, accept_key,
  widget_key_user, widget_key_prefix,
}

renewed_session :
    (verified : String → Bool) (hashed : String) (problem : Option String) (actor u : User)
    (db db' : Db) (sv : ℕ)
    → get actor.id db.users ≡ some u
    → change_password verified hashed problem actor db ≡ ok (sv, db')
    → (verified u.password_hash ≡ true)
      × (sv ≡ u.session_epoch + 1)
      × (get actor.id db'.users ≡ some (renew_password hashed u))
unfolding change_password
renewed_session verified hashed problem actor u db db' sv found h =
    let key = get_id actor.id db.users u found in
    let users : put u.id (renew_password hashed) db.users ≡ db'.users = ground arith in
    let moved =
      get-put_self actor.id (renew_password hashed) db.users u (λ a. unfold renew_password in refl)
        found in
    (
      ground arith,
      ground arith,
      subst (λ rows. get actor.id rows ≡ some (renew_password hashed u)) users
          (subst
            (λ k.
              get actor.id (put k (renew_password hashed) db.users)
              ≡ some (renew_password hashed u))
            (sym key) moved),
    )

-- A password changes only where the current one verifies; then a cookie of the former epoch is
-- refused, and the session that changed it goes on with the epoch it is given.
pub change_password-revokes :
    (verified : String → Bool) (hashed : String) (problem : Option String) (actor u : User)
    (db db' : Db) (sv : ℕ)
    → get actor.id db.users ≡ some u
    → is_live u ≡ true
    → change_password verified hashed problem actor db ≡ ok (sv, db')
    → (verified u.password_hash ≡ true)
      × (current_user (record { uid = some actor.id; sv = u.session_epoch }) db'.users
          ≡ http 401 "session expired")
      × (current_user (record { uid = some actor.id; sv = sv }) db'.users
          ≡ ok (renew_password hashed u))
unfolding current_user
change_password-revokes verified hashed problem actor u db db' sv found live h =
    let (checked, epoch, row) = renewed_session verified hashed problem actor u db db' sv found h in
    (
      checked,
      rw row (unfold user_of_session renew_password in ground arith),
      rw row (unfold user_of_session renew_password in ground arith),
    )

-- The account that is found by a key has the key, and it is not the one whose key is gone.
revoked-first :
    (k : ℕ) (hashed : String) (users : List User) (u : User)
    → first (has_key hashed) (put k (set_widget_key none) users) ≡ some u
    → (has_key hashed u ≡ true) × ((u.id == k) ≡ false)
unfolding first put update
revoked-first k hashed [] u h = cc
revoked-first k hashed (x ∷ users) u h = ground (arith, revoked-first k hashed users u)

accepted :
    (now : ℕ) (o : Option User) (users after : List User) (v : User)
    → accept_key now o users ≡ ok (v, after)
    → (u : User) × (o ≡ some u) × (is_live u ≡ true) × (v.id ≡ u.id)
accepted now none users after v h = cc
accepted now (some u) users after v h = (u, refl, ground arith, ground arith)

-- After an account revokes its widget key, no token whatever authenticates as that account: a request
-- that is accepted comes with a token of the prefix, for another account, which is neither disabled
-- nor deleted and whose stored digest is that of the token.
revoke_widget_key-ends :
    (hash : String → String) (token : String) (now : ℕ) (actor v : User) (db : Db)
    (after : List User)
    → widget_key_user hash token now (revoke_widget_key actor db).users ≡ ok (v, after)
    → (str_eq (take_chars 5 token) widget_key_prefix ≡ true)
      × ((v.id == actor.id) ≡ false)
      × ((u : User) × (u.id ≡ v.id) × (is_live u ≡ true) × (has_key (hash token) u ≡ true))
unfolding widget_key_user revoke_widget_key
revoke_widget_key-ends hash token now actor v db after h =
    let prefixed : str_eq (take_chars 5 token) widget_key_prefix ≡ true = ground arith in
    let users = put actor.id (set_widget_key none) db.users in
    let next : accept_key now (first (has_key (hash token)) users) users ≡ ok (v, after) =
      ground arith in
    let (u, found, live, id) =
      accepted now (first (has_key (hash token)) users) users after v next in
    let (keyed, apart) = revoked-first actor.id (hash token) db.users u found in
    (prefixed, rw id apart, (u, sym id, live, keyed))
