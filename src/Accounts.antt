-- ===== src/Accounts.antt =====
-- app/api.py: the account handlers, and app/deps.py: who a session cookie stands for.
-- A handler that raises leaves its transaction uncommitted, so only a success has a new state.
pub mod Admins
pub mod Sessions
pub mod Login
pub mod Profile
pub mod Tests
use goblin_dock.Base.{
  ℕ, zero, suc, ◌+◌, String, ◌≡◌, Bool, true, false, not, ◌&&◌, ◌||◌, Option, none, some, List, [],
  ◌∷◌, ◌++◌, ◌==◌, leb, if◌then◌else◌, any, count_if, select, delete, get, put, is_key, str_eq,
  strip, Response, ok, http, ◌>>=◌, ◌>>◌, reject_if,
}
use goblin_dock.Models.{
  Role, admin, user, is_admin, User, Db, user_key, Deployment, Entry, record_audit,
}

-- The cookie's fields `uid` and `sv`.
pub record Session : Type 0 where
  pub uid : Option ℕ
  pub sv : ℕ

abbrev pub is_set : Option ℕ → Bool
is_set none = false
is_set (some _) = true

-- The row is usable as an account.
abbrev pub is_live : User → Bool
is_live u = not u.disabled && not (is_set u.deleted_at)

unfoldable pub user_of_session : Option User → ℕ → Response User
user_of_session none sv = http 401 "not authenticated"
user_of_session (some u) sv =
    if not (is_live u)
    then http 401 "not authenticated"
    else if sv == u.session_epoch
    then ok u
    else http 401 "session expired"

unfoldable pub current_user : Session → List User → Response User
unfolding user_of_session
current_user session users = elim session.uid [
  | none ↦ http 401 "not authenticated"
  | some k ↦ user_of_session (get k users) session.sv
]

unfoldable pub require_admin : Session → List User → Response User
require_admin session users = do
  u ← current_user session users
  reject_if (not (is_admin u.role)) 403 "admin only"
  ok u

-- The rows that `_last_admin_guard` counts.
abbrev pub active_admin : User → Bool
active_admin u = is_admin u.role && not u.disabled && not (is_set u.deleted_at)

unfoldable pub last_admin_guard : List User → User → Response (Unit {0})
last_admin_guard users target =
    reject_if (is_admin target.role && leb (count_if active_admin users) 1) 409
      "cannot remove the last active admin"

-- `UserEditBody`; a role that is neither of the two is ignored, like a missing one.
pub record UserEdit : Type 0 where
  pub name : Option String
  pub role : Option Role
  pub disabled : Option Bool

unfoldable pub edit_name : Option String → User → User
edit_name none u = u
edit_name (some n) u = if str_eq (strip n) "" then u else record u { name = strip n }

-- The guard's query flushes the row first, so it sees what was changed so far.
unfoldable pub edit_role : List User → Option Role → User → Response User
unfolding last_admin_guard
edit_role users none u = ok u
edit_role users (some admin) u = ok (record u { role = admin })
edit_role users (some user) u =
    if is_admin u.role
    then (do last_admin_guard (put u.id (λ _. u) users) u; ok (record u { role = user }))
    else ok u

unfoldable pub edit_disabled : List User → User → Option Bool → User → Response User
unfolding last_admin_guard
edit_disabled users actor none u = ok u
edit_disabled users actor (some false) u = ok (record u { disabled = false })
edit_disabled users actor (some true) u = if u.disabled then ok u else do
  reject_if (u.id == actor.id) 409 "you cannot disable yourself"
  last_admin_guard (put u.id (λ _. u) users) u
  ok (record u { disabled = true })

-- `session.get(User, uid)`, or 404 for a missing or deleted account.
unfoldable pub existing_user : Option User → Response User
existing_user none = http 404 "not found"
existing_user (some u) = if is_set u.deleted_at then http 404 "not found" else ok u

unfoldable pub edit_user : ℕ → UserEdit → User → Db → Response Db
unfolding existing_user edit_name edit_role edit_disabled
edit_user uid body actor db = do
  u ← existing_user (get uid db.users)
  let named = edit_name body.name u
  placed ← edit_role db.users body.role named
  final ← edit_disabled db.users actor body.disabled placed
  ok (
      record_audit actor.id "user.update" final.id final.email
        (record db { users = put final.id (λ _. final) db.users }))

-- The tombstone of a deleted account. `scrubbed` is the replacement of its address, with a random
-- token, and `label` that of its name; both carry its key in decimal.
unfoldable pub tombstone : ℕ → String → String → User → User
tombstone now scrubbed label u = record u {
  email = scrubbed;
  name = label;
  password_hash = "";
  role = user;
  disabled = true;
  deleted_at = some now;
  last_login = none;
  session_epoch = u.session_epoch + 1;
  failed_logins = 0;
  locked_until = none;
  widget_key_hash = none;
  widget_key_last_used = none;
}

abbrev pub owned_by : ℕ → Entry → Bool
owned_by k e = is_key k e.owner_id

unfoldable pub delete_user : ℕ → User → ℕ → String → String → Db → Response Db
unfolding existing_user last_admin_guard tombstone
delete_user uid actor now scrubbed label db = do
  u ← existing_user (get uid db.users)
  reject_if (u.id == actor.id) 409 "you cannot delete yourself"
  last_admin_guard db.users u
  reject_if (any (λ d. is_key uid d.owner_id) db.deployments) 409 "user still owns VMs"
  ok (
      record_audit actor.id "user.delete" uid u.email (record db {
        users = put u.id (tombstone now scrubbed label) db.users;
        secrets = delete (owned_by uid) db.secrets;
        variables = delete (owned_by uid) db.variables;
      }))

-- `hashed` is the new password's hash, made after `password_problem` passed.
unfoldable pub reset_password : String → User → User
reset_password hashed u = record u {
  password_hash = hashed;
  session_epoch = u.session_epoch + 1;
  failed_logins = 0;
  locked_until = none;
}

unfoldable pub reset_user_password : ℕ → Option String → String → User → Db → Response Db
unfolding existing_user reset_password
reset_user_password uid problem hashed actor db = do
  u ← existing_user (get uid db.users)
  elim problem [
    | some message ↦ http 400 message
    | none ↦ ok (
        record_audit actor.id "user.password_reset" u.id u.email
          (record db { users = put u.id (reset_password hashed) db.users }))
  ]
