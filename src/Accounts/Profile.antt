-- ===== src/Accounts/Profile.antt =====
-- app/api.py and app/deps.py: new accounts, the own profile, the own password, and widget keys. The
-- address is taken already stripped and lower-cased, and a hash is an argument.
pub mod Emails
pub mod Keys
mod Tests
use goblin_dock.Base.{
  ℕ, zero, suc, ◌+◌, ◌-◌, String, ◌≡◌, Bool, true, false, not, ◌&&◌, ◌||◌, Option, none, some, List,
  [], ◌∷◌, ◌++◌, ◌==◌, leb, if◌then◌else◌, any, first, get, put, str_eq, strip, take_chars,
  Response, ok, http, ◌>>=◌, ◌>>◌, reject_if,
}
use goblin_dock.Models.{Role, admin, user, User, Db, user_key, next_id, record_audit}
use goblin_dock.Accounts.{is_set, is_live}

-- An account that is not deleted has the address.
abbrev pub has_email : String → User → Bool
has_email email u = str_eq u.email email && not (is_set u.deleted_at)

-- `_check_password`, after `password_problem` found what it found.
abbrev pub check_problem : Option String → Response (Unit {0})
check_problem none = ok tt
check_problem (some message) = http 400 message

abbrev pub new_user : String → String → String → Role → List User → User
new_user email name hashed role users = record {
  id = next_id users;
  email = email;
  name = strip name;
  password_hash = hashed;
  role = role;
  disabled = false;
  deleted_at = none;
  last_login = none;
  session_epoch = 0;
  failed_logins = 0;
  locked_until = none;
  widget_key_hash = none;
  widget_key_last_used = none;
}

-- The audit row of a new account names no target; its key is 0 here.
unfoldable pub add_user : String → String → String → Option String → Role → User → Db → Response Db
add_user email name hashed problem role actor db = do
  reject_if (any (has_email email) db.users) 400 "email already exists"
  check_problem problem
  ok (
      record_audit actor.id "user.create" 0 email
        (record db { users = db.users ++ new_user email name hashed role db.users ∷ [] }))

abbrev pub rename : Option String → User → User
rename none u = u
rename (some name) u = if str_eq (strip name) "" then u else record u { name = strip name }

abbrev pub clashes : ℕ → String → User → Bool
clashes k email u = has_email email u && not (u.id == k)

-- The new address, unless it is missing or blank.
abbrev pub given : Option String → Option String
given none = none
given (some email) = if str_eq email "" then none else some email

unfoldable pub set_profile : Option String → String → User → User
set_profile name email u = record (rename name u) { email = email }

unfoldable pub save_profile : Option String → Option String → User → Db → Response Db
unfolding set_profile
save_profile name none actor db = ok (
    record_audit actor.id "profile.update" actor.id ""
      (record db { users = put actor.id (rename name) db.users }))
save_profile name (some email) actor db =
    if any (clashes actor.id email) db.users
    then http 400 "email already in use"
    else ok (
        record_audit actor.id "profile.update" actor.id ""
          (record db { users = put actor.id (set_profile name email) db.users }))

unfoldable pub update_profile : Option String → Option String → User → Db → Response Db
unfolding save_profile
update_profile name email actor db = save_profile name (given email) actor db

unfoldable pub renew_password : String → User → User
renew_password hashed u = record u { password_hash = hashed; session_epoch = u.session_epoch + 1 }

-- `verified` is the check of the current password. The answer is the session's new `sv`.
unfoldable pub change_password :
    (String → Bool) → String → Option String → User → Db → Response (ℕ × Db)
unfolding renew_password
change_password verified hashed problem actor db = elim (get actor.id db.users) [
  | none ↦ http 500 "Internal Server Error"
  | some u ↦ do
    reject_if (not (verified u.password_hash)) 403 "current password is incorrect"
    check_problem problem
    ok (
      u.session_epoch + 1,
      record_audit actor.id "profile.password" u.id ""
          (record db { users = put u.id (renew_password hashed) db.users }),
    )
]

abbrev pub set_widget_key : Option String → User → User
set_widget_key hashed u = record u { widget_key_hash = hashed; widget_key_last_used = none }

unfoldable pub gen_widget_key : String → User → Db → Db
gen_widget_key hashed actor db =
    record_audit actor.id "profile.widget_key.generate" actor.id ""
      (record db { users = put actor.id (set_widget_key (some hashed)) db.users })

unfoldable pub revoke_widget_key : User → Db → Db
revoke_widget_key actor db =
    record_audit actor.id "profile.widget_key.revoke" actor.id ""
      (record db { users = put actor.id (set_widget_key none) db.users })

abbrev pub widget_key_prefix : String
widget_key_prefix = "gdwk_"

abbrev pub has_key : String → User → Bool
has_key hashed u = elim u.widget_key_hash [ none ↦ false | some h ↦ str_eq h hashed ]

-- The time of the last use is written once in five minutes.
abbrev pub touch : ℕ → User → User
touch now u = elim u.widget_key_last_used [
  | none ↦ record u { widget_key_last_used = some now }
  | some t ↦ if leb 300 (now - t) then record u { widget_key_last_used = some now } else u
]

abbrev pub accept_key : ℕ → Option User → List User → Response (User × List User)
accept_key now none users = http 401 "invalid api key"
accept_key now (some u) users =
    if is_live u then ok (touch now u, put u.id (touch now) users) else http 401 "invalid api key"

-- `hash` is `hash_widget_key`, a keyed digest.
unfoldable pub widget_key_user :
    (String → String) → String → ℕ → List User → Response (User × List User)
widget_key_user hash token now users =
    if str_eq (take_chars 5 token) widget_key_prefix
    then accept_key now (first (has_key (hash token)) users) users
    else http 401 "invalid api key"
