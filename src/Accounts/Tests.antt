-- ===== src/Accounts/Tests.antt =====
-- Runs of the account handlers and of `login` on two accounts, an administrator and a user.
use goblin_dock.Base.{
  ℕ, ◌≤◌, ◌<◌, String, ◌≡◌, refl, true, false, none, some, [], ◌∷◌, arith, count_if, has_id, ok,
  http, strip, lstrip, rstrip, is_space, is_blank, first, select, any, get, put, update, str_eq,
}
use goblin_dock.Models.{Role, admin, user, User, Db, user_key, Entry, own}
use goblin_dock.Accounts.{
  current_user, active_admin, last_admin_guard, UserEdit, edit_name, edit_role, edit_disabled,
  existing_user, edit_user, tombstone, owned_by, delete_user, reset_password, reset_user_password,
}
use goblin_dock.Accounts.Admins.{edit_user-admin, delete_user-admin}
use goblin_dock.Accounts.Sessions.{delete_user-revokes}
use goblin_dock.Accounts.Login.{
  Attempts, record_attempt, times_of, clear_login_attempts, set_last, evict, window, store_window,
  trim, throttle, find_account, accept_login, check_password, login,
}
use goblin_dock.Accounts.Login.Lockout.{
  Accepted, login-ok, five_failures, locked_user, Request, WrongPassword, after_login,
}
use goblin_dock.Accounts.Login.Throttle.Traffic.{
  Traffic, quiet, failure, check, others_failure, throttle_blocks,
}

abbrev pub account : ℕ → String → Role → User
account id email role = record {
  id = id;
  email = email;
  name = "someone";
  password_hash = "secret";
  role = role;
  disabled = false;
  deleted_at = none;
  last_login = none;
  session_epoch = 7;
  failed_logins = 0;
  locked_until = none;
  widget_key_hash = none;
  widget_key_last_used = none;
}

abbrev pub root : User
root = account 1 "root@lab" admin

abbrev pub guest : User
guest = account 2 "guest@lab" user

abbrev pub note : Entry
note = record { id = 1; scope = own; owner_id = some 2; name = "TOKEN"; value = "v" }

abbrev pub two_accounts : Db
two_accounts = record {
  users = root ∷ guest ∷ [];
  connections = [];
  deployments = [];
  jobs = [];
  allocations = [];
  images = [];
  secrets = note ∷ [];
  variables = [];
  audit = [];
  sent = [];
  version = 0;
}

-- The administrator promotes the guest and renames it.
abbrev promotion : UserEdit
promotion = record { name = some " second "; role = some admin; disabled = some false }

abbrev promoted : User
promoted = record guest { name = "second"; role = admin }

abbrev after_promotion : Db
after_promotion = record two_accounts {
  users = root ∷ promoted ∷ [];
  audit = record { user_id = 1; action = "user.update"; target_id = 2; detail = "guest@lab" } ∷ [];
}

promotes : edit_user 2 promotion root two_accounts ≡ ok after_promotion
unfolding edit_user existing_user edit_name edit_role edit_disabled last_admin_guard strip lstrip
    rstrip is_space is_blank get put first update count_if
promotes = refl

-- The last administrator cannot be demoted.
demotion_refused :
    edit_user 1 (record { name = none; role = some user; disabled = none }) root two_accounts
    ≡ http 409 "cannot remove the last active admin"
unfolding edit_user existing_user edit_name edit_role edit_disabled last_admin_guard get put first
    update count_if
demotion_refused = refl

abbrev after_deletion : Db
after_deletion = record two_accounts {
  users = root ∷ tombstone 50 "gone" "Deleted user #2" guest ∷ [];
  secrets = [];
  audit = record { user_id = 1; action = "user.delete"; target_id = 2; detail = "guest@lab" } ∷ [];
}

deletes : delete_user 2 root 50 "gone" "Deleted user #2" two_accounts ≡ ok after_deletion
unfolding delete_user existing_user last_admin_guard tombstone get put first update count_if select
    any
deletes = refl

abbrev after_reset : Db
after_reset = record two_accounts {
  users = root ∷ record guest { password_hash = "new"; session_epoch = 8 } ∷ [];
  audit =
      record { user_id = 1; action = "user.password_reset"; target_id = 2; detail = "guest@lab" }
      ∷ [];
}

resets : reset_user_password 2 none "new" root two_accounts ≡ ok after_reset
unfolding reset_user_password existing_user reset_password get put first update
resets = refl

one_guest : count_if (has_id 2) two_accounts.users ≤ 1
unfolding count_if
one_guest = omega arith

root_is_admin : 0 < count_if active_admin two_accounts.users
unfolding count_if
root_is_admin = omega arith

edit_user-admin_example : 0 < count_if active_admin after_promotion.users
edit_user-admin_example =
    edit_user-admin 2 promotion root two_accounts after_promotion one_guest root_is_admin promotes

delete_user-admin_example : 0 < count_if active_admin after_deletion.users
delete_user-admin_example =
    delete_user-admin 2 root 50 "gone" "Deleted user #2" two_accounts after_deletion one_guest
      root_is_admin deletes

delete_user-revokes_example :
    (current_user (record { uid = some 2; sv = 7 }) after_deletion.users
      ≡ http 401 "not authenticated")
    × (count_if (owned_by 2) after_deletion.secrets ≡ 0)
    × (count_if (owned_by 2) after_deletion.variables ≡ 0)
delete_user-revokes_example =
    delete_user-revokes 2 root 50 "gone" "Deleted user #2" two_accounts after_deletion 7 deletes

guest_logs_in :
    (login str_eq "10.0.0.9" "guest@lab" "secret" 100 [] two_accounts.users).answer ≡ ok (2, 7)
unfolding login check_password find_account throttle times_of window store_window set_last trim
    evict clear_login_attempts accept_login select first put update
guest_logs_in = refl

login-ok_example : Accepted str_eq "secret" 100 (find_account "guest@lab" two_accounts.users) 2 7
login-ok_example =
    login-ok str_eq "10.0.0.9" "guest@lab" "secret" 100 [] two_accounts.users 2 7 guest_logs_in

-- "k" fails, is checked, and fails again, while another key fails too.
abbrev busy : Attempts
busy =
    record_attempt "k" 20
      (throttle "k" 2 15 (record_attempt "other" 12 (record_attempt "k" 10 []))).0

busy_run : Traffic "k" 120 2 [] busy
unfolding record_attempt set_last evict times_of select clear_login_attempts
busy_run = failure 20 (
    check 2 15 (omega arith) (omega arith)
      (others_failure "other" 12 refl (omega arith) (failure 10 (quiet []))))

throttle_blocks_example : (throttle "k" 2 120 busy).1 ≡ true
throttle_blocks_example = throttle_blocks "k" 2 120 2 [] busy busy_run (omega arith)

abbrev wrong_guess : ℕ → Request
wrong_guess now = record { ip = "10.0.0.9"; password = "guess"; now = now; attempts = [] }

guess_counts : (now : ℕ) → WrongPassword str_eq "guest@lab" guest (wrong_guess now)
unfolding throttle trim window times_of store_window select clear_login_attempts
guess_counts now = ((refl, refl), refl, refl)

guest_found : find_account "guest@lab" two_accounts.users ≡ some guest
unfolding find_account first
guest_found = refl

five_failures_example :
    find_account "guest@lab" (
      after_login str_eq "guest@lab" (wrong_guess 5) (
        after_login str_eq "guest@lab" (wrong_guess 4) (
          after_login str_eq "guest@lab" (wrong_guess 3) (
            after_login str_eq "guest@lab"
              (wrong_guess 2)
              (after_login str_eq "guest@lab" (wrong_guess 1) two_accounts.users)))))
    ≡ some (locked_user 5 guest)
five_failures_example =
    five_failures str_eq "guest@lab" (wrong_guess 1) (wrong_guess 2) (wrong_guess 3) (wrong_guess 4)
      (wrong_guess 5) two_accounts.users guest guest_found refl refl
      (guess_counts 1, (guess_counts 2, (guess_counts 3, (guess_counts 4, (guess_counts 5, tt)))))
