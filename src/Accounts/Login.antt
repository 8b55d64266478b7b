-- ===== src/Accounts/Login.antt =====
-- app/api.py: `login` with its two defences, the throttle per key kept in memory
-- (`_login_attempts`) and the lockout per account kept on the user's row. The address is taken
-- already stripped and lower-cased, and one clock reading serves the whole request.
pub mod Throttle
pub mod Lockout
use goblin_dock.Base.{
  ℕ, zero, suc, ◌+◌, ◌-◌, ◌*◌, String, ◌≡◌, Bool, true, false, not, ◌&&◌, ◌||◌, Option, none, some,
  List, [], ◌∷◌, ◌++◌, ◌==◌, leb, ltb, if◌then◌else◌, length, drop, select, first, put, str_eq,
  str_append, Response, ok, http,
}
use goblin_dock.Models.{User, Db, user_key}
use goblin_dock.Accounts.{is_set}

-- An `OrderedDict` from keys to the times of failed attempts, oldest key first.
abbrev pub Attempts : Type 0
Attempts = List (String × List ℕ)

abbrev pub max_throttle_keys : ℕ
max_throttle_keys = 10000

abbrev pub ip_login_limit : ℕ
ip_login_limit = 40

abbrev pub login_limit : ℕ
login_limit = 8

-- `_login_attempts.get(key, [])`
unfoldable pub times_of : String → Attempts → List ℕ
times_of key [] = []
times_of key ((k, ts) ∷ m) = let rest = times_of key m in if str_eq k key then ts else rest

-- `_login_attempts.pop(key, None)`
unfoldable pub clear_login_attempts : String → Attempts → Attempts
clear_login_attempts key m = select (λ e. not (str_eq e.0 key)) m

-- An assignment followed by `move_to_end`.
unfoldable pub set_last : String → List ℕ → Attempts → Attempts
unfolding clear_login_attempts
set_last key ts m = clear_login_attempts key m ++ (key, ts) ∷ []

-- `while len(...) > _MAX_THROTTLE_KEYS: popitem(last=False)`
unfoldable pub evict : Attempts → Attempts
evict m = drop (length m - max_throttle_keys) m

unfoldable pub record_attempt : String → ℕ → Attempts → Attempts
unfolding set_last evict times_of
record_attempt key now m = evict (set_last key (times_of key m ++ now ∷ []) m)

-- The attempts of the last five minutes.
unfoldable pub window : ℕ → List ℕ → List ℕ
window now ts = select (λ t. ltb (now - t) 300) ts

abbrev pub last_of : List ℕ → Option ℕ
last_of [] = none
last_of (t ∷ []) = some t
last_of (t ∷ ts) = last_of ts

unfoldable pub is_current : ℕ → String × List ℕ → Bool
is_current now e = elim (last_of e.1) [ none ↦ false | some t ↦ ltb (now - t) 300 ]

unfoldable pub store_window : String → List ℕ → Attempts → Attempts
unfolding set_last
store_window key [] m = clear_login_attempts key m
store_window key (t ∷ ts) m = set_last key (t ∷ ts) m

unfoldable pub trim : ℕ → Attempts → Attempts
unfolding evict is_current
trim now m = if ltb max_throttle_keys (length m) then evict (select (is_current now) m) else m

-- The attempts afterwards, and whether the key has reached its limit.
unfoldable pub throttle : String → ℕ → ℕ → Attempts → Attempts × Bool
unfolding store_window trim window times_of
throttle key limit now m =
    let recent = window now (times_of key m) in
    (trim now (store_window key recent m), leb limit (length recent))

abbrev pub lock_threshold : ℕ
lock_threshold = 5

abbrev pub lock_seconds : ℕ
lock_seconds = 15 * 60

unfoldable pub fail_login : ℕ → User → User
fail_login now u =
    if leb lock_threshold (u.failed_logins + 1)
    then record u { failed_logins = 0; locked_until = some (now + lock_seconds) }
    else record u { failed_logins = u.failed_logins + 1 }

unfoldable pub record_account_login_failure : ℕ → ℕ → List User → List User
unfolding fail_login
record_account_login_failure uid now users = put uid (fail_login now) users

abbrev pub is_locked : ℕ → User → Bool
is_locked now u = elim u.locked_until [ none ↦ false | some t ↦ ltb now t ]

abbrev pub can_log_in : ℕ → User → Bool
can_log_in now u = not u.disabled && not (is_locked now u)

unfoldable pub find_account : String → List User → Option User
find_account email users = first (λ u. str_eq u.email email && not (is_set u.deleted_at)) users

unfoldable pub accept_login : ℕ → User → User
accept_login now u = record u { failed_logins = 0; locked_until = none; last_login = some now }

-- Where the request ends: the session's `uid` and `sv`, the attempts and the accounts.
pub record LoginEnd : Type 0 where
  pub answer : Response (ℕ × ℕ)
  pub attempts : Attempts
  pub users : List User

unfoldable pub reject_login : String → String → ℕ → Option User → Attempts → List User → LoginEnd
unfolding record_account_login_failure
reject_login key ip_key now failed m users = record {
  answer = http 401 "invalid email or password";
  attempts = record_attempt ip_key now (record_attempt key now m);
  users = elim failed [ none ↦ users | some u ↦ record_account_login_failure u.id now users ];
}

-- `verify password hash` is the Argon2 check of a live account's hash; the check against the decoy
-- hash, which every other account gets, has no effect on the answer.
module _ (verify : String → String → Bool) where
  unfoldable pub check_password :
      String → String → ℕ → String → Option User → Attempts → List User → LoginEnd
  unfolding reject_login accept_login
  check_password key ip_key now password none m users = reject_login key ip_key now none m users
  check_password key ip_key now password (some u) m users =
      if can_log_in now u
      then if verify password u.password_hash
        then record {
          answer = ok (u.id, u.session_epoch);
          attempts = clear_login_attempts key m;
          users = put u.id (accept_login now) users;
        }
        else reject_login key ip_key now (some u) m users
      else reject_login key ip_key now none m users

  unfoldable pub login : String → String → String → ℕ → Attempts → List User → LoginEnd
  unfolding check_password find_account
  login ip email password now m users =
      let key = str_append email (str_append "|" ip) in
      let ip_key = str_append "ip:" ip in
      let (m₁, ip_blocked) = throttle ip_key ip_login_limit now m in
      let (m₂, blocked) = throttle key login_limit now m₁ in
      if ip_blocked
      then record { answer = http 429 "too many attempts"; attempts = m₁; users = users }
      else if blocked
      then record { answer = http 429 "too many attempts"; attempts = m₂; users = users }
      else check_password key ip_key now password (find_account email users) m₂ users
