-- ===== src/Accounts/Login/Lockout.antt =====
-- The lockout of an account after repeated failures.
use goblin_dock.Base.{
  ℕ, ◌+◌, ◌<◌, String, ◌≡◌, refl, Bool, true, false, Option, none, some, List, [], ◌∷◌, arith,
  first, put, update, All, not, ◌&&◌, str_eq, ==_refl, ◌==◌, str_append, Bool-cases, inl, inr, ap,
  ◌∙◌, ◌≢◌, ok,
}
use goblin_dock.Models.{User, user_key}
use goblin_dock.Accounts.{is_set}
use goblin_dock.Accounts.Login.{
  Attempts, is_locked, fail_login, find_account, can_log_in, reject_login,
  record_account_login_failure, check_password, login, throttle, lock_seconds, ip_login_limit,
  login_limit,
}

-- What an accepted login says of the account that was found.
abbrev pub Accepted : (String → String → Bool) → String → ℕ → Option User → ℕ → ℕ → Type 0
Accepted verify password now found uid sv =
    (u : User) × (found ≡ some u)
    × (u.disabled ≡ false)
    × (is_locked now u ≡ false)
    × (verify password u.password_hash ≡ true)
    × (uid ≡ u.id)
    × (sv ≡ u.session_epoch)

module _ (verify : String → String → Bool) where
  check_password-ok :
      (key ip_key : String) (now : ℕ) (password : String) (found : Option User) (m : Attempts)
      (users : List User) (uid sv : ℕ)
      → (check_password verify key ip_key now password found m users).answer ≡ ok (uid, sv)
      → Accepted verify password now found uid sv
  unfolding check_password
  check_password-ok key ip_key now password none m users uid sv h = cc
  check_password-ok key ip_key now password (some u) m users uid sv h =
      (u, refl, ground arith, ground arith, ground arith, ground arith, ground arith)

  -- Whoever sends whatever password: a login that succeeds is for an account that is found under
  -- the address and is neither disabled nor locked, its password verifies, and the session carries
  -- the account's key and current epoch.
  pub login-ok :
      (ip email password : String) (now : ℕ) (m : Attempts) (users : List User) (uid sv : ℕ)
      → (login verify ip email password now m users).answer ≡ ok (uid, sv)
      → Accepted verify password now (find_account email users) uid sv
  unfolding login
  login-ok ip email password now m users uid sv h =
      let key = str_append email (str_append "|" ip) in
      let ip_key = str_append "ip:" ip in
      let first_check = throttle ip_key ip_login_limit now m in
      let second_check = throttle key login_limit now first_check.0 in
      elim (Bool-cases first_check.1) [
        | inl blocked ↦ cc (rw blocked at h)
        | inr open' ↦ elim (Bool-cases second_check.1) [
          | inl blocked ↦ cc (rw (open', blocked) at h)
          | inr free ↦
              check_password-ok key ip_key now password (find_account email users) second_check.0
                users uid sv (rw (open', free) at h)
        ]
      ]

-- The account as the failures left it.
abbrev pub locked_user : ℕ → User → User
locked_user t u = record u { failed_logins = 0; locked_until = some (t + lock_seconds) }

-- The first row that passes is rewritten by its key, and no row before it comes to pass.
first-put :
    (p : User → Bool) (f : User → User) (users : List User) (u : User)
    → ((v : User) → p (f v) ≡ p v)
    → first p users ≡ some u
    → first p (put u.id f users) ≡ some (f u)
unfolding first put update
first-put p f [] u same h = cc
first-put p f (v ∷ users) u same h =
    let rest = first-put p f users u same in
    let here = same v in
    let self = ==_refl u.id in
    elim (Bool-cases (p v)) [
      | inl passes ↦
          let is : v ≡ u = ground arith in
          let key_is : (v.id == u.id) ≡ true = ap (λ w. w.id == u.id) is ∙ self in
          rw (key_is, here, passes) (ap (λ w. some (f w)) is)
      | inr fails ↦
          let later : first p users ≡ some u = ground arith in
          elim (Bool-cases (v.id == u.id)) [
            | inl key_is ↦ rw (key_is, here, fails) (rest later)
            | inr other ↦ rw (other, fails) (rest later)
          ]
    ]

find_account-fail :
    (email : String) (t : ℕ) (users : List User) (u : User)
    → find_account email users ≡ some u
    → find_account email (record_account_login_failure u.id t users) ≡ some (fail_login t u)
unfolding find_account record_account_login_failure
find_account-fail email t users u h =
    first-put (λ v. str_eq v.email email && not (is_set v.deleted_at)) (fail_login t) users u
      (λ v. unfold fail_login in ground arith) h

-- An account with some failures of late.
abbrev counted : ℕ → User → User
counted n u = record u { failed_logins = n }

fail-counted : (t n : ℕ) (u : User) → n < 4 → fail_login t (counted n u) ≡ counted (n + 1) u
unfolding fail_login
fail-counted t n u few = ground arith

fifth_locks : (t : ℕ) (u : User) → fail_login t (counted 4 u) ≡ locked_user t u
unfolding fail_login
fifth_locks t u = refl

-- One login request for an account: where it comes from, the password, the time, and the failed attempts
-- that are remembered when it arrives.
pub record Request : Type 0 where
  pub ip : String
  pub password : String
  pub now : ℕ
  pub attempts : Attempts

-- The request is let through by both throttles.
abbrev pub Unthrottled : String → Request → Type 0
Unthrottled email r =
    ((throttle (str_append "ip:" r.ip) ip_login_limit r.now r.attempts).1 ≡ false)
    × ((throttle (str_append email (str_append "|" r.ip)) login_limit r.now
          (throttle (str_append "ip:" r.ip) ip_login_limit r.now r.attempts).0).1
        ≡ false)

module _ (verify : String → String → Bool) where
  -- The accounts after a request.
  abbrev pub after_login : String → Request → List User → List User
  after_login email r users = (login verify r.ip email r.password r.now r.attempts users).users

  -- A wrong password for an account that may log in.
  abbrev pub WrongPassword : String → User → Request → Type 0
  WrongPassword email u r =
      Unthrottled email r
      × (verify r.password u.password_hash ≡ false)
      × (is_locked r.now u ≡ false)

  login-wrong :
      (ip email password : String) (now : ℕ) (m : Attempts) (users : List User) (u : User)
      → find_account email users ≡ some u
      → can_log_in now u ≡ true
      → (throttle (str_append "ip:" ip) ip_login_limit now m).1 ≡ false
      → (throttle
          (str_append email (str_append "|" ip))
          login_limit
          now
          (throttle (str_append "ip:" ip) ip_login_limit now m).0).1
        ≡ false
      → verify password u.password_hash ≡ false
      → (login verify ip email password now m users).users
        ≡ record_account_login_failure u.id now users
  unfolding login check_password reject_login
  login-wrong ip email password now m users u found enters ip_free free wrong =
      rw (ip_free, free, found, enters, wrong) refl

  wrong_password :
      (email : String) (r : Request) (users : List User) (u : User)
      → find_account email users ≡ some u
      → u.disabled ≡ false
      → WrongPassword email u r
      → find_account email (after_login email r users) ≡ some (fail_login r.now u)
  wrong_password email r users u found on ((ip_free, free), wrong, open') =
      let enters : can_log_in r.now u ≡ true = ground arith in
      ap (find_account email)
        (login-wrong r.ip email r.password r.now r.attempts users u found enters ip_free free wrong)
      ∙ find_account-fail email r.now users u found

  counts :
      (email : String) (r : Request) (n : ℕ) (users : List User) (u : User)
      → find_account email users ≡ some (counted n u)
      → u.disabled ≡ false
      → n < 4
      → WrongPassword email u r
      → find_account email (after_login email r users) ≡ some (counted (n + 1) u)
  counts email r n users u found on few w =
      wrong_password email r users (counted n u) found on w ∙ ap some (fail-counted r.now n u few)

  -- Five login requests with wrong passwords for an account that is enabled, not locked at any of them
  -- and has a clean count, none of them stopped by a throttle, lock the account for the fifteen minutes
  -- that follow the last of them, and start the count anew.
  pub five_failures :
      (email : String) (r₁ r₂ r₃ r₄ r₅ : Request) (users : List User) (u : User)
      → find_account email users ≡ some u
      → u.disabled ≡ false
      → u.failed_logins ≡ 0
      → All (WrongPassword email u) (r₁ ∷ r₂ ∷ r₃ ∷ r₄ ∷ r₅ ∷ [])
      → find_account email (
          after_login email r₅ (
            after_login email r₄
              (after_login email r₃ (after_login email r₂ (after_login email r₁ users)))))
        ≡ some (locked_user r₅.now u)
  five_failures email r₁ r₂ r₃ r₄ r₅ users u found on clean (w₁, (w₂, (w₃, (w₄, (w₅, end))))) =
      let at₀ : find_account email users ≡ some (counted 0 u) =
        found ∙ ap some (ap (λ n. record u { failed_logins = n }) clean) in
      let at₁ = counts email r₁ 0 users u at₀ on (omega arith) w₁ in
      let at₂ = counts email r₂ 1 _ u at₁ on (omega arith) w₂ in
      let at₃ = counts email r₃ 2 _ u at₂ on (omega arith) w₃ in
      let at₄ = counts email r₄ 3 _ u at₃ on (omega arith) w₄ in
      wrong_password email r₅ _ (counted 4 u) at₄ on w₅ ∙ ap some (fifth_locks r₅.now u)

-- While the lock of the account that is found lasts, no password logs in.
pub locked-rejects :
    (verify : String → String → Bool) (ip email password : String) (now : ℕ) (m : Attempts)
    (users : List User) (u : User) (uid sv : ℕ)
    → find_account email users ≡ some u
    → is_locked now u ≡ true
    → (login verify ip email password now m users).answer ≢ ok (uid, sv)
locked-rejects verify ip email password now m users u uid sv found locked h =
    let a = login-ok verify ip email password now m users uid sv h in
    let same : a.0 ≡ u = ground arith in cc (a.3, ap (is_locked now) same, locked)
