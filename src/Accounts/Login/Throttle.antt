-- ===== src/Accounts/Login/Throttle.antt =====
-- The throttle per key: its memory is bounded, and while it has room, what other keys do leaves a key's
-- own failures in place.
pub mod Traffic
use goblin_dock.Base.{
  ℕ, zero, suc, ◌-◌, ◌≤◌, String, ◌≡◌, refl, sym, ap, ◌∙◌, Bool, true, false, List, [], ◌∷◌, ◌++◌,
  arith, ltb, length, drop, select, length-drop, length-append, count_if, length-select,
  count_if-append, str_eq, eq_refl, All,
}
use mathlib.Core.List.{append-nil, append_assoc}
use goblin_dock.Accounts.Login.{
  Attempts, max_throttle_keys, times_of, clear_login_attempts, set_last, evict, record_attempt,
  window, is_current, store_window, trim, throttle,
}

length-evict : (m : Attempts) → length (evict m) ≤ max_throttle_keys
unfolding evict
length-evict m = omega (arith, length-drop (length m - max_throttle_keys) m)

-- Recording a failure keeps the table within its bound, whatever it held.
length-record_attempt :
    (key : String) (now : ℕ) (m : Attempts) → length (record_attempt key now m) ≤ max_throttle_keys
unfolding record_attempt
length-record_attempt key now m = length-evict (set_last key (times_of key m ++ now ∷ []) m)

length-trim : (now : ℕ) (m : Attempts) → length (trim now m) ≤ max_throttle_keys
unfolding trim
length-trim now m = ground (arith, length-evict (select (is_current now) m))

-- Whatever the table held, a check and a failure each leave at most `max_throttle_keys` keys in it.
attempts_bounded :
    (key : String) (limit now : ℕ) (m : Attempts)
    → (length (throttle key limit now m).0 ≤ max_throttle_keys)
      × (length (record_attempt key now m) ≤ max_throttle_keys)
unfolding throttle
attempts_bounded key limit now m = (
  length-trim now (store_window key (window now (times_of key m)) m),
  length-record_attempt key now m,
)

-- The entry at the end of the table survives the eviction, and no other entry has its key.
drop-last {ℓ} :
    {A : Type ℓ} (n : ℕ) (xs : List A) (x : A)
    → n ≤ length xs
    → drop n (xs ++ x ∷ []) ≡ drop n xs ++ x ∷ []
drop-last zero xs x h = refl
drop-last (suc n) [] x h = absurd (omega arith)
drop-last (suc n) (y ∷ xs) x h = drop-last n xs x (omega arith)

-- Every key of the table differs from the given one.
abbrev pub Without : String → Attempts → Type 0
Without key [] = Unit
Without key ((k, ts) ∷ m) = (str_eq k key ≡ false) × Without key m

pub clear-Without : (key : String) (m : Attempts) → Without key (clear_login_attempts key m)
unfolding clear_login_attempts select
clear-Without key [] = tt
clear-Without key ((k, ts) ∷ m) = ground (arith, clear-Without key m)

drop-Without : (key : String) (n : ℕ) (m : Attempts) → Without key m → Without key (drop n m)
drop-Without key zero m h = h
drop-Without key (suc n) [] h = tt
drop-Without key (suc n) ((k, ts) ∷ m) h = drop-Without key n m h.1

pub times_of-last :
    (key : String) (ts : List ℕ) (m : Attempts)
    → Without key m
    → times_of key (m ++ (key, ts) ∷ []) ≡ ts
unfolding times_of
times_of-last key ts [] h = rw (eq_refl key)
times_of-last key ts ((k, us) ∷ m) h = rw h.0 (times_of-last key ts m h.1)

-- A recorded failure is kept with the ones before it, however full the table is.
pub times_of-record_attempt :
    (key : String) (now : ℕ) (m : Attempts)
    → times_of key (record_attempt key now m) ≡ times_of key m ++ now ∷ []
unfolding record_attempt set_last evict
times_of-record_attempt key now m =
    let ts = times_of key m ++ now ∷ [] in
    let base = clear_login_attempts key m in
    let n = length (base ++ (key, ts) ∷ []) - max_throttle_keys in
    rw (drop-last n base (key, ts) (omega (arith, length-append base ((key, ts) ∷ []))))
      (times_of-last key ts (drop n base) (drop-Without key n base (clear-Without key m)))
