-- ===== src/Accounts/Login/Throttle/Traffic.antt =====
-- The throttle of app/api.py among the checks, failures and resets of all keys, in any order.
use goblin_dock.Base.{
  ℕ, ◌+◌, ◌-◌, ◌≤◌, ◌<◌, String, ◌≡◌, refl, sym, ap, ◌∙◌, true, false, List, [], ◌∷◌, ◌++◌, arith,
  ltb, if◌then◌else◌, length, select, length-append, str_eq, eq_iff, Bool-cases, inl, inr,
}
use mathlib.Core.List.{}
use goblin_dock.Accounts.Login.{
  Attempts, max_throttle_keys, times_of, clear_login_attempts, set_last, evict, record_attempt,
  window, store_window, trim, throttle,
}
use goblin_dock.Accounts.Login.Throttle.{
  Without, clear-Without, times_of-last, times_of-record_attempt,
}

turned : (a b : String) → str_eq a b ≡ false → str_eq b a ≡ false
turned a b h = elim (Bool-cases (str_eq b a)) [
  | inr off ↦ off
  | inl on ↦
      let same : str_eq b a ≡ str_eq a b =
        let e = (eq_iff b a).0 on in ap (λ s. str_eq s a) e ∙ ap (str_eq a) (sym e) in
      ground arith
]

-- What other keys do to the entries leaves the times of a key.
times_of-clear :
    (key other : String) (m : Attempts)
    → str_eq other key ≡ false
    → times_of key (clear_login_attempts other m) ≡ times_of key m
unfolding times_of clear_login_attempts select
times_of-clear key other [] h = refl
times_of-clear key other ((k, ts) ∷ m) h =
    let rest = times_of-clear key other m h in
    elim (Bool-cases (str_eq k key)) [
      | inl own ↦
          let kept : str_eq k other ≡ false =
            ap (λ s. str_eq s other) ((eq_iff k key).0 own) ∙ turned other key h in
          rw (kept, own) refl
      | inr off ↦ ground arith
    ]

times_of-append :
    (key other : String) (ts : List ℕ) (m : Attempts)
    → str_eq other key ≡ false
    → times_of key (m ++ (other, ts) ∷ []) ≡ times_of key m
unfolding times_of
times_of-append key other ts [] h = rw h refl
times_of-append key other ts ((k, us) ∷ m) h =
    let rest = times_of-append key other ts m h in ground arith

length-clear : (key : String) (m : Attempts) → length (clear_login_attempts key m) ≤ length m
unfolding clear_login_attempts select
length-clear key [] = omega arith
length-clear key (e ∷ m) = ground (arith, length-clear key m)

length-set_last :
    (key : String) (ts : List ℕ) (m : Attempts) → length (set_last key ts m) ≤ length m + 1
unfolding set_last
length-set_last key ts m =
    omega (arith, length-append (clear_login_attempts key m) ((key, ts) ∷ []), length-clear key m)

evict-all : (m : Attempts) → length m ≤ max_throttle_keys → evict m ≡ m
unfolding evict
evict-all m room =
    let nothing : length m - max_throttle_keys ≡ 0 = omega (arith, room) in rw nothing refl

trim-all : (now : ℕ) (m : Attempts) → length m ≤ max_throttle_keys → trim now m ≡ m
unfolding trim
trim-all now m room =
    let small : ltb max_throttle_keys (length m) ≡ false = ground arith in rw small refl

length-store_window :
    (key : String) (ts : List ℕ) (m : Attempts) → length (store_window key ts m) ≤ length m + 1
unfolding store_window
length-store_window key [] m = omega (arith, length-clear key m)
length-store_window key (t ∷ ts) m = length-set_last key (t ∷ ts) m

-- Another key's failure and check.
times_of-others_failure :
    (key other : String) (t : ℕ) (m : Attempts)
    → str_eq other key ≡ false
    → length m < max_throttle_keys
    → times_of key (record_attempt other t m) ≡ times_of key m
unfolding record_attempt set_last
times_of-others_failure key other t m h room =
    let ts = times_of other m ++ t ∷ [] in
    let size : length (set_last other ts m) ≤ max_throttle_keys =
      omega (arith, length-set_last other ts m, room) in
    ap (times_of key) (evict-all (set_last other ts m) size)
    ∙ times_of-append key other ts (clear_login_attempts other m) h
    ∙ times_of-clear key other m h

times_of-store_other :
    (key other : String) (ts : List ℕ) (m : Attempts)
    → str_eq other key ≡ false
    → times_of key (store_window other ts m) ≡ times_of key m
unfolding store_window set_last
times_of-store_other key other [] m h = times_of-clear key other m h
times_of-store_other key other (t ∷ ts) m h =
    times_of-append key other (t ∷ ts) (clear_login_attempts other m) h
    ∙ times_of-clear key other m h

times_of-none : (key : String) (m : Attempts) → Without key m → times_of key m ≡ []
unfolding times_of
times_of-none key [] h = refl
times_of-none key ((k, ts) ∷ m) h = rw h.0 (times_of-none key m h.1)

times_of-store_own :
    (key : String) (ts : List ℕ) (m : Attempts) → times_of key (store_window key ts m) ≡ ts
unfolding store_window set_last
times_of-store_own key [] m = times_of-none key (clear_login_attempts key m) (clear-Without key m)
times_of-store_own key (t ∷ ts) m =
    times_of-last key (t ∷ ts) (clear_login_attempts key m) (clear-Without key m)

trimmed :
    (key : String) (ts : List ℕ) (now : ℕ) (m : Attempts)
    → length m < max_throttle_keys
    → trim now (store_window key ts m) ≡ store_window key ts m
trimmed key ts now m room =
    trim-all now (store_window key ts m) (omega (arith, length-store_window key ts m, room))

-- An earlier check drops nothing that still counts.
window-window :
    (earlier now : ℕ) (ts : List ℕ)
    → earlier ≤ now
    → length (window now (window earlier ts)) ≡ length (window now ts)
unfolding window select
window-window earlier now [] le = refl
window-window earlier now (t ∷ ts) le = ground (arith, window-window earlier now ts le)

window-append :
    (now t : ℕ) (ts : List ℕ)
    → length (window now (ts ++ t ∷ []))
      ≡ length (window now ts) + (if ltb (now - t) 300 then 1 else 0)
unfolding window select
window-append now t [] = ground arith
window-append now t (u ∷ ts) = ground (arith, window-append now t ts)

-- A run of checks, failures and resets of all keys, up to the time `now`, in which the key itself is not
-- reset, and which leaves room in the table for what other keys and checks add. The number counts
-- the key's failures of the five minutes before `now`.
pub data Traffic (key : String) (now : ℕ) : ℕ → Attempts → Attempts → Type 0 where
  quiet : (m : Attempts) → Traffic key now 0 m m
  failure :
      {n : ℕ} {a b : Attempts} (t : ℕ)
      → Traffic key now n a b
      → Traffic key now (n + (if ltb (now - t) 300 then 1 else 0)) a (record_attempt key t b)
  check :
      {n : ℕ} {a b : Attempts} (limit t : ℕ)
      → t ≤ now
      → length b < max_throttle_keys
      → Traffic key now n a b
      → Traffic key now n a (throttle key limit t b).0
  others_failure :
      {n : ℕ} {a b : Attempts} (other : String) (t : ℕ)
      → str_eq other key ≡ false
      → length b < max_throttle_keys
      → Traffic key now n a b
      → Traffic key now n a (record_attempt other t b)
  others_check :
      {n : ℕ} {a b : Attempts} (other : String) (limit t : ℕ)
      → str_eq other key ≡ false
      → length b < max_throttle_keys
      → Traffic key now n a b
      → Traffic key now n a (throttle other limit t b).0
  others_reset :
      {n : ℕ} {a b : Attempts} (other : String)
      → str_eq other key ≡ false
      → Traffic key now n a b
      → Traffic key now n a (clear_login_attempts other b)

Traffic-counts :
    (key : String) (now n : ℕ) (a b : Attempts)
    → Traffic key now n a b
    → n ≤ length (window now (times_of key b))
unfolding throttle
Traffic-counts key now n a b (quiet m) = omega arith
Traffic-counts key now n a b (failure {n = m} {b = c} t run) =
    let before = Traffic-counts key now m a c run in
    let more = ap (λ ts. length (window now ts)) (times_of-record_attempt key t c) in
    omega (arith, before, more, window-append now t (times_of key c))
Traffic-counts key now n a b (check {b = c} limit t le room run) =
    let before = Traffic-counts key now n a c run in
    let recent = window t (times_of key c) in
    let same =
      ap (λ ts. length (window now ts))
        (ap (times_of key) (trimmed key recent t c room) ∙ times_of-store_own key recent c) in
    omega (arith, before, same, window-window t now (times_of key c) le)
Traffic-counts key now n a b (others_failure {b = c} other t h room run) =
    let before = Traffic-counts key now n a c run in
    omega (
      arith,
      before,
      ap (λ ts. length (window now ts)) (times_of-others_failure key other t c h room),
    )
Traffic-counts key now n a b (others_check {b = c} other limit t h room run) =
    let before = Traffic-counts key now n a c run in
    let recent = window t (times_of other c) in
    let same =
      ap (λ ts. length (window now ts))
        (ap (times_of key) (trimmed other recent t c room)
          ∙ times_of-store_other key other recent c h) in
    omega (arith, before, same)
Traffic-counts key now n a b (others_reset {b = c} other h run) =
    let before = Traffic-counts key now n a c run in
    omega (arith, before, ap (λ ts. length (window now ts)) (times_of-clear key other c h))

-- Among any checks and failures of the key, none of the checks later than now, and checks, failures and
-- resets of other keys, as long as the key itself is not reset and the table is not full when another
-- key fails or any key is checked, a key whose failures of the last five minutes reach the limit is
-- refused now.
pub throttle_blocks :
    (key : String) (limit now n : ℕ) (before after : Attempts)
    → Traffic key now n before after
    → limit ≤ n
    → (throttle key limit now after).1 ≡ true
unfolding throttle
throttle_blocks key limit now n before after run enough =
    let counted = Traffic-counts key now n before after run in ground arith
