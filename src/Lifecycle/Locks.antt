-- ===== src/Lifecycle/Locks.antt =====
-- app/api.py: `_deployment_operation_lock`, the lock of one deployment. Entries are made and dropped under
-- the guard of their table, which is one step; waiting for an entry's own lock is not under the guard, so
-- other operations move in between.
mod Counted
mod Registry
pub mod Exclusive
mod Tests
use goblin_dock.Base.{
  ℕ, zero, suc, ◌+◌, ◌-◌, ◌≡◌, Bool, true, false, not, ◌&&◌, Option, none, some, List, [], ◌∷◌,
  ◌++◌, ◌==◌, if◌then◌else◌, count_if, is_key,
}

-- Where an operation stands: it waits for the lock, holds it, or has released it and has not left yet.
pub data Phase : Type 0 where
  waiting inside leaving : Phase

abbrev pub is_inside : Phase → Bool
is_inside inside = true
is_inside waiting = false
is_inside leaving = false

-- An operation on a deployment, with the entry that it took from the table.
pub record Visit : Type 0 where
  pub dep : ℕ
  pub entry : ℕ
  pub phase : Phase

-- `_deployment_operation_locks`, the count `users` of every entry object, the name of the next object,
-- and the operations under way.
pub record Locks : Type 0 where
  pub table : ℕ → Option ℕ
  pub users : ℕ → ℕ
  pub next : ℕ
  pub visits : List Visit

abbrev pub at_entry : ℕ → Visit → Bool
at_entry e v = v.entry == e

-- The entry's lock is held by the operation.
abbrev pub holds : ℕ → Visit → Bool
holds e v = at_entry e v && is_inside v.phase

abbrev pub set_key {ℓ} : {A : Type ℓ} → ℕ → A → (ℕ → A) → ℕ → A
set_key k a f j = if j == k then a else f j

abbrev pub take_entry : ℕ → ℕ → Locks → Locks
take_entry d e s = record s {
  users = set_key e (s.users e + 1) s.users;
  visits = s.visits ++ record { dep = d; entry = e; phase = waiting } ∷ [];
}

-- The first block under the guard.
unfoldable pub enter : ℕ → Locks → Locks
enter d s = elim (s.table d) [
  | some e ↦ take_entry d e s
  | none ↦
      take_entry d s.next (record s { table = set_key d (some s.next) s.table; next = s.next + 1 })
]

-- The deletion of an entry that nobody uses any more, if it is still the one of the table.
abbrev pub drop_entry : Visit → ℕ → (ℕ → Option ℕ) → ℕ → Option ℕ
drop_entry v users table =
    if (users == 0) && is_key v.entry (table v.dep) then set_key v.dep none table else table

-- The last block under the guard, for an operation that is no longer among the visits.
unfoldable pub leave : Visit → Locks → Locks
leave v s =
    let left = s.users v.entry - 1 in
    record s { users = set_key v.entry left s.users; table = drop_entry v left s.table }

abbrev pub nobody : Locks
nobody = record { table = λ d. none; users = λ e. 0; next = 0; visits = [] }

-- One step of one operation; any operation that can move may be the next to do so.
pub data Step (s after : Locks) : Type 0 where
  entered : (d : ℕ) → after ≡ enter d s → Step s after
  acquired :
      (bs : List Visit) (v : Visit) (rest : List Visit)
      → s.visits ≡ bs ++ v ∷ rest
      → v.phase ≡ waiting
      → count_if (holds v.entry) s.visits ≡ 0
      → after ≡ record s { visits = bs ++ record v { phase = inside } ∷ rest }
      → Step s after
  released :
      (bs : List Visit) (v : Visit) (rest : List Visit)
      → s.visits ≡ bs ++ v ∷ rest
      → v.phase ≡ inside
      → after ≡ record s { visits = bs ++ record v { phase = leaving } ∷ rest }
      → Step s after
  departed :
      (bs : List Visit) (v : Visit) (rest : List Visit)
      → s.visits ≡ bs ++ v ∷ rest
      → v.phase ≡ leaving
      → after ≡ leave v (record s { visits = bs ++ rest })
      → Step s after

pub data Steps : Locks → Locks → Type 0 where
  start : {s : Locks} → Steps s s
  more : {s middle after : Locks} → Steps s middle → Step middle after → Steps s after
