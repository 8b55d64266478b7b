-- ===== src/Inventory.antt =====
-- app/inventory.py: `InventoryCache`, the snapshots of the connections' inventories. Each method's
-- critical section is one step; a probe runs between the step that submits it and the one that
-- stores what it found. One clock gives both `time.monotonic` and the time stamps.
pub mod Generations
mod Tests
use goblin_dock.Base.{
  ℕ, zero, suc, ◌+◌, ◌-◌, String, ◌≡◌, refl, Bool, true, false, not, ◌&&◌, ◌||◌, Option, none, some,
  List, [], ◌∷◌, ◌++◌, ◌==◌, leb, ltb, if◌then◌else◌, length, any, select, delete,
}

pub record Snapshot : Type 0 where
  pub status : String
  -- The VMs and volumes that the probe found.
  pub found : String
  pub updated_at : Option ℕ
  pub completed_at : Option ℕ
  pub error : Option String

abbrev pub no_snapshot : Snapshot
no_snapshot = record {
  status = "unknown";
  found = "";
  updated_at = none;
  completed_at = none;
  error = none;
}

-- `inflight` holds the connections with a submitted probe (a set in the source: `refresh` adds none twice), and `probes` the submitted calls of
-- `_refresh`: a connection and the generation it was submitted under.
pub record Cache : Type 0 where
  pub inflight : List ℕ
  pub probes : List (ℕ × ℕ)
  pub snapshots : ℕ → Option Snapshot
  pub generations : ℕ → ℕ
  pub stopped : Bool

-- `__init__`
abbrev pub no_cache : Cache
no_cache = record {
  inflight = [];
  probes = [];
  snapshots = λ k. none;
  generations = λ k. 0;
  stopped = false;
}

abbrev pub set_at {ℓ} : {A : Type ℓ} → ℕ → A → (ℕ → A) → ℕ → A
set_at k v f j = if j == k then v else f j

abbrev pub or_blank : Option Snapshot → Snapshot
or_blank none = no_snapshot
or_blank (some s) = s

-- The snapshot is younger than `ttl`.
abbrev pub is_fresh : ℕ → ℕ → Option Snapshot → Bool
is_fresh ttl now none = false
is_fresh ttl now (some s) = elim s.completed_at [ none ↦ false | some t ↦ ltb (now - t) ttl ]

abbrev pub is_some_text : Option String → Bool
is_some_text none = false
is_some_text (some e) = true

-- `snapshot`, with its flag `stale`.
unfoldable pub snapshot : ℕ → ℕ → ℕ → Cache → Snapshot × Bool
snapshot ttl k now c =
    let s = or_blank (c.snapshots k) in
    (s, is_some_text s.error || not (is_fresh ttl now (c.snapshots k)))

abbrev pub is_inflight : ℕ → Cache → Bool
is_inflight k c = any (λ j. j == k) c.inflight

module _ (ttl max_workers : ℕ) where
  -- `refresh`: whether a probe was submitted. `disabled` is the connection's flag.
  unfoldable pub refresh : ℕ → Bool → Bool → ℕ → Cache → Bool × Cache
  refresh k disabled force now c =
      if c.stopped || (disabled || is_inflight k c)
      then (false, c)
      else if not force && is_fresh ttl now (c.snapshots k)
      then (false, c)
      else if leb max_workers (length c.inflight)
      then (false, c)
      else (true, record c { inflight = k ∷ c.inflight; probes = (k, c.generations k) ∷ c.probes })

unfoldable pub invalidate : ℕ → Cache → Cache
invalidate k c = record c {
  snapshots = set_at k none c.snapshots;
  generations = set_at k (c.generations k + 1) c.generations;
}

-- What a probe found: its status and inventory, or the text of its failure.
pub data Found : Type 0 where
  answered : String → String → Found
  unavailable : String → Found

unfoldable pub merged : Found → ℕ → Snapshot → Snapshot
merged (answered status found) now old = record {
  status = status;
  found = found;
  updated_at = some now;
  completed_at = some now;
  error = none;
}
merged (unavailable message) now old = record old {
  status = "offline";
  completed_at = some now;
  error = some message;
}

-- The end of `_refresh`, for a probe of connection `k` that was submitted under generation `g`.
unfoldable pub store : ℕ → ℕ → Found → ℕ → Cache → Cache
unfolding merged
store k g found now c =
    let landed = record c { inflight = delete (λ j. j == k) c.inflight } in
    if not (g == c.generations k) then landed else record landed {
      snapshots = set_at k (some (merged found now (or_blank (c.snapshots k)))) c.snapshots;
    }

abbrev pub stop : Cache → Cache
stop c = record c { stopped = true }

abbrev pub is_probe : ℕ → ℕ → ℕ × ℕ → Bool
is_probe k g p = (p.0 == k) && (p.1 == g)

-- The pool hands a submitted probe over once; a probe that `stop` canceled is never handed over.
abbrev pub hand_over : ℕ → ℕ → Cache → Cache
hand_over k g c = record c { probes = delete (is_probe k g) c.probes }

-- One step of the API's and the scheduler's threads and of the pool.
pub data Step (ttl max_workers : ℕ) : Cache → Cache → Type 0 where
  refreshes :
      (k : ℕ) (disabled force : Bool) (now : ℕ) (c : Cache)
      → Step ttl max_workers c (refresh ttl max_workers k disabled force now c).1
  invalidates : (k : ℕ) (c : Cache) → Step ttl max_workers c (invalidate k c)
  stores :
      (k g : ℕ) (found : Found) (now : ℕ) (c : Cache)
      → any (is_probe k g) c.probes ≡ true
      → Step ttl max_workers c (store k g found now (hand_over k g c))
  stops : (c : Cache) → Step ttl max_workers c (stop c)

pub data Steps (ttl max_workers : ℕ) : Cache → Cache → Type 0 where
  done : (c : Cache) → Steps ttl max_workers c c
  more :
      {a b c : Cache}
      → Step ttl max_workers a b
      → Steps ttl max_workers b c
      → Steps ttl max_workers a c
