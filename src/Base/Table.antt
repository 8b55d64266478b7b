-- ===== src/Base/Table.antt =====
-- A table of the database: the list of its rows, each with a primary key.
use Prim.Native.Nat.{ℕ}
use mathlib.Core.Path.{◌≡◌}
use mathlib.Core.Bool.{Bool, true, false}
use mathlib.Core.Option.{Option, none, some}
use mathlib.Core.Option
use mathlib.Core.List.{List, [], ◌∷◌}
use native.Mathlib.Omega.{arith}
use goblin_dock.Base.Tests.{◌==◌, ==_refl, if◌then◌else◌}
use goblin_dock.Base.Lists.{select, first, update, delete}

pub record Keyed (A : Type 0) : Type 0 where
  pub id : A → ℕ

-- `fk == k` for a nullable foreign key.
abbrev pub is_key : ℕ → Option ℕ → Bool
is_key k none = false
is_key k (some j) = j == k

module _ {A : Type 0} ⦃t : Keyed A⦄ where
  abbrev pub has_id : ℕ → A → Bool
  has_id k row = t.id row == k

  -- `session.get(Model, k)`
  unfoldable pub get : ℕ → List A → Option A
  get k rows = first (has_id k) rows

  -- Writing to the row with primary key `k`.
  unfoldable pub put : ℕ → (A → A) → List A → List A
  put k f rows = update (has_id k) f rows

  -- `session.delete(row)`
  unfoldable pub remove : ℕ → List A → List A
  remove k rows = delete (has_id k) rows

  -- `session.get(Model, fk) if fk else None`
  abbrev pub get_opt : Option ℕ → List A → Option A
  get_opt none rows = none
  get_opt (some k) rows = get k rows

  pub get-put :
      (k j : ℕ) (f : A → A) (rows : List A)
      → ((a : A) → t.id (f a) ≡ t.id a)
      → get j (put k f rows) ≡ (if j == k then Option.map f (get j rows) else get j rows)
  unfolding get put first update
  get-put k j f [] h = ground arith
  get-put k j f (x ∷ rows) h = ground (arith, h x, get-put k j f rows h)

  pub get-remove :
      (k j : ℕ) (rows : List A) → get j (remove k rows) ≡ (if j == k then none else get j rows)
  unfolding get remove first select
  get-remove k j [] = ground arith
  get-remove k j (x ∷ rows) = ground (arith, get-remove k j rows)

  pub get_id : (k : ℕ) (rows : List A) (a : A) → get k rows ≡ some a → t.id a ≡ k
  unfolding get first
  get_id k [] a h = cc
  get_id k (x ∷ rows) a h = ground (arith, get_id k rows a)

  -- The row that was written is found again; every other row is as it was.
  pub get-put_self :
      (k : ℕ) (f : A → A) (rows : List A) (a : A)
      → ((b : A) → t.id (f b) ≡ t.id b)
      → get k rows ≡ some a
      → get k (put k f rows) ≡ some (f a)
  get-put_self k f rows a h e = rw (get-put k k f rows h, ==_refl k, e)

  pub get-put_other :
      (k j : ℕ) (f : A → A) (rows : List A)
      → ((b : A) → t.id (f b) ≡ t.id b)
      → (j == k) ≡ false
      → get j (put k f rows) ≡ get j rows
  get-put_other k j f rows h e = rw (get-put k j f rows h, e)

  abbrev pub exists : ℕ → List A → Bool
  exists k rows = elim (get k rows) [ none ↦ false | some a ↦ true ]

  pub exists-put :
      (k j : ℕ) (f : A → A) (rows : List A)
      → ((b : A) → t.id (f b) ≡ t.id b)
      → exists j (put k f rows) ≡ exists j rows
  exists-put k j f rows h = ground (arith, get-put k j f rows h)

  pub exists-remove :
      (k j : ℕ) (rows : List A) → (j == k) ≡ false → exists j (remove k rows) ≡ exists j rows
  exists-remove k j rows h = ground (arith, get-remove k j rows)
