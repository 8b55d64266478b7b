-- ===== src/Values/Handled.antt =====
-- One answered request to the handlers of the secrets and variables.
use goblin_dock.Base.{ℕ, String, ◌≡◌, Option, ok}
use goblin_dock.Models.{User, Db}
use goblin_dock.Values.{
  add_secret, del_secret, reveal_secret, edit_secret, add_variable, edit_variable, del_variable,
}

-- A handler answered a request of `actor` and led from `db` to `after`.
pub data Handled (encrypt : String → String) (decrypt : String → Option String) (actor : User)
    (db after : Db) : Type 0 where
  secret_added :
      (name text asked : String)
      → add_secret encrypt name text asked actor db ≡ ok after
      → Handled encrypt decrypt actor db after
  secret_edited :
      (k : ℕ) (name text : Option String)
      → edit_secret encrypt k name text actor db ≡ ok after
      → Handled encrypt decrypt actor db after
  secret_revealed :
      (k : ℕ) (text : String)
      → reveal_secret decrypt k actor db ≡ ok (text, after)
      → Handled encrypt decrypt actor db after
  secret_deleted :
      (k : ℕ) → del_secret k actor db ≡ ok after → Handled encrypt decrypt actor db after
  variable_added :
      (name text asked : String)
      → add_variable name text asked actor db ≡ ok after
      → Handled encrypt decrypt actor db after
  variable_edited :
      (k : ℕ) (name text : String)
      → edit_variable k name text actor db ≡ ok after
      → Handled encrypt decrypt actor db after
  variable_deleted :
      (k : ℕ) → del_variable k actor db ≡ ok after → Handled encrypt decrypt actor db after
