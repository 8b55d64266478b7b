-- ===== src/Values/Rows.antt =====
-- What an answered request to a handler of the secrets and variables leaves in the two tables.
use goblin_dock.Base.{
  ℕ, String, ◌≡◌, refl, ◌⊎◌, inl, inr, false, not, ◌||◌, Option, none, some, List, [], ◌∷◌, ◌++◌,
  arith, Bool-cases, any, get, put, remove, str_eq, strip, ok, Response, http, >>=-eq-ok,
  reject_if-ok,
}
use goblin_dock.Models.{User, Entry, Db}
use goblin_dock.Values.{
  entry_key, same_slot, scope_for, new_entry, is_system_secret, scoped_owned, clean_ref_name,
  name_clash, renamed_secret, renamed_variable, set_entry, new_value, add_secret, edit_secret,
  del_secret, reveal_secret, add_variable, edit_variable, del_variable,
}
use goblin_dock.Values.Handled.{}

-- A handler that answered found its row.
pub found_row :
    {A : Type 0} (o : Option Entry) (next : Entry → Response A) (a : A)
    → (elim o as (λ _. Response A) [ none ↦ http 404 "not found" | some e ↦ next e ]) ≡ ok a
    → (e : Entry) × (o ≡ some e) × (next e ≡ ok a)
found_row none next a h = cc
found_row (some e) next a h = (e, refl, h)

-- What an answered renaming found.
renamed_secret-free :
    (e : Entry) (name : Option String) (rows : List Entry) (clean : String)
    → renamed_secret e name rows ≡ ok clean
    → (clean ≡ e.name) ⊎ (any (name_clash e clean) rows ≡ false)
unfolding renamed_secret
renamed_secret-free e none rows clean h = inl (ground arith)
renamed_secret-free e (some name) rows clean h =
    elim (Bool-cases (str_eq (strip name) "" || str_eq (strip name) e.name)) [
      | inl old ↦ inl (ground arith)
      | inr new ↦ inr (ground arith)
    ]

renamed_variable-free :
    (e : Entry) (name : String) (rows : List Entry) (clean : String)
    → renamed_variable e name rows ≡ ok clean
    → (clean ≡ e.name) ⊎ (any (name_clash e clean) rows ≡ false)
unfolding renamed_variable
renamed_variable-free e name rows clean h =
    elim (Bool-cases (str_eq (strip name) "" || str_eq (strip name) e.name)) [
      | inl old ↦ inl (ground arith)
      | inr new ↦ inr (ground arith)
    ]

-- What an answered addition leaves in the table.
abbrev pub Added : List Entry → List Entry → Type 0
Added rows after =
    (e : Entry) × (any (same_slot e.scope e.owner_id e.name) rows ≡ false)
    × (after ≡ rows ++ e ∷ [])

pub add_secret-rows :
    (encrypt : String → String) (name text asked : String) (actor : User) (db after : Db)
    → add_secret encrypt name text asked actor db ≡ ok after
    → (after.variables ≡ db.variables) × Added db.secrets after.secrets
unfolding add_secret
add_secret-rows encrypt name text asked actor db after h =
    let (clean, c, body) = >>=-eq-ok (clean_ref_name name "secret name") _ h in
    let (a, body1) = reject_if-ok _ _ _ _ after body in
    let (b, body2) = reject_if-ok _ _ _ _ after body1 in
    (
      ground arith,
      (new_entry (scope_for asked actor) actor clean (encrypt text) db.secrets, b, ground arith),
    )

pub add_variable-rows :
    (name text asked : String) (actor : User) (db after : Db)
    → add_variable name text asked actor db ≡ ok after
    → (after.secrets ≡ db.secrets) × Added db.variables after.variables
unfolding add_variable
add_variable-rows name text asked actor db after h =
    let (clean, c, body) = >>=-eq-ok (clean_ref_name name "variable name") _ h in
    let (b, body1) = reject_if-ok _ _ _ _ after body in
    (
      ground arith,
      (new_entry (scope_for asked actor) actor clean text db.variables, b, ground arith),
    )

-- What an answered edit leaves.
abbrev pub Renamed : List Entry → List Entry → Type 0
Renamed rows after =
    (k : ℕ) × (e : Entry) × (name : String) × (text : String) × (get k rows ≡ some e)
    × ((name ≡ e.name) ⊎ (any (name_clash e name) rows ≡ false))
    × (after ≡ put k (set_entry name text) rows)

pub edit_secret-rows :
    (encrypt : String → String) (k : ℕ) (name text : Option String) (actor : User) (db after : Db)
    → edit_secret encrypt k name text actor db ≡ ok after
    → (after.variables ≡ db.variables) × Renamed db.secrets after.secrets
unfolding edit_secret
edit_secret-rows encrypt k name text actor db after h =
    let (e, row, body) = found_row (get k db.secrets) _ after h in
    let (sys, body1) = reject_if-ok (is_system_secret e) _ _ _ after body in
    let (mine, body2) = reject_if-ok (not (scoped_owned e actor)) _ _ _ after body1 in
    let (clean, c, body3) = >>=-eq-ok (renamed_secret e name db.secrets) _ body2 in
    (
      ground arith,
      (
        k,
        e,
        clean,
        new_value encrypt text e.value,
        row,
        renamed_secret-free e name db.secrets clean c,
        ground arith,
      ),
    )

pub edit_variable-rows :
    (k : ℕ) (name text : String) (actor : User) (db after : Db)
    → edit_variable k name text actor db ≡ ok after
    → (after.secrets ≡ db.secrets) × Renamed db.variables after.variables
unfolding edit_variable
edit_variable-rows k name text actor db after h =
    let (e, row, body) = found_row (get k db.variables) _ after h in
    let (mine, body1) = reject_if-ok (not (scoped_owned e actor)) _ _ _ after body in
    let (clean, c, body2) = >>=-eq-ok (renamed_variable e name db.variables) _ body1 in
    (
      ground arith,
      (k, e, clean, text, row, renamed_variable-free e name db.variables clean c, ground arith),
    )

pub del_secret-rows :
    (k : ℕ) (actor : User) (db after : Db)
    → del_secret k actor db ≡ ok after
    → (after.variables ≡ db.variables) × (after.secrets ≡ remove k db.secrets)
unfolding del_secret
del_secret-rows k actor db after h =
    let (e, row, body) = found_row (get k db.secrets) _ after h in
    let (sys, body1) = reject_if-ok (is_system_secret e) _ _ _ after body in
    let (mine, body2) = reject_if-ok (not (scoped_owned e actor)) _ _ _ after body1 in
    (ground arith, ground arith)

pub del_variable-rows :
    (k : ℕ) (actor : User) (db after : Db)
    → del_variable k actor db ≡ ok after
    → (after.secrets ≡ db.secrets) × (after.variables ≡ remove k db.variables)
unfolding del_variable
del_variable-rows k actor db after h =
    let (e, row, body) = found_row (get k db.variables) _ after h in
    let (mine, body1) = reject_if-ok (not (scoped_owned e actor)) _ _ _ after body in
    (ground arith, ground arith)

pub reveal_secret-rows :
    (decrypt : String → Option String) (k : ℕ) (actor : User) (db after : Db) (text : String)
    → reveal_secret decrypt k actor db ≡ ok (text, after)
    → (after.variables ≡ db.variables) × (after.secrets ≡ db.secrets)
unfolding reveal_secret
reveal_secret-rows decrypt k actor db after text h =
    let (e, row, body) = found_row (get k db.secrets) _ (text, after) h in
    let (sys, body1) = reject_if-ok (is_system_secret e) _ _ _ (text, after) body in
    let (mine, body2) = reject_if-ok (not (scoped_owned e actor)) _ _ _ (text, after) body1 in
    (ground arith, ground arith)
