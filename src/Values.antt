-- ===== src/Values.antt =====
-- app/api.py: secrets and variables, the values that a recipe may name; and the lookup of app/worker.py
-- that resolves such a name. `encrypt` and `decrypt` are arguments, and the time of a secret's last
-- use is left out.
pub mod Handled
pub mod Rows
pub mod Names
pub mod Access
mod Tests
use Prim.Native.Char.{Char, code}
use goblin_dock.Base.{
  ℕ, zero, suc, ◌+◌, String, ◌≡◌, Bool, true, false, not, ◌&&◌, ◌||◌, Option, none, some, List, [],
  ◌∷◌, ◌++◌, ◌==◌, leb, if◌then◌else◌, any, get, put, remove, str_eq, str_append, strip, Keyed,
  Response, ok, http, ◌>>=◌, ◌>>◌, reject_if,
}
use goblin_dock.Models.{
  User, is_admin, Scope, global, own, Entry, Db, next_id, record_audit, user_key,
}

instance abbrev pub entry_key : Keyed Entry
entry_key = record { id = λ r. r.id }

abbrev pub scope_eq : Scope → Scope → Bool
scope_eq global global = true
scope_eq own own = true
scope_eq global own = false
scope_eq own global = false

abbrev pub owner_eq : Option ℕ → Option ℕ → Bool
owner_eq none none = true
owner_eq (some a) (some b) = a == b
owner_eq none (some b) = false
owner_eq (some a) none = false

-- A row with the scope, the owner and the name.
abbrev pub same_slot : Scope → Option ℕ → String → Entry → Bool
same_slot s o name e = scope_eq e.scope s && (owner_eq e.owner_id o && str_eq e.name name)

-- `_scoped_owned`
abbrev pub scoped_owned : Entry → User → Bool
scoped_owned e u = elim e.scope [
  | global ↦ is_admin u.role
  | own ↦ owner_eq e.owner_id (some u.id) || is_admin u.role
]

-- `text.startswith(prefix)`
unfoldable pub starts_with : String → String → Bool
starts_with String.[] s = true
starts_with (String.◌∷◌ c p) String.[] = false
starts_with (String.◌∷◌ c p) (String.◌∷◌ d s) = (code c == code d) && starts_with p s

abbrev pub system_prefix : String
system_prefix = "GD_MANAGED_"

-- `_is_system_secret`
abbrev pub is_system_secret : Entry → Bool
is_system_secret e = starts_with system_prefix e.name

-- The characters of `[A-Za-z0-9_]`.
unfoldable pub is_ref_char : Char → Bool
is_ref_char c =
    let n = code c in
    (leb 65 n && leb n 90) || ((leb 97 n && leb n 122) || ((leb 48 n && leb n 57) || (n == 95)))

unfoldable pub all_ref_chars : String → Bool
unfolding is_ref_char
all_ref_chars String.[] = true
all_ref_chars (String.◌∷◌ c s) = is_ref_char c && all_ref_chars s

-- `_clean_ref_name`
unfoldable pub clean_ref_name : String → String → Response String
unfolding all_ref_chars
clean_ref_name name what =
    if not (str_eq (strip name) "") && all_ref_chars (strip name)
    then ok (strip name)
    else http 400 (
        str_append (str_append "invalid " what)
          ": use letters, digits and underscore only (must be referenceable as {{ secrets.NAME }} / {{ variable.NAME }})")

abbrev pub scope_text : Scope → String
scope_text global = "global"
scope_text own = "user"

-- The answer to a name that is there already; `what` is " secret named '" or " variable named '".
abbrev pub taken_text : Scope → String → String → String
taken_text s what name =
    str_append (str_append "a " (scope_text s))
      (str_append what (str_append name "' already exists"))

-- Anything but "user" asks for the global scope, which only an administrator gets.
abbrev pub scope_for : String → User → Scope
scope_for asked u = if str_eq asked "user" then own else if is_admin u.role then global else own

abbrev pub owner_for : Scope → User → Option ℕ
owner_for global u = none
owner_for own u = some u.id

abbrev pub new_entry : Scope → User → String → String → List Entry → Entry
new_entry s u name text rows = record {
  id = next_id rows;
  scope = s;
  owner_id = owner_for s u;
  name = name;
  value = text;
}

abbrev pub reserved_text : String
reserved_text = "the 'GD_MANAGED_' name prefix is reserved for app-managed secrets"

unfoldable pub add_secret : (String → String) → String → String → String → User → Db → Response Db
unfolding clean_ref_name starts_with
add_secret encrypt name text asked actor db =
    let s = scope_for asked actor in
    do
      clean ← clean_ref_name name "secret name"
      reject_if (starts_with system_prefix clean) 400 reserved_text
      reject_if (any (same_slot s (owner_for s actor) clean) db.secrets) 409
          (taken_text s " secret named '" clean)
      ok (
          record_audit actor.id "secret.create" 0 clean (record db {
            secrets = db.secrets ++ new_entry s actor clean (encrypt text) db.secrets ∷ [];
          }))

unfoldable pub del_secret : ℕ → User → Db → Response Db
unfolding starts_with
del_secret k actor db = elim (get k db.secrets) [
  | none ↦ http 404 "not found"
  | some e ↦ do
    reject_if (is_system_secret e) 403 "app-managed secret cannot be deleted"
    reject_if (not (scoped_owned e actor)) 403 "not yours"
    ok (
        record_audit actor.id "secret.delete" k e.name
          (record db { secrets = remove k db.secrets }))
]

-- The plaintext, and the database with the audit row.
unfoldable pub reveal_secret : (String → Option String) → ℕ → User → Db → Response (String × Db)
unfolding starts_with
reveal_secret decrypt k actor db = elim (get k db.secrets) [
  | none ↦ http 404 "not found"
  | some e ↦ do
    reject_if (is_system_secret e) 403 "app-managed secret cannot be revealed"
    reject_if (not (scoped_owned e actor)) 403 "not yours"
    elim (decrypt e.value) [
      | none ↦ http 500 "secret decryption failed (key mismatch or corrupt ciphertext)"
      | some text ↦ ok (text, record_audit actor.id "secret.reveal" e.id e.name db)
    ]
]

-- Another row has the name, in the scope of this one.
abbrev pub name_clash : Entry → String → Entry → Bool
name_clash e name r = same_slot e.scope e.owner_id name r && not (r.id == e.id)

unfoldable pub renamed_secret : Entry → Option String → List Entry → Response String
unfolding clean_ref_name starts_with
renamed_secret e none rows = ok e.name
renamed_secret e (some name) rows =
    if str_eq (strip name) "" || str_eq (strip name) e.name then ok e.name else (do
      clean ← clean_ref_name name "secret name"
      reject_if (starts_with system_prefix clean) 400 reserved_text
      reject_if (any (name_clash e clean) rows) 409 (taken_text e.scope " secret named '" clean)
      ok clean)

-- A missing or empty value keeps the old one.
abbrev pub new_value : (String → String) → Option String → String → String
new_value encrypt none old = old
new_value encrypt (some text) old = if str_eq text "" then old else encrypt text

abbrev pub set_entry : String → String → Entry → Entry
set_entry name text r = record r { name = name; value = text }

unfoldable pub edit_secret :
    (String → String) → ℕ → Option String → Option String → User → Db → Response Db
unfolding renamed_secret starts_with
edit_secret encrypt k name text actor db = elim (get k db.secrets) [
  | none ↦ http 404 "not found"
  | some e ↦ do
    reject_if (is_system_secret e) 403 "app-managed secret cannot be edited"
    reject_if (not (scoped_owned e actor)) 403 "not yours"
    clean ← renamed_secret e name db.secrets
    ok (
        record_audit actor.id "secret.update" e.id clean (record db {
          secrets = put k (set_entry clean (new_value encrypt text e.value)) db.secrets;
        }))
]

unfoldable pub add_variable : String → String → String → User → Db → Response Db
unfolding clean_ref_name
add_variable name text asked actor db =
    let s = scope_for asked actor in
    do
      clean ← clean_ref_name name "variable name"
      reject_if (any (same_slot s (owner_for s actor) clean) db.variables) 409
          (taken_text s " variable named '" clean)
      ok (
          record_audit actor.id "variable.create" 0 clean (record db {
            variables = db.variables ++ new_entry s actor clean text db.variables ∷ [];
          }))

unfoldable pub renamed_variable : Entry → String → List Entry → Response String
unfolding clean_ref_name
renamed_variable e name rows =
    if str_eq (strip name) "" || str_eq (strip name) e.name then ok e.name else (do
      clean ← clean_ref_name name "variable name"
      reject_if (any (name_clash e clean) rows) 409 (taken_text e.scope " variable named '" clean)
      ok clean)

unfoldable pub edit_variable : ℕ → String → String → User → Db → Response Db
unfolding renamed_variable
edit_variable k name text actor db = elim (get k db.variables) [
  | none ↦ http 404 "not found"
  | some e ↦ do
    reject_if (not (scoped_owned e actor)) 403 "not yours"
    clean ← renamed_variable e name db.variables
    ok (
        record_audit actor.id "variable.update" e.id clean
          (record db { variables = put k (set_entry clean text) db.variables }))
]

unfoldable pub del_variable : ℕ → User → Db → Response Db
del_variable k actor db = elim (get k db.variables) [
  | none ↦ http 404 "not found"
  | some e ↦ do
    reject_if (not (scoped_owned e actor)) 403 "not yours"
    ok (
        record_audit actor.id "variable.delete" k e.name
          (record db { variables = remove k db.variables }))
]

-- The row with the smallest primary key that passes a test.
unfoldable pub earliest : (Entry → Bool) → List Entry → Option Entry
earliest p [] = none
earliest p (x ∷ xs) =
    let rest = earliest p xs in
    if p x
    then elim rest [ none ↦ some x | some y ↦ if leb x.id y.id then some x else some y ]
    else rest

unfoldable pub own_entry : Option ℕ → String → List Entry → Option Entry
unfolding earliest
own_entry none name rows = none
own_entry (some u) name rows =
    earliest (λ e. str_eq e.name name && (scope_eq e.scope own && owner_eq e.owner_id (some u)))
      rows

-- The row that a name of the recipe resolves to: the owner's own, or else, where that is allowed, a
-- global one.
unfoldable pub resolve : Option ℕ → Bool → String → List Entry → Option Entry
unfolding own_entry earliest
resolve owner allow_global name rows = elim (own_entry owner name rows) [
  | some e ↦ some e
  | none ↦
      if allow_global
      then earliest (λ e. str_eq e.name name && scope_eq e.scope global) rows
      else none
]

-- `_owner_secret_context`: whether the values of the global scope may be used.
unfoldable pub owner_secret_context : Option ℕ → Db → Option ℕ × Bool
owner_secret_context none db = (none, false)
owner_secret_context (some k) db = elim (get k db.users) [
  | none ↦ (some k, false)
  | some u ↦ (some k, is_admin u.role)
]

-- What `lookup` of `_secret_lookup_factory` answers, for a variable or for a secret.
unfoldable pub lookup : (String → String) → Option ℕ → Bool → Bool → String → Db → String
unfolding resolve
lookup decrypt owner allow_global is_variable name db =
    if is_variable
    then elim (resolve owner allow_global name db.variables) [ none ↦ "" | some e ↦ e.value ]
    else elim (resolve owner allow_global name db.secrets) [ none ↦ "" | some e ↦ decrypt e.value ]
