-- ===== src/Values/Names.antt =====
-- No two secrets, and no two variables, have the same scope, owner and name.
use goblin_dock.Base.{
  ℕ, ◌+◌, ◌≤◌, String, ◌≡◌, refl, sym, ap, subst, ◌⊎◌, inl, inr, Bool, true, false, not, ◌&&◌,
  Option, none, some, List, [], ◌∷◌, ◌++◌, arith, ◌==◌, if◌then◌else◌, Bool-cases, any, count_if,
  count_if-append, count_if-select-le, first, update, get, put, remove, has_id, get_id, str_eq,
  eq_iff,
}
use goblin_dock.Models.{User, Scope, global, own, Entry, Db}
use goblin_dock.Values.{entry_key, scope_eq, owner_eq, same_slot, name_clash, set_entry}
use goblin_dock.Values.Rows.{
  Added, Renamed, add_secret-rows, edit_secret-rows, del_secret-rows, reveal_secret-rows,
  add_variable-rows, edit_variable-rows, del_variable-rows,
}
use goblin_dock.Values.Handled.{
  Handled, secret_added, secret_edited, secret_revealed, secret_deleted, variable_added,
  variable_edited, variable_deleted,
}

abbrev pub DistinctNames : List Entry → Type 0
DistinctNames rows =
    (s : Scope) (o : Option ℕ) (name : String) → count_if (same_slot s o name) rows ≤ 1

abbrev pub DistinctKeys : List Entry → Type 0
DistinctKeys rows = (k : ℕ) → count_if (has_id k) rows ≤ 1

scope_eq_lem : (s t : Scope) → scope_eq s t ≡ true → s ≡ t
scope_eq_lem global global h = refl
scope_eq_lem own own h = refl
scope_eq_lem global own h = cc
scope_eq_lem own global h = cc

owner_eq_lem : (a b : Option ℕ) → owner_eq a b ≡ true → a ≡ b
owner_eq_lem none none h = refl
owner_eq_lem (some a) (some b) h = let e : a ≡ b = ground arith in ap some e
owner_eq_lem none (some b) h = cc
owner_eq_lem (some a) none h = cc

-- A row is in one slot only.
same_slot_lem :
    (s : Scope) (o : Option ℕ) (name : String) (e : Entry)
    → same_slot s o name e ≡ true
    → (e.scope ≡ s) × (e.owner_id ≡ o) × (e.name ≡ name)
same_slot_lem s o name e h = (
  scope_eq_lem e.scope s (ground arith),
  owner_eq_lem e.owner_id o (ground arith),
  (eq_iff e.name name).0 (ground arith),
)

none_pass : (p : Entry → Bool) (rows : List Entry) → any p rows ≡ false → count_if p rows ≡ 0
unfolding any count_if
none_pass p [] h = refl
none_pass p (e ∷ rows) h = ground (arith, none_pass p rows)

append-DistinctNames :
    (rows : List Entry) (e : Entry)
    → any (same_slot e.scope e.owner_id e.name) rows ≡ false
    → DistinctNames rows
    → DistinctNames (rows ++ e ∷ [])
unfolding count_if
append-DistinctNames rows e free distinct s o name =
    let both = count_if-append (same_slot s o name) rows (e ∷ []) in
    let before = distinct s o name in
    elim (Bool-cases (same_slot s o name e)) [
      | inl h ↦
          let (p, q, r) = same_slot_lem s o name e h in
          let nobody : count_if (same_slot s o name) rows ≡ 0 =
            rw⁻¹ (p, q, r) (none_pass (same_slot e.scope e.owner_id e.name) rows free) in
          ground arith
      | inr h ↦ ground arith
    ]

abbrev one_if : Bool → ℕ
one_if b = if b then 1 else 0

-- Writing to the one row with a key changes a count by that row.
count_if-put :
    (t : Entry → Bool) (k : ℕ) (f : Entry → Entry) (rows : List Entry) (e : Entry)
    → get k rows ≡ some e
    → count_if (has_id k) rows ≤ 1
    → count_if t (put k f rows) + one_if (t e) ≡ count_if t rows + one_if (t (f e))
unfolding get first put update count_if
count_if-put t k f [] e h one = cc
count_if-put t k f (x ∷ rows) e h one = elim (Bool-cases (x.id == k)) [
  | inl same ↦
      let here : x ≡ e = ground arith in
      let none_left : count_if (has_id k) rows ≡ 0 = ground arith in
      let rest = count_if-put_absent t k f rows none_left in
      subst
        (λ y.
          count_if t (put k f (x ∷ rows)) + one_if (t y) ≡ count_if t (x ∷ rows) + one_if (t (f y)))
        here (ground arith)
  | inr other ↦ let rest = count_if-put t k f rows e (ground arith) (ground arith) in ground arith
]
  where
    count_if-put_absent :
        (t : Entry → Bool) (k : ℕ) (f : Entry → Entry) (rows : List Entry)
        → count_if (has_id k) rows ≡ 0
        → count_if t (put k f rows) ≡ count_if t rows
    count_if-put_absent t k f [] h = refl
    count_if-put_absent t k f (y ∷ ys) h = ground (arith, count_if-put_absent t k f ys)

-- The rows that pass are the one with the key, if it passes, and the others.
count_if-others :
    (t : Entry → Bool) (k : ℕ) (rows : List Entry) (e : Entry)
    → get k rows ≡ some e
    → count_if (has_id k) rows ≤ 1
    → count_if t rows ≡ count_if (λ r. t r && not (r.id == k)) rows + one_if (t e)
unfolding get first count_if
count_if-others t k [] e h one = cc
count_if-others t k (x ∷ rows) e h one = elim (Bool-cases (x.id == k)) [
  | inl same ↦
      let here : x ≡ e = ground arith in
      let none_left : count_if (has_id k) rows ≡ 0 = ground arith in
      let rest = count_if-absent t k rows none_left in
      subst
        (λ y.
          count_if t (x ∷ rows) ≡ count_if (λ r. t r && not (r.id == k)) (x ∷ rows) + one_if (t y))
        here (ground arith)
  | inr other ↦ let rest = count_if-others t k rows e (ground arith) (ground arith) in ground arith
]
  where
    count_if-absent :
        (t : Entry → Bool) (k : ℕ) (rows : List Entry)
        → count_if (has_id k) rows ≡ 0
        → count_if t rows ≡ count_if (λ r. t r && not (r.id == k)) rows
    count_if-absent t k [] h = refl
    count_if-absent t k (y ∷ ys) h = ground (arith, count_if-absent t k ys)

-- A renamed row: nothing else in its scope has the new name, or the name is the old one.
put-DistinctNames :
    (k : ℕ) (name text : String) (rows : List Entry) (e : Entry)
    → get k rows ≡ some e
    → DistinctKeys rows
    → (name ≡ e.name) ⊎ (any (name_clash e name) rows ≡ false)
    → DistinctNames rows
    → DistinctNames (put k (set_entry name text) rows)
put-DistinctNames k name text rows e found keys (inl same) distinct s o other =
    let moved = count_if-put (same_slot s o other) k (set_entry name text) rows e found (keys k) in
    let kept : same_slot s o other (set_entry name text e) ≡ same_slot s o other e =
      ap (λ n. scope_eq e.scope s && (owner_eq e.owner_id o && str_eq n other)) same in
    let before = distinct s o other in ground arith
put-DistinctNames k name text rows e found keys (inr free) distinct s o other =
    let moved = count_if-put (same_slot s o other) k (set_entry name text) rows e found (keys k) in
    let before = distinct s o other in
    elim (Bool-cases (same_slot s o other (set_entry name text e))) [
      | inl h ↦
          let (p, q, r) = same_slot_lem s o other (set_entry name text e) h in
          let others = count_if-others (same_slot s o other) k rows e found (keys k) in
          let id_is : e.id ≡ k = get_id k rows e found in
          let nobody : count_if (λ row. same_slot s o other row && not (row.id == k)) rows ≡ 0 =
            rw⁻¹ (p, q, r, id_is) (none_pass (name_clash e name) rows free) in
          ground arith
      | inr h ↦ ground arith
    ]

remove-DistinctNames :
    (k : ℕ) (rows : List Entry) → DistinctNames rows → DistinctNames (remove k rows)
unfolding remove
remove-DistinctNames k rows distinct s o name =
    let less = count_if-select-le (same_slot s o name) (λ r. not (has_id k r)) rows in
    omega (arith, less, distinct s o name)

-- Names are distinct within each scope of the secrets and of the variables.
abbrev pub Distinct : Db → Type 0
Distinct db = DistinctNames db.secrets × DistinctNames db.variables

appended : (rows after : List Entry) → Added rows after → DistinctNames rows → DistinctNames after
appended rows after (e, free, same) distinct =
    subst DistinctNames (sym same) (append-DistinctNames rows e free distinct)

rewritten :
    (rows after : List Entry)
    → Renamed rows after
    → DistinctKeys rows
    → DistinctNames rows
    → DistinctNames after
rewritten rows after (k, e, name, text, row, free, same) keys distinct =
    subst DistinctNames (sym same) (put-DistinctNames k name text rows e row keys free distinct)

-- Every answered request to add, edit, reveal or delete a secret or a variable, by any user and with any
-- name, leaves no two secrets and no two variables with one scope, one owner and one name, if there
-- were none before and primary keys are unique.
pub Handled-Distinct :
    (encrypt : String → String) (decrypt : String → Option String) (actor : User) (db after : Db)
    → DistinctKeys db.secrets
    → DistinctKeys db.variables
    → Distinct db
    → Handled encrypt decrypt actor db after
    → Distinct after
Handled-Distinct encrypt decrypt actor db after ks kv (s, v) (secret_added name text asked h) =
    let (same, rows) = add_secret-rows encrypt name text asked actor db after h in
    (appended db.secrets after.secrets rows s, subst DistinctNames (sym same) v)
Handled-Distinct encrypt decrypt actor db after ks kv (s, v) (secret_edited k name text h) =
    let (same, rows) = edit_secret-rows encrypt k name text actor db after h in
    (rewritten db.secrets after.secrets rows ks s, subst DistinctNames (sym same) v)
Handled-Distinct encrypt decrypt actor db after ks kv (s, v) (secret_revealed k text h) =
    let (same, rows) = reveal_secret-rows decrypt k actor db after text h in
    (subst DistinctNames (sym rows) s, subst DistinctNames (sym same) v)
Handled-Distinct encrypt decrypt actor db after ks kv (s, v) (secret_deleted k h) =
    let (same, rows) = del_secret-rows k actor db after h in
    (
      subst DistinctNames (sym rows) (remove-DistinctNames k db.secrets s),
      subst DistinctNames (sym same) v,
    )
Handled-Distinct encrypt decrypt actor db after ks kv (s, v) (variable_added name text asked h) =
    let (same, rows) = add_variable-rows name text asked actor db after h in
    (subst DistinctNames (sym same) s, appended db.variables after.variables rows v)
Handled-Distinct encrypt decrypt actor db after ks kv (s, v) (variable_edited k name text h) =
    let (same, rows) = edit_variable-rows k name text actor db after h in
    (subst DistinctNames (sym same) s, rewritten db.variables after.variables rows kv v)
Handled-Distinct encrypt decrypt actor db after ks kv (s, v) (variable_deleted k h) =
    let (same, rows) = del_variable-rows k actor db after h in
    (
      subst DistinctNames (sym same) s,
      subst DistinctNames (sym rows) (remove-DistinctNames k db.variables v),
    )
