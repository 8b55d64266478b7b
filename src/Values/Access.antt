-- ===== src/Values/Access.antt =====
-- Who may change a secret or a variable, and whose values a recipe gets.
use goblin_dock.Base.{
  reject_if-ok, ℕ, String, ◌≡◌, refl, sym, ◌∙◌, ap, subst, ◌⊎◌, inl, inr, Bool, true, false, not,
  ◌&&◌, Option, none, some, List, [], ◌∷◌, ◌++◌, arith, ◌==◌, if◌then◌else◌, Bool-cases, first, get,
  put, get-put_other, get-remove, str_eq, eq_iff, ok, >>=-eq-ok,
}
use goblin_dock.Models.{User, user_key, Scope, global, own, Entry, Db}
use goblin_dock.Values.{
  entry_key, scope_eq, owner_eq, is_system_secret, scoped_owned, set_entry, new_value,
  renamed_secret, edit_secret, del_secret, earliest, own_entry, resolve, owner_secret_context,
}
use goblin_dock.Values.Handled.{
  Handled, secret_added, secret_edited, secret_revealed, secret_deleted, variable_added,
  variable_edited, variable_deleted,
}
use goblin_dock.Values.Rows.{
  Added, found_row, add_secret-rows, reveal_secret-rows, add_variable-rows, edit_variable-rows,
  del_secret-rows, del_variable-rows,
}

-- A secret of the application, or one that is not the user's to change.
abbrev pub ProtectedSecret : User → Entry → Type 0
ProtectedSecret actor e = (is_system_secret e ≡ true) ⊎ (scoped_owned e actor ≡ false)

get-append :
    (k : ℕ) (rows more : List Entry) (e : Entry)
    → get k rows ≡ some e
    → get k (rows ++ more) ≡ some e
unfolding get first
get-append k [] more e h = cc
get-append k (r ∷ rows) more e h = ground (arith, get-append k rows more e)

Added-get :
    (k : ℕ) (rows after : List Entry) (e : Entry)
    → Added rows after
    → get k rows ≡ some e
    → get k after ≡ some e
Added-get k rows after e (n, free, same) h =
    subst (λ l. get k l ≡ some e) (sym same) (get-append k rows (n ∷ []) e h)

-- What an answered edit or deletion was allowed to change.
edit_secret-allowed :
    (encrypt : String → String) (j : ℕ) (name text : Option String) (actor : User) (db after : Db)
    → edit_secret encrypt j name text actor db ≡ ok after
    → (e : Entry) × (clean : String) × (get j db.secrets ≡ some e)
      × (is_system_secret e ≡ false)
      × (not (scoped_owned e actor) ≡ false)
      × (after.secrets ≡ put j (set_entry clean (new_value encrypt text e.value)) db.secrets)
unfolding edit_secret
edit_secret-allowed encrypt j name text actor db after h =
    let (e, row, body) = found_row (get j db.secrets) _ after h in
    let (sys, body1) = reject_if-ok (is_system_secret e) _ _ _ after body in
    let (mine, body2) = reject_if-ok (not (scoped_owned e actor)) _ _ _ after body1 in
    let (clean, c, body3) = >>=-eq-ok (renamed_secret e name db.secrets) _ body2 in
    (e, clean, row, sys, mine, ground arith)

del_secret-allowed :
    (j : ℕ) (actor : User) (db after : Db)
    → del_secret j actor db ≡ ok after
    → (e : Entry) × (get j db.secrets ≡ some e)
      × (is_system_secret e ≡ false)
      × (not (scoped_owned e actor) ≡ false)
unfolding del_secret
del_secret-allowed j actor db after h =
    let (e, row, body) = found_row (get j db.secrets) _ after h in
    let (sys, body1) = reject_if-ok (is_system_secret e) _ _ _ after body in
    let (mine, body2) = reject_if-ok (not (scoped_owned e actor)) _ _ _ after body1 in
    (e, row, sys, mine)

-- A protected row is not the one that was changed.
other_row :
    (actor : User) (k j : ℕ) (rows : List Entry) (e r : Entry)
    → ProtectedSecret actor e
    → get k rows ≡ some e
    → get j rows ≡ some r
    → is_system_secret r ≡ false
    → not (scoped_owned r actor) ≡ false
    → (k == j) ≡ false
other_row actor k j rows e r held row found sys mine = elim (Bool-cases (k == j)) [
  | inr h ↦ h
  | inl h ↦
      let here : k ≡ j = ground arith in
      let same : some e ≡ some r = sym row ∙ ap (λ i. get i rows) here ∙ found in
      let e_is : e ≡ r = ground arith in
      let kept : ProtectedSecret actor r = subst (ProtectedSecret actor) e_is held in
      elim kept [ inl s ↦ ground arith | inr s ↦ ground arith ]
]

-- None of the seven requests to the handlers of secrets and variables (add, edit, reveal and delete a
-- secret; add, edit and delete a variable), when it answers, changes or removes a secret of the
-- application (its name has the reserved prefix), whoever asks, or a secret that is not the user's to
-- change: one of another owner or of the global scope, unless the user is an administrator.
pub Handled-keeps-secret :
    (encrypt : String → String) (decrypt : String → Option String) (actor : User) (db after : Db)
    (k : ℕ) (e : Entry)
    → get k db.secrets ≡ some e
    → ProtectedSecret actor e
    → Handled encrypt decrypt actor db after
    → get k after.secrets ≡ some e
Handled-keeps-secret encrypt decrypt actor db after k e row held (secret_added name text asked h) =
    Added-get k db.secrets after.secrets e
      (add_secret-rows encrypt name text asked actor db after h).1 row
Handled-keeps-secret encrypt decrypt actor db after k e row held (secret_edited j name text h) =
    let (r, clean, found, sys, mine, same) =
      edit_secret-allowed encrypt j name text actor db after h in
    let f = set_entry clean (new_value encrypt text r.value) in
    subst (λ l. get k l ≡ some e) (sym same)
      (get-put_other j k f db.secrets (λ b. refl)
          (other_row actor k j db.secrets e r held row found sys mine)
        ∙ row)
Handled-keeps-secret encrypt decrypt actor db after k e row held (secret_revealed j text h) =
    subst (λ l. get k l ≡ some e) (sym (reveal_secret-rows decrypt j actor db after text h).1) row
Handled-keeps-secret encrypt decrypt actor db after k e row held (secret_deleted j h) =
    let (r, found, sys, mine) = del_secret-allowed j actor db after h in
    let other = other_row actor k j db.secrets e r held row found sys mine in
    subst (λ l. get k l ≡ some e) (sym (del_secret-rows j actor db after h).1)
      (get-remove j k db.secrets ∙ (rw other row))
Handled-keeps-secret encrypt decrypt actor db after k e row held
      (variable_added name text asked h) =
    subst (λ l. get k l ≡ some e) (sym (add_variable-rows name text asked actor db after h).0) row
Handled-keeps-secret encrypt decrypt actor db after k e row held (variable_edited j name text h) =
    subst (λ l. get k l ≡ some e) (sym (edit_variable-rows j name text actor db after h).0) row
Handled-keeps-secret encrypt decrypt actor db after k e row held (variable_deleted j h) =
    subst (λ l. get k l ≡ some e) (sym (del_variable-rows j actor db after h).0) row

earliest-some :
    (p : Entry → Bool) (rows : List Entry) (e : Entry) → earliest p rows ≡ some e → p e ≡ true
unfolding earliest
earliest-some p [] e h = cc
earliest-some p (x ∷ rows) e h = ground (arith, earliest-some p rows e)

-- What a name resolves to for an owner: a row of that name that is the owner's own, or a global one
-- where that is allowed.
abbrev pub Resolved : Option ℕ → Bool → String → Entry → Type 0
Resolved owner allow_global name e =
    (e.name ≡ name)
    × (((e.scope ≡ own) × (e.owner_id ≡ owner)) ⊎ ((e.scope ≡ global) × (allow_global ≡ true)))

scope_eq-own : (s : Scope) → scope_eq s own ≡ true → s ≡ own
scope_eq-own own h = refl
scope_eq-own global h = cc

scope_eq-global : (s : Scope) → scope_eq s global ≡ true → s ≡ global
scope_eq-global global h = refl
scope_eq-global own h = cc

owner_eq-some : (o : Option ℕ) (u : ℕ) → owner_eq o (some u) ≡ true → o ≡ some u
owner_eq-some none u h = cc
owner_eq-some (some a) u h = let e : a ≡ u = ground arith in ap some e

own_entry-Resolved :
    (owner : Option ℕ) (b : Bool) (name : String) (rows : List Entry) (e : Entry)
    → own_entry owner name rows ≡ some e
    → Resolved owner b name e
unfolding own_entry
own_entry-Resolved none b name rows e h = cc
own_entry-Resolved (some u) b name rows e h =
    let p =
      earliest-some
        (λ e. str_eq e.name name && (scope_eq e.scope own && owner_eq e.owner_id (some u))) rows e
        h in
    (
      (eq_iff e.name name).0 (ground arith),
      inl (scope_eq-own e.scope (ground arith), owner_eq-some e.owner_id u (ground arith)),
    )

pub resolve-Resolved :
    (owner : Option ℕ) (allow_global : Bool) (name : String) (rows : List Entry) (e : Entry)
    → resolve owner allow_global name rows ≡ some e
    → Resolved owner allow_global name e
unfolding resolve
resolve-Resolved owner b name rows e h = at_own (own_entry owner name rows) refl h
  where
    p : Entry → Bool
    p r = str_eq r.name name && scope_eq r.scope global

    at_global :
        (c : Bool)
        → b ≡ c
        → (if c then earliest p rows else none) ≡ some e
        → Resolved owner b name e
    at_global true on h' =
        let q = earliest-some p rows e h' in
        ((eq_iff e.name name).0 (ground arith), inr (scope_eq-global e.scope (ground arith), on))
    at_global false off h' = cc

    at_own :
        (o : Option Entry)
        → own_entry owner name rows ≡ o
        → (elim o as (λ _. Option Entry) [
          | some r ↦ some r
          | none ↦ if b then earliest p rows else none
        ])
          ≡ some e
        → Resolved owner b name e
    at_own none f h' = at_global b refl h'
    at_own (some r) f h' = own_entry-Resolved owner b name rows e (f ∙ h')

-- For an owner who is not an administrator (or whose account is gone, or who is not recorded), a name in a recipe
-- resolves to nothing but a row of that name that the owner has: never to a global value and never to
-- another user's.
pub resolve-own :
    (owner : Option ℕ) (name : String) (rows : List Entry) (db : Db) (e : Entry)
    → (owner_secret_context owner db).1 ≡ false
    → resolve (owner_secret_context owner db).0 (owner_secret_context owner db).1 name rows ≡ some e
    → (e.name ≡ name) × (e.scope ≡ own) × (e.owner_id ≡ owner)
resolve-own owner name rows db e plain h = go (
    resolve-Resolved (owner_secret_context owner db).0 (owner_secret_context owner db).1 name rows e
      h)
  where
    same_owner : (owner_secret_context owner db).0 ≡ owner
    same_owner = unfold owner_secret_context in ground arith

    go :
        Resolved (owner_secret_context owner db).0 (owner_secret_context owner db).1 name e
        → (e.name ≡ name) × (e.scope ≡ own) × (e.owner_id ≡ owner)
    go (n, inl (s, o)) = (n, s, o ∙ same_owner)
    go (n, inr (s, t)) = cc
