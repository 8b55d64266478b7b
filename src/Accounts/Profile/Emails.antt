-- ===== src/Accounts/Profile/Emails.antt =====
-- No two accounts that are not deleted share an address.
use goblin_dock.Base.{
  ℕ, ◌≤◌, String, ◌≡◌, refl, subst, true, false, Option, none, some, List, [], ◌∷◌, ◌++◌, arith,
  Bool-cases, inl, inr, any, count_if, count_if-append, count_if-update, update, put, has_id,
  str_eq, eq_iff, ok,
}
use goblin_dock.Models.{Role, User, Db, user_key}
use goblin_dock.Accounts.{}
use goblin_dock.Accounts.Profile.{
  has_email, new_user, add_user, rename, clashes, given, set_profile, save_profile, update_profile,
}

abbrev pub DistinctEmails : List User → Type 0
DistinctEmails users = (email : String) → count_if (has_email email) users ≤ 1

nobody_has :
    (email : String) (users : List User)
    → any (has_email email) users ≡ false
    → count_if (has_email email) users ≡ 0
unfolding any count_if
nobody_has email [] h = refl
nobody_has email (u ∷ users) h = ground (arith, nobody_has email users)

same_text : (a b : String) → str_eq a b ≡ true → a ≡ b
same_text a b h = (eq_iff a b).0 h

-- Adding an account keeps the addresses distinct.
pub add_user-DistinctEmails :
    (email name hashed : String) (problem : Option String) (role : Role) (actor : User)
    (db db' : Db)
    → DistinctEmails db.users
    → add_user email name hashed problem role actor db ≡ ok db'
    → DistinctEmails db'.users
unfolding add_user count_if
add_user-DistinctEmails email name hashed problem role actor db db' distinct h other =
    let fresh : any (has_email email) db.users ≡ false = ground arith in
    let nobody = nobody_has email db.users fresh in
    let new = new_user email name hashed role db.users in
    let rows : db.users ++ new ∷ [] ≡ db'.users = ground arith in
    let more = count_if-append (has_email other) db.users (new ∷ []) in
    let before = distinct other in
    subst (λ us. count_if (has_email other) us ≤ 1) rows
      (elim (Bool-cases (str_eq email other)) [
        | inl e ↦
            let p = same_text email other e in
            let q = subst (λ t. count_if (has_email t) db.users ≡ 0) p nobody in ground arith
        | inr e ↦ ground arith
      ])

-- One row gets a new address: another address is held no more often, and the new one by the rewritten
-- row alone.
set_profile-other :
    (k : ℕ) (name : Option String) (email other : String) (users : List User)
    → str_eq email other ≡ false
    → count_if (has_email other) (put k (set_profile name email) users)
      ≤ count_if (has_email other) users
unfolding put update count_if set_profile
set_profile-other k name email other [] h = omega arith
set_profile-other k name email other (u ∷ users) h =
    ground (arith, set_profile-other k name email other users h)

set_profile-own :
    (k : ℕ) (name : Option String) (email : String) (users : List User)
    → any (clashes k email) users ≡ false
    → count_if (has_email email) (put k (set_profile name email) users) ≤ count_if (has_id k) users
unfolding put update count_if any set_profile
set_profile-own k name email [] h = omega arith
set_profile-own k name email (u ∷ users) h = ground (arith, set_profile-own k name email users)

rename-email :
    (name : Option String) (email : String) (u : User)
    → has_email email (rename name u) ≡ has_email email u
rename-email name email u = ground arith

save_profile-DistinctEmails :
    (name change : Option String) (actor : User) (db db' : Db)
    → ((k : ℕ) → count_if (has_id k) db.users ≤ 1)
    → DistinctEmails db.users
    → save_profile name change actor db ≡ ok db'
    → DistinctEmails db'.users
unfolding save_profile put
save_profile-DistinctEmails name none actor db db' keys distinct h other =
    let rows : put actor.id (rename name) db.users ≡ db'.users = ground arith in
    subst (λ us. count_if (has_email other) us ≤ 1) rows
      (rw
        (count_if-update (has_email other) (has_id actor.id) (rename name) db.users
          (λ u e. rename-email name other u))
        (distinct other))
save_profile-DistinctEmails name (some email) actor db db' keys distinct h other =
    let k = actor.id in
    let free : any (clashes k email) db.users ≡ false = ground arith in
    let rows : put k (set_profile name email) db.users ≡ db'.users = ground arith in
    let own = set_profile-own k name email db.users free in
    subst (λ us. count_if (has_email other) us ≤ 1) rows
      (elim (Bool-cases (str_eq email other)) [
        | inl e ↦
            subst (λ t. count_if (has_email t) (put k (set_profile name email) db.users) ≤ 1)
              (same_text email other e) (omega (arith, own, keys k))
        | inr e ↦ omega (arith, set_profile-other k name email other db.users e, distinct other)
      ])

-- Saving the own profile keeps the addresses of the accounts that are not deleted distinct.
pub update_profile-DistinctEmails :
    (name email : Option String) (actor : User) (db db' : Db)
    → ((k : ℕ) → count_if (has_id k) db.users ≤ 1)
    → DistinctEmails db.users
    → update_profile name email actor db ≡ ok db'
    → DistinctEmails db'.users
unfolding update_profile
update_profile-DistinctEmails name email actor db db' keys distinct h =
    save_profile-DistinctEmails name (given email) actor db db' keys distinct h
