-- ===== src/Accounts/Profile/Tests.antt =====
-- Runs of the profile handlers on two accounts.
use goblin_dock.Base.{
  ℕ, ◌≤◌, ◌≡◌, refl, true, false, none, some, [], ◌∷◌, arith, count_if, Bool-cases, inl, inr, subst,
  eq_iff, has_id, get, first, put, update, any, str_eq, take_chars, ok, http,
}
use goblin_dock.Models.{user, User, Db, user_key}
use goblin_dock.Accounts.{current_user}
use goblin_dock.Accounts.Tests.{root, guest, two_accounts}
use goblin_dock.Accounts.Profile.{
  new_user, add_user, set_profile, save_profile, update_profile, renew_password, change_password,
  set_widget_key, revoke_widget_key, widget_key_user, touch,
}
use goblin_dock.Accounts.Profile.Emails.{
  DistinctEmails, add_user-DistinctEmails, update_profile-DistinctEmails,
}
use goblin_dock.Accounts.Profile.Keys.{change_password-revokes}

two-DistinctEmails : DistinctEmails two_accounts.users
unfolding count_if
two-DistinctEmails email = elim (Bool-cases (str_eq "root@lab" email)) [
  | inl r ↦
      let q = subst (λ t. str_eq "guest@lab" t ≡ false) ((eq_iff "root@lab" email).0 r) refl in
      ground arith
  | inr r ↦ ground arith
]

two_keys : (k : ℕ) → count_if (has_id k) two_accounts.users ≤ 1
unfolding count_if
two_keys k = ground arith

abbrev with_third : Db
with_third = record two_accounts {
  users = root ∷ guest ∷ new_user "third@lab" " third " "hash" user two_accounts.users ∷ [];
  audit = record { user_id = 1; action = "user.create"; target_id = 0; detail = "third@lab" } ∷ [];
}

adds : add_user "third@lab" " third " "hash" none user root two_accounts ≡ ok with_third
unfolding add_user any
adds = refl

add_user-DistinctEmails_example : DistinctEmails with_third.users
add_user-DistinctEmails_example =
    add_user-DistinctEmails "third@lab" " third " "hash" none user root two_accounts with_third
      two-DistinctEmails adds

abbrev moved_guest : Db
moved_guest = record two_accounts {
  users = root ∷ set_profile none "new@lab" guest ∷ [];
  audit = record { user_id = 2; action = "profile.update"; target_id = 2; detail = "" } ∷ [];
}

moves : update_profile none (some "new@lab") guest two_accounts ≡ ok moved_guest
unfolding update_profile save_profile any put update
moves = refl

-- The address of another account is refused.
clash_refused :
    update_profile none (some "root@lab") guest two_accounts ≡ http 400 "email already in use"
unfolding update_profile save_profile any
clash_refused = refl

update_profile-DistinctEmails_example : DistinctEmails moved_guest.users
update_profile-DistinctEmails_example =
    update_profile-DistinctEmails none (some "new@lab") guest two_accounts moved_guest two_keys
      two-DistinctEmails moves

guest_found : get 2 two_accounts.users ≡ some guest
unfolding get first
guest_found = refl

abbrev renewed : Db
renewed = record two_accounts {
  users = root ∷ renew_password "fresh" guest ∷ [];
  audit = record { user_id = 2; action = "profile.password"; target_id = 2; detail = "" } ∷ [];
}

renews : change_password (str_eq "secret") "fresh" none guest two_accounts ≡ ok (8, renewed)
unfolding change_password get first put update
renews = refl

change_password-revokes_example :
    (str_eq "secret" guest.password_hash ≡ true)
    × (current_user (record { uid = some 2; sv = 7 }) renewed.users ≡ http 401 "session expired")
    × (current_user (record { uid = some 2; sv = 8 }) renewed.users
        ≡ ok (renew_password "fresh" guest))
change_password-revokes_example =
    change_password-revokes (str_eq "secret") "fresh" none guest guest two_accounts renewed 8
      guest_found refl renews

-- Both accounts have a key; the guest revokes its own, and the other one still works.
abbrev keyed : Db
keyed = record two_accounts {
  users = set_widget_key (some "gdwk_a") root ∷ set_widget_key (some "gdwk_b") guest ∷ [];
}

abbrev touched_root : User
touched_root = touch 90 (set_widget_key (some "gdwk_a") root)

root_key_works :
    widget_key_user (λ t. t) "gdwk_a" 90 (revoke_widget_key guest keyed).users
    ≡ ok (
      touched_root,
      touched_root ∷ set_widget_key none (set_widget_key (some "gdwk_b") guest) ∷ [],
    )
unfolding widget_key_user revoke_widget_key first put update take_chars
root_key_works = refl
