-- ===== src/Values/Tests.antt =====
-- Requests for the secrets of two users.
use goblin_dock.Base.{
  String, ◌≡◌, refl, inl, true, false, none, some, [], ◌∷◌, arith, get, first, any, count_if, put,
  update, ok, str_append, Option, strip, lstrip, rstrip, is_space, is_blank,
}
use goblin_dock.Models.{global, own, Entry, Db}
use goblin_dock.Accounts.Tests.{guest, two_accounts}
use goblin_dock.Values.{
  entry_key, edit_secret, clean_ref_name, all_ref_chars, is_ref_char, starts_with, renamed_secret,
  is_system_secret, resolve, own_entry, earliest, owner_secret_context,
}
use goblin_dock.Values.Handled.{secret_edited}
use goblin_dock.Values.Names.{DistinctNames, DistinctKeys, Distinct, Handled-Distinct}
use goblin_dock.Values.Access.{Handled-keeps-secret, resolve-own}

abbrev managed : Entry
managed = record {
  id = 1;
  scope = global;
  owner_id = none;
  name = "GD_MANAGED_PRIVKEY";
  value = "k";
}

abbrev token : Entry
token = record { id = 2; scope = own; owner_id = some guest.id; name = "TOKEN"; value = "t" }

abbrev held : Db
held = record two_accounts { secrets = managed ∷ token ∷ [] }

abbrev scramble : String → String
scramble s = str_append "x" s

abbrev unscramble : String → Option String
unscramble s = some s

-- The guest renames the own token.
abbrev renamed : Db
renamed = record held {
  secrets = managed ∷ record token { name = "KEY" } ∷ [];
  audit = record { user_id = 2; action = "secret.update"; target_id = 2; detail = "KEY" } ∷ [];
}

renames : edit_secret scramble 2 (some " KEY ") none guest held ≡ ok renamed
unfolding edit_secret renamed_secret clean_ref_name all_ref_chars is_ref_char starts_with strip
    lstrip rstrip is_space is_blank get put first update any
renames = refl

held_keys : DistinctKeys held.secrets
unfolding count_if
held_keys k = ground arith

no_keys : DistinctKeys held.variables
unfolding count_if
no_keys k = ground arith

held_names : Distinct held
unfolding count_if
held_names = ((λ s o name. names s o name), λ s o name. omega arith)
  where
    names : DistinctNames held.secrets
    names global none name = ground arith
    names global (some k) name = ground arith
    names own none name = ground arith
    names own (some k) name = ground arith

Handled-Distinct_example : Distinct renamed
Handled-Distinct_example =
    Handled-Distinct scramble unscramble guest held renamed held_keys no_keys held_names
      (secret_edited 2 (some " KEY ") none renames)

managed_row : get 1 held.secrets ≡ some managed
unfolding get first
managed_row = refl

is_managed : is_system_secret managed ≡ true
unfolding starts_with
is_managed = refl

Handled-keeps-secret_example : get 1 renamed.secrets ≡ some managed
Handled-keeps-secret_example =
    Handled-keeps-secret scramble unscramble guest held renamed 1 managed managed_row
      (inl is_managed) (secret_edited 2 (some " KEY ") none renames)

guest_plain : (owner_secret_context (some 2) held).1 ≡ false
unfolding owner_secret_context get first
guest_plain = refl

token_found :
    resolve
      (owner_secret_context (some 2) held).0
      (owner_secret_context (some 2) held).1
      "TOKEN"
      held.secrets
    ≡ some token
unfolding resolve own_entry earliest owner_secret_context get first
token_found = refl

resolve-own_example : (token.name ≡ "TOKEN") × (token.scope ≡ own) × (token.owner_id ≡ some 2)
resolve-own_example = resolve-own (some 2) "TOKEN" held.secrets held token guest_plain token_found
