-- ===== src/Lifecycle/Names/Tests.antt =====
-- app/api.py: the first two automatic names are taken.
use goblin_dock.Base.{any, ℕ, ◌≤◌, String, ◌≡◌, refl, sym, ap, ◌∙◌, false, some, List, [], ◌∷◌}
use goblin_dock.Network.Tests.{marks, unary, marks-unary}
use goblin_dock.Lifecycle.Names.{is_used, name_from, auto_name, auto_name-free}

abbrev taken : List String
taken = unary 2 ∷ unary 1 ∷ []

unary-injective : (i j : ℕ) → unary i ≡ unary j → i ≡ j
unary-injective i j e = sym (marks-unary i) ∙ (ap marks e ∙ marks-unary j)

third_name : auto_name unary taken ≡ some "iii"
unfolding auto_name name_from unary any
third_name = refl

auto_name-free_example :
    (m : ℕ) × (1 ≤ m) × (auto_name unary taken ≡ some (unary m)) × (is_used unary m taken ≡ false)
auto_name-free_example = auto_name-free unary taken unary-injective
