-- ===== src/Lifecycle/Names.antt =====
-- app/api.py: `_auto_name`, the first free automatic name of a deployment. The text of a number is the
-- language's: `label n` stands for the name of number n.
mod Tests
use goblin_dock.Base.{
  ℕ, zero, suc, ◌+◌, ◌≤◌, ◌<◌, String, ◌≡◌, ◌≢◌, refl, sym, subst, ap, ◌∙◌, Bool, true, false, not,
  Option, none, some, List, [], ◌∷◌, if◌then◌else◌, any, select, length, str_eq, eq_iff, arith,
  Bool-cases, inl, inr, ◌⊎◌,
}

abbrev pub is_used : (ℕ → String) → ℕ → List String → Bool
is_used label n names = any (str_eq (label n)) names

-- The search from a number on, over as many numbers as the fuel allows.
unfoldable pub name_from : (ℕ → String) → ℕ → ℕ → List String → Option String
name_from label zero n names = none
name_from label (suc fuel) n names =
    let rest = name_from label fuel (n + 1) names in
    if is_used label n names then rest else some (label n)

-- One number more than there are names.
unfoldable pub auto_name : (ℕ → String) → List String → Option String
auto_name label names = name_from label (length names + 1) 1 names

without : (String → Bool) → List String → List String
without q names = select (λ x. not (q x)) names

without-le : (q : String → Bool) (names : List String) → length (without q names) ≤ length names
unfolding without select
without-le q [] = omega arith
without-le q (x ∷ names) = let rest = without-le q names in ground arith

without-less :
    (q : String → Bool) (names : List String)
    → any q names ≡ true
    → length (without q names) < length names
unfolding without select any
without-less q [] h = ground arith
without-less q (x ∷ names) h =
    let le = without-le q names in let less = without-less q names in ground arith

any-without :
    (p q : String → Bool) (names : List String)
    → ((x : String) → p x ≡ true → q x ≡ false)
    → any p (without q names) ≡ any p names
unfolding without select any
any-without p q [] h = refl
any-without p q (x ∷ names) h = let rest = any-without p q names h in let here = h x in ground arith

-- Two lists that use the same numbers from n on.
name_from-same :
    (label : ℕ → String) (fuel n : ℕ) (names others : List String)
    → ((k : ℕ) → n ≤ k → is_used label k names ≡ is_used label k others)
    → name_from label fuel n names ≡ name_from label fuel n others
unfolding name_from
name_from-same label zero n names others h = refl
name_from-same label (suc fuel) n names others h =
    let now = h n (omega arith) in
    let rest = name_from-same label fuel (n + 1) names others (λ k le. h k (omega (arith, le))) in
    rw (now, rest) refl

-- A free name is found from any number on, if the fuel exceeds the number of names.
name_from-free :
    (label : ℕ → String) (inj : (i j : ℕ) → label i ≡ label j → i ≡ j) (fuel n : ℕ)
    (names : List String)
    → length names < fuel
    → (m : ℕ) × (n ≤ m)
      × (name_from label fuel n names ≡ some (label m))
      × (is_used label m names ≡ false)
unfolding name_from
name_from-free label inj zero n names h = ground arith
name_from-free label inj (suc fuel) n names h =
    go (name_from-free label inj fuel (n + 1) (without (str_eq (label n)) names))
      (is_used label n names) refl
  where
    fewer : List String
    fewer = without (str_eq (label n)) names

    apart :
        (k : ℕ) → n + 1 ≤ k → (x : String) → str_eq (label k) x ≡ true → str_eq (label n) x ≡ false
    apart k le x e = elim (Bool-cases (str_eq (label n) x)) [
      | inr off ↦ off
      | inl both ↦
          let equal = inj k n ((eq_iff (label k) x).0 e ∙ sym ((eq_iff (label n) x).0 both)) in
          ground arith
    ]

    same_after : (k : ℕ) → n + 1 ≤ k → is_used label k fewer ≡ is_used label k names
    same_after k le = any-without (str_eq (label k)) (str_eq (label n)) names (apart k le)

    Found : Bool → Type 0
    Found b =
        (m : ℕ) × (n ≤ m)
        × ((if b then name_from label fuel (n + 1) names else some (label n)) ≡ some (label m))
        × (is_used label m names ≡ false)

    Later : Type 0
    Later =
        (m : ℕ) × (n + 1 ≤ m)
        × (name_from label fuel (n + 1) fewer ≡ some (label m))
        × (is_used label m fewer ≡ false)

    go :
        (length fewer < fuel → Later)
        → (b : Bool) → is_used label n names ≡ b
        → Found (is_used label n names)
    go rec false e = subst Found (sym e) (n, omega arith, refl, e)
    go rec true e =
        let less = without-less (str_eq (label n)) names e in
        let (m, le, found, free) = rec (omega (arith, less, h)) in
        subst Found (sym e) (
          m,
          omega (arith, le),
          sym (name_from-same label fuel (n + 1) fewer names same_after) ∙ found,
          sym (same_after m le) ∙ free,
        )

-- Where different numbers have different names, the search for an automatic name ends within one number more
-- than there are deployments, with a name of a number from 1 on that no deployment has.
pub auto_name-free :
    (label : ℕ → String) (names : List String)
    → ((i j : ℕ) → label i ≡ label j → i ≡ j)
    → (m : ℕ) × (1 ≤ m) × (auto_name label names ≡ some (label m)) × (is_used label m names ≡ false)
unfolding auto_name
auto_name-free label names inj = name_from-free label inj (length names + 1) 1 names (omega arith)
