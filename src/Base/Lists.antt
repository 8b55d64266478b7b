-- ===== src/Base/Lists.antt =====
-- Lists with Boolean tests and native lengths; the rows of a table are such a list.
use Prim.Native.Nat.{ℕ, zero, suc, ◌+◌, ◌-◌, ◌≤◌, ◌<◌}
use mathlib.Core.Path.{◌≡◌, refl}
use mathlib.Core.Bool.{Bool, true, false, not, ◌||◌, ◌&&◌}
use mathlib.Core.Option.{Option, none, some}
use mathlib.Core.List.{List, [], ◌∷◌, ◌++◌}
use native.Mathlib.Omega.{arith}
use goblin_dock.Base.Tests.{if◌then◌else◌}

module _ {ℓ} {A : Type ℓ} where
  abbrev pub length : List A → ℕ
  length [] = 0
  length (x ∷ xs) = suc (length xs)

  abbrev pub drop : ℕ → List A → List A
  drop zero xs = xs
  drop (suc n) [] = []
  drop (suc n) (x ∷ xs) = drop n xs

  abbrev pub take : ℕ → List A → List A
  take zero xs = []
  take (suc n) [] = []
  take (suc n) (x ∷ xs) = x ∷ take n xs

  -- The rows that pass a test, in order.
  unfoldable pub select : (A → Bool) → List A → List A
  select p [] = []
  select p (x ∷ xs) = let rest = select p xs in if p x then x ∷ rest else rest

  -- The first row that passes a test.
  unfoldable pub first : (A → Bool) → List A → Option A
  first p [] = none
  first p (x ∷ xs) = let rest = first p xs in if p x then some x else rest

  unfoldable pub any : (A → Bool) → List A → Bool
  any p [] = false
  any p (x ∷ xs) = p x || any p xs

  unfoldable pub count_if : (A → Bool) → List A → ℕ
  count_if p [] = 0
  count_if p (x ∷ xs) = (if p x then 1 else 0) + count_if p xs

  -- Change the rows that pass a test.
  unfoldable pub update : (A → Bool) → (A → A) → List A → List A
  update p f [] = []
  update p f (x ∷ xs) = (if p x then f x else x) ∷ update p f xs

  abbrev pub delete : (A → Bool) → List A → List A
  delete p = select (λ x. not (p x))

  abbrev pub All {κ} : (A → Type κ) → List A → Type κ
  All P [] = Unit
  All P (x ∷ xs) = P x × All P xs

  pub length-append : (xs ys : List A) → length (xs ++ ys) ≡ length xs + length ys
  length-append [] ys = omega arith
  length-append (x ∷ xs) ys = omega (arith, length-append xs ys)

  pub count_if-append :
      (p : A → Bool) (xs ys : List A) → count_if p (xs ++ ys) ≡ count_if p xs + count_if p ys
  unfolding count_if
  count_if-append p [] ys = omega arith
  count_if-append p (x ∷ xs) ys = omega (arith, count_if-append p xs ys)

  pub length-select : (p : A → Bool) (xs : List A) → length (select p xs) ≡ count_if p xs
  unfolding select count_if
  length-select p [] = refl
  length-select p (x ∷ xs) = ground (arith, length-select p xs)

  -- A test that implies another passes on no more rows.
  pub count_if_mono :
      (p q : A → Bool) (xs : List A)
      → ((x : A) → p x ≡ true → q x ≡ true)
      → count_if p xs ≤ count_if q xs
  unfolding count_if
  count_if_mono p q [] h = omega arith
  count_if_mono p q (x ∷ xs) h = ground (arith, h x, count_if_mono p q xs h)

  -- An update that makes no row pass that did not pass.
  pub count_if-update-le :
      (p u : A → Bool) (f : A → A) (xs : List A)
      → ((x : A) → p (f x) ≡ true → p x ≡ true)
      → count_if p (update u f xs) ≤ count_if p xs
  unfolding count_if update
  count_if-update-le p u f [] h = omega arith
  count_if-update-le p u f (x ∷ xs) h = ground (arith, h x, count_if-update-le p u f xs h)

  -- An update that keeps the outcome of a test on every row.
  pub count_if-update :
      (p u : A → Bool) (f : A → A) (xs : List A)
      → ((x : A) → u x ≡ true → p (f x) ≡ p x)
      → count_if p (update u f xs) ≡ count_if p xs
  unfolding count_if update
  count_if-update p u f [] h = refl
  count_if-update p u f (x ∷ xs) h = ground (arith, h x, count_if-update p u f xs h)

  pub count_if-select-le : (p q : A → Bool) (xs : List A) → count_if p (select q xs) ≤ count_if p xs
  unfolding count_if select
  count_if-select-le p q [] = omega arith
  count_if-select-le p q (x ∷ xs) = ground (arith, count_if-select-le p q xs)

  -- `first` finds nothing exactly when no row passes.
  pub first-none : (p : A → Bool) (xs : List A) → first p xs ≡ none → count_if p xs ≡ 0
  unfolding first count_if
  first-none p [] h = refl
  first-none p (x ∷ xs) h = ground (arith, first-none p xs)

  pub first-some : (p : A → Bool) (xs : List A) (a : A) → first p xs ≡ some a → p a ≡ true
  unfolding first
  first-some p [] a h = cc
  first-some p (x ∷ xs) a h = ground (arith, first-some p xs a)

  pub count_if_pos : (p : A → Bool) (xs : List A) (a : A) → first p xs ≡ some a → 0 < count_if p xs
  unfolding first count_if
  count_if_pos p [] a h = cc
  count_if_pos p (x ∷ xs) a h = ground (arith, count_if_pos p xs a)

  -- The row that is found counts among those that pass a second test, which it passes.
  pub count_if-first :
      (p q : A → Bool) (xs : List A) (a : A)
      → first p xs ≡ some a
      → q a ≡ true
      → 0 < count_if (λ x. q x && p x) xs
  unfolding first count_if
  count_if-first p q [] a h k = cc
  count_if-first p q (x ∷ xs) a h k = ground (arith, count_if-first p q xs a)

  pub count_if_zero : (p : A → Bool) (xs : List A) → ((x : A) → p x ≡ false) → count_if p xs ≡ 0
  unfolding count_if
  count_if_zero p [] h = refl
  count_if_zero p (x ∷ xs) h = ground (arith, h x, count_if_zero p xs h)

  pub length-drop : (n : ℕ) (xs : List A) → length (drop n xs) ≡ length xs - n
  length-drop zero xs = omega arith
  length-drop (suc n) [] = omega arith
  length-drop (suc n) (x ∷ xs) = omega (arith, length-drop n xs)
