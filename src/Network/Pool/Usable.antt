-- ===== src/Network/Pool/Usable.antt =====
-- The closed form of `usable_total` counts what `iter_usable` yields.
use goblin_dock.Base.{
  ℕ, zero, suc, ◌+◌, ◌-◌, ◌≤◌, ◌≡◌, refl, Bool, not, ◌&&◌, ◌||◌, Option, none, some, List, [], ◌∷◌,
  map, arith, leb, ltb, ◌==◌, if◌then◌else◌, length, count_if, any, length-select, ap, fun_ext, ◌∙◌,
}
use goblin_dock.Network.Pool.{
  Version, v4, v6, IpAddress, StaticPool, address_of, candidates, range_from, is_reserved,
  iter_usable, in_range, reserved_set, usable_total,
}
use goblin_dock.Network.Pool.Parse.{IsPool, GatewayInside}

module _ {ℓ κ} {A : Type ℓ} {B : Type κ} where
  count_if-map :
      (p : B → Bool) (f : A → B) (xs : List A) → count_if p (map f xs) ≡ count_if (λ x. p (f x)) xs
  unfolding count_if
  count_if-map p f [] = refl
  count_if-map p f (x ∷ xs) = ground (arith, count_if-map p f xs)

  length-map : (f : A → B) (xs : List A) → length (map f xs) ≡ length xs
  length-map f [] = refl
  length-map f (x ∷ xs) = ground (arith, length-map f xs)

count_if-not {ℓ} :
    {A : Type ℓ} (p : A → Bool) (xs : List A)
    → count_if (λ x. not (p x)) xs + count_if p xs ≡ length xs
unfolding count_if
count_if-not p [] = refl
count_if-not p (x ∷ xs) = ground (arith, count_if-not p xs)

length-range_from : (n lo : ℕ) → length (range_from n lo) ≡ n
unfolding range_from
length-range_from zero lo = refl
length-range_from (suc n) lo = omega (arith, length-range_from n (lo + 1))

-- One value occurs at most once in a range.
count_if-range_from :
    (n lo a : ℕ)
    → count_if (λ v. v == a) (range_from n lo) ≡ (if leb lo a && ltb a (lo + n) then 1 else 0)
unfolding range_from count_if
count_if-range_from zero lo a = ground arith
count_if-range_from (suc n) lo a = ground (arith, count_if-range_from n (lo + 1) a)

-- One more value passes: it adds its own occurrences, unless it passed before.
count_if-or :
    (p : ℕ → Bool) (b : ℕ) (xs : List ℕ)
    → count_if (λ v. p v || v == b) xs
      ≡ count_if p xs + (if p b then 0 else count_if (λ v. v == b) xs)
unfolding count_if
count_if-or p b [] = ground arith
count_if-or p b (x ∷ xs) = ground (arith, count_if-or p b xs)

-- The pool with the given parts; the families of its ends play no part in the count.
abbrev pool_of : Version → (na bc pl s e : ℕ) → Version → Version → Option IpAddress → StaticPool
pool_of v na bc pl s e sv ev g = record {
  network = record { family = v; network_address = na; broadcast_address = bc; prefixlen = pl };
  start = record { version = sv; value = s };
  end = record { version = ev; value = e };
  gateway = g;
}

count_if_ext {ℓ} :
    {A : Type ℓ} (p q : A → Bool) (xs : List A)
    → ((x : A) → p x ≡ q x)
    → count_if p xs ≡ count_if q xs
count_if_ext p q xs h = ap (λ r. count_if r xs) (fun_ext h)

-- Two and three distinct reserved values, in a range.
module _ (s e : ℕ) (le : s ≤ e) where
  abbrev inside : ℕ → ℕ
  inside a = if leb s a && leb a e then 1 else 0

  one_value : (a : ℕ) → count_if (λ n. n == a) (range_from (e + 1 - s) s) ≡ inside a
  one_value a = ground (arith, count_if-range_from (e + 1 - s) s a)

  two_values :
      (a b : ℕ)
      → count_if (λ n. n == a || n == b) (range_from (e + 1 - s) s)
        ≡ inside a + (if b == a then 0 else inside b)
  two_values a b =
      ground
        (arith, count_if-or (λ n. n == a) b (range_from (e + 1 - s) s), one_value a, one_value b)

  three_values :
      (a b c : ℕ)
      → count_if (λ n. (n == a || n == b) || n == c) (range_from (e + 1 - s) s)
        ≡ inside a + (if b == a then 0 else inside b) + (if c == a || c == b then 0 else inside c)
  three_values a b c = ground (
    arith,
    count_if-or (λ n. n == a || n == b) c (range_from (e + 1 - s) s),
    two_values a b,
    one_value c,
  )

-- The reserved candidates are the reserved addresses inside the range.
reserved_of_range :
    (v : Version) (na bc pl s e : ℕ) (sv ev : Version) (g : Option IpAddress)
    → s ≤ e
    → GatewayInside (pool_of v na bc pl s e sv ev g).network g
    → count_if
        (λ n. is_reserved (pool_of v na bc pl s e sv ev g) (address_of v n))
        (range_from (e + 1 - s) s)
      ≡ count_if
          (in_range (pool_of v na bc pl s e sv ev g))
          (reserved_set (pool_of v na bc pl s e sv ev g))
unfolding is_reserved reserved_set count_if any
reserved_of_range v4 na bc pl s e sv ev none h gi =
    count_if_ext _ (λ n. n == na || n == bc) (range_from (e + 1 - s) s) (λ n. ground arith)
    ∙ two_values s e h na bc
    ∙ ground arith
reserved_of_range v4 na bc pl s e sv ev (some g) h gi =
    count_if_ext _ (λ n. (n == na || n == bc) || n == g.value) (range_from (e + 1 - s) s)
      (λ n. ground arith)
    ∙ three_values s e h na bc g.value
    ∙ ground arith
reserved_of_range v6 na bc pl s e sv ev none h gi =
    count_if_ext _ (λ n. n == na) (range_from (e + 1 - s) s) (λ n. ground arith)
    ∙ one_value s e h na
    ∙ ground arith
reserved_of_range v6 na bc pl s e sv ev (some g) h gi =
    count_if_ext _ (λ n. n == na || n == g.value) (range_from (e + 1 - s) s) (λ n. ground arith)
    ∙ two_values s e h na g.value
    ∙ ground arith

-- For every pool that is well formed, the closed form `usable_total` is the number of addresses
-- that `iter_usable` yields.
pub usable_total-length : (p : StaticPool) → IsPool p → usable_total p ≡ length (iter_usable p)
unfolding usable_total iter_usable
usable_total-length p h =
    let lo = p.start.value in
    let r = range_from (p.end.value + 1 - lo) lo in
    omega (
      arith,
      length-select (λ a. not (is_reserved p a)) (candidates p),
      count_if-not (is_reserved p) (candidates p),
      length-map (address_of p.network.family) r,
      length-range_from (p.end.value + 1 - lo) lo,
      count_if-map (is_reserved p) (address_of p.network.family) r,
      reserved_of_range p.network.family p.network.network_address p.network.broadcast_address
          p.network.prefixlen lo p.end.value p.start.version p.end.version p.gateway h.ordered
          h.gateway_inside,
    )
