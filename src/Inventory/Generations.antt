-- ===== src/Inventory/Generations.antt =====
-- The bound on the probes in flight, and what an invalidated probe may write.
use goblin_dock.Base.{
  ℕ, ◌+◌, ◌≤◌, ◌≡◌, refl, ap, Bool, false, not, List, [], ◌∷◌, arith, ◌==◌, length, any, select,
  true, ◌<◌, Bool-cases, inl, inr, count_if,
}
use goblin_dock.Inventory.{
  Cache, refresh, invalidate, Found, store, Step, refreshes, invalidates, stores, stops, Steps,
  done, more, is_probe, hand_over, no_cache,
}

length-select-le {ℓ} : {A : Type ℓ} (p : A → Bool) (xs : List A) → length (select p xs) ≤ length xs
unfolding select
length-select-le p [] = omega arith
length-select-le p (x ∷ xs) = ground (arith, length-select-le p xs)

count_if-any {ℓ} : {A : Type ℓ} (p : A → Bool) (xs : List A) → any p xs ≡ false → count_if p xs ≡ 0
unfolding any count_if
count_if-any p [] h = refl
count_if-any p (x ∷ xs) h = ground (arith, count_if-any p xs)

count-select-le {ℓ} :
    {A : Type ℓ} (p q : A → Bool) (xs : List A) → count_if p (select q xs) ≤ count_if p xs
unfolding select count_if
count-select-le p q [] = omega arith
count-select-le p q (x ∷ xs) = ground (arith, count-select-le p q xs)

-- Taking out the elements of a test takes out all that pass a weaker one with it, and no others.
count-delete_other {ℓ} :
    {A : Type ℓ} (p q : A → Bool) (xs : List A)
    → ((x : A) → p x ≡ true → q x ≡ false)
    → count_if p (select (λ x. not (q x)) xs) ≡ count_if p xs
unfolding select count_if
count-delete_other p q [] h = refl
count-delete_other p q (x ∷ xs) h = ground (arith, h x, count-delete_other p q xs h)

count-delete_less {ℓ} :
    {A : Type ℓ} (p q : A → Bool) (xs : List A)
    → ((x : A) → q x ≡ true → p x ≡ true)
    → any q xs ≡ true
    → count_if p (select (λ x. not (q x)) xs) < count_if p xs
unfolding select count_if any
count-delete_less p q [] h e = cc
count-delete_less p q (x ∷ xs) h e =
    let less = count-delete_less p q xs h in
    let le = count-select-le p (λ y. not (q y)) xs in let here = h x in ground arith

length-delete {ℓ} :
    {A : Type ℓ} (q : A → Bool) (xs : List A)
    → length (select (λ x. not (q x)) xs) + count_if q xs ≡ length xs
unfolding select count_if
length-delete q [] = refl
length-delete q (x ∷ xs) = ground (arith, length-delete q xs)

count-any {ℓ} : {A : Type ℓ} (p : A → Bool) (xs : List A) → any p xs ≡ true → 0 < count_if p xs
unfolding any count_if
count-any p [] h = cc
count-any p (x ∷ xs) h = ground (arith, count-any p xs)

any-select {ℓ} :
    {A : Type ℓ} (p q : A → Bool) (xs : List A) → any p (select q xs) ≡ true → any p xs ≡ true
unfolding any select
any-select p q [] h = cc
any-select p q (x ∷ xs) h = ground (arith, any-select p q xs)

-- The submitted probes of one connection.
abbrev pub of_connection : ℕ → ℕ × ℕ → Bool
of_connection k p = p.0 == k

module _ (ttl max_workers : ℕ) where
  -- At most `max_workers` connections are marked as in flight, each of them once, every submitted
  -- probe has its mark, and its generation is not ahead of its connection's.
  pub record Marked (c : Cache) : Type 0 where
    pub room : length c.inflight ≤ max_workers
    pub once : (k : ℕ) → count_if (λ j. j == k) c.inflight ≤ 1
    pub covered : (k : ℕ) → count_if (of_connection k) c.probes ≤ count_if (λ j. j == k) c.inflight
    pub fewer : length c.probes ≤ length c.inflight
    pub behind : (k g : ℕ) → any (is_probe k g) c.probes ≡ true → g ≤ c.generations k

  refresh-Marked :
      (k : ℕ) (disabled force : Bool) (now : ℕ) (c : Cache)
      → Marked c
      → Marked (refresh ttl max_workers k disabled force now c).1
  unfolding refresh count_if any
  refresh-Marked k disabled force now c v = record {
    room = ground (arith, v.room);
    once = λ j. let h = v.once j in let z = count_if-any (λ i. i == k) c.inflight in ground arith;
    covered = λ j. let h = v.covered j in ground arith;
    fewer = let h = v.fewer in ground arith;
    behind = λ j g e.
        let h = v.behind j g in
        let same : k ≡ j → c.generations k ≡ c.generations j = λ s. ap c.generations s in
        ground arith;
  }

  invalidate-Marked : (k : ℕ) (c : Cache) → Marked c → Marked (invalidate k c)
  unfolding invalidate
  invalidate-Marked k c v = record {
    room = v.room;
    once = v.once;
    covered = v.covered;
    fewer = v.fewer;
    behind = λ j g e. let h = v.behind j g e in ground arith;
  }

  store-Marked :
      (k g : ℕ) (found : Found) (now : ℕ) (c : Cache)
      → any (is_probe k g) c.probes ≡ true
      → Marked c
      → Marked (store k g found now (hand_over k g c))
  unfolding store
  store-Marked k g found now c there v = record {
    room =
        let s = length-select-le (λ j. not (j == k)) c.inflight in let r = v.room in ground arith;
    once = λ j.
        let s = count-select-le (λ i. i == j) (λ i. not (i == k)) c.inflight in
        let r = v.once j in ground arith;
    covered = λ j.
        let least = v.once j in
        let before = v.covered j in
        elim (Bool-cases (j == k)) [
          | inl h ↦
              let less =
                count-delete_less (of_connection j) (is_probe k g) c.probes (λ x e. ground arith)
                  there in
              ground arith
          | inr h ↦
              let le = count-select-le (of_connection j) (λ x. not (is_probe k g x)) c.probes in
              let same =
                count-delete_other (λ i. i == j) (λ i. i == k) c.inflight (λ x e. ground arith) in
              ground arith
        ];
    fewer =
        let marks = length-delete (λ j. j == k) c.inflight in
        let left = length-delete (is_probe k g) c.probes in
        let some_left = count-any (is_probe k g) c.probes there in
        let least = v.once k in let before = v.fewer in ground arith;
    behind = λ j h e.
        let known = v.behind j h in
        let kept : any (is_probe j h) (select (λ x. not (is_probe k g x)) c.probes) ≡ true =
          ground arith in
        let old = any-select (is_probe j h) (λ x. not (is_probe k g x)) c.probes kept in
        ground arith;
  }

  Step-Marked : {a b : Cache} → Step ttl max_workers a b → Marked a → Marked b
  Step-Marked (refreshes k disabled force now c) v = refresh-Marked k disabled force now c v
  Step-Marked (invalidates k c) v = invalidate-Marked k c v
  Step-Marked (stores k g found now c there) v = store-Marked k g found now c there v
  Step-Marked (stops c) v = record {
    room = v.room;
    once = v.once;
    covered = v.covered;
    fewer = v.fewer;
    behind = v.behind;
  }

  Steps-Marked : {a b : Cache} → Steps ttl max_workers a b → Marked a → Marked b
  Steps-Marked (done c) v = v
  Steps-Marked (more s rest) v = Steps-Marked rest (Step-Marked s v)

  no_cache-Marked : Marked no_cache
  unfolding count_if any
  no_cache-Marked = record {
    room = omega arith;
    once = λ k. omega arith;
    covered = λ k. omega arith;
    fewer = omega arith;
    behind = λ k g h. cc;
  }

  -- Whatever refreshes, invalidations, results and stops follow each other from the start, at most
  -- `max_workers` submitted probes have not ended, and no connection has two of them.
  pub Steps-bounded :
      {c : Cache}
      → Steps ttl max_workers no_cache c
      → (length c.probes ≤ max_workers) × ((k : ℕ) → count_if (of_connection k) c.probes ≤ 1)
  Steps-bounded {c} steps =
      let v = Steps-Marked steps no_cache-Marked in
      (omega (arith, v.room, v.fewer), λ k. omega (arith, v.once k, v.covered k))

  Step-generation :
      {a b : Cache} (k : ℕ) → Step ttl max_workers a b → a.generations k ≤ b.generations k
  unfolding refresh invalidate store
  Step-generation k (refreshes j disabled force now c) = ground arith
  Step-generation k (invalidates j c) = ground arith
  Step-generation k (stores j g found now c h) = ground arith
  Step-generation k (stops c) = omega arith

  Steps-generation :
      {a b : Cache} (k : ℕ) → Steps ttl max_workers a b → a.generations k ≤ b.generations k
  Steps-generation k (done c) = omega arith
  Steps-generation k (more s rest) = omega (arith, Step-generation k s, Steps-generation k rest)

  -- A probe that was submitted before its connection was invalidated never writes a snapshot: where
  -- steps from the start led to a state with the submitted probe, its result is dropped in every state
  -- that follows the invalidation.
  pub invalidated_probe-dropped :
      (k g : ℕ) (found : Found) (now : ℕ) (before after : Cache)
      → Steps ttl max_workers no_cache before
      → any (is_probe k g) before.probes ≡ true
      → Steps ttl max_workers (invalidate k before) after
      → (store k g found now after).snapshots ≡ after.snapshots
  unfolding invalidate store
  invalidated_probe-dropped k g found now before after start submitted steps =
      let v = Steps-Marked start no_cache-Marked in
      let level = v.behind k g submitted in
      let grown = Steps-generation k steps in
      let here : (invalidate k before).generations k ≡ before.generations k + 1 = ground arith in
      let old : (g == after.generations k) ≡ false = ground arith in rw old
