-- ===== src/Network/Allocate/Unique.antt =====
-- No two deployments hold one address of a network.
use goblin_dock.Base.{
  ℕ, ◌+◌, ◌≤◌, ◌<◌, ◌≡◌, refl, Bool, true, false, not, ◌&&◌, Option, none, some, List, [], ◌∷◌,
  arith, ◌==◌, if◌then◌else◌, any, put, update, count_if, count_if-append, has_id, count_if_mono,
  count_if_zero, count_if-update, Bool-cases, inl, inr,
}
use goblin_dock.Models.{IpAllocation, allocation_key, next_id}
use goblin_dock.Network.Pool.{IpAddress, IpTexts, addr_eq}
use goblin_dock.Network.Allocate.{on_network, is_row, holds, is_taken, new_row, reserve}

module _ (ip : IpTexts) where
  abbrev pub holds_on : ℕ → IpAddress → IpAllocation → Bool
  holds_on net a row = on_network net row && holds ip a row

  -- Primary keys are unique, and so are the addresses held on each network.
  pub record IsUnique (rows : List IpAllocation) : Type 0 where
    pub keys : (k : ℕ) → count_if (has_id k) rows ≤ 1
    pub addresses : (net : ℕ) (a : IpAddress) → count_if (holds_on net a) rows ≤ 1

  -- What `is_taken` misses is held by the existing row alone.
  free_count :
      (net : ℕ) (existing : Option IpAllocation) (rows : List IpAllocation) (a : IpAddress)
      → is_taken ip net existing rows a ≡ false
      → count_if (λ row. holds_on net a row && not (is_row existing row)) rows ≡ 0
  unfolding is_taken any count_if
  free_count net existing [] a h = refl
  free_count net existing (row ∷ rows) a h = ground (arith, free_count net existing rows a)

  next_id-fresh :
      (rows : List IpAllocation) (n : ℕ) → next_id rows ≤ n → count_if (has_id n) rows ≡ 0
  unfolding next_id count_if
  next_id-fresh [] n h = refl
  next_id-fresh (row ∷ rows) n h = ground (arith, next_id-fresh rows n)

  -- Rewriting the rows with one key: the others count as before.
  count_if-put :
      (p : IpAllocation → Bool) (k : ℕ) (f : IpAllocation → IpAllocation) (rows : List IpAllocation)
      → count_if p (put k f rows)
        ≡ count_if (λ row. p row && not (has_id k row)) rows
          + count_if (λ row. has_id k row && p (f row)) rows
  unfolding count_if put update
  count_if-put p k f [] = omega arith
  count_if-put p k f (row ∷ rows) = ground (arith, count_if-put p k f rows)

  -- Rows with one key on two networks are different rows.
  two_networks :
      (k n m : ℕ) (rows : List IpAllocation)
      → (n == m) ≡ false
      → count_if (λ row. has_id k row && on_network n row) rows
          + count_if (λ row. has_id k row && on_network m row) rows
        ≤ count_if (has_id k) rows
  unfolding count_if
  two_networks k n m [] h = omega arith
  two_networks k n m (row ∷ rows) h = ground (arith, two_networks k n m rows h)

  holds_self : (a : IpAddress) (row : IpAllocation) → row.ip ≡ ip.show a → holds ip a row ≡ true
  holds_self a row h = ground (arith, ip.read_back a)

  -- A row written with the address `a` holds no other address.
  holds-show :
      (a b : IpAddress) (row : IpAllocation) → row.ip ≡ ip.show a → holds ip b row ≡ addr_eq a b
  holds-show a b row h = ground (arith, ip.read_back a)

  addr_eq_same : (a b : IpAddress) → addr_eq a b ≡ true → a ≡ b
  addr_eq_same a b h = ground arith

  holds_on-show :
      (n : ℕ) (a b : IpAddress) (row : IpAllocation)
      → holds_on n b (record row { ip = ip.show a; state = "reserved" })
        ≡ (on_network n row && addr_eq a b)
  holds_on-show n a b row = ground (arith, ip.read_back a)

  same_place :
      (n net : ℕ) (a b : IpAddress) (rows : List IpAllocation)
      → (n == net && addr_eq a b) ≡ true
      → count_if (holds_on n b) rows ≡ count_if (holds_on net a) rows
  same_place n net a b rows h = let p : n ≡ net = ground arith in let q : a ≡ b = ground arith in cc

  nobody_holds :
      (net : ℕ) (rows : List IpAllocation) (a : IpAddress)
      → is_taken ip net none rows a ≡ false
      → count_if (holds_on net a) rows ≡ 0
  unfolding is_taken any count_if
  nobody_holds net [] a h = refl
  nobody_holds net (row ∷ rows) a h = ground (arith, nobody_holds net rows a)

  module _ (net dep : ℕ) (rows : List IpAllocation) (u : IsUnique rows) where
    add_address :
        (a : IpAddress) (n : ℕ) (b : IpAddress)
        → is_taken ip net none rows a ≡ false
        → count_if (holds_on n b) (reserve ip net dep none a rows) ≤ 1
    unfolding reserve count_if
    add_address a n b free =
        let more = count_if-append (holds_on n b) rows (new_row ip net dep a rows ∷ []) in
        let held = holds-show a b (new_row ip net dep a rows) refl in
        let old = u.addresses n b in
        let gone = nobody_holds net rows a free in
        elim (Bool-cases (n == net && addr_eq a b)) [
          | inl e ↦ ground (arith, same_place n net a b rows e)
          | inr e ↦ ground arith
        ]

    put-keys :
        (k : ℕ) (a : IpAddress) (j : ℕ)
        → count_if
            (has_id j)
            (put k (λ row. record row { ip = ip.show a; state = "reserved" }) rows)
          ≡ count_if (has_id j) rows
    unfolding put
    put-keys k a j = count_if-update (has_id j) (has_id k) _ rows (λ row h. refl)

    -- A new row, for an address that nobody holds.
    pub add-IsUnique :
        (a : IpAddress)
        → is_taken ip net none rows a ≡ false
        → IsUnique (reserve ip net dep none a rows)
    unfolding reserve count_if
    add-IsUnique a free = record {
      keys = λ k. ground (
        arith,
        count_if-append (has_id k) rows (new_row ip net dep a rows ∷ []),
        u.keys k,
        next_id-fresh rows k,
      );
      addresses = λ n b. add_address a n b free;
    }

    abbrev moved : IpAddress → IpAllocation → IpAllocation
    moved a row = record row { ip = ip.show a; state = "reserved" }

    -- The rows that are not rewritten hold the address no more often than before, and not at all
    -- where it is the new one.
    move_others :
        (e : IpAllocation) (a : IpAddress) (n : ℕ) (b : IpAddress)
        → is_taken ip net (some e) rows a ≡ false
        → count_if (λ row. holds_on n b row && not (has_id e.id row)) rows
          ≤ (if n == net && addr_eq a b then 0 else 1)
    move_others e a n b free = elim (Bool-cases (n == net && addr_eq a b)) [
      | inl h ↦
          let p : n ≡ net = ground arith in
          let q : b ≡ a = ground arith in
          rw (p, q)
            (let here : (net == net && addr_eq a a) ≡ true = ground arith in
              rw here (omega (arith, free_count net (some e) rows a free)))
      | inr h ↦ rw h (
          omega (
            arith,
            count_if_mono (λ row. holds_on n b row && not (has_id e.id row)) (holds_on n b) rows
                (λ row h. ground arith),
            u.addresses n b,
          ))
    ]

    -- The rewritten row holds the new address, on its network.
    move_own :
        (e : IpAllocation) (a : IpAddress) (n : ℕ) (b : IpAddress)
        → 0 < count_if (λ row. has_id e.id row && on_network net row) rows
        → count_if (λ row. has_id e.id row && holds_on n b (moved a row)) rows
          ≤ (if n == net && addr_eq a b then 1 else 0)
    move_own e a n b on =
        let own = λ (row : IpAllocation). has_id e.id row && holds_on n b (moved a row) in
        elim (Bool-cases (n == net && addr_eq a b)) [
          | inl h ↦ rw h (
              omega
                (arith, count_if_mono own (has_id e.id) rows (λ row k. ground arith), u.keys e.id))
          | inr h ↦ elim (Bool-cases (addr_eq a b)) [
            | inl same ↦ rw h (
                omega (
                  arith,
                  count_if_mono own (λ row. has_id e.id row && on_network n row) rows
                      (λ row k. ground arith),
                  two_networks e.id n net rows (ground arith),
                  u.keys e.id,
                ))
            | inr other ↦ rw h (
                omega
                  (arith, count_if_zero own rows (λ row. ground (arith, holds_on-show n a b row))))
          ]
        ]

    -- The deployment's own row, rewritten.
    pub move-IsUnique :
        (e : IpAllocation) (a : IpAddress)
        → is_taken ip net (some e) rows a ≡ false
        → 0 < count_if (λ row. has_id e.id row && on_network net row) rows
        → IsUnique (reserve ip net dep (some e) a rows)
    unfolding reserve
    move-IsUnique e a free on = record {
      keys = λ k. rw (put-keys e.id a k) (u.keys k);
      addresses = λ n b. ground (
        arith,
        count_if-put (holds_on n b) e.id (moved a) rows,
        move_others e a n b free,
        move_own e a n b on,
      );
    }
