-- ===== src/Network/Allocate/Sound.antt =====
-- What an allocation returns: a usable address, reserved for the deployment alone.
use goblin_dock.Base.{
  ℕ, zero, suc, ◌+◌, ◌-◌, ◌≤◌, ◌<◌, String, ◌≡◌, refl, ◌⊎◌, subst, Bool, true, false, not, ◌&&◌,
  Option, none, some, List, [], ◌∷◌, map, arith, first, select, put, update, Response, ok, http,
  count_if, count_if-append, count_if-first, has_id, count_if_mono, Bool-cases, inl, inr,
}
use goblin_dock.Models.{
  IpAllocation, Network, NetworkMode, dhcp, static, allocation_key, allocation_of,
}
use goblin_dock.Network.Pool.{
  IpAddress, IpTexts, StaticPool, Parsed, done, failed, is_reserved, address_of, range_from,
  iter_usable, parse_static_pool,
}
use goblin_dock.Network.Pool.Parse.{parse_static_pool-IsPool}
use goblin_dock.Network.Allocate.{
  on_network, holds, is_taken, usable_in, reusable, new_row, reserve, pick, take_free, allocate_in,
  reservation, from_pool, allocate_ip, allocate_static, in_mode,
}
use goblin_dock.Network.Allocate.Unique.{IsUnique, add-IsUnique, move-IsUnique}

-- What `iter_usable` yields lies in the range and is not reserved.
first-usable :
    (q : IpAddress → Bool) (p : StaticPool) (c lo : ℕ)
    → p.start.value ≤ lo
    → lo + c ≤ p.end.value + 1
    → (elim (first q (
        select
          (λ b. not (is_reserved p b))
          (map (address_of p.network.family) (range_from c lo)))) [
            | none ↦ true
            | some a ↦ usable_in p a
          ])
      ≡ true
unfolding first select range_from
first-usable q p zero lo h k = refl
first-usable q p (suc c) lo h k = ground (arith, first-usable q p c (lo + 1))

first_passes {ℓ} :
    {A : Type ℓ} (p : A → Bool) (xs : List A)
    → (elim (first p xs) [ none ↦ true | some a ↦ p a ]) ≡ true
unfolding first
first_passes p [] = refl
first_passes p (x ∷ xs) = ground (arith, first_passes p xs)

module _ (ip : IpTexts) where
  module _ (net dep : ℕ) (rows : List IpAllocation) (u : IsUnique ip rows) where
    chosen-IsUnique :
        (existing : Option IpAllocation) (a : IpAddress)
        → reservation net dep rows ≡ existing
        → is_taken ip net existing rows a ≡ false
        → IsUnique ip (reserve ip net dep existing a rows)
    chosen-IsUnique none a found free = add-IsUnique ip net dep rows u a free
    chosen-IsUnique (some e) a found free = move-IsUnique ip net dep rows u e a free (
        omega (
          arith,
          count_if-first _ (has_id e.id) rows e found (ground arith),
          count_if_mono (λ row. has_id e.id row && (on_network net row && allocation_of dep row))
              (λ row. has_id e.id row && on_network net row) rows (λ row h. ground arith),
        ))

    picked-IsUnique :
        (existing : Option IpAllocation) (c : Option IpAddress) (r : String × List IpAllocation)
        → reservation net dep rows ≡ existing
        → (elim c [ none ↦ true | some a ↦ not (is_taken ip net existing rows a) ]) ≡ true
        → pick ip net dep existing rows c ≡ ok r
        → IsUnique ip r.1
    unfolding pick
    picked-IsUnique existing none r found free h = cc
    picked-IsUnique existing (some a) r found free h =
        let e : reserve ip net dep existing a rows ≡ r.1 = ground arith in
        subst (IsUnique ip) e (chosen-IsUnique existing a found (ground arith))

    take_free-IsUnique :
        (p : StaticPool) (existing : Option IpAllocation) (r : String × List IpAllocation)
        → reservation net dep rows ≡ existing
        → take_free ip p net dep existing rows ≡ ok r
        → IsUnique ip r.1
    unfolding take_free
    take_free-IsUnique p existing r found h =
        picked-IsUnique existing
          (first (λ a. not (is_taken ip net existing rows a)) (iter_usable p)) r found
          (first_passes (λ a. not (is_taken ip net existing rows a)) (iter_usable p)) h

    allocate_in-IsUnique :
        (p : StaticPool) (existing : Option IpAllocation) (r : String × List IpAllocation)
        → reservation net dep rows ≡ existing
        → allocate_in ip p net dep existing rows ≡ ok r
        → IsUnique ip r.1
    unfolding allocate_in
    allocate_in-IsUnique p none r found h = take_free-IsUnique p none r found h
    allocate_in-IsUnique p (some e) r found h = elim (Bool-cases (reusable ip p e)) [
      | inl kept ↦ let same : rows ≡ r.1 = ground arith in subst (IsUnique ip) same u
      | inr moved ↦ take_free-IsUnique p (some e) r found (rw moved at h)
    ]

    from_pool-IsUnique :
        (p : Parsed StaticPool) (r : String × List IpAllocation)
        → from_pool ip p net dep rows ≡ ok r
        → IsUnique ip r.1
    unfolding from_pool
    from_pool-IsUnique (done p) r h = allocate_in-IsUnique p (reservation net dep rows) r refl h
    from_pool-IsUnique (failed e) r h = cc

  by_mode :
      (mode : NetworkMode) (m : Response (String × List IpAllocation)) (rows : List IpAllocation)
      (r : Option String × List IpAllocation)
      → in_mode mode m rows ≡ ok r
      → (rows ≡ r.1) ⊎ ((s : String × List IpAllocation) × (m ≡ ok s) × (s.1 ≡ r.1))
  by_mode dhcp m rows r h = inl (ground arith)
  by_mode static (ok s) rows r h = inr (s, refl, ground arith)
  by_mode static (http c d) rows r h = cc

  -- Whatever network a deployment asks for an address, and whichever reservation it had: where the
  -- keys of the allocation table were unique and no address of a network was held twice, that is
  -- so after the allocation too.
  pub allocate_ip-IsUnique :
      (n : Network) (dep : ℕ) (rows : List IpAllocation) (r : Option String × List IpAllocation)
      → IsUnique ip rows
      → allocate_ip ip n dep rows ≡ ok r
      → IsUnique ip r.1
  unfolding allocate_ip
  allocate_ip-IsUnique n dep rows r u h =
      elim (by_mode n.mode (allocate_static ip n dep rows) rows r h) [
        | inl kept ↦ subst (IsUnique ip) kept u
        | inr (s, got, same) ↦ subst (IsUnique ip) same (
            from_pool-IsUnique n.id dep rows u
              (parse_static_pool ip n.subnet_cidr n.range_start n.range_end n.gateway) s
              (unfold allocate_static in got))
      ]

  -- The deployment's reservation on the network, holding a usable address of the pool.
  abbrev pub Reserved : StaticPool → ℕ → ℕ → String × List IpAllocation → Type 0
  Reserved p net dep r =
      (a : IpAddress) × (ip.ip_address r.0 ≡ some a)
      × (usable_in p a ≡ true)
      × (0 < count_if (λ row. holds ip a row && (on_network net row && allocation_of dep row)) r.1)

  -- The row that was found holds the new address after the rewriting.
  rewritten :
      (net dep : ℕ) (rows : List IpAllocation) (e : IpAllocation) (a : IpAddress)
      → reservation net dep rows ≡ some e
      → 0
        < count_if
            (λ row. holds ip a row && (on_network net row && allocation_of dep row))
            (put e.id (λ row. record row { ip = ip.show a; state = "reserved" }) rows)
  unfolding first count_if put update
  rewritten net dep [] e a found = cc
  rewritten net dep (row ∷ rows) e a found =
      ground (arith, ip.read_back a, rewritten net dep rows e a)

  chosen-Reserved :
      (p : StaticPool) (net dep : ℕ) (rows : List IpAllocation) (existing : Option IpAllocation)
      (a : IpAddress)
      → reservation net dep rows ≡ existing
      → usable_in p a ≡ true
      → Reserved p net dep (ip.show a, reserve ip net dep existing a rows)
  unfolding reserve count_if
  chosen-Reserved p net dep rows none a found good = (
    a,
    ip.read_back a,
    good,
    ground (
      arith,
      ip.read_back a,
      count_if-append (λ row. holds ip a row && (on_network net row && allocation_of dep row)) rows
          (new_row ip net dep a rows ∷ []),
    ),
  )
  chosen-Reserved p net dep rows (some e) a found good =
      (a, ip.read_back a, good, rewritten net dep rows e a found)

  pick-Reserved :
      (p : StaticPool) (net dep : ℕ) (rows : List IpAllocation) (existing : Option IpAllocation)
      (c : Option IpAddress) (r : String × List IpAllocation)
      → reservation net dep rows ≡ existing
      → (elim c [ none ↦ true | some a ↦ usable_in p a ]) ≡ true
      → pick ip net dep existing rows c ≡ ok r
      → Reserved p net dep r
  unfolding pick
  pick-Reserved p net dep rows existing none r found good h = cc
  pick-Reserved p net dep rows existing (some a) r found good h =
      let e : (ip.show a, reserve ip net dep existing a rows) ≡ r = ground arith in
      subst (Reserved p net dep) e (chosen-Reserved p net dep rows existing a found good)

  take_free-Reserved :
      (p : StaticPool) (net dep : ℕ) (rows : List IpAllocation) (existing : Option IpAllocation)
      (r : String × List IpAllocation)
      → p.start.value ≤ p.end.value
      → reservation net dep rows ≡ existing
      → take_free ip p net dep existing rows ≡ ok r
      → Reserved p net dep r
  unfolding take_free iter_usable
  take_free-Reserved p net dep rows existing r order found h =
      pick-Reserved p net dep rows existing
        (first (λ a. not (is_taken ip net existing rows a)) (iter_usable p)) r found
        (first-usable (λ a. not (is_taken ip net existing rows a)) p
          (p.end.value + 1 - p.start.value) p.start.value (omega arith) (omega arith))
        h

  address_kept :
      (p : StaticPool) (e : IpAllocation)
      → reusable ip p e ≡ true
      → (a : IpAddress) × (ip.ip_address e.ip ≡ some a) × (usable_in p a ≡ true)
  unfolding reusable
  address_kept p e kept = ground arith

  kept-Reserved :
      (p : StaticPool) (net dep : ℕ) (rows : List IpAllocation) (e : IpAllocation)
      → reservation net dep rows ≡ some e
      → reusable ip p e ≡ true
      → Reserved p net dep (e.ip, rows)
  kept-Reserved p net dep rows e found kept =
      let (a, reads, good) = address_kept p e kept in
      (a, reads, good, count_if-first _ (holds ip a) rows e found (ground arith))

  allocate_in-Reserved :
      (p : StaticPool) (net dep : ℕ) (rows : List IpAllocation) (existing : Option IpAllocation)
      (r : String × List IpAllocation)
      → p.start.value ≤ p.end.value
      → reservation net dep rows ≡ existing
      → allocate_in ip p net dep existing rows ≡ ok r
      → Reserved p net dep r
  unfolding allocate_in
  allocate_in-Reserved p net dep rows none r order found h =
      take_free-Reserved p net dep rows none r order found h
  allocate_in-Reserved p net dep rows (some e) r order found h =
      elim (Bool-cases (reusable ip p e)) [
        | inl kept ↦
            let same : (e.ip, rows) ≡ r = ground arith in
            subst (Reserved p net dep) same (kept-Reserved p net dep rows e found kept)
        | inr moved ↦ take_free-Reserved p net dep rows (some e) r order found (rw moved at h)
      ]

  -- On a static network whose pool parses, an allocation that succeeds returns the text of an
  -- address of the pool's family, in its range and not reserved (neither the network's own address,
  -- nor an IPv4 broadcast address, nor the gateway), and the allocation table then has a row of
  -- that network and deployment which holds it.
  pub allocate_ip-Reserved :
      (n : Network) (dep : ℕ) (rows : List IpAllocation) (p : StaticPool) (text : String)
      (rows' : List IpAllocation)
      → n.mode ≡ static
      → parse_static_pool ip n.subnet_cidr n.range_start n.range_end n.gateway ≡ done p
      → allocate_ip ip n dep rows ≡ ok (some text, rows')
      → Reserved p n.id dep (text, rows')
  unfolding allocate_ip allocate_static from_pool
  allocate_ip-Reserved n dep rows p text rows' mode parsed h =
      allocate_in-Reserved p n.id dep rows (reservation n.id dep rows) (text, rows')
        (parse_static_pool-IsPool ip n.subnet_cidr n.range_start n.range_end n.gateway p
          parsed).ordered
        refl (ground arith)
