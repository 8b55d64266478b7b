-- ===== src/Network/Context/Preview.antt =====
-- The preview of a network's context agrees with the reservation.
use goblin_dock.Base.{
  ℕ, ◌+◌, ◌-◌, String, ◌≡◌, refl, sym, ap, ◌⊎◌, inl, inr, Bool, true, false, not, ◌&&◌, Option,
  none, some, List, [], ◌∷◌, arith, if◌then◌else◌, first, select, map, str_eq, Response, ok, http,
  ◌>>=◌, subst,
}
use goblin_dock.Models.{IpAllocation, Network, NetworkMode, dhcp, static}
use goblin_dock.Network.Pool.{
  IpAddress, IpTexts, StaticPool, Parsed, done, failed, Version, version_eq, v4, v6, iter_usable,
  address_of, range_from, is_reserved, parse_static_pool,
}
use goblin_dock.Network.Allocate.{
  reservation, usable_in, is_taken, reusable, pick, take_free, allocate_in,
}
use goblin_dock.Network.Context.{
  NetworkCtx, static_ctx, ctx_in, mode_ctx, network_ctx, own_row, kept_address, preview_address,
  preview_in, mode_preview, read_only_network_ctx,
}

module _ (ip : IpTexts) where
  -- One context names the address of the other, which may have another text for it; all else is equal.
  abbrev pub SameCtx : NetworkCtx → NetworkCtx → Type 0
  SameCtx shown real =
      (shown.network_mode ≡ real.network_mode)
      × (((shown.static_ip ≡ none) × (shown ≡ real))
          ⊎ ((a : IpAddress) × (text : String) × (p : StaticPool) × (shown
                ≡ static_ctx p a.version (ip.show a))
              × (real ≡ static_ctx p a.version text)
              × (ip.ip_address text ≡ some a)))

  -- Both answer, with the same address; or both refuse, with the same answer.
  abbrev pub Agrees : Response NetworkCtx → Response (NetworkCtx × List IpAllocation) → Type 0
  Agrees (ok shown) (ok (real, rows)) = SameCtx shown real
  Agrees (http code detail) (http code' detail') = (code ≡ code') × (detail ≡ detail')
  Agrees (ok shown) (http code detail) = ⊥
  Agrees (http code detail) (ok real) = ⊥

  version_eq_lem : (a b : Version) → version_eq a b ≡ true → a ≡ b
  version_eq_lem v4 v4 h = refl
  version_eq_lem v6 v6 h = refl
  version_eq_lem v4 v6 h = cc
  version_eq_lem v6 v4 h = cc

  -- An address that comes from the pool's range has the pool's family.
  first-family :
      (q : IpAddress → Bool) (v : Version) (ns : List ℕ) (r : IpAddress → Bool) (a : IpAddress)
      → first q (select r (map (address_of v) ns)) ≡ some a
      → a.version ≡ v
  unfolding first select
  first-family q v [] r a h = cc
  first-family q v (n ∷ ns) r a h = ground (arith, first-family q v ns r a)

  taken_free-Agrees :
      (p : StaticPool) (net dep : ℕ) (own : Option IpAllocation) (rows : List IpAllocation)
      → Agrees
          (elim (first (λ a. not (is_taken ip net own rows a)) (iter_usable p))
            as (λ _. Response NetworkCtx) [
              | none ↦ http 409 "static IP pool exhausted"
              | some a ↦ ok (static_ctx p a.version (ip.show a))
            ])
          (take_free ip p net dep own rows >>= λ got.
            ok (static_ctx p p.network.family got.0, got.1))
  unfolding take_free pick
  taken_free-Agrees p net dep own rows =
      go (first (λ a. not (is_taken ip net own rows a)) (iter_usable p)) refl
    where
      go :
          (o : Option IpAddress)
          → first (λ a. not (is_taken ip net own rows a)) (iter_usable p) ≡ o
          → Agrees
              (elim o as (λ _. Response NetworkCtx) [
                | none ↦ http 409 "static IP pool exhausted"
                | some a ↦ ok (static_ctx p a.version (ip.show a))
              ])
              (pick ip net dep own rows o >>= λ got.
                ok (static_ctx p p.network.family got.0, got.1))
      go none e = (refl, refl)
      go (some a) e =
          let family : a.version ≡ p.network.family =
            first-family (λ a. not (is_taken ip net own rows a)) p.network.family
              (range_from (p.end.value + 1 - p.start.value) p.start.value)
              (λ a. not (is_reserved p a)) a (unfold iter_usable in e) in
          (
            refl,
            inr (
              a,
              ip.show a,
              p,
              refl,
              ap (λ v. static_ctx p v (ip.show a)) (sym family),
              ip.read_back a,
            ),
          )

  pool-Agrees :
      (p : StaticPool) (net dep : ℕ) (own : Option IpAllocation) (rows : List IpAllocation)
      → Agrees
          (elim (preview_address ip p net own rows) as (λ _. Response NetworkCtx) [
            | none ↦ http 409 "static IP pool exhausted"
            | some a ↦ ok (static_ctx p a.version (ip.show a))
          ])
          (allocate_in ip p net dep own rows >>= λ got.
            ok (static_ctx p p.network.family got.0, got.1))
  unfolding preview_address kept_address allocate_in reusable
  pool-Agrees p net dep none rows = taken_free-Agrees p net dep none rows
  pool-Agrees p net dep (some e) rows = at_state (str_eq e.state "reserved")
    where
      free : Option IpAddress
      free = first (λ a. not (is_taken ip net (some e) rows a)) (iter_usable p)

      shown : Option IpAddress → Response NetworkCtx
      shown o = elim o as (λ _. Response NetworkCtx) [
        | none ↦ http 409 "static IP pool exhausted"
        | some a ↦ ok (static_ctx p a.version (ip.show a))
      ]

      or_free : Option IpAddress → Option IpAddress
      or_free o = elim o as (λ _. Option IpAddress) [ some a ↦ some a | none ↦ free ]

      real : Bool → Response (NetworkCtx × List IpAllocation)
      real b = (if b then ok (e.ip, rows) else take_free ip p net dep (some e) rows) >>= λ got.
          ok (static_ctx p p.network.family got.0, got.1)

      at_usable :
          (a : IpAddress)
          → ip.ip_address e.ip ≡ some a
          → (b : Bool) → usable_in p a ≡ b
          → Agrees (shown (or_free (if b then some a else none))) (real b)
      at_usable a read false u = taken_free-Agrees p net dep (some e) rows
      at_usable a read true u =
          let family : a.version ≡ p.network.family =
            version_eq_lem a.version p.network.family (ground arith) in
          (refl, inr (a, e.ip, p, refl, ap (λ v. static_ctx p v e.ip) (sym family), read))

      at_text :
          (o : Option IpAddress)
          → ip.ip_address e.ip ≡ o
          → Agrees
              (shown (
                or_free (elim o as (λ _. Option IpAddress) [
                  | none ↦ none
                  | some a ↦ if usable_in p a then some a else none
                ])))
              (real (elim o as (λ _. Bool) [ none ↦ false | some a ↦ usable_in p a ]))
      at_text none read = taken_free-Agrees p net dep (some e) rows
      at_text (some a) read = at_usable a read (usable_in p a) refl

      at_state :
          (b : Bool)
          → Agrees
              (shown (
                or_free (
                  if b
                  then elim (ip.ip_address e.ip) as (λ _. Option IpAddress) [
                    | none ↦ none
                    | some a ↦ if usable_in p a then some a else none
                  ]
                  else none)))
              (real (
                b && elim (ip.ip_address e.ip) as (λ _. Bool) [
                  | none ↦ false
                  | some a ↦ usable_in p a
                ]))
      at_state false = taken_free-Agrees p net dep (some e) rows
      at_state true = at_text (ip.ip_address e.ip) refl

  parsed-Agrees :
      (r : Parsed StaticPool) (net dep : ℕ) (known : Option ℕ) (rows : List IpAllocation)
      → own_row ip net known rows ≡ reservation net dep rows
      → Agrees (preview_in ip r net known rows) (ctx_in ip r net dep rows)
  unfolding preview_in ctx_in
  parsed-Agrees (failed e) net dep known rows h = (refl, refl)
  parsed-Agrees (done p) net dep known rows h =
      subst
        (λ own.
          Agrees
            (elim (preview_address ip p net own rows) as (λ _. Response NetworkCtx) [
              | none ↦ http 409 "static IP pool exhausted"
              | some a ↦ ok (static_ctx p a.version (ip.show a))
            ])
            (allocate_in ip p net dep (reservation net dep rows) rows >>= λ got.
              ok (static_ctx p p.network.family got.0, got.1)))
        (sym h) (pool-Agrees p net dep (reservation net dep rows) rows)

  -- The preview of a network's context and the context that a deployment then gets agree: on the same
  -- network and reservations, both refuse with the same status and text, or both answer, with the same mode,
  -- address, prefix and gateway; the text of a kept address is the stored one in the context, and the
  -- preview writes the same address anew. The deployment is the previewed one, or a new one that has
  -- no reservation.
  pub read_only_network_ctx-Agrees :
      (net : Network) (dep : ℕ) (known : Option ℕ) (rows : List IpAllocation)
      → own_row ip net.id known rows ≡ reservation net.id dep rows
      → Agrees (read_only_network_ctx ip net known rows) (network_ctx ip net dep rows)
  unfolding read_only_network_ctx network_ctx
  read_only_network_ctx-Agrees net dep known rows h = at_mode net.mode (
      parsed-Agrees (parse_static_pool ip net.subnet_cidr net.range_start net.range_end net.gateway)
        net.id dep known rows h)
    where
      parsed : Parsed StaticPool
      parsed = parse_static_pool ip net.subnet_cidr net.range_start net.range_end net.gateway

      at_mode :
          (m : NetworkMode)
          → Agrees (preview_in ip parsed net.id known rows) (ctx_in ip parsed net.id dep rows)
          → Agrees
              (mode_preview ip m (preview_in ip parsed net.id known rows))
              (mode_ctx ip m rows (ctx_in ip parsed net.id dep rows))
      at_mode dhcp h' = (refl, inl (refl, refl))
      at_mode static h' = h'
