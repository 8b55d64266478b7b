-- ===== src/Network/Allocate.antt =====
-- app/api.py: `allocate_ip`, the reservation of one static address for a deployment. It runs under
-- the admission lock inside the caller's transaction, so its reads and its write are one step.

pub mod Unique
pub mod Sound
use goblin_dock.Base.{
  ℕ, String, Bool, false, not, ◌&&◌, Option, none, some, List, [], ◌∷◌, ◌++◌, ◌==◌, if◌then◌else◌,
  first, any, put, str_eq, Response, ok, http, ◌>>=◌,
}
use goblin_dock.Models.{
  IpAllocation, Network, NetworkMode, dhcp, static, allocation_key, next_id, allocation_of,
}
use goblin_dock.Network.Pool.{
  message, IpAddress, IpTexts, StaticPool, Parsed, done, failed, addr_eq, version_eq, in_range,
  is_reserved, iter_usable, parse_static_pool,
}

abbrev pub on_network : ℕ → IpAllocation → Bool
on_network net a = a.network_id == net

-- `allocation.id == existing.id`
abbrev pub is_row : Option IpAllocation → IpAllocation → Bool
is_row none a = false
is_row (some e) a = a.id == e.id

-- An address of the pool's family, in its range, that is not reserved.
abbrev pub usable_in : StaticPool → IpAddress → Bool
usable_in p a = version_eq a.version p.network.family && in_range p a && not (is_reserved p a)

-- The deployment's own row of the network.
abbrev pub reservation : ℕ → ℕ → List IpAllocation → Option IpAllocation
reservation net dep rows = first (λ row. on_network net row && allocation_of dep row) rows

abbrev pub in_mode :
    NetworkMode
    → Response (String × List IpAllocation)
    → List IpAllocation
    → Response (Option String × List IpAllocation)
in_mode dhcp m rows = ok (none, rows)
in_mode static m rows = do got ← m; ok (some got.0, got.1)

module _ (ip : IpTexts) where
  -- The address that a row holds; a text that does not parse holds none.
  abbrev pub holds : IpAddress → IpAllocation → Bool
  holds a row = elim (ip.ip_address row.ip) [ none ↦ false | some b ↦ addr_eq b a ]

  -- `address in taken`: some other row of the network holds it.
  unfoldable pub is_taken : ℕ → Option IpAllocation → List IpAllocation → IpAddress → Bool
  is_taken net existing rows a =
      any (λ row. on_network net row && (not (is_row existing row) && holds a row)) rows

  -- An existing reservation is kept when it is still a usable address of the pool.
  unfoldable pub reusable : StaticPool → IpAllocation → Bool
  reusable p e =
      str_eq e.state "reserved"
      && elim (ip.ip_address e.ip) [ none ↦ false | some a ↦ usable_in p a ]

  abbrev pub new_row : ℕ → ℕ → IpAddress → List IpAllocation → IpAllocation
  new_row net dep a rows = record {
    id = next_id rows;
    network_id = net;
    ip = ip.show a;
    deployment_id = some dep;
    state = "reserved";
  }

  unfoldable pub reserve :
      ℕ → ℕ → Option IpAllocation → IpAddress → List IpAllocation → List IpAllocation
  reserve net dep none a rows = rows ++ new_row net dep a rows ∷ []
  reserve net dep (some e) a rows =
      put e.id (λ row. record row { ip = ip.show a; state = "reserved" }) rows

  unfoldable pub pick :
      ℕ
      → ℕ
      → Option IpAllocation
      → List IpAllocation
      → Option IpAddress
      → Response (String × List IpAllocation)
  pick net dep existing rows none = http 409 "static IP pool exhausted"
  pick net dep existing rows (some a) = ok (ip.show a, reserve net dep existing a rows)

  -- The first usable address that no other row holds.
  unfoldable pub take_free :
      StaticPool
      → ℕ
      → ℕ
      → Option IpAllocation
      → List IpAllocation
      → Response (String × List IpAllocation)
  unfolding is_taken pick
  take_free p net dep existing rows =
      pick net dep existing rows (first (λ a. not (is_taken net existing rows a)) (iter_usable p))

  unfoldable pub allocate_in :
      StaticPool
      → ℕ
      → ℕ
      → Option IpAllocation
      → List IpAllocation
      → Response (String × List IpAllocation)
  unfolding reusable
  allocate_in p net dep none rows = take_free p net dep none rows
  allocate_in p net dep (some e) rows =
      if reusable p e then ok (e.ip, rows) else take_free p net dep (some e) rows

  unfoldable pub from_pool :
      Parsed StaticPool → ℕ → ℕ → List IpAllocation → Response (String × List IpAllocation)
  from_pool (failed e) net dep rows = http 400 (message e)
  from_pool (done p) net dep rows = allocate_in p net dep (reservation net dep rows) rows

  unfoldable pub allocate_static :
      Network → ℕ → List IpAllocation → Response (String × List IpAllocation)
  unfolding from_pool
  allocate_static net dep rows =
      from_pool (parse_static_pool ip net.subnet_cidr net.range_start net.range_end net.gateway)
        net.id dep rows

  -- `None` on a network that is not static.
  unfoldable pub allocate_ip :
      Network → ℕ → List IpAllocation → Response (Option String × List IpAllocation)
  unfolding allocate_static
  allocate_ip net dep rows = in_mode net.mode (allocate_static net dep rows) rows
