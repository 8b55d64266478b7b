-- ===== src/Network/Context.antt =====
-- The network part of a job's context: `_network_ctx` of app/api.py, which reserves the address, and
-- `read_only_network_ctx` of app/template_ops.py, which shows what would be reserved. The keys `bridge`,
-- `vlan` and `dns`, which both copy from the network, are left out.
pub mod Preview
use goblin_dock.Base.{
  ℕ, String, Bool, true, false, not, ◌&&◌, Option, none, some, List, ◌==◌, if◌then◌else◌, first,
  any, str_eq, Response, ok, http, ◌>>=◌,
}
use goblin_dock.Models.{IpAllocation, Network, NetworkMode, dhcp, static, allocation_of}
use goblin_dock.Network.Pool.{
  message, IpAddress, IpTexts, StaticPool, Parsed, done, failed, Version, iter_usable,
  parse_static_pool,
}
use goblin_dock.Network.Allocate.{
  on_network, is_row, usable_in, reservation, holds, is_taken, allocate_in,
}

-- `ipconfig0`: the family of its keys, the address, the length of the prefix, and the gateway.
pub record IpConfig : Type 0 where
  pub family : Version
  pub address : String
  pub prefixlen : ℕ
  pub gateway : Option IpAddress

pub record NetworkCtx : Type 0 where
  pub network_mode : NetworkMode
  pub static_ip : Option String
  pub ipconfig0 : Option IpConfig

abbrev pub dhcp_ctx : NetworkCtx
dhcp_ctx = record { network_mode = dhcp; static_ip = none; ipconfig0 = none }

abbrev pub static_ctx : StaticPool → Version → String → NetworkCtx
static_ctx p family address = record {
  network_mode = static;
  static_ip = some address;
  ipconfig0 = some (record {
    family = family;
    address = address;
    prefixlen = p.network.prefixlen;
    gateway = p.gateway;
  });
}

module _ (ip : IpTexts) where
  unfoldable pub ctx_in :
      Parsed StaticPool → ℕ → ℕ → List IpAllocation → Response (NetworkCtx × List IpAllocation)
  unfolding allocate_in
  ctx_in (failed e) net dep rows = http 400 (message e)
  ctx_in (done p) net dep rows = do
    got ← allocate_in ip p net dep (reservation net dep rows) rows
    ok (static_ctx p p.network.family got.0, got.1)

  abbrev pub mode_ctx :
      NetworkMode
      → List IpAllocation
      → Response (NetworkCtx × List IpAllocation)
      → Response (NetworkCtx × List IpAllocation)
  mode_ctx dhcp rows m = ok (dhcp_ctx, rows)
  mode_ctx static rows m = m

  -- `_network_ctx`
  unfoldable pub network_ctx :
      Network → ℕ → List IpAllocation → Response (NetworkCtx × List IpAllocation)
  unfolding ctx_in
  network_ctx net dep rows = mode_ctx net.mode rows (
      ctx_in (parse_static_pool ip net.subnet_cidr net.range_start net.range_end net.gateway) net.id
        dep rows)

  -- The deployment's own row: none before there is a deployment.
  abbrev pub own_row : ℕ → Option ℕ → List IpAllocation → Option IpAllocation
  own_row net none rows = none
  own_row net (some dep) rows = reservation net dep rows

  -- The address of a reservation that is kept.
  unfoldable pub kept_address : StaticPool → Option IpAllocation → Option IpAddress
  kept_address p none = none
  kept_address p (some e) =
      if str_eq e.state "reserved"
      then elim (ip.ip_address e.ip) [
        | none ↦ none
        | some a ↦ if usable_in p a then some a else none
      ]
      else none

  unfoldable pub preview_address :
      StaticPool → ℕ → Option IpAllocation → List IpAllocation → Option IpAddress
  unfolding kept_address is_taken
  preview_address p net own rows = elim (kept_address p own) [
    | some a ↦ some a
    | none ↦ first (λ a. not (is_taken ip net own rows a)) (iter_usable p)
  ]

  unfoldable pub preview_in :
      Parsed StaticPool → ℕ → Option ℕ → List IpAllocation → Response NetworkCtx
  unfolding preview_address
  preview_in (failed e) net dep rows = http 400 (message e)
  preview_in (done p) net dep rows = elim (preview_address p net (own_row net dep rows) rows) [
    | none ↦ http 409 "static IP pool exhausted"
    | some a ↦ ok (static_ctx p a.version (ip.show a))
  ]

  abbrev pub mode_preview : NetworkMode → Response NetworkCtx → Response NetworkCtx
  mode_preview dhcp m = ok dhcp_ctx
  mode_preview static m = m

  -- `read_only_network_ctx`, for a network that is there.
  unfoldable pub read_only_network_ctx :
      Network → Option ℕ → List IpAllocation → Response NetworkCtx
  unfolding preview_in
  read_only_network_ctx net dep rows = mode_preview net.mode (
      preview_in (parse_static_pool ip net.subnet_cidr net.range_start net.range_end net.gateway)
        net.id dep rows)
