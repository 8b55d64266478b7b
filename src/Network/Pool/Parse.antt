-- ===== src/Network/Pool/Parse.antt =====
-- What `parse_static_pool` accepts.
use goblin_dock.Base.{◌≡◌, true, Option, none, some, ◌≤◌, String, arith, strip}
use goblin_dock.Network.Pool.{
  IpAddress, IpNetwork, IpTexts, StaticPool, contains, done, parse_static_pool, parse_gateway,
  check_pool, read_pool,
}

abbrev pub GatewayInside : IpNetwork → Option IpAddress → Type 0
GatewayInside network none = Unit
GatewayInside network (some g) = contains network g ≡ true

-- A pool lies inside its network, in order, with its gateway inside too.
pub record IsPool (p : StaticPool) : Type 0 where
  pub start_inside : contains p.network p.start ≡ true
  pub end_inside : contains p.network p.end ≡ true
  pub ordered : p.start.value ≤ p.end.value
  pub gateway_inside : GatewayInside p.network p.gateway

module _ (ip : IpTexts) where
  gateway-inside :
      (network : IpNetwork) (text : String) (g : Option IpAddress)
      → parse_gateway ip network text ≡ done g
      → GatewayInside network g
  unfolding parse_gateway
  gateway-inside network text none h = tt
  gateway-inside network text (some g) h = ground (arith)

  -- The checks after the texts are read.
  checked-IsPool :
      (network : IpNetwork) (start end : IpAddress) (gateway : String) (p : StaticPool)
      → check_pool ip network start end gateway ≡ done p
      → IsPool p
  unfolding check_pool
  checked-IsPool network start end gateway p h =
      ground (arith, gateway-inside network gateway p.gateway)

  -- A text that does not parse ends the reading.
  read-IsPool :
      (n : Option IpNetwork) (s e : Option IpAddress) (gateway : String) (p : StaticPool)
      → read_pool ip n s e gateway ≡ done p
      → IsPool p
  unfolding read_pool
  read-IsPool (some network) (some start) (some end) gateway p h =
      checked-IsPool network start end gateway p h
  read-IsPool (some network) (some start) none gateway p h = cc
  read-IsPool (some network) none e gateway p h = cc
  read-IsPool none s e gateway p h = cc

  -- Every pool that is read from the four texts lies in order inside its subnet, its gateway
  -- (where one is given) included.
  pub parse_static_pool-IsPool :
      (subnet_cidr range_start range_end gateway : String) (p : StaticPool)
      → parse_static_pool ip subnet_cidr range_start range_end gateway ≡ done p
      → IsPool p
  unfolding parse_static_pool
  parse_static_pool-IsPool subnet_cidr range_start range_end gateway p h = ground (
    arith,
    read-IsPool (ip.ip_network (strip subnet_cidr)) (ip.ip_address (strip range_start))
        (ip.ip_address (strip range_end)) gateway p,
  )
