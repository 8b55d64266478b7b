-- ===== src/Network/Pool.antt =====
-- app/network_pool.py: the usable addresses of a persisted static pool, and its parsing.
-- The texts of addresses and networks are read and written by the `ipaddress` module.
pub mod Parse
pub mod Usable
use goblin_dock.Base.{
  ℕ, zero, suc, ◌+◌, ◌-◌, String, ◌≡◌, Bool, true, false, not, ◌&&◌, ◌||◌, Option, none, some, List,
  [], ◌∷◌, map, leb, ltb, ◌==◌, if◌then◌else◌, select, any, count_if, strip, str_eq,
}

pub data Version : Type 0 where
  v4 v6 : Version

abbrev pub version_eq : Version → Version → Bool
version_eq v4 v4 = true
version_eq v6 v6 = true
version_eq _ _ = false

abbrev pub is_v4 : Version → Bool
is_v4 v4 = true
is_v4 v6 = false

-- `ipaddress.ip_address`; `int(address)` is `value`.
pub record IpAddress : Type 0 where
  pub version : Version
  pub value : ℕ

-- `ipaddress.ip_network`
pub record IpNetwork : Type 0 where
  pub family : Version
  pub network_address : ℕ
  pub broadcast_address : ℕ
  pub prefixlen : ℕ

-- Addresses of two families are never equal.
abbrev pub addr_eq : IpAddress → IpAddress → Bool
addr_eq a b = version_eq a.version b.version && a.value == b.value

-- `address in network`
abbrev pub contains : IpNetwork → IpAddress → Bool
contains n a =
    version_eq a.version n.family
    && leb n.network_address a.value
    && leb a.value n.broadcast_address

-- What the code asks of `ipaddress`: reading and writing texts. A text that is written reads back, which is
-- asked here of every value, also of those above the 32 or 128 bits of a real address; scope ids of IPv6
-- are left out.
pub record IpTexts : Type 0 where
  pub ip_address : String → Option IpAddress
  pub ip_network : String → Option IpNetwork
  pub show : IpAddress → String
  pub read_back : (a : IpAddress) → ip_address (show a) ≡ some a

pub record StaticPool : Type 0 where
  pub network : IpNetwork
  pub start : IpAddress
  pub end : IpAddress
  pub gateway : Option IpAddress

abbrev pub gateway_is : Option IpAddress → IpAddress → Bool
gateway_is none a = false
gateway_is (some g) a = addr_eq a g

unfoldable pub is_reserved : StaticPool → IpAddress → Bool
is_reserved p a =
    addr_eq a (record { version = p.network.family; value = p.network.network_address })
    || (is_v4 p.network.family
        && addr_eq a (record { version = p.network.family; value = p.network.broadcast_address }))
    || gateway_is p.gateway a

-- `count` numbers upwards from `lo`; `range(lo, hi + 1)` is `range_from (hi + 1 - lo) lo`.
unfoldable pub range_from : ℕ → ℕ → List ℕ
range_from zero lo = []
range_from (suc n) lo = lo ∷ range_from n (lo + 1)

abbrev pub address_of : Version → ℕ → IpAddress
address_of v n = record { version = v; value = n }

abbrev pub candidates : StaticPool → List IpAddress
candidates p =
    map (address_of p.network.family) (range_from (p.end.value + 1 - p.start.value) p.start.value)

unfoldable pub iter_usable : StaticPool → List IpAddress
iter_usable p = select (λ a. not (is_reserved p a)) (candidates p)

-- `set.add`
abbrev pub set_add : IpAddress → List IpAddress → List IpAddress
set_add a s = if any (addr_eq a) s then s else a ∷ s

abbrev pub in_range : StaticPool → IpAddress → Bool
in_range p a = leb p.start.value a.value && leb a.value p.end.value

unfoldable pub reserved_set : StaticPool → List IpAddress
reserved_set p =
    let infra = address_of p.network.family p.network.network_address ∷ [] in
    let wide =
      if is_v4 p.network.family
      then set_add (address_of p.network.family p.network.broadcast_address) infra
      else infra in
    elim p.gateway [ none ↦ wide | some g ↦ set_add g wide ]

-- `start <= end` holds in every pool that `parse_static_pool` returns, so `-` is exact.
unfoldable pub usable_total : StaticPool → ℕ
unfolding reserved_set
usable_total p = p.end.value + 1 - p.start.value - count_if (in_range p) (reserved_set p)

-- `StaticPoolError`, by its message.
pub data PoolError : Type 0 where
  needs_range bad_subnet bad_start bad_end mixed_families inverted outside : PoolError
  bad_gateway gateway_family gateway_outside : PoolError

abbrev pub message : PoolError → String
message needs_range = "a static network requires both range_start and range_end"
message bad_subnet = "a static network needs a valid subnet_cidr (e.g. 10.0.50.0/24)"
message bad_start = "range_start must be a valid IP address"
message bad_end = "range_end must be a valid IP address"
message mixed_families = "subnet and static range must use the same IP family"
message inverted = "range_start must be <= range_end"
message outside = "the IP range is outside the subnet"
message bad_gateway = "gateway must be a valid IP address"
message gateway_family = "subnet and gateway must use the same IP family"
message gateway_outside = "gateway is outside the subnet"

pub data Parsed {ℓ} (A : Type ℓ) : Type ℓ where
  done : A → Parsed A
  failed : PoolError → Parsed A

infixl 5 ◌>>=◌
abbrev ◌>>=◌ {ℓ κ} : {A : Type ℓ} {B : Type κ} (m : Parsed A) (rest : A → Parsed B) → Parsed B
failed reason >>= rest = failed reason
done value >>= rest = rest value

infixl 5 ◌>>◌
abbrev ◌>>◌ {ℓ} : {B : Type ℓ} (check : Parsed (Unit {0})) (rest : Parsed B) → Parsed B
failed reason >> rest = failed reason
done passed >> rest = rest

abbrev fail_if : Bool → PoolError → Parsed (Unit {0})
fail_if true e = failed e
fail_if false e = done tt

-- `try: parse(text) except ValueError: raise StaticPoolError`
abbrev or_fail {ℓ} : {A : Type ℓ} → Option A → PoolError → Parsed A
or_fail none e = failed e
or_fail (some a) e = done a

module _ (ip : IpTexts) where
  unfoldable pub parse_gateway : IpNetwork → String → Parsed (Option IpAddress)
  parse_gateway network gateway = if str_eq (strip gateway) "" then done none else do
    g ← or_fail (ip.ip_address (strip gateway)) bad_gateway
    fail_if (not (version_eq g.version network.family)) gateway_family
    fail_if (not (contains network g)) gateway_outside
    done (some g)

  -- The checks once the texts of the subnet and of the two ends are read.
  unfoldable pub check_pool : IpNetwork → IpAddress → IpAddress → String → Parsed StaticPool
  check_pool network start end gateway = do
    fail_if
        (not (version_eq start.version end.version)
          || not (version_eq start.version network.family))
        mixed_families
    fail_if (ltb end.value start.value) inverted
    fail_if (not (contains network start) || not (contains network end)) outside
    gw ← parse_gateway network gateway
    done (record { network = network; start = start; end = end; gateway = gw })

  -- The texts are read in this order; the first that does not parse raises.
  unfoldable pub read_pool :
      Option IpNetwork → Option IpAddress → Option IpAddress → String → Parsed StaticPool
  read_pool subnet first_ip last_ip gateway = do
    network ← or_fail subnet bad_subnet
    start ← or_fail first_ip bad_start
    end ← or_fail last_ip bad_end
    check_pool network start end gateway

  unfoldable pub parse_static_pool : String → String → String → String → Parsed StaticPool
  parse_static_pool subnet_cidr range_start range_end gateway = do
    fail_if (str_eq (strip range_start) "" || str_eq (strip range_end) "") needs_range
    read_pool (ip.ip_network (strip subnet_cidr)) (ip.ip_address (strip range_start))
        (ip.ip_address (strip range_end)) gateway
