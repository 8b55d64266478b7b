-- ===== src/Network/Tests.antt =====
-- Runs of app/network_pool.py and of `allocate_ip` of app/api.py on one small network.
use goblin_dock.Base.{
  ℕ, zero, suc, String, ◌≡◌, refl, ap, Option, none, some, [], ◌∷◌, arith, ◌==◌, length, count_if,
  ok, http, strip, lstrip, rstrip, is_space, is_blank, first, select, any, put, update,
  if◌then◌else◌,
}
use Prim.Native.Char.{Char, code}
use goblin_dock.Models.{IpAllocation, next_id, Network, static, allocation_key}
use goblin_dock.Network.Pool.{
  Version, v4, v6, IpAddress, IpNetwork, IpTexts, StaticPool, done, parse_static_pool, read_pool,
  check_pool, parse_gateway, is_reserved, range_from, usable_total, iter_usable, address_of,
}
use goblin_dock.Network.Pool.Parse.{IsPool, parse_static_pool-IsPool}
use goblin_dock.Network.Pool.Usable.{usable_total-length}
use goblin_dock.Network.Allocate.{
  allocate_ip, allocate_static, from_pool, allocate_in, reusable, take_free, is_taken, pick,
  reserve,
}
use goblin_dock.Network.Context.{network_ctx, read_only_network_ctx}
use goblin_dock.Network.Context.Preview.{Agrees, read_only_network_ctx-Agrees}
use goblin_dock.Network.Allocate.Unique.{IsUnique}
use goblin_dock.Network.Allocate.Sound.{allocate_ip-IsUnique, Reserved, allocate_ip-Reserved}

-- Texts for the tests: the digit of the family, then one mark for each unit.
unfoldable pub marks : String → ℕ
marks String.[] = zero
marks (String.◌∷◌ c s) = suc (marks s)

unfoldable pub unary : ℕ → String
unary zero = ""
unary (suc n) = String.◌∷◌ "i" (unary n)

unfoldable pub read_address : String → Option IpAddress
unfolding marks
read_address String.[] = none
read_address (String.◌∷◌ c s) =
    if code c == 52
    then some (address_of v4 (marks s))
    else if code c == 54
    then some (address_of v6 (marks s))
    else none

abbrev digit : Version → Char
digit v4 = "4"
digit v6 = "6"

unfoldable pub show_address : IpAddress → String
unfolding unary
show_address a = String.◌∷◌ (digit a.version) (unary a.value)

pub marks-unary : (n : ℕ) → marks (unary n) ≡ n
unfolding marks unary
marks-unary zero = refl
marks-unary (suc n) = ground (arith, marks-unary n)

pub read-show :
    (v : Version) (n : ℕ) → read_address (show_address (address_of v n)) ≡ some (address_of v n)
unfolding read_address show_address
read-show v4 n = ap (λ k. some (address_of v4 k)) (marks-unary n)
read-show v6 n = ap (λ k. some (address_of v6 k)) (marks-unary n)

-- The one network of the tests: 8 up to 15, of which 8 and 15 are reserved.
abbrev pub small_net : IpNetwork
small_net = record { family = v4; network_address = 8; broadcast_address = 15; prefixlen = 29 }

abbrev pub texts : IpTexts
texts = record {
  ip_address = read_address;
  ip_network = λ s. some small_net;
  show = show_address;
  read_back = λ a. read-show a.version a.value;
}

-- From 8 to 10, with the gateway 9: one usable address.
abbrev tight_pool : StaticPool
tight_pool = record {
  network = small_net;
  start = address_of v4 8;
  end = address_of v4 10;
  gateway = some (address_of v4 9);
}

abbrev lan : Network
lan = record {
  id = 1;
  mode = static;
  subnet_cidr = "net";
  gateway = "4iiiiiiiii";
  range_start = "4iiiiiiii";
  range_end = "4iiiiiiiiii";
}

-- The row that deployment 3 gets.
abbrev row_of_3 : IpAllocation
row_of_3 = record {
  id = 1;
  network_id = 1;
  ip = "4iiiiiiiiii";
  deployment_id = some 3;
  state = "reserved";
}

lan-parses :
    parse_static_pool texts lan.subnet_cidr lan.range_start lan.range_end lan.gateway
    ≡ done tight_pool
unfolding parse_static_pool read_pool check_pool parse_gateway strip lstrip rstrip is_space is_blank
    read_address marks
lan-parses = refl

lan-allocates : allocate_ip texts lan 3 [] ≡ ok (some "4iiiiiiiiii", row_of_3 ∷ [])
unfolding allocate_ip allocate_static from_pool allocate_in reusable take_free is_taken pick reserve
    iter_usable is_reserved range_from parse_static_pool read_pool check_pool parse_gateway strip
    lstrip rstrip is_space is_blank read_address marks show_address unary first select any put
    update next_id
lan-allocates = refl

-- The next deployment finds the pool exhausted, and the first one gets its own address again.
lan-exhausted : allocate_ip texts lan 4 (row_of_3 ∷ []) ≡ http 409 "static IP pool exhausted"
unfolding allocate_ip allocate_static from_pool allocate_in reusable take_free is_taken pick reserve
    iter_usable is_reserved range_from parse_static_pool read_pool check_pool parse_gateway strip
    lstrip rstrip is_space is_blank read_address marks show_address unary first select any put
    update next_id
lan-exhausted = refl

lan-again : allocate_ip texts lan 3 (row_of_3 ∷ []) ≡ ok (some "4iiiiiiiiii", row_of_3 ∷ [])
unfolding allocate_ip allocate_static from_pool allocate_in reusable take_free is_taken pick reserve
    iter_usable is_reserved range_from parse_static_pool read_pool check_pool parse_gateway strip
    lstrip rstrip is_space is_blank read_address marks show_address unary first select any put
    update next_id
lan-again = refl

nothing-IsUnique : IsUnique texts []
unfolding count_if
nothing-IsUnique = record { keys = λ k. omega arith; addresses = λ net a. omega arith }

parse_static_pool-IsPool_example : IsPool tight_pool
parse_static_pool-IsPool_example =
    parse_static_pool-IsPool texts "net" "4iiiiiiii" "4iiiiiiiiii" "4iiiiiiiii" tight_pool
      lan-parses

usable_total-length_example : usable_total tight_pool ≡ length (iter_usable tight_pool)
usable_total-length_example = usable_total-length tight_pool parse_static_pool-IsPool_example

allocate_ip-IsUnique_example : IsUnique texts (row_of_3 ∷ [])
allocate_ip-IsUnique_example =
    allocate_ip-IsUnique texts lan 3 [] (some "4iiiiiiiiii", row_of_3 ∷ []) nothing-IsUnique
      lan-allocates

allocate_ip-Reserved_example : Reserved texts tight_pool 1 3 ("4iiiiiiiiii", row_of_3 ∷ [])
allocate_ip-Reserved_example =
    allocate_ip-Reserved texts lan 3 [] tight_pool "4iiiiiiiiii" (row_of_3 ∷ []) refl lan-parses
      lan-allocates

read_only_network_ctx-Agrees_example :
    Agrees texts
      (read_only_network_ctx texts lan (some 3) (row_of_3 ∷ []))
      (network_ctx texts lan 3 (row_of_3 ∷ []))
read_only_network_ctx-Agrees_example =
    read_only_network_ctx-Agrees texts lan 3 (some 3) (row_of_3 ∷ []) refl
