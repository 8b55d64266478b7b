-- ===== src/Client.antt =====
-- app/netutil.py: which address a request comes from, behind trusted proxies. Texts of addresses and
-- networks are read by the `ipaddress` module; a header is the list of its comma-separated texts.
pub mod Trusted
mod Tests
use goblin_dock.Base.{
  ℕ, String, ◌≡◌, Bool, true, false, not, ◌&&◌, ◌||◌, Option, none, some, List, [], ◌∷◌, ◌++◌,
  if◌then◌else◌, any, first, select, strip, str_eq, map,
}
use goblin_dock.Network.Pool.{IpAddress, IpNetwork, contains, IpTexts}

-- `"/" in entry` and the reading of an entry as a network: `none` for an exact entry, and
-- `some none` for an entry with a slash that does not parse.
pub record Entries : Type 0 where
  pub as_network : String → Option (Option IpNetwork)

abbrev pub reverse {ℓ} : {A : Type ℓ} → List A → List A
reverse [] = []
reverse (x ∷ xs) = reverse xs ++ x ∷ []

module _ (ip : IpTexts) (entries : Entries) where
  abbrev pub is_ip : String → Bool
  is_ip text = elim (ip.ip_address text) [ none ↦ false | some a ↦ true ]

  abbrev pub covers : IpAddress → String → Bool
  covers a entry = elim (entries.as_network entry) [
    | none ↦ false
    | some parsed ↦ elim parsed [ none ↦ false | some n ↦ contains n a ]
  ]

  unfoldable pub explicitly_trusted : String → List String → Bool
  explicitly_trusted text allow =
      any (str_eq text) allow
      || elim (ip.ip_address text) [ none ↦ false | some a ↦ any (covers a) allow ]

  unfoldable pub peer_trusted : String → List String → Bool
  unfolding explicitly_trusted
  peer_trusted peer [] = false
  peer_trusted peer (e ∷ allow) =
      any (str_eq "*") (e ∷ allow) || explicitly_trusted peer (e ∷ allow)

  abbrev pub is_client : List String → String → Bool
  is_client allow text = is_ip text && not (explicitly_trusted text allow)

  abbrev pub or_else : Option String → String → String
  or_else none fallback = fallback
  or_else (some text) fallback = text

  abbrev pub forwarded : List String → List String
  forwarded header = select (λ e. not (str_eq e "")) (map strip header)

  -- The client behind the hops, seen from the right.
  unfoldable pub behind : List String → List String → String → String
  behind allow hops peer = or_else (first (is_client allow) hops) (or_else (first is_ip hops) peer)

  -- `peer` is the socket's peer, or the empty text.
  unfoldable pub client_ip : List String → List String → String → String
  unfolding behind
  client_ip allow header peer =
      if not (peer_trusted peer allow) then peer else behind allow (reverse (forwarded header)) peer
