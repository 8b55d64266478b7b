-- ===== src/Client/Tests.antt =====
-- A request through one trusted proxy, from a client that forged the header.
use goblin_dock.Base.{
  String, ◌≡◌, refl, true, false, none, List, [], ◌∷◌, ◌++◌, any, select, strip, lstrip, rstrip,
  is_space, is_blank,
}
use goblin_dock.Network.Tests.{texts, read_address, marks}
use goblin_dock.Client.{Entries, explicitly_trusted, is_client, peer_trusted, forwarded, client_ip}
use goblin_dock.Client.Trusted.{client_ip-observed}

abbrev no_networks : Entries
no_networks = record { as_network = λ entry. none }

-- The proxy is "4i", the client "4ii", and what it wrote "4iii".
abbrev proxies : List String
proxies = "4i" ∷ []

abbrev chain : List String
chain = "4iii" ∷ " 4ii" ∷ "4i" ∷ []

proxy_skipped : is_client texts no_networks proxies "4i" ≡ false
unfolding explicitly_trusted any read_address marks
proxy_skipped = refl

client_seen : is_client texts no_networks proxies "4ii" ≡ true
unfolding explicitly_trusted any read_address marks
client_seen = refl

peer_is_proxy : peer_trusted texts no_networks "4i" proxies ≡ true
unfolding peer_trusted explicitly_trusted any read_address marks
peer_is_proxy = refl

-- " 4ii" loses its blank, and the client's own entry stays on its left.
chain_read : forwarded texts no_networks chain ≡ ("4iii" ∷ []) ++ "4ii" ∷ "4i" ∷ []
unfolding select strip lstrip rstrip is_space is_blank
chain_read = refl

client_ip-observed_example : client_ip texts no_networks proxies chain "4i" ≡ "4ii"
client_ip-observed_example =
    client_ip-observed texts no_networks proxies chain ("4iii" ∷ []) ("4i" ∷ []) "4ii" "4i"
      peer_is_proxy chain_read client_seen (proxy_skipped, tt)
