-- ===== src/ImageUrl/Tests.antt =====
-- app/api.py: a mirror with one public address.
use goblin_dock.Base.{
  String, ◌≡◌, refl, false, not, some, List, [], ◌∷◌, All, str_eq, ok, http, ◌==◌, if◌then◌else◌,
}
use goblin_dock.Network.Pool.{IpAddress, v4}
use goblin_dock.ImageUrl.{
  Url, Resolver, validate_image_url, check_answers, check_addresses, IsPublic,
  validate_image_url-Public,
}

abbrev mirror : String
mirror = "https://mirror/debian.img"

abbrev public_ip : IpAddress
public_ip = record { version = v4; value = 8 }

abbrev private_ip : IpAddress
private_ip = record { version = v4; value = 10 }

-- The host "mirror" has one public address, any other host has a private one as well.
abbrev resolver : Resolver
resolver = record {
  urlparse = λ url.
      ok (record {
        scheme = "https";
        hostname = if str_eq url mirror then "mirror" else "intranet";
      });
  getaddrinfo =
      λ host. some (if str_eq host "mirror" then public_ip ∷ [] else public_ip ∷ private_ip ∷ []);
  is_global = λ a. a.value == 8;
  is_multicast = λ a. false;
}

accepted : validate_image_url resolver mirror ≡ ok mirror
unfolding validate_image_url check_answers check_addresses
accepted = refl

blocked :
    validate_image_url resolver "https://intranet/x"
    ≡ http 400 "image URL resolves to a non-public address (blocked)"
unfolding validate_image_url check_answers check_addresses
blocked = refl

validate_image_url-Public_example :
    (u : Url) × (resolver.urlparse mirror ≡ ok u)
    × (not (str_eq u.scheme "https") ≡ false)
    × (str_eq u.hostname "" ≡ false)
    × (a : IpAddress) × (rest : List IpAddress) × (resolver.getaddrinfo u.hostname
        ≡ some (a ∷ rest))
    × All (IsPublic resolver) (a ∷ rest)
    × (mirror ≡ mirror)
validate_image_url-Public_example = validate_image_url-Public resolver mirror mirror accepted
