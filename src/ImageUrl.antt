-- ===== src/ImageUrl.antt =====
-- app/api.py: `validate_image_url`, which keeps the download address of a cloud image off internal hosts.
-- Reading a URL, resolving a host and classifying an address are calls of the Python library.
mod Tests
use goblin_dock.Base.{
  ℕ, String, ◌≡◌, refl, sym, ap, Bool, true, false, not, ◌||◌, Option, none, some, List, [], ◌∷◌,
  All, str_eq, arith, Response, ok, http, ◌>>=◌, ◌>>◌, reject_if, >>=-eq-ok, reject_if-ok,
}
use goblin_dock.Network.Pool.{IpAddress}

-- What is used of the result of `urlparse`; a missing host is "".
pub record Url : Type 0 where
  pub scheme : String
  pub hostname : String

pub record Resolver : Type 0 where
  -- A text that it refuses raises there.
  pub urlparse : String → Response Url
  -- `none` for `gaierror`, else the addresses of the answers.
  pub getaddrinfo : String → Option (List IpAddress)
  pub is_global : IpAddress → Bool
  pub is_multicast : IpAddress → Bool

module _ (r : Resolver) where
  -- The loop over the answers.
  unfoldable pub check_addresses : List IpAddress → Response (Unit {0})
  check_addresses [] = ok tt
  check_addresses (a ∷ rest) =
      reject_if (not (r.is_global a) || r.is_multicast a) 400
        "image URL resolves to a non-public address (blocked)"
      >> check_addresses rest

  unfoldable pub check_answers : Option (List IpAddress) → Response (Unit {0})
  unfolding check_addresses
  check_answers none = http 400 "cannot resolve image host"
  check_answers (some []) = http 400 "cannot resolve image host"
  check_answers (some (a ∷ rest)) = check_addresses (a ∷ rest)

  unfoldable pub validate_image_url : String → Response String
  unfolding check_answers
  validate_image_url url = do
    u ← r.urlparse url
    reject_if (not (str_eq u.scheme "https")) 400 "image URL must be https"
    reject_if (str_eq u.hostname "") 400 "image URL has no host"
    check_answers (r.getaddrinfo u.hostname)
    ok url

  abbrev pub IsPublic : IpAddress → Type 0
  IsPublic a = (r.is_global a ≡ true) × (r.is_multicast a ≡ false)

  addresses-Public :
      {A : Type 0} (l : List IpAddress) (next : Response A) (x : A)
      → (check_addresses l >> next) ≡ ok x
      → All IsPublic l × (next ≡ ok x)
  unfolding check_addresses
  addresses-Public [] next x h = (tt, h)
  addresses-Public (a ∷ rest) next x h =
      go (addresses-Public rest next x) (r.is_global a) (r.is_multicast a) refl refl h
    where
      go :
          ((check_addresses rest >> next) ≡ ok x → All IsPublic rest × (next ≡ ok x))
          → (g m : Bool) → r.is_global a ≡ g
          → r.is_multicast a ≡ m
          → ((reject_if (not g || m) 400 "image URL resolves to a non-public address (blocked)"
                >> check_addresses rest)
              >> next)
            ≡ ok x
          → All IsPublic (a ∷ rest) × (next ≡ ok x)
      go rec true false eg em e = let (others, e1) = rec e in (((eg, em), others), e1)
      go rec true true eg em e = cc
      go rec false m eg em e = cc

  answers-Public :
      {A : Type 0} (found : Option (List IpAddress)) (next : Response A) (x : A)
      → (check_answers found >> next) ≡ ok x
      → (a : IpAddress) × (rest : List IpAddress) × (found ≡ some (a ∷ rest))
        × All IsPublic (a ∷ rest)
        × (next ≡ ok x)
  unfolding check_answers
  answers-Public none next x h = cc
  answers-Public (some []) next x h = cc
  answers-Public (some (a ∷ rest)) next x h =
      let (all, e) = addresses-Public (a ∷ rest) next x h in (a, rest, refl, all, e)

-- A URL that is let through is https and has a host, the host resolves to at least one address, and every
-- address that it resolves to is global and not multicast; the URL itself is handed on unchanged.
pub validate_image_url-Public :
    (r : Resolver) (url answer : String)
    → validate_image_url r url ≡ ok answer
    → (u : Url) × (r.urlparse url ≡ ok u)
      × (not (str_eq u.scheme "https") ≡ false)
      × (str_eq u.hostname "" ≡ false)
      × (a : IpAddress) × (rest : List IpAddress) × (r.getaddrinfo u.hostname ≡ some (a ∷ rest))
      × All (IsPublic r) (a ∷ rest)
      × (answer ≡ url)
unfolding validate_image_url
validate_image_url-Public r url answer h =
    let (u, p, h1) = >>=-eq-ok (r.urlparse url) _ h in
    let (https, h2) = reject_if-ok (not (str_eq u.scheme "https")) _ _ _ answer h1 in
    let (host, h3) = reject_if-ok (str_eq u.hostname "") _ _ _ answer h2 in
    let (a, rest, found, all, e) = answers-Public r (r.getaddrinfo u.hostname) (ok url) answer h3 in
    (u, p, https, host, a, rest, found, all, cc)
