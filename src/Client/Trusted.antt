-- ===== src/Client/Trusted.antt =====
-- What a client can and cannot forge with the forwarding header.
use goblin_dock.Base.{
  String, ◌≡◌, refl, sym, ap, ◌∙◌, ◌⊎◌, inl, inr, Bool, true, false, Option, none, some, List, [],
  ◌∷◌, ◌++◌, arith, Bool-cases, first, All,
}
use mathlib.Core.List.{append-nil, append_assoc}
use goblin_dock.Network.Pool.{IpTexts}
use goblin_dock.Client.{
  Entries, reverse, is_ip, peer_trusted, is_client, or_else, forwarded, behind, client_ip,
}

first-passes :
    (p : String → Bool) (xs : List String) (x : String) → first p xs ≡ some x → p x ≡ true
unfolding first
first-passes p [] x h = cc
first-passes p (y ∷ xs) x h = ground (arith, first-passes p xs x)

-- Elements that do not pass, in front, are skipped.
first-skips :
    (p : String → Bool) (xs ys : List String)
    → All (λ x. p x ≡ false) xs
    → first p (xs ++ ys) ≡ first p ys
unfolding first
first-skips p [] ys h = refl
first-skips p (x ∷ xs) ys h = ground (arith, first-skips p xs ys h.1)

module _ (ip : IpTexts) (entries : Entries) where
  behind-ip :
      (allow hops : List String) (peer : String)
      → (behind ip entries allow hops peer ≡ peer)
        ⊎ (is_ip ip entries (behind ip entries allow hops peer) ≡ true)
  unfolding behind
  behind-ip allow hops peer = at_client (first (is_client ip entries allow) hops) refl
    where
      at_any :
          (o : Option String)
          → first (is_ip ip entries) hops ≡ o
          → (or_else ip entries o peer ≡ peer)
            ⊎ (is_ip ip entries (or_else ip entries o peer) ≡ true)
      at_any none e = inl refl
      at_any (some text) e = inr (first-passes (is_ip ip entries) hops text e)

      at_client :
          (o : Option String)
          → first (is_client ip entries allow) hops ≡ o
          → (or_else ip entries o (or_else ip entries (first (is_ip ip entries) hops) peer) ≡ peer)
            ⊎ (is_ip ip entries
                  (or_else ip entries o (or_else ip entries (first (is_ip ip entries) hops) peer))
                ≡ true)
      at_client none e = at_any (first (is_ip ip entries) hops) refl
      at_client (some text) e =
          let passes = first-passes (is_client ip entries allow) hops text e in inr (ground arith)

  -- The address of a request is the socket's peer or a text that reads as an address, whatever the
  -- header holds; and the peer where that is no trusted proxy.
  client_ip-forged :
      (allow header : List String) (peer : String)
      → ((client_ip ip entries allow header peer ≡ peer)
          ⊎ (is_ip ip entries (client_ip ip entries allow header peer) ≡ true))
        × ((peer_trusted ip entries peer allow ≡ true)
            ⊎ (client_ip ip entries allow header peer ≡ peer))
  unfolding client_ip
  client_ip-forged allow header peer = elim (Bool-cases (peer_trusted ip entries peer allow)) [
    | inl t ↦ (rw t (behind-ip allow (reverse (forwarded ip entries header)) peer), inl t)
    | inr t ↦ (rw t (inl refl), inr (rw t refl))
  ]

  -- Behind hops that are no client, the first address that is no proxy is the answer.
  behind-observed :
      (allow proxies forged : List String) (client peer : String)
      → All (λ hop. is_client ip entries allow hop ≡ false) proxies
      → is_client ip entries allow client ≡ true
      → behind ip entries allow (proxies ++ client ∷ forged) peer ≡ client
  unfolding behind first
  behind-observed allow proxies forged client peer skipped seen =
      let at : first (is_client ip entries allow) (proxies ++ client ∷ forged) ≡ some client =
        first-skips (is_client ip entries allow) proxies (client ∷ forged) skipped
        ∙ (rw seen refl) in
      rw at refl

  reverse-append : (xs ys : List String) → reverse (xs ++ ys) ≡ reverse ys ++ reverse xs
  reverse-append [] ys = sym (append-nil (reverse ys))
  reverse-append (x ∷ xs) ys =
      ap (λ l. l ++ x ∷ []) (reverse-append xs ys) ∙ append_assoc (reverse ys) (reverse xs) (x ∷ [])

  append-All :
      (p : String → Bool) (xs : List String) (x : String)
      → All (λ y. p y ≡ false) xs
      → p x ≡ false
      → All (λ y. p y ≡ false) (xs ++ x ∷ [])
  append-All p [] x all now = (now, tt)
  append-All p (y ∷ xs) x (h, all) now = (h, append-All p xs x all now)

  reverse-All :
      (p : String → Bool) (xs : List String)
      → All (λ y. p y ≡ false) xs
      → All (λ y. p y ≡ false) (reverse xs)
  reverse-All p [] all = tt
  reverse-All p (x ∷ xs) (h, all) = append-All p (reverse xs) x (reverse-All p xs all) h

  -- The trusted hops append on the right of the header: where the request comes from a trusted proxy
  -- and the header's entries (stripped, without the blank ones) end with a client's address and then
  -- hops that are no client (proxies of the list, or texts that are no address), that address is the
  -- answer, whatever the client itself wrote to its left.
  pub client_ip-observed :
      (allow header forged proxies : List String) (client peer : String)
      → peer_trusted ip entries peer allow ≡ true
      → forwarded ip entries header ≡ forged ++ client ∷ proxies
      → is_client ip entries allow client ≡ true
      → All (λ hop. is_client ip entries allow hop ≡ false) proxies
      → client_ip ip entries allow header peer ≡ client
  unfolding client_ip
  client_ip-observed allow header forged proxies client peer trusted entries_are seen skipped =
      let turned : reverse (forwarded ip entries header)
          ≡ reverse proxies ++ client ∷ reverse forged =
        ap (reverse) entries_are
        ∙ reverse-append forged (client ∷ proxies)
        ∙ append_assoc (reverse proxies) (client ∷ []) (reverse forged) in
      rw (trusted, turned)
        (behind-observed allow (reverse proxies) (reverse forged) client peer
          (reverse-All (is_client ip entries allow) proxies skipped) seen)
