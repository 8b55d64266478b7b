-- ===== src/Proxmox/Guests.antt =====
-- What the inventory of the cluster promises once it is accepted.
use goblin_dock.Base.{
  ℕ, suc, ◌≤◌, String, ◌≡◌, refl, ap, inl, inr, Bool, true, false, Option, none, some, List, [],
  ◌∷◌, arith, ◌==◌, if◌then◌else◌, Bool-cases, first, any, count_if, ◌||◌, length, subst, sym,
}
use goblin_dock.Proxmox.{
  Answer, answered, cancelled, failing, GuestType, qemu, lxc, RawGuest, Guest, Inventory,
  identity_of, cons_guest, check_guests, list_cluster_guests, assert_vmid_free, is_qemu, find_in,
  find_vm_node,
}

abbrev pub has_vmid : ℕ → Guest → Bool
has_vmid v g = g.vmid == v

-- Ids are positive, differ from the ids seen before, and no two are equal.
abbrev pub DistinctIds : List ℕ → List Guest → Type 0
DistinctIds seen gs =
    ((v : ℕ) → count_if (has_vmid v) gs ≤ 1)
    × ((v : ℕ) → any (λ s. s == v) seen ≡ true → count_if (has_vmid v) gs ≡ 0)
    × (count_if (has_vmid 0) gs ≡ 0)

cons_guest-ok :
    (g : Guest) (a : Answer (List Guest)) (gs : List Guest)
    → cons_guest g a ≡ answered gs
    → (rest : List Guest) × (a ≡ answered rest) × (gs ≡ g ∷ rest)
cons_guest-ok g (answered rest) gs h = (rest, refl, ground arith)
cons_guest-ok g cancelled gs h = cc
cons_guest-ok g (failing text) gs h = cc

-- A guest whose id was not seen before goes in front.
cons-DistinctIds :
    (seen : List ℕ) (g : Guest) (rest : List Guest)
    → (g.vmid == 0) ≡ false
    → any (λ v. v == g.vmid) seen ≡ false
    → DistinctIds (g.vmid ∷ seen) rest
    → DistinctIds seen (g ∷ rest)
unfolding count_if any
cons-DistinctIds seen g rest positive fresh (once, apart, none_zero) =
    ((λ v. once_of v), (λ v h. apart_of v h), ground arith)
  where
    once_of : (v : ℕ) → count_if (has_vmid v) (g ∷ rest) ≤ 1
    once_of v = let a = once v in let b = apart v in ground arith

    apart_of : (v : ℕ) → any (λ s. s == v) seen ≡ true → count_if (has_vmid v) (g ∷ rest) ≡ 0
    apart_of v h =
        let b = apart v in
        elim (Bool-cases (g.vmid == v)) [
          | inl e ↦
              let same : g.vmid ≡ v = ground arith in
              let clash : any (λ s. s == v) seen ≡ false =
                subst (λ w. any (λ s. s == w) seen ≡ false) same fresh in
              ground arith
          | inr e ↦ ground arith
        ]

check_guests-DistinctIds :
    (seen : List ℕ) (raws : List RawGuest) (gs : List Guest)
    → check_guests seen raws ≡ answered gs
    → DistinctIds seen gs × (length gs ≡ length raws)
unfolding check_guests
check_guests-DistinctIds seen [] gs h =
    let same : [] ≡ gs = ground arith in
    subst (λ l. DistinctIds seen l × (length l ≡ 0)) same
      (unfold count_if in (((λ v. omega arith), (λ v e. refl), refl), refl))
check_guests-DistinctIds seen (raw ∷ raws) gs h =
    go (identity_of raw) h (λ g rest. check_guests-DistinctIds (g.vmid ∷ seen) raws rest)
  where
    go :
        (o : Option Guest)
        → (elim o as (λ _. Answer (List Guest)) [
          | none ↦ failing "cluster guest inventory has incomplete identity"
          | some g ↦
              if (g.vmid == 0) || any (λ v. v == g.vmid) seen
              then failing "cluster guest inventory has ambiguous identity"
              else cons_guest g (check_guests (g.vmid ∷ seen) raws)
        ])
          ≡ answered gs
        → ((g : Guest) (rest : List Guest)
            → check_guests (g.vmid ∷ seen) raws ≡ answered rest
            → DistinctIds (g.vmid ∷ seen) rest × (length rest ≡ length raws))
        → DistinctIds seen gs × (length gs ≡ suc (length raws))
    go none e rec = cc
    go (some g) e rec = at_test ((g.vmid == 0) || any (λ v. v == g.vmid) seen) refl e
      where
        at_test :
            (b : Bool)
            → ((g.vmid == 0) || any (λ v. v == g.vmid) seen) ≡ b
            → (if b
                then failing "cluster guest inventory has ambiguous identity"
                else cons_guest g (check_guests (g.vmid ∷ seen) raws))
              ≡ answered gs
            → DistinctIds seen gs × (length gs ≡ suc (length raws))
        at_test true t e' = cc
        at_test false t e' =
            let (rest, r, same) = cons_guest-ok g (check_guests (g.vmid ∷ seen) raws) gs e' in
            let (d, l) = rec g rest r in
            subst (λ k. DistinctIds seen k × (length k ≡ suc (length raws))) (sym same)
              (cons-DistinctIds seen g rest (ground arith) (ground arith) d, ap suc l)

-- An inventory that is accepted has every guest that the API listed, each with a positive id, and no two
-- with one id.
list_cluster_guests-DistinctIds :
    (i : Inventory) (raws : List RawGuest) (gs : List Guest)
    → i.resources ≡ some raws
    → list_cluster_guests i ≡ answered gs
    → DistinctIds [] gs × (length gs ≡ length raws)
unfolding list_cluster_guests
list_cluster_guests-DistinctIds i raws gs e h =
    check_guests-DistinctIds [] raws gs (ground (arith, e))

-- Where the search says the VM is: on the node that the inventory gives a virtual machine of the id,
-- or nowhere, which no guest of the inventory and the registry's answer together show.
abbrev pub Located : ℕ → Option ℕ → List Guest → Option String → Type 0
Located v registry gs none = (count_if (has_vmid v) gs ≡ 0) × (registry ≡ some v)
Located v registry gs (some n) =
    (g : Guest) × (first (has_vmid v) gs ≡ some g) × (g.type ≡ qemu) × (g.node ≡ n)

is_qemu_lem : (t : GuestType) → is_qemu t ≡ true → t ≡ qemu
is_qemu_lem qemu h = refl
is_qemu_lem lxc h = cc

assert_vmid_free-ok :
    (v : ℕ) (registry : Option ℕ) → assert_vmid_free v registry ≡ answered tt → registry ≡ some v
unfolding assert_vmid_free
assert_vmid_free-ok v none h = cc
assert_vmid_free-ok v (some w) h = let e : w ≡ v = ground arith in ap some e

find_in-Located :
    (v : ℕ) (registry : Option ℕ) (gs : List Guest) (found : Option String)
    → find_in v registry gs ≡ answered found
    → Located v registry gs found
unfolding find_in
find_in-Located v registry [] found h = at_registry (assert_vmid_free v registry) refl h
  where
    at_registry :
        (a : Answer (Unit {0}))
        → assert_vmid_free v registry ≡ a
        → (elim a as (λ _. Answer (Option String)) [
          | answered free ↦ answered none
          | cancelled ↦ cancelled
          | failing text ↦ failing text
        ])
          ≡ answered found
        → Located v registry [] found
    at_registry (answered tt) e h' =
        let same : none ≡ found = ground arith in
        subst (Located v registry []) same
          (unfold count_if in (refl, assert_vmid_free-ok v registry e))
    at_registry cancelled e h' = cc
    at_registry (failing text) e h' = cc
find_in-Located v registry (g ∷ gs) found h = elim (Bool-cases (g.vmid == v)) [
  | inl here ↦ elim (Bool-cases (is_qemu g.type)) [
    | inl q ↦
        let same : some g.node ≡ found = ground arith in
        subst (Located v registry (g ∷ gs)) same
          (g, (unfold first in (ground arith)), is_qemu_lem g.type q, refl)
    | inr q ↦
        let no_answer : failing "VM ID belongs to a container" ≡ answered found = ground arith in cc
  ]
  | inr other ↦ step found (find_in-Located v registry gs found (ground arith)) other
]
  where
    step :
        (o : Option String)
        → Located v registry gs o
        → (g.vmid == v) ≡ false
        → Located v registry (g ∷ gs) o
    step none (c, r) other = (unfold count_if in (ground arith), r)
    step (some n) (w, f, q, m) other = (w, (unfold first in (ground arith)), q, m)

-- The search for a VM answers only from an accepted inventory: with the node that the inventory gives the
-- first guest of that id, which is a virtual machine; or with absence, when no guest of the inventory has
-- the id and the registry confirmed that this very id is free.
find_vm_node-Located :
    (v : ℕ) (i : Inventory) (registry : Option ℕ) (found : Option String)
    → find_vm_node v i registry ≡ answered found
    → (gs : List Guest) × (list_cluster_guests i ≡ answered gs) × Located v registry gs found
unfolding find_vm_node
find_vm_node-Located v i registry found h = at_list (list_cluster_guests i) refl h
  where
    at_list :
        (a : Answer (List Guest))
        → list_cluster_guests i ≡ a
        → (elim a as (λ _. Answer (Option String)) [
          | answered guests ↦ find_in v registry guests
          | cancelled ↦ cancelled
          | failing text ↦ failing text
        ])
          ≡ answered found
        → (gs : List Guest) × (list_cluster_guests i ≡ answered gs) × Located v registry gs found
    at_list (answered gs) e h' = (gs, e, find_in-Located v registry gs found h')
    at_list cancelled e h' = cc
    at_list (failing text) e h' = cc
