-- ===== src/Lifecycle/Locks/Counted.antt =====
-- What holds of the registry of locks in every state, and the steps that only change a phase.
use goblin_dock.Base.{
  ℕ, ◌+◌, ◌≤◌, ◌<◌, ◌≡◌, refl, sym, ap, ◌∙◌, subst, inl, inr, Bool, true, not, ◌||◌, Option, some,
  List, [], ◌∷◌, ◌++◌, arith, ◌==◌, if◌then◌else◌, Bool-cases, count_if, is_key,
}
use goblin_dock.Lifecycle.Locks.{Phase, inside, leaving, Visit, Locks, at_entry, holds}

-- An operation on a deployment whose entry is not the one of the table.
abbrev pub strayed : (ℕ → Option ℕ) → Visit → Bool
strayed table v = not (is_key v.entry (table v.dep))

-- Every entry counts its operations, every operation has the entry of its deployment, an entry's lock is
-- held once, and names of entries are new.
pub record Counted (s : Locks) : Type 0 where
  pub users : (e : ℕ) → s.users e ≡ count_if (at_entry e) s.visits
  pub known : count_if (strayed s.table) s.visits ≡ 0
  pub one : (e : ℕ) → count_if (holds e) s.visits ≤ 1
  pub fresh : (d e : ℕ) → s.table d ≡ some e → e < s.next
  pub unused : (e : ℕ) → s.next ≤ e → count_if (at_entry e) s.visits ≡ 0

pub count_if-insert :
    (p : Visit → Bool) (bs : List Visit) (v : Visit) (rest : List Visit)
    → count_if p (bs ++ v ∷ rest) ≡ count_if p (bs ++ rest) + (if p v then 1 else 0)
unfolding count_if
count_if-insert p [] v rest = omega arith
count_if-insert p (b ∷ bs) v rest = omega (arith, count_if-insert p bs v rest)

-- A change of phase, from one operation to the same in another phase.
move-Counted :
    (s after : Locks) (bs : List Visit) (v : Visit) (rest : List Visit) (phase : Phase)
    → s.visits ≡ bs ++ v ∷ rest
    → after ≡ record s { visits = bs ++ record v { phase = phase } ∷ rest }
    → Counted s
    → ((e : ℕ) → count_if (holds e) (bs ++ record v { phase = phase } ∷ rest) ≤ 1)
    → Counted after
move-Counted s after bs v rest phase was now c one = subst Counted (sym now) (record {
  users = λ e. c.users e ∙ same (at_entry e) refl;
  known = sym (same (strayed s.table) refl) ∙ c.known;
  one = one;
  fresh = c.fresh;
  unused = λ e h. sym (same (at_entry e) refl) ∙ c.unused e h;
})
  where
    same :
        (p : Visit → Bool)
        → p v ≡ p (record v { phase = phase })
        → count_if p s.visits ≡ count_if p (bs ++ record v { phase = phase } ∷ rest)
    same p h =
        let a = count_if-insert p bs v rest in
        let b = count_if-insert p bs (record v { phase = phase }) rest in
        ap (count_if p) was
        ∙ (a ∙ (ap (λ x. count_if p (bs ++ rest) + (if x then 1 else 0)) h ∙ sym b))

pub acquired-Counted :
    (s after : Locks) (bs : List Visit) (v : Visit) (rest : List Visit)
    → s.visits ≡ bs ++ v ∷ rest
    → count_if (holds v.entry) s.visits ≡ 0
    → after ≡ record s { visits = bs ++ record v { phase = inside } ∷ rest }
    → Counted s
    → Counted after
acquired-Counted s after bs v rest was free now c =
    move-Counted s after bs v rest inside was now c one
  where
    one : (e : ℕ) → count_if (holds e) (bs ++ record v { phase = inside } ∷ rest) ≤ 1
    one e =
        let a = count_if-insert (holds e) bs v rest in
        let b = count_if-insert (holds e) bs (record v { phase = inside }) rest in
        let before = c.one e in
        let there : count_if (holds e) s.visits ≡ count_if (holds e) (bs ++ v ∷ rest) =
          ap (count_if (holds e)) was in
        elim (Bool-cases (v.entry == e)) [
          | inl h ↦
              let entry_is : v.entry ≡ e = ground arith in
              let none_holds : count_if (holds e) s.visits ≡ 0 =
                subst (λ k. count_if (holds k) s.visits ≡ 0) entry_is free in
              ground arith
          | inr h ↦ ground arith
        ]

pub released-Counted :
    (s after : Locks) (bs : List Visit) (v : Visit) (rest : List Visit)
    → s.visits ≡ bs ++ v ∷ rest
    → after ≡ record s { visits = bs ++ record v { phase = leaving } ∷ rest }
    → Counted s
    → Counted after
released-Counted s after bs v rest was now c = move-Counted s after bs v rest leaving was now c one
  where
    one : (e : ℕ) → count_if (holds e) (bs ++ record v { phase = leaving } ∷ rest) ≤ 1
    one e =
        let a = count_if-insert (holds e) bs v rest in
        let b = count_if-insert (holds e) bs (record v { phase = leaving }) rest in
        let before = c.one e in
        let there : count_if (holds e) s.visits ≡ count_if (holds e) (bs ++ v ∷ rest) =
          ap (count_if (holds e)) was in
        ground arith

pub count_if_sum :
    (p q r : Visit → Bool)
    → ((w : Visit) → p w ≡ true → (q w || r w) ≡ true)
    → (l : List Visit) → count_if p l ≤ count_if q l + count_if r l
unfolding count_if
count_if_sum p q r h [] = omega arith
count_if_sum p q r h (w ∷ l) = let rest = count_if_sum p q r h l in let now = h w in ground arith
