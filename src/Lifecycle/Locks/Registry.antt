-- ===== src/Lifecycle/Locks/Registry.antt =====
-- The two blocks under the guard of the registry: an operation enters, an operation leaves.
use goblin_dock.Base.{
  ℕ, zero, suc, ◌+◌, ◌-◌, ◌≡◌, refl, sym, ap, ◌∙◌, subst, inl, inr, Bool, true, false, not, ◌&&◌,
  ◌||◌, Option, none, some, List, [], ◌∷◌, ◌++◌, arith, ◌==◌, if◌then◌else◌, Bool-cases, count_if,
  count_if-append, count_if_mono, is_key, ==_refl,
}
use goblin_dock.Lifecycle.Locks.{
  waiting, Visit, Locks, at_entry, holds, set_key, drop_entry, take_entry, enter, leave,
}
use goblin_dock.Lifecycle.Locks.Counted.{Counted, strayed, count_if-insert, count_if_sum}

taken-Counted : (d e : ℕ) (s : Locks) → s.table d ≡ some e → Counted s → Counted (take_entry d e s)
unfolding count_if
taken-Counted d e s is_own c = record {
  users = λ k.
      let a = more_visits (at_entry k) in
      let b = c.users k in
      let same : (k ≡ e) → s.users k ≡ s.users e = λ h. ap s.users h in ground arith;
  known = let a = more_visits (strayed s.table) in let b = c.known in let h = kept in ground arith;
  one = λ k. let a = more_visits (holds k) in let b = c.one k in ground arith;
  fresh = c.fresh;
  unused = λ k h.
      let a = more_visits (at_entry k) in
      let b = c.unused k h in let below = c.fresh d e is_own in ground arith;
}
  where
    come : Visit
    come = record { dep = d; entry = e; phase = waiting }

    more_visits :
        (p : Visit → Bool)
        → count_if p (s.visits ++ come ∷ []) ≡ count_if p s.visits + (if p come then 1 else 0)
    more_visits p = omega (arith, count_if-append p s.visits (come ∷ []))

    kept : strayed s.table come ≡ false
    kept = ap not (ap (is_key e) is_own ∙ ==_refl e)

-- A new entry of a deployment that has none.
opened : ℕ → Locks → Locks
opened d s = record s { table = set_key d (some s.next) s.table; next = s.next + 1 }

strays_less :
    (d n : ℕ) (table : ℕ → Option ℕ)
    → table d ≡ none
    → (w : Visit) → strayed (set_key d (some n) table) w ≡ true
    → strayed table w ≡ true
strays_less d n table is_new w h = elim (Bool-cases (w.dep == d)) [
  | inl e ↦
      let there : w.dep ≡ d = ground arith in
      ap not (ap (λ j. is_key w.entry (table j)) there ∙ ap (is_key w.entry) is_new)
  | inr e ↦ ground arith
]

opened-Counted : (d : ℕ) (s : Locks) → s.table d ≡ none → Counted s → Counted (opened d s)
unfolding opened
opened-Counted d s is_new c = record {
  users = c.users;
  known =
      let a =
        count_if_mono (strayed (opened d s).table) (strayed s.table) s.visits
          (strays_less d s.next s.table is_new) in
      let b = c.known in omega arith;
  one = c.one;
  fresh = λ j e h. let old = c.fresh j e in ground arith;
  unused = λ k h. c.unused k (omega (arith, h));
}

pub entered-Counted : (d : ℕ) (s : Locks) → Counted s → Counted (enter d s)
unfolding enter opened
entered-Counted d s c = go (s.table d) refl
  where
    go : (found : Option ℕ) → s.table d ≡ found → Counted (enter d s)
    go none h = subst Counted (rw (h, enter)) (
        taken-Counted d s.next (opened d s)
          (ap (λ b. if b then some s.next else s.table d) (==_refl d)) (opened-Counted d s h c))
    go (some e) h = subst Counted (rw (h, enter)) (taken-Counted d e s h c)

drop_entry-only :
    (v : Visit) (users_left : ℕ) (table : ℕ → Option ℕ) (d e : ℕ)
    → drop_entry v users_left table d ≡ some e
    → table d ≡ some e
drop_entry-only v users_left table d e h = ground arith

has_entry : (e : ℕ) (found : Option ℕ) → not (is_key e found) ≡ false → found ≡ some e
has_entry e none h = ground arith
has_entry e (some x) h = ap some (ground arith)

-- Who strays when an entry is dropped strayed before, or uses that entry.
drop_entry-strays :
    (v : Visit) (table : ℕ → Option ℕ)
    → strayed table v ≡ false
    → (w : Visit) → strayed (drop_entry v 0 table) w ≡ true
    → (strayed table w || at_entry v.entry w) ≡ true
drop_entry-strays v table own w h = elim (Bool-cases (w.dep == v.dep)) [
  | inl e ↦
      let same : table w.dep ≡ table v.dep = ap table (ground arith) in
      let is : table w.dep ≡ some v.entry = same ∙ has_entry v.entry (table v.dep) own in
      subst (λ o. (not (is_key w.entry o) || at_entry v.entry w) ≡ true) (sym is) (ground arith)
  | inr e ↦ ground arith
]

-- The last operation at an entry takes the entry off the table.
pub left-Counted :
    (s after : Locks) (bs : List Visit) (v : Visit) (rest : List Visit)
    → s.visits ≡ bs ++ v ∷ rest
    → after ≡ leave v (record s { visits = bs ++ rest })
    → Counted s
    → Counted after
unfolding leave
left-Counted s after bs v rest was now c = subst Counted (sym now) (record {
  users = users_are;
  known = known_is users_left left_is;
  one = λ k. let a = fewer (holds k) in let b = c.one k in omega arith;
  fresh = λ d e h. c.fresh d e (drop_entry-only v users_left s.table d e h);
  unused = λ k h. let a = fewer (at_entry k) in let b = c.unused k h in omega arith;
})
  where
    users_left : ℕ
    users_left = s.users v.entry - 1

    fewer :
        (p : Visit → Bool) → count_if p s.visits ≡ count_if p (bs ++ rest) + (if p v then 1 else 0)
    fewer p = ap (count_if p) was ∙ count_if-insert p bs v rest

    left_is : users_left ≡ count_if (at_entry v.entry) (bs ++ rest)
    left_is =
        let a = fewer (at_entry v.entry) in
        let b = c.users v.entry in let r = ==_refl v.entry in ground arith

    users_are : (k : ℕ) → set_key v.entry users_left s.users k ≡ count_if (at_entry k) (bs ++ rest)
    users_are k =
        let a = fewer (at_entry k) in
        let b = c.users k in
        let same : k ≡ v.entry → s.users k ≡ s.users v.entry = λ h. ap s.users h in ground arith

    own : strayed s.table v ≡ false
    own = let a = fewer (strayed s.table) in let b = c.known in ground arith

    known_is :
        (n : ℕ)
        → n ≡ count_if (at_entry v.entry) (bs ++ rest)
        → count_if (strayed (drop_entry v n s.table)) (bs ++ rest) ≡ 0
    known_is zero h =
        let sum =
          count_if_sum (strayed (drop_entry v 0 s.table)) (strayed s.table) (at_entry v.entry)
            (drop_entry-strays v s.table own) (bs ++ rest) in
        let a = fewer (strayed s.table) in let b = c.known in omega arith
    known_is (suc n) h =
        let none_strays : count_if (strayed s.table) (bs ++ rest) ≡ 0 =
          let a = fewer (strayed s.table) in let b = c.known in omega arith in
        let more : (suc n == 0) ≡ false = ground arith in
        ap
          (λ b.
            count_if
              (strayed (
                if b && is_key v.entry (s.table v.dep)
                then set_key v.dep none s.table
                else s.table))
              (bs ++ rest))
          more
        ∙ none_strays
