-- ===== src/Lifecycle/Locks/Exclusive.antt =====
-- The lock of a deployment is held by one operation at a time, although its entry comes and goes.
use goblin_dock.Base.{
  ℕ, ◌≤◌, ◌≡◌, refl, sym, ap, ◌∙◌, subst, Bool, true, not, ◌&&◌, ◌||◌, Option, none, some, arith,
  ◌==◌, count_if, count_if_mono, is_key,
}
use goblin_dock.Lifecycle.Locks.{
  is_inside, Visit, Locks, holds, nobody, Step, entered, acquired, released, departed, Steps, start,
  more,
}
use goblin_dock.Lifecycle.Locks.Counted.{
  Counted, strayed, count_if_sum, acquired-Counted, released-Counted,
}
use goblin_dock.Lifecycle.Locks.Registry.{entered-Counted, left-Counted}

nobody-Counted : Counted nobody
unfolding count_if
nobody-Counted = record {
  users = λ e. refl;
  known = refl;
  one = λ e. omega arith;
  fresh = λ d e h. ground arith;
  unused = λ e h. refl;
}

Step-Counted : {s after : Locks} → Step s after → Counted s → Counted after
Step-Counted {s} (entered d now) c = subst Counted (sym now) (entered-Counted d s c)
Step-Counted {s} {after} (acquired bs v rest was _ free now) c =
    acquired-Counted s after bs v rest was free now c
Step-Counted {s} {after} (released bs v rest was _ now) c =
    released-Counted s after bs v rest was now c
Step-Counted {s} {after} (departed bs v rest was _ now) c = left-Counted s after bs v rest was now c

Steps-Counted : {s after : Locks} → Steps s after → Counted s → Counted after
Steps-Counted start c = c
Steps-Counted (more steps step) c = Step-Counted step (Steps-Counted steps c)

-- The operation is on the deployment and holds the lock of the entry that it took.
abbrev pub is_working : ℕ → Visit → Bool
is_working d v = (v.dep == d) && is_inside v.phase

-- Whatever the operations do from an empty registry, and in whatever order they move, at most one operation
-- on a deployment is inside its lock, although the lock is made anew each time that the deployment has none
-- and is dropped when its last operation leaves.
pub Steps-exclusive : (d : ℕ) (s : Locks) → Steps nobody s → count_if (is_working d) s.visits ≤ 1
Steps-exclusive d s steps = go (s.table d) refl
  where
    c : Counted s
    c = Steps-Counted steps nobody-Counted

    go : (found : Option ℕ) → s.table d ≡ found → count_if (is_working d) s.visits ≤ 1
    go none h =
        let a = count_if_mono (is_working d) (strayed s.table) s.visits (λ w k.
          let there : s.table w.dep ≡ none = ap s.table (ground arith) ∙ h in
          ap (λ o. not (is_key w.entry o)) there) in
        let b = c.known in omega arith
    go (some e) h =
        let a =
          count_if_sum (is_working d) (strayed s.table) (holds e)
            (λ w k.
              let there : s.table w.dep ≡ some e = ap s.table (ground arith) ∙ h in
              subst (λ o. (not (is_key w.entry o) || holds e w) ≡ true) (sym there) (ground arith))
            s.visits in
        let b = c.known in let one = c.one e in omega arith
