-- ===== src/Lifecycle/Locks/Tests.antt =====
-- app/api.py: two operations on deployment 7 and one on deployment 8, the second of them waiting for the first.
use goblin_dock.Base.{◌≤◌, ◌≡◌, refl, [], ◌∷◌, count_if, some, none}
use goblin_dock.Lifecycle.Locks.{
  waiting, inside, leaving, Visit, Locks, enter, leave, nobody, entered, acquired, released,
  departed, Steps, start, more,
}
use goblin_dock.Lifecycle.Locks.Exclusive.{is_working, Steps-exclusive}

abbrev first_comes : Locks
first_comes = enter 7 nobody

abbrev second_comes : Locks
second_comes = enter 7 (enter 8 first_comes)

abbrev at_seven : Visit
at_seven = record { dep = 7; entry = 0; phase = waiting }

abbrev at_eight : Visit
at_eight = record { dep = 8; entry = 1; phase = waiting }

visits_are : second_comes.visits ≡ at_seven ∷ at_eight ∷ at_seven ∷ []
unfolding enter
visits_are = refl

abbrev first_inside : Locks
first_inside = record second_comes {
  visits = record at_seven { phase = inside } ∷ at_eight ∷ at_seven ∷ [];
}

arrived : Steps nobody second_comes
arrived = more (more (more start (entered 7 refl)) (entered 8 refl)) (entered 7 refl)

one_inside : Steps nobody first_inside
unfolding enter count_if
one_inside = more arrived (acquired [] at_seven (at_eight ∷ at_seven ∷ []) refl refl refl refl)

abbrev first_leaving : Locks
first_leaving = record second_comes {
  visits = record at_seven { phase = leaving } ∷ at_eight ∷ at_seven ∷ [];
}

abbrev first_gone : Locks
first_gone =
    leave (record at_seven { phase = leaving })
      (record second_comes { visits = at_eight ∷ at_seven ∷ [] })

abbrev second_inside : Locks
second_inside = record first_gone { visits = at_eight ∷ record at_seven { phase = inside } ∷ [] }

-- The first operation leaves, its entry stays for the second one, which then holds its lock.
handed_over : Steps nobody second_inside
unfolding enter leave count_if
handed_over =
    let out = more one_inside (
      released [] (record at_seven { phase = inside }) (at_eight ∷ at_seven ∷ []) refl refl refl) in
    let gone = more out (
      departed [] (record at_seven { phase = leaving }) (at_eight ∷ at_seven ∷ []) refl refl
        refl) in
    more gone (acquired (at_eight ∷ []) at_seven [] refl refl refl refl)

entry_kept : first_gone.table 7 ≡ some 0
unfolding enter leave
entry_kept = refl

-- With nobody left, the entry goes.
entry_dropped : (leave at_seven (record (enter 7 nobody) { visits = [] })).table 7 ≡ none
unfolding enter leave
entry_dropped = refl

Steps-exclusive_example : count_if (is_working 7) second_inside.visits ≤ 1
Steps-exclusive_example = Steps-exclusive 7 second_inside handed_over
