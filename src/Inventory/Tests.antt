-- ===== src/Inventory/Tests.antt =====
-- A probe that an edit of its connection overtakes.
use goblin_dock.Base.{ℕ, ◌≤◌, refl, any, length, ◌≡◌, true, false, count_if}
use goblin_dock.Inventory.{
  Cache, no_cache, is_probe, refresh, invalidate, answered, store, refreshes, Steps, done, more,
}
use goblin_dock.Inventory.Generations.{of_connection, Steps-bounded, invalidated_probe-dropped}

-- Connection 7 is probed, for at most four at a time and a time to live of five seconds.
abbrev probing : Cache
probing = (refresh 5 4 7 false false 100 no_cache).1

abbrev edited : Cache
edited = invalidate 7 probing

abbrev overtaken : Cache
overtaken = (refresh 5 4 8 false true 101 edited).1

to_probing : Steps 5 4 no_cache probing
to_probing = more (refreshes 7 false false 100 no_cache) (done probing)

Steps-bounded_example :
    (length probing.probes ≤ 4) × ((k : ℕ) → count_if (of_connection k) probing.probes ≤ 1)
Steps-bounded_example = Steps-bounded 5 4 to_probing

submitted : any (is_probe 7 0) probing.probes ≡ true
unfolding refresh any
submitted = refl

to_overtaken : Steps 5 4 edited overtaken
to_overtaken = more (refreshes 8 false true 101 edited) (done overtaken)

invalidated_probe-dropped_example :
    (store 7 0 (answered "online" "vms") 102 overtaken).snapshots ≡ overtaken.snapshots
invalidated_probe-dropped_example =
    invalidated_probe-dropped 5 4 7 0 (answered "online" "vms") 102 probing overtaken to_probing
      submitted to_overtaken
