-- ===== src/Tests/Mutexes.antt =====
-- Mutexes at concrete inputs.
use obos_old.Prelude.{◌+◌, ◌≡◌, refl, true, false, none, some, arith}
use obos_old.Mutex.{
  Mutex, access_denied, Pc, entering, waiting, returned, World, turn_of, turns, unlock, multitasks,
}
use obos_old.Mutex.Alone.{turns-held}

abbrev free_mutex : Mutex
free_mutex = record {
  wake = false;
  locked = false;
  can_use_multitasking = true;
  is_scheduler_lock = false;
  owner = 0;
}

abbrev held_mutex : Mutex
held_mutex = record free_mutex { locked = true; owner = 9 }

abbrev world : Mutex → Pc → World
world m p = record { mutex = m; ticks = 5; initialized = true; pcs = λ t. p }

turns-held_example :
    ((turns 7 4 (world held_mutex (entering 0 true))).pcs 4 ≡ returned true none)
    × ((turns 7 4 (world held_mutex (entering 0 true))).mutex ≡ record held_mutex { owner = 4 })
    × (unlock 9 (turns 7 4 (world held_mutex (entering 0 true)))
        ≡ (record held_mutex { owner = 4 }, false, some access_denied))
unfolding multitasks
turns-held_example =
    turns-held 4 9 (world held_mutex (entering 0 true)) refl refl refl refl refl (λ e. omega arith)
      (omega arith)

-- The time was tick 6; a tick and a turn later the thread is in the loop for good.
abbrev later_world : World
later_world = turn_of 4 (record (world held_mutex (waiting 6)) { ticks = 6 + 1 })
