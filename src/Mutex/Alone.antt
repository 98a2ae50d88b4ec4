-- ===== src/Mutex/Alone.antt =====
-- A thread in Lock with nothing between its turns.
use obos_old.Prelude.{
  ℕ, ◌-◌, ◌<◌, ◌≡◌, refl, ◌≢◌, true, false, none, some, arith, if◌then◌else◌, u64,
}
use obos_old.Mutex.{
  World, entering, returned, multitasks, turn, turns, at_pc, turn_of, wakeup_time, lock_callback,
  unlock, access_denied, mutex_locked,
}

-- A blocking Lock without a timeout, of a mutex that is free and not being destroyed, returns true
-- after seven turns without another thread's between them; the mutex is locked then, and when threads run, the thread is its owner.
pub turns-free :
    (t : ℕ) (w : World)
    → w.pcs t ≡ entering 0 true
    → w.mutex.locked ≡ false
    → w.mutex.wake ≡ false
    → w.ticks < u64 - 1
    → ((turns 7 t w).pcs t ≡ returned true none)
      × ((turns 7 t w).mutex.locked ≡ true)
      × ((turns 7 t w).mutex.owner ≡ (if multitasks w then t else w.mutex.owner))
unfolding turns turn_of turn at_pc wakeup_time multitasks
turns-free t w p l k n = (ground arith, ground arith, ground arith)

-- When threads run and the clock is not at its last tick, a blocking Lock without a timeout of a
-- mutex that another thread owns, and that is not being destroyed, returns true as well when it makes
-- its seven turns without a turn of another thread between them; it takes the mutex over while it is
-- locked, and the owner's Unlock right after it fails with an access that is denied.
pub turns-held :
    (t o : ℕ) (w : World)
    → w.pcs t ≡ entering 0 true
    → multitasks w ≡ true
    → w.mutex.locked ≡ true
    → w.mutex.wake ≡ false
    → w.mutex.owner ≡ o
    → o ≢ t
    → w.ticks < u64 - 1
    → ((turns 7 t w).pcs t ≡ returned true none)
      × ((turns 7 t w).mutex ≡ record (w.mutex) { owner = t })
      × (unlock o (turns 7 t w) ≡ (record (w.mutex) { owner = t }, false, some access_denied))
unfolding turns turn_of turn at_pc wakeup_time multitasks lock_callback unlock
turns-held t o w p r l k e d n = (ground arith, ground arith, ground arith)

-- A Lock of a locked mutex that is not to block returns false with the error that it is locked (none
-- for the scheduler's own lock) in its first turn, and leaves the mutex and the clock alone.
pub turn_of-refused :
    (t timeout : ℕ) (w : World)
    → w.pcs t ≡ entering timeout false
    → w.mutex.locked ≡ true
    → ((turn_of t w).pcs t
        ≡ returned false (if w.mutex.is_scheduler_lock then none else some mutex_locked))
      × ((turn_of t w).mutex ≡ w.mutex)
      × ((turn_of t w).ticks ≡ w.ticks)
unfolding turn_of turn at_pc
turn_of-refused t timeout w p l = (ground arith, ground arith, refl)

-- After a Lock of a free mutex without an owner, the thread's Unlock returns true and leaves the
-- mutex as it was.
pub unlock-turns :
    (t : ℕ) (w : World)
    → w.pcs t ≡ entering 0 true
    → w.mutex.locked ≡ false
    → w.mutex.wake ≡ false
    → w.mutex.owner ≡ 0
    → w.ticks < u64 - 1
    → unlock t (turns 7 t w) ≡ (w.mutex, true, none)
unfolding turns turn_of turn at_pc wakeup_time multitasks unlock
unlock-turns t w p l k o n = ground arith
