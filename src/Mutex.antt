-- ===== src/Mutex.antt =====
-- obos::locks::Mutex: src/oboskrnl/multitasking/locks/mutex.cpp. A thread in Lock is a program counter
-- with the locals that are still read; the threads, the callers of Unlock and the timer take turns
-- in any order. The loop's compare-and-exchange and the reads after it are one turn.
pub mod Alone
pub mod Expired
use obos_old.Prelude.{
  ℕ, zero, suc, ◌+◌, ◌-◌, ◌≡◌, Bool, true, false, not, ◌&&◌, ◌||◌, Option, none, some, ◌==◌, leb,
  ltb, if◌then◌else◌, u64, add64,
}

-- `is_scheduler_lock`: this is g_coreGlobalSchedulerLock.
pub record Mutex : Type 0 where
  pub wake : Bool
  pub locked : Bool
  pub can_use_multitasking : Bool
  pub is_scheduler_lock : Bool
  pub owner : ℕ

-- The errors that Lock and Unlock set.
pub data LockError : Type 0 where
  mutex_locked : LockError
  timed_out : LockError
  access_denied : LockError

pub data Pc : Type 0 where
  outside : Pc
  entering : ℕ → Bool → Pc
  timing : ℕ → Pc
  testing : ℕ → Pc
  waiting : ℕ → Pc
  swapping : ℕ → Bool → Pc
  judging : ℕ → Pc
  owning : Pc
  returned : Bool → Option LockError → Pc

-- The mutex, g_timerTicks, thread::g_initialized, and where each thread is.
pub record World : Type 0 where
  pub mutex : Mutex
  pub ticks : ℕ
  pub initialized : Bool
  pub pcs : ℕ → Pc

unfoldable pub multitasks : World → Bool
multitasks w = w.mutex.can_use_multitasking && w.initialized

-- When the scheduler runs a thread that waits again: its block callback.
unfoldable pub lock_callback : World → ℕ → Bool
lock_callback w wakeup = w.mutex.locked || w.mutex.wake || ltb w.ticks wakeup

-- When the loop without the scheduler goes on.
unfoldable pub still_locked : World → ℕ → Bool
still_locked w wakeup = w.mutex.locked && not w.mutex.wake && ltb w.ticks wakeup

-- The local wakeupTime.
unfoldable pub wakeup_time : ℕ → ℕ → ℕ
wakeup_time ticks timeout = if timeout == 0 then u64 - 1 else add64 ticks timeout

-- One turn of thread `t`, which is at the program counter, in Lock.
unfoldable pub turn : ℕ → World → Pc → Mutex × Pc
turn t w outside = (w.mutex, outside)
turn t w (entering timeout block) =
    if not block && w.mutex.locked
    then (w.mutex, returned false (if w.mutex.is_scheduler_lock then none else some mutex_locked))
    else (w.mutex, timing timeout)
turn t w (timing timeout) = (w.mutex, testing (wakeup_time w.ticks timeout))
turn t w (testing wakeup) =
    (w.mutex, if w.mutex.locked then waiting wakeup else swapping wakeup false)
turn t w (waiting wakeup) =
    let goes = if multitasks w then lock_callback w wakeup else not (still_locked w wakeup) in
    (w.mutex, if goes then swapping wakeup false else waiting wakeup)
turn t w (swapping wakeup expected) =
    let swaps = (if w.mutex.locked then expected else not expected) in
    let again = swaps || w.mutex.wake || leb wakeup w.ticks in
    (
      record (w.mutex) { locked = swaps || w.mutex.locked },
      if again
          then swapping wakeup (if swaps then expected else w.mutex.locked)
          else judging wakeup,
    )
turn t w (judging wakeup) =
    (w.mutex, if leb wakeup w.ticks then returned false (some timed_out) else owning)
turn t w owning =
    (if multitasks w then record (w.mutex) { owner = t } else w.mutex, returned true none)
turn t w (returned answer error) = (w.mutex, returned answer error)

unfoldable pub at_pc : (ℕ → Pc) → ℕ → Pc → ℕ → Pc
at_pc pcs t p i = if i == t then p else pcs i

-- The world after a turn of the thread.
unfoldable pub turn_of : ℕ → World → World
turn_of t w = let r = turn t w (w.pcs t) in record w { mutex = r.0; pcs = at_pc w.pcs t r.1 }

-- Unlock by the thread: the mutex, the result and the error.
unfoldable pub unlock : ℕ → World → Mutex × Bool × Option LockError
unlock t w =
    if multitasks w && not (t == w.mutex.owner)
    then (w.mutex, false, some access_denied)
    else (record (w.mutex) { locked = false; owner = 0 }, true, none)

-- The destructor, which wakes the threads, lets others run and frees the lock, as two steps.
unfoldable pub wake_all : World → World
wake_all w = record w { mutex = record (w.mutex) { wake = true } }

unfoldable pub destroy : World → World
destroy w = record w { mutex = record (w.mutex) { owner = 0; locked = false } }

-- One step of the system: a thread outside of Lock calls it, a thread takes a turn, a thread outside
-- of Lock unlocks, the destructor runs, or the timer ticks.
pub data Step (w : World) : World → Type 0 where
  call :
      (t timeout : ℕ) (block answer : Bool) (error : Option LockError)
      → w.pcs t ≡ returned answer error
      → Step w (record w { pcs = at_pc w.pcs t (entering timeout block) })
  first_call :
      (t timeout : ℕ) (block : Bool)
      → w.pcs t ≡ outside
      → Step w (record w { pcs = at_pc w.pcs t (entering timeout block) })
  take_turn : (t : ℕ) → Step w (turn_of t w)
  call_unlock : (t : ℕ) → Step w (record w { mutex = (unlock t w).0 })
  call_wake_all : Step w (wake_all w)
  call_destroy : Step w (destroy w)
  tick : Step w (record w { ticks = w.ticks + 1 })

pub data Steps (w : World) : World → Type 0 where
  stay : Steps w w
  more : {u v : World} → Steps w u → Step u v → Steps w v

-- The world after some turns of one thread.
unfoldable pub turns : ℕ → ℕ → World → World
turns zero t w = w
turns (suc n) t w = turns n t (turn_of t w)
