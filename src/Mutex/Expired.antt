-- ===== src/Mutex/Expired.antt =====
-- A Lock whose time runs out.
use obos_old.Prelude.{
  ℕ, ◌≤◌, ◌≡◌, ◌≢◌, ◌⊎◌, Bool, false, not, Option, arith, if◌then◌else◌, Bool-cases, inl, inr,
  eq_cases,
}
use obos_old.Mutex.{
  World, returned, multitasks, turn, at_pc, turn_of, lock_callback, still_locked, swapping, waiting,
  Step, Steps, call, first_call, take_turn, call_unlock, call_wake_all, call_destroy, tick, stay,
  more, wake_all, destroy, LockError,
}

-- The thread waits or is in the loop, and the ticks have reached its time.
abbrev pub IsExpired : ℕ → ℕ → World → Type 0
IsExpired t wakeup w =
    ((w.pcs t ≡ waiting wakeup) ⊎ ((e : Bool) × (w.pcs t ≡ swapping wakeup e))) × (wakeup ≤ w.ticks)

turn_of-IsExpired :
    (t i wakeup : ℕ) (w : World) → IsExpired t wakeup w → IsExpired t wakeup (turn_of i w)
unfolding turn_of turn at_pc
turn_of-IsExpired t i wakeup w (inl p, l) = elim (eq_cases t i) [
  | inl same ↦ (
    elim (Bool-cases
        (if multitasks w then lock_callback w wakeup else not (still_locked w wakeup))) [
          | inl goes ↦ inr (false, ground arith)
          | inr stays ↦ inl (ground arith)
        ],
    l,
  )
  | inr other ↦ (inl (ground arith), l)
]
turn_of-IsExpired t i wakeup w (inr (e, p), l) = elim (eq_cases t i) [
  | inl same ↦
      (inr (if (if w.mutex.locked then e else not e) then e else w.mutex.locked, ground arith), l)
  | inr other ↦ (inr (e, ground arith), l)
]

Step-IsExpired :
    (t wakeup : ℕ) (w v : World) → IsExpired t wakeup w → Step w v → IsExpired t wakeup v
unfolding at_pc wake_all destroy
Step-IsExpired t wakeup w v (p, l) (call i timeout block answer error q) = elim p [
  | inl e ↦ (inl (ground arith), l)
  | inr (e, g) ↦ (inr (e, ground arith), l)
]
Step-IsExpired t wakeup w v (p, l) (first_call i timeout block q) = elim p [
  | inl e ↦ (inl (ground arith), l)
  | inr (e, g) ↦ (inr (e, ground arith), l)
]
Step-IsExpired t wakeup w v x (take_turn i) = turn_of-IsExpired t i wakeup w x
Step-IsExpired t wakeup w v x (call_unlock i) = x
Step-IsExpired t wakeup w v x call_wake_all = x
Step-IsExpired t wakeup w v x call_destroy = x
Step-IsExpired t wakeup w v (p, l) tick = (p, omega arith)

-- Once the ticks have reached the time of a thread that waits for the mutex or tries to take it, its
-- Lock does not return any more, whatever the threads, the destructor and the timer do, neither with
-- the mutex nor with the error that the time is over.
pub Steps-IsExpired :
    (t wakeup : ℕ) (answer : Bool) (error : Option LockError) (w v : World)
    → IsExpired t wakeup w
    → Steps w v
    → IsExpired t wakeup v × (v.pcs t ≢ returned answer error)
Steps-IsExpired t wakeup answer error w v x stay = (x, λ e. ground arith)
Steps-IsExpired t wakeup answer error w v x (more s r) =
    let (y, no_return) = Steps-IsExpired t wakeup answer error w _ x s in
    let z = Step-IsExpired t wakeup _ v y r in (z, λ e. ground arith)
