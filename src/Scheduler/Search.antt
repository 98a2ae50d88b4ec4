-- ===== src/Scheduler/Search.antt =====
-- The search for the next thread over the priority lists returns.
use obos_old.Prelude.{
  ℕ, zero, suc, ◌+◌, ◌-◌, ◌≤◌, ◌<◌, ◌≡◌, refl, ◌≢◌, ◌⊎◌, Bool, true, false, List, arith, ◌==◌,
  if◌then◌else◌, has, Once, Option-cases, inl, inr, eq_cases,
}
use obos_old.Outcome.{done}
use obos_old.Scheduler.{Runner, thread_can_run, only_can_run, mark, restart, find_runnable_thread}
use obos_old.Scheduler.Switch.{Cpu, again, chosen, try_list, pick_thread}
use obos_old.Scheduler.Runnable.{passed, Found-can, find_runnable_thread-Found}

-- How many passes are left at most, at the list with the count of misses of the highest list.
abbrev pub passes_left : ℕ → ℕ → ℕ
passes_left list high =
    let last = if high == 0 then 5 else 1 in if list == 3 then last else list + 1 + last

-- A thread that can be run again: the processor's own idle thread.
pub record IsIdle (cpu : Cpu) (r : Runner) : Type 0 where
  pub idle_blocked : r.status.blocked ≡ false
  pub idle_paused : r.status.paused ≡ false
  pub idle_running : (cpu.idle ≡ cpu.current) ⊎ (r.status.running ≡ false)

module _ (in_scheduler : ℕ → Bool) (cpu : Cpu) (from_tail : ℕ → List ℕ)
    (apart : (list : ℕ) → Once (from_tail list))
    (threads : (list : ℕ) → has 0 (from_tail list) ≡ false)
    (outside : (t : ℕ) → in_scheduler t ≡ false) (idle : cpu.idle ≢ 0) where
  abbrev pub Tried : ℕ → ℕ → (ℕ → Runner) → Type 0
  Tried list high rs =
      ((t : ℕ) × (rs' : ℕ → Runner) × (try_list in_scheduler cpu from_tail list high rs
          ≡ done (chosen t, rs'))
        × ((t ≡ cpu.idle) ⊎ (thread_can_run cpu.id (rs' t) ≡ true)))
      ⊎ ((list' : ℕ) × (high' : ℕ) × (rs' : ℕ → Runner) × (try_list in_scheduler cpu from_tail list
              high rs
            ≡ done (again list' high', rs'))
          × (list' < 4)
          × (high' < 2)
          × (passes_left list' high' < passes_left list high)
          × IsIdle cpu (rs' cpu.idle))

  idle-passed : (r : Runner) → IsIdle cpu r → IsIdle cpu (passed r)
  unfolding mark restart
  idle-passed r i = record {
    idle_blocked = ground (arith, i.idle_blocked);
    idle_paused = ground (arith, i.idle_paused);
    idle_running = ground (arith, i.idle_running);
  }

  idle-kept : (b : Bool) (r : Runner) → IsIdle cpu r → IsIdle cpu (if b then passed r else r)
  idle-kept true r i = idle-passed r i
  idle-kept false r i = i

  -- A thread that can run stays as it is in a pass.
  passed-can : (r : Runner) → thread_can_run cpu.id r ≡ true → passed r ≡ r
  unfolding thread_can_run only_can_run mark restart
  passed-can r c = ground arith

  can-status :
      (r : Runner)
      → thread_can_run cpu.id r ≡ true
      → (r.status.blocked ≡ false) × (r.status.paused ≡ false) × (r.status.running ≡ false)
  unfolding thread_can_run only_can_run
  can-status r c = (ground arith, ground arith, ground arith)

  try_list-Tried :
      (list high : ℕ) (rs : ℕ → Runner)
      → list < 4
      → high < 2
      → IsIdle cpu (rs cpu.idle)
      → Tried list high rs
  unfolding try_list
  try_list-Tried list high rs l h i =
      let (found, after) = find_runnable_thread-Found cpu.id rs (from_tail list) (apart list) in
      let r = find_runnable_thread cpu.id rs (from_tail list) in
      let kept : IsIdle cpu (r.0 cpu.idle) =
        rw (after cpu.idle) (idle-kept (has cpu.idle (from_tail list)) (rs cpu.idle) i) in
      elim (Option-cases r.1) [
        | inl e ↦ elim (eq_cases list 3) [
          | inl top ↦ elim (eq_cases high 0) [
            | inl q ↦ inr (2, 1, r.0, ground arith, omega arith, omega arith, ground arith, kept)
            | inr q ↦ inl (
              cpu.idle,
              r.0,
              ground
                  (arith, outside cpu.idle, kept.idle_blocked, kept.idle_paused, kept.idle_running),
              inl refl,
            )
          ]
          | inr low ↦ elim (eq_cases list 0) [
            | inl q ↦ inr (3, high, r.0, ground arith, omega arith, h, ground arith, kept)
            | inr q ↦ inr (list - 1, high, r.0, ground arith, omega arith, h, ground arith, kept)
          ]
        ]
        | inr (t, e) ↦
            let (member, can) = Found-can cpu.id rs (from_tail list) r.1 t found e in
            let same : r.0 t ≡ rs t = ground (arith, after t, passed-can (rs t) can) in
            let (free, unpaused, off) = can-status (rs t) can in
            inl (
              t,
              r.0,
              ground (arith, e, same, outside t, threads list, free, unpaused, off),
              inr (ground (arith, same)),
            )
      ]

  pick_thread-returns :
      (n list high : ℕ) (rs : ℕ → Runner)
      → passes_left list high ≤ n
      → list < 4
      → high < 2
      → IsIdle cpu (rs cpu.idle)
      → (t : ℕ) × (rs' : ℕ → Runner) × (pick_thread in_scheduler cpu from_tail n list high rs
          ≡ done (t, rs'))
        × ((t ≡ cpu.idle) ⊎ (thread_can_run cpu.id (rs' t) ≡ true))
  unfolding pick_thread
  pick_thread-returns zero list high rs n l h i = absurd (ground arith)
  pick_thread-returns (suc n) list high rs m l h i = elim (try_list-Tried list high rs l h i) [
    | inl (t, rs', e, who) ↦ (t, rs', ground (arith, e), who)
    | inr (list', high', rs', e, l', h', less, i') ↦
        let (t, last, f, who) = pick_thread-returns n list' high' rs' (omega arith) l' h' i' in
        (t, last, ground (arith, e, f), who)
  ]

  -- At most eight passes over the lists give the next thread: either the processor's idle thread, or
  -- one that can run on the processor when it is chosen.
  pub pick_thread-Picked :
      (list : ℕ) (rs : ℕ → Runner)
      → list < 4
      → IsIdle cpu (rs cpu.idle)
      → (t : ℕ) × (rs' : ℕ → Runner) × (pick_thread in_scheduler cpu from_tail 8 list 0 rs
          ≡ done (t, rs'))
        × ((t ≡ cpu.idle) ⊎ (thread_can_run cpu.id (rs' t) ≡ true))
  pick_thread-Picked list rs l i = pick_thread-returns 8 list 0 rs (ground arith) l (omega arith) i
