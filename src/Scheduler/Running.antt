-- ===== src/Scheduler/Running.antt =====
-- What a call of schedule leaves behind.
use obos_old.Prelude.{
  ℕ, ◌+◌, ◌^◌, ◌%◌, ◌<◌, ◌≡◌, refl, ◌≢◌, Bool, true, false, not, ◌&&◌, List, [], ◌∷◌, Option, none,
  some, arith, ◌==◌, if◌then◌else◌, has, Once, inl, inr, eq_cases,
}
use obos_old.Outcome.{done}
use obos_old.Scheduler.{Runner, count_turn, at_runner, call_block_callbacks, cpus_in_scheduler}
use obos_old.Scheduler.Switch.{
  Cpu, Kernel, with_lock, preempt, run_thread, started, call_all_block_callbacks, reschedule,
  schedule,
}
use obos_old.Scheduler.Rounds.{fresh_counts, find_priority_list-Chosen}
use obos_old.Scheduler.Search.{IsIdle, pick_thread-Picked}

-- No thread is both blocked and running.
abbrev pub IsSettled : (ℕ → Runner) → Type 0
IsSettled rs = (t : ℕ) → ((rs t).status.blocked && (rs t).status.running) ≡ false

-- The callbacks take nothing but the bit for blocked away.
abbrev Unblocked : Runner → Runner → Type 0
Unblocked r r' =
    (r'.status.running ≡ r.status.running)
    × (r'.status.paused ≡ r.status.paused)
    × (r.status.blocked ≡ false → r'.status.blocked ≡ false)

call_block_callbacks-done :
    (ready : ℕ → Bool) (rs : ℕ → Runner) (ts : List ℕ)
    → IsSettled rs
    → (rs' : ℕ → Runner) × (call_block_callbacks ready rs ts ≡ done rs')
      × IsSettled rs'
      × ((t : ℕ) → Unblocked (rs t) (rs' t))
unfolding call_block_callbacks at_runner
call_block_callbacks-done ready rs [] s = (rs, refl, s, λ t. (refl, refl, λ e. e))
call_block_callbacks-done ready rs (t ∷ ts) s =
    let next : ℕ → Runner =
      if (rs t).status.blocked
      then at_runner rs t
          (record (rs t) { status = record ((rs t).status) { blocked = not (ready t) } })
      else rs in
    let s' : IsSettled next = λ u. ground (arith, s u) in
    let (rs', e, settled, un) = call_block_callbacks-done ready next ts s' in
    (
      rs',
      ground (arith, e, s t),
      settled,
      λ u. let (a, b, c) = un u in (ground (arith, a), ground (arith, b), λ q. ground (arith, c)),
    )

-- What schedule relies on: the lists hold threads, none twice, and one of them has the lowest
-- priority; the processor's idle thread can be run; none is blocked and running but the current one.
pub record IsReady (k : Kernel) : Type 0 where
  pub apart : (list : ℕ) → Once (k.from_tail list)
  pub threads : (list : ℕ) → has 0 (k.from_tail list) ≡ false
  pub lowest : 0 < (k.counts 0).size
  pub idle_thread : k.cpu.idle ≢ 0
  pub idle : IsIdle k.cpu (k.runners k.cpu.idle)
  pub current_thread : k.cpu.current ≢ 0
  pub settled :
      (t : ℕ)
      → t ≢ k.cpu.current
      → ((k.runners t).status.blocked && (k.runners t).status.running) ≡ false

Unblocked-trans : (a b c : Runner) → Unblocked a b → Unblocked b c → Unblocked a c
Unblocked-trans a b c (p, q, r) (s, t, u) = (ground arith, ground arith, λ e. u (r e))

call_all-done :
    (ready : ℕ → Bool) (k : Kernel)
    → IsSettled k.runners
    → (rs : ℕ → Runner) × (call_all_block_callbacks ready k ≡ done (record k { runners = rs }))
      × ((t : ℕ) → Unblocked (k.runners t) (rs t))
unfolding call_all_block_callbacks
call_all-done ready k s =
    let (r3, e3, s3, u3) = call_block_callbacks-done ready k.runners (k.from_head 3) s in
    let (r2, e2, s2, u2) = call_block_callbacks-done ready r3 (k.from_head 2) s3 in
    let (r1, e1, s1, u1) = call_block_callbacks-done ready r2 (k.from_head 1) s2 in
    let (r0, e0, s0, u0) = call_block_callbacks-done ready r1 (k.from_head 0) s1 in
    (
      r0,
      ground (arith, e3, e2, e1, e0),
      λ t. Unblocked-trans (k.runners t) (r3 t) (r0 t) (u3 t) (
          Unblocked-trans (r3 t) (r2 t) (r0 t) (u2 t)
            (Unblocked-trans (r2 t) (r1 t) (r0 t) (u1 t) (u0 t))),
    )

preempt-IsSettled :
    (k : Kernel)
    → IsReady k
    → IsSettled (preempt k).runners × IsIdle k.cpu ((preempt k).runners k.cpu.idle)
unfolding preempt at_runner
preempt-IsSettled k r = (
  (λ t. elim (eq_cases t k.cpu.current) [
    | inl e ↦ ground (arith, r.current_thread)
    | inr d ↦ ground (arith, r.settled t d)
  ]),
  record {
    idle_blocked = ground (arith, r.idle.idle_blocked);
    idle_paused = ground (arith, r.idle.idle_paused);
    idle_running = elim r.idle.idle_running [ inl e ↦ inl e | inr e ↦ inr (ground (arith, e)) ];
  },
)

Unblocked-IsIdle : (cpu : Cpu) (r r' : Runner) → Unblocked r r' → IsIdle cpu r → IsIdle cpu r'
Unblocked-IsIdle cpu r r' (a, b, c) i = record {
  idle_blocked = c i.idle_blocked;
  idle_paused = ground (arith, i.idle_paused);
  idle_running = elim i.idle_running [ inl e ↦ inl e | inr e ↦ inr (ground arith) ];
}

-- The current thread is the one that runs, alone on the processor, and the lock is given back.
abbrev pub Runs : Kernel → Kernel × Option ℕ → Type 0
Runs k (k', new) =
    (k'.cpu.scheduler_lock ≡ false)
    × ((k'.runners k'.cpu.current).status.running ≡ true)
    × ((k'.runners k'.cpu.current).status.can_run ≡ false)
    × ((k'.runners k'.cpu.current).affinity ≡ 2 ^ k.cpu.id)
    × (new ≡ (if k'.cpu.current == k.cpu.current then none else some k'.cpu.current))

run_thread-Runs : (t : ℕ) (k : Kernel) → k.cpu.id < 64 → Runs k (run_thread t k)
unfolding run_thread at_runner started
run_thread-Runs t k narrow =
    let bit : k.cpu.id % 64 ≡ k.cpu.id = omega arith in
    (refl, ground arith, ground arith, ground (arith, bit), ground arith)

pub reschedule-Runs :
    (ready in_scheduler : ℕ → Bool) (k : Kernel)
    → IsReady k
    → k.cpu.id < 64
    → ((t : ℕ) → in_scheduler t ≡ false)
    → (r : Kernel × Option ℕ) × (reschedule ready in_scheduler 8 k ≡ done r) × Runs k r
unfolding reschedule preempt
reschedule-Runs ready in_scheduler k r narrow outside =
    let (settled, idle) = preempt-IsSettled k r in
    let (rs, e, un) = call_all-done ready (preempt k) settled in
    let (l, f, u, turn, above) = find_priority_list-Chosen k.counts r.lowest in
    let idle' =
      Unblocked-IsIdle k.cpu ((preempt k).runners k.cpu.idle) (rs k.cpu.idle) (un k.cpu.idle)
        idle in
    let (t, rs', g, who) =
      pick_thread-Picked in_scheduler k.cpu k.from_tail r.apart r.threads outside r.idle_thread l rs
        u idle' in
    let last = record k { runners = rs'; counts = count_turn (fresh_counts k.counts) l } in
    let same : preempt k ≡ record k { runners = (preempt k).runners } = ground arith in
    (run_thread t last, ground (arith, e, f, g, same), run_thread-Runs t last narrow)

-- When the processor's id is below 64, its scheduler lock is free and no other processor is in the
-- scheduler, no thread was preempted inside the scheduler, and the lists and the idle thread are in
-- order, schedule returns, with eight passes for the search: the thread that it leaves as the current
-- one is marked as running and not as one that can run, it is bound to this processor, it is switched
-- to unless it was the current one, and the lock is free.
pub schedule-Runs :
    (ready in_scheduler : ℕ → Bool) (k : Kernel)
    → IsReady k
    → k.cpu.id < 64
    → ((t : ℕ) → in_scheduler t ≡ false)
    → k.cpu.scheduler_lock ≡ false
    → cpus_in_scheduler k.other_locks ≡ 0
    → (r : Kernel × Option ℕ) × (schedule ready in_scheduler 8 k ≡ done r) × Runs k r
unfolding schedule with_lock cpus_in_scheduler
schedule-Runs ready in_scheduler k r narrow outside free alone =
    let ticks = if k.cpu.id == 0 then k.ticks + 1 else k.ticks in
    let locked = with_lock true (record k { ticks = ticks }) in
    let ready' : IsReady locked = record {
      apart = r.apart;
      threads = r.threads;
      lowest = r.lowest;
      idle_thread = r.idle_thread;
      idle = record {
        idle_blocked = r.idle.idle_blocked;
        idle_paused = r.idle.idle_paused;
        idle_running = r.idle.idle_running;
      };
      current_thread = r.current_thread;
      settled = r.settled;
    } in
    let (x, e, runs) = reschedule-Runs ready in_scheduler locked ready' narrow outside in
    (x, ground (arith, e, r.idle.idle_blocked, r.current_thread), runs)
