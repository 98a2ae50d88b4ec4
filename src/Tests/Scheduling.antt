-- ===== src/Tests/Scheduling.antt =====
-- The scheduler at concrete inputs.
use obos_old.Prelude.{
  ℕ, ◌≡◌, refl, Bool, true, false, List, [], ◌∷◌, Option, none, arith, ◌==◌, if◌then◌else◌, has,
  Once, inl, inr, eq_cases,
}
use obos_old.Outcome.{done}
use obos_old.Threads.{no_status}
use obos_old.Scheduler.{Runner, Counts, cpus_in_scheduler, find_runnable_thread}
use obos_old.Scheduler.Switch.{Kernel, in_scheduler_function, schedule}
use obos_old.Scheduler.Runnable.{passed, Found, find_runnable_thread-Found}
use obos_old.Scheduler.Search.{IsIdle}
use obos_old.Scheduler.Running.{IsReady, Runs, schedule-Runs}

abbrev waiting_runner : ℕ → Runner
waiting_runner preempted = record {
  status = record no_status { can_run = true };
  priority = 4;
  time_slice_index = 1;
  last_time_preempted = preempted;
  affinity = 1;
  og_affinity = 1;
}

-- Thread 5 runs, thread 6 can, and thread 7 is the idle thread.
abbrev runner_at : ℕ → Runner
runner_at t =
    if t == 5
    then record (waiting_runner 90) { status = record no_status { running = true } }
    else waiting_runner t

abbrev list_at : ℕ → List ℕ
list_at list = if list == 2 then 6 ∷ 5 ∷ [] else if list == 0 then 7 ∷ [] else []

abbrev counts_at : ℕ → Counts
counts_at list =
    if list == 2
    then record { size = 2; iterations = 3 }
    else if list == 0
    then record { size = 1; iterations = 0 }
    else record { size = 0; iterations = 0 }

abbrev kernel : Kernel
kernel = record {
  runners = runner_at;
  counts = counts_at;
  from_tail = list_at;
  from_head = list_at;
  cpu = record { id = 0; scheduler_lock = false; current = 5; idle = 7 };
  other_locks = false ∷ [];
  ticks = 100;
}

abbrev outside : ℕ → Bool
outside = in_scheduler_function 0x1000 0x2000 (λ t. 0)

list_at-Once : (list : ℕ) → Once (list_at list)
list_at-Once list = elim (eq_cases list 2) [ inl e ↦ ground arith | inr d ↦ ground arith ]

list_at-threads : (list : ℕ) → has 0 (list_at list) ≡ false
list_at-threads list = ground arith

idle-IsIdle : IsIdle kernel.cpu (runner_at 7)
idle-IsIdle = record { idle_blocked = refl; idle_paused = refl; idle_running = inr refl }

outside-false : (t : ℕ) → outside t ≡ false
unfolding in_scheduler_function
outside-false t = ground arith

kernel-IsReady : IsReady kernel
kernel-IsReady = record {
  apart = list_at-Once;
  threads = list_at-threads;
  lowest = omega arith;
  idle_thread = λ e. omega arith;
  idle = idle-IsIdle;
  current_thread = λ e. omega arith;
  settled = λ t d. ground arith;
}

find_runnable_thread-Found_example :
    Found 0 runner_at none (6 ∷ 7 ∷ []) (find_runnable_thread 0 runner_at (6 ∷ 7 ∷ [])).1
    × ((u : ℕ)
        → (find_runnable_thread 0 runner_at (6 ∷ 7 ∷ [])).0 u
          ≡ (if has u (6 ∷ 7 ∷ []) then passed (runner_at u) else runner_at u))
find_runnable_thread-Found_example =
    find_runnable_thread-Found 0 runner_at (6 ∷ 7 ∷ []) (refl, (refl, tt))

-- Threads of the highest priority only, after eight turns.
abbrev high_only : ℕ → Counts
high_only list =
    if list == 3 then record { size = 1; iterations = 8 } else record { size = 0; iterations = 0 }

schedule-Runs_example :
    (r : Kernel × Option ℕ) × (schedule (λ t. false) outside 8 kernel ≡ done r) × Runs kernel r
unfolding cpus_in_scheduler
schedule-Runs_example =
    schedule-Runs (λ t. false) outside kernel kernel-IsReady (omega arith) outside-false refl refl
