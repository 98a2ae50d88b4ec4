-- ===== src/Scheduler.antt =====
-- The scheduler: src/oboskrnl/multitasking/scheduler.cpp. A runner is what the scheduler keeps of a
-- thread; the four lists are given as their threads from the tail on, along prev_run, with the count
-- of their turns (`iterations`). The lists' locks, which are taken and given back around each write
-- to a count, are left out. What the block callbacks answer at this tick is a parameter.
pub mod Switch
pub mod Runnable
pub mod Rounds
pub mod Search
pub mod Running
use obos_old.Prelude.{
  ℕ, zero, suc, ◌+◌, ◌-◌, ◌/◌, ◌%◌, ◌^◌, Bool, true, false, not, ◌&&◌, List, [], ◌∷◌, Option, none,
  some, ◌==◌, leb, ltb, if◌then◌else◌,
}
use obos_old.Outcome.{Outcome, done, fault, hang}
use obos_old.Threads.{Status}

pub record Runner : Type 0 where
  pub status : Status
  pub priority : ℕ
  pub time_slice_index : ℕ
  pub last_time_preempted : ℕ
  pub affinity : ℕ
  pub og_affinity : ℕ

-- A priority list: its size and iterations.
pub record Counts : Type 0 where
  pub size : ℕ
  pub iterations : ℕ

unfoldable pub check_thread_affinity : ℕ → Runner → Bool
check_thread_affinity cpu r = (r.affinity / 2 ^ cpu) % 2 == 1

-- `status == THREAD_STATUS_CAN_RUN`: that bit and no other.
unfoldable pub only_can_run : Status → Bool
only_can_run s =
    s.can_run
    && not s.dead
    && not s.blocked
    && not s.paused
    && not s.clear_time_slice_index
    && not s.running

unfoldable pub thread_can_run : ℕ → Runner → Bool
thread_can_run cpu r =
    only_can_run r.status && check_thread_affinity cpu r && ltb r.time_slice_index r.priority

-- A thread that has used its time slices is marked.
unfoldable pub mark : Runner → Runner
mark r =
    if leb r.priority r.time_slice_index
    then record r { status = record (r.status) { clear_time_slice_index = true } }
    else r

-- One that was marked before gets its time slices back.
unfoldable pub restart : Bool → Runner → Runner
restart true r = record r {
  status = record (r.status) { clear_time_slice_index = false };
  time_slice_index = 0;
}
restart false r = r

unfoldable pub at_runner : (ℕ → Runner) → ℕ → Runner → ℕ → Runner
at_runner rs t r i = if i == t then r else rs i

-- The better of the thread found so far and one that can run.
unfoldable pub earlier : (ℕ → Runner) → Option ℕ → ℕ → ℕ
earlier rs none t = t
earlier rs (some best) t =
    if ltb (rs t).last_time_preempted (rs best).last_time_preempted then t else best

-- The loop of findRunnableThreadInList.
unfoldable pub runnable_loop : ℕ → (ℕ → Runner) → Option ℕ → List ℕ → (ℕ → Runner) × Option ℕ
runnable_loop cpu rs best [] = (rs, best)
runnable_loop cpu rs best (t ∷ ts) =
    let marked = mark (rs t) in
    let best' = if thread_can_run cpu marked then some (earlier rs best t) else best in
    runnable_loop cpu (at_runner rs t (restart (rs t).status.clear_time_slice_index marked)) best'
      ts

unfoldable pub find_runnable_thread : ℕ → (ℕ → Runner) → List ℕ → (ℕ → Runner) × Option ℕ
find_runnable_thread cpu rs ts = runnable_loop cpu rs none ts

-- priorityTable
unfoldable pub priority_of : ℕ → ℕ
priority_of zero = 1
priority_of (suc zero) = 2
priority_of (suc (suc zero)) = 4
priority_of (suc (suc (suc i))) = 8

-- `size > 0`
unfoldable pub is_positive : ℕ → Bool
is_positive zero = false
is_positive (suc n) = true

unfoldable pub has_turn : (ℕ → Counts) → ℕ → Bool
has_turn lists i = is_positive (lists i).size && ltb (lists i).iterations (priority_of i)

-- The loop of findThreadPriorityList, below `n`; none is the index -1.
unfoldable pub highest_turn : (ℕ → Counts) → ℕ → Option ℕ
highest_turn lists zero = none
highest_turn lists (suc i) =
    let rest = highest_turn lists i in if has_turn lists i then some i else rest

unfoldable pub reset_iterations : (ℕ → Counts) → ℕ → Counts
reset_iterations lists i = if ltb i 4 then record (lists i) { iterations = 0 } else lists i

unfoldable pub count_turn : (ℕ → Counts) → ℕ → ℕ → Counts
count_turn lists i j =
    if j == i then record (lists j) { iterations = (lists j).iterations + 1 } else lists j

-- findThreadPriorityList: the list with its index, on fuel for its calls of itself. The count at the
-- index -1 is outside of the array.
unfoldable pub find_priority_list : ℕ → (ℕ → Counts) → Outcome (ℕ × (ℕ → Counts))
find_priority_list zero lists = hang
find_priority_list (suc fuel) lists =
    let again = find_priority_list fuel (reset_iterations lists) in
    if leb 1 (lists 0).iterations
    then again
    else elim (highest_turn lists 4) [ none ↦ fault | some i ↦ done (i, count_turn lists i) ]

-- callBlockCallbacksOnList, from the tail on; a thread that is blocked and running stops the kernel.
unfoldable pub call_block_callbacks : (ℕ → Bool) → (ℕ → Runner) → List ℕ → Outcome (ℕ → Runner)
call_block_callbacks ready rs [] = done rs
call_block_callbacks ready rs (t ∷ ts) =
    let s = (rs t).status in
    let unblocked =
      at_runner rs t (record (rs t) { status = record s { blocked = not (ready t) } }) in
    let rest = call_block_callbacks ready (if s.blocked then unblocked else rs) ts in
    if s.blocked && s.running then fault else rest

-- getCpusInScheduler, of the processors' scheduler locks.
unfoldable pub cpus_in_scheduler : List Bool → ℕ
cpus_in_scheduler [] = 0
cpus_in_scheduler (b ∷ bs) = (if b then 1 else 0) + cpus_in_scheduler bs
