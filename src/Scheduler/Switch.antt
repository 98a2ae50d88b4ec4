-- ===== src/Scheduler/Switch.antt =====
-- schedule: scheduler.cpp 152-285, on one processor. What stops the kernel (OBOS_ASSERTP) and the use
-- of a null thread are faults. What the block callbacks answer and
-- which threads were preempted inside the scheduler are parameters.
use obos_old.Prelude.{
  ℕ, zero, suc, ◌+◌, ◌-◌, ◌^◌, ◌%◌, Bool, true, false, not, ◌&&◌, ◌||◌, List, ◌∷◌, Option, none,
  some, ◌==◌, add32, leb, ltb, if◌then◌else◌,
}
use obos_old.Outcome.{Outcome, done, fault, hang, ◌>>=◌}
use obos_old.Threads.{Status}
use obos_old.Scheduler.{
  Runner, Counts, thread_can_run, at_runner, find_runnable_thread, find_priority_list,
  call_block_callbacks, cpus_in_scheduler,
}

pub record Cpu : Type 0 where
  pub id : ℕ
  pub scheduler_lock : Bool
  pub current : ℕ
  pub idle : ℕ

-- `from_tail` and `from_head` are the threads of a priority list along prev_run and next_run;
-- `other_locks` are the other processors' scheduler locks.
pub record Kernel : Type 0 where
  pub runners : ℕ → Runner
  pub counts : ℕ → Counts
  pub from_tail : ℕ → List ℕ
  pub from_head : ℕ → List ℕ
  pub cpu : Cpu
  pub other_locks : List Bool
  pub ticks : ℕ

unfoldable pub with_status : ℕ → Status → (ℕ → Runner) → ℕ → Runner
with_status t s rs = at_runner rs t (record (rs t) { status = s })

-- `(status & ~THREAD_STATUS_CAN_RUN) | THREAD_STATUS_RUNNING`
unfoldable pub started : Status → Status
started s = record s { can_run = false; running = true }

unfoldable pub with_lock : Bool → Kernel → Kernel
with_lock locked k = record k { cpu = record (k.cpu) { scheduler_lock = locked } }

-- inSchedulerFunction of a thread, by its saved instruction pointer and the section .sched_text.
unfoldable pub in_scheduler_function : (text_start text_end : ℕ) → (ℕ → ℕ) → ℕ → Bool
in_scheduler_function text_start text_end rip t = leb text_start (rip t) && ltb (rip t) text_end

-- Either the search goes on, at the list and with the count foundHighPriority, or it has a thread.
pub data Pick : Type 0 where
  again : ℕ → ℕ → Pick
  chosen : ℕ → Pick

-- One pass of `find` and `found` at the list.
unfoldable pub try_list :
    (ℕ → Bool) → Cpu → (ℕ → List ℕ) → ℕ → ℕ → (ℕ → Runner) → Outcome (Pick × (ℕ → Runner))
try_list in_scheduler cpu from_tail list high rs =
    let r = find_runnable_thread cpu.id rs (from_tail list) in
    let high' : ℕ = elim r.1 [ none ↦ if list == 3 then high + 1 else high | some t ↦ high ] in
    let list' : ℕ = elim r.1 [ none ↦ if list == 0 then 3 else list - 1 | some t ↦ list ] in
    let found : ℕ = elim r.1 [ none ↦ 0 | some t ↦ t ] in
    let missed : Bool = elim r.1 [ none ↦ ltb high' 2 | some t ↦ false ] in
    let new = if high' == 2 then cpu.idle else found in
    let s = (r.0 new).status in
    if missed
    then done (again list' high', r.0)
    else if (new == 0) || s.blocked || s.paused
    then fault
    else if not (new == cpu.current) && s.running
    then done (again list' high', r.0)
    else if in_scheduler new
    then fault
    else done (chosen new, r.0)

-- The passes, on fuel.
unfoldable pub pick_thread :
    (ℕ → Bool) → Cpu → (ℕ → List ℕ) → ℕ → ℕ → ℕ → (ℕ → Runner) → Outcome (ℕ × (ℕ → Runner))
pick_thread in_scheduler cpu from_tail zero list high rs = hang
pick_thread in_scheduler cpu from_tail (suc fuel) list high rs =
    try_list in_scheduler cpu from_tail list high rs >>= λ r. elim r.0 [
      | again list' high' ↦ pick_thread in_scheduler cpu from_tail fuel list' high' r.1
      | chosen t ↦ done (t, r.1)
    ]

-- The current thread is preempted.
unfoldable pub preempt : Kernel → Kernel
preempt k =
    let r = k.runners k.cpu.current in
    let s = r.status in
    let off = record r {
      status = record s { can_run = s.can_run || not s.dead; running = false };
      last_time_preempted = k.ticks;
      affinity = r.og_affinity;
    } in
    if k.cpu.current == 0 then k else record k { runners = at_runner k.runners k.cpu.current off }

-- switchToIdleTask: the kernel and the thread that is switched to.
unfoldable pub switch_to_idle_task : Kernel → Kernel × Option ℕ
switch_to_idle_task k =
    let r = k.runners k.cpu.current in
    let s = r.status in
    let off = record r {
      status = record s { can_run = true; running = false };
      last_time_preempted = k.ticks;
      affinity = r.og_affinity;
    } in
    let rs = at_runner k.runners k.cpu.current off in
    (
      record k {
        runners = with_status k.cpu.idle (started (rs k.cpu.idle).status) rs;
        cpu = record (k.cpu) { current = k.cpu.idle };
      },
      some k.cpu.idle,
    )

-- The end of schedule, once the new thread is known. A thread that goes on is bound by a shift of 128
-- bits, a new one by a shift of 64 bits, of which the processor takes the distance modulo 64.
unfoldable pub run_thread : ℕ → Kernel → Kernel × Option ℕ
run_thread new k =
    let r = k.runners new in
    let same = new == k.cpu.current in
    let run = record r {
      status = started r.status;
      affinity = if same then 2 ^ k.cpu.id else 2 ^ (k.cpu.id % 64);
      time_slice_index = if same then r.time_slice_index else add32 r.time_slice_index 1;
    } in
    (
      record k {
        runners = at_runner k.runners new run;
        cpu = record (k.cpu) { current = new; scheduler_lock = false };
      },
      if same then none else some new,
    )

-- The block callbacks of the four lists, the highest first.
unfoldable pub call_all_block_callbacks : (ℕ → Bool) → Kernel → Outcome Kernel
call_all_block_callbacks ready k = call_block_callbacks ready k.runners (k.from_head 3) >>= λ rs3.
    call_block_callbacks ready rs3 (k.from_head 2) >>= λ rs2.
    call_block_callbacks ready rs2 (k.from_head 1) >>= λ rs1.
    call_block_callbacks ready rs1 (k.from_head 0) >>= λ rs0. done (record k { runners = rs0 })

-- The choice of the next thread, with the processor's scheduler lock held.
unfoldable pub reschedule :
    (ready in_scheduler : ℕ → Bool) → ℕ → Kernel → Outcome (Kernel × Option ℕ)
reschedule ready in_scheduler fuel k = call_all_block_callbacks ready (preempt k) >>= λ k1.
    find_priority_list 2 k1.counts >>= λ l.
    pick_thread in_scheduler k1.cpu k1.from_tail fuel l.0 0 k1.runners >>= λ p.
    done (run_thread p.0 (record k1 { runners = p.1; counts = l.1 }))

-- schedule: the kernel after it, and the thread that is switched to if there is one.
unfoldable pub schedule : (ready in_scheduler : ℕ → Bool) → ℕ → Kernel → Outcome (Kernel × Option ℕ)
schedule ready in_scheduler fuel k0 =
    let k = record k0 { ticks = if k0.cpu.id == 0 then k0.ticks + 1 else k0.ticks } in
    let current = k.cpu.current in
    let s = (k.runners current).status in
    let waits = not (current == 0) && (current == k.cpu.idle) && s.blocked in
    let woken =
      with_lock false
        (record k { runners = with_status current (record s { blocked = false }) k.runners }) in
    let normal = reschedule ready in_scheduler fuel (with_lock true k) in
    if k.cpu.scheduler_lock
    then done (k, none)
    else if waits
    then (if ready current then done (woken, none) else hang)
    else if 1 == cpus_in_scheduler (true ∷ k.other_locks)
    then normal
    else if (current == 0) || thread_can_run k.cpu.id (k.runners current)
    then done (k, none)
    else done (switch_to_idle_task k)
