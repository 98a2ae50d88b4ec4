-- ===== src/Threads/Handle.antt =====
-- ThreadHandle: oboskrnl/multitasking/threadAPI/thrHandle.h and thrHandle.cpp. A handle is its
-- `m_obj`, the thread's address or 0.
pub mod Opening
pub mod Leaving
pub mod Moving
use Prim.Native.Nat.{bit_or}
use obos_old.Prelude.{
  ℕ, zero, suc, ◌+◌, ◌/◌, ◌%◌, ◌^◌, ◌≡◌, Bool, true, false, ◌&&◌, ◌||◌, not, List, [], ◌∷◌, Option,
  none, some, ◌==◌, leb, if◌then◌else◌, u64, u32, add32, sub32,
}
use obos_old.Outcome.{Outcome, done, fault, hang, ◌>>=◌}
use obos_old.Links.{Links, ListState, push_back}
use obos_old.Vfs.{
  Error, invalid_parameter, already_exists, unopened_handle, no_such_object, thread_died,
  access_denied, success,
}
use obos_old.Threads.{
  Status, no_status, is_dead, Thread, zero_thread, call_scheduler, setup_context, free_stack,
  terminate_process, delete_thread, Threads, with_thread, fail_with, logged, run_list, process_list,
  with_run_list, with_process_list,
}
use obos_old.Threads.Lists.{take_out, take_out_closing, join}

-- What a call returns, the handle and the threads behind it.
abbrev pub ThreadCall : Type 0 → Type 0
ThreadCall A = A × ℕ × Threads

abbrev rejected : Error → ℕ → Threads → ThreadCall Bool
rejected e obj w = (false, obj, fail_with e w)

-- lookForThreadInList
unfoldable pub look_for_thread : ℕ → Threads → ℕ → ℕ → Outcome ℕ
look_for_thread zero w tid p = hang
look_for_thread (suc fuel) w tid p = elim (p == 0) [
  | true ↦ done 0
  | false ↦ elim ((w.thread p).tid == tid) [
    | true ↦ done p
    | false ↦ look_for_thread fuel w tid (w.run p).next
  ]
]

-- The lists from `i` on, `n` of them, until one has the thread.
unfoldable pub look_in_lists : ℕ → Threads → ℕ → (n i : ℕ) → Outcome ℕ
look_in_lists fuel w tid zero i = done 0
look_in_lists fuel w tid (suc n) i = look_for_thread fuel w tid (w.priority_lists i).head >>= λ p.
    elim (p == 0) [ true ↦ look_in_lists fuel w tid n (suc i) | false ↦ done p ]

-- The rest of OpenThread.
unfoldable pub refer_to : ℕ → Threads → ℕ → ThreadCall Bool
refer_to obj w p = if p == 0 then rejected no_such_object obj w else (
  true,
  p,
  with_thread p (record (w.thread p) { references = add32 (w.thread p).references 1 }) w,
)

unfoldable pub open_thread : ℕ → ℕ → Threads → ℕ → Outcome (ThreadCall Bool)
open_thread fuel obj w tid = look_in_lists fuel w tid 4 0 >>= λ p. done (refer_to obj w p)

-- `g_defaultAffinity |= (uint64_t)1 << g_cpuInfo[i].cpuId`
unfoldable pub add_cpus : List ℕ → ℕ → ℕ
add_cpus [] affinity = affinity
add_cpus (id ∷ ids) affinity = add_cpus ids (bit_or affinity (2 ^ (id % 64)))

-- __builtin_ctz of a 32-bit number, which is undefined at 0.
unfoldable pub ctz : ℕ → ℕ → Option ℕ
ctz zero x = none
ctz (suc n) x =
    let rest = ctz n (x / 2) in
    if x % 2 == 1 then some 0 else elim rest [ none ↦ none | some k ↦ some (suc k) ]

abbrev pub default_affinity_of : Threads → ℕ
default_affinity_of w = if w.default_affinity == 0 then add_cpus w.cpu_ids 0 else w.default_affinity

-- The thread that CreateThread fills in.
abbrev pub created : Threads → (priority list process affinity : ℕ) → Bool → Thread
created w priority list process affinity start_paused = record zero_thread {
  tid = w.next_tid;
  status = record no_status { can_run = true; paused = start_paused };
  priority = priority;
  priority_list = list;
  owner = process;
  thread_list = process;
  affinity = if affinity == 0 then default_affinity_of w else affinity;
  driver_identity = (w.thread w.current).driver_identity;
  references = 1;
}

-- The rest of CreateThread once the list is known: the thread is set up and joins both lists.
unfoldable pub create_in :
    (fresh : ℕ)
    → Threads
    → (priority list process affinity : ℕ) → Bool
    → (stack_size entry userdata : ℕ) → Threads
create_in fresh w priority list process affinity start_paused stack_size entry userdata =
    let made : Threads =
      with_thread fresh (created w priority list process affinity start_paused)
        (record w { next_tid = add32 w.next_tid 1; default_affinity = default_affinity_of w }) in
    let w1 : Threads = logged (setup_context fresh process stack_size entry userdata) made in
    let w2 : Threads = with_run_list list (push_back fresh (run_list w1 list)) w1 in
    with_process_list process (push_back fresh (process_list w2 process)) w2

-- `fresh` is what `new Thread{}` returns; a process that is null stands for the current one. The new
-- thread takes the driver identity of the current thread, which is read through null when there is
-- none.
unfoldable pub create_thread :
    (fresh obj : ℕ)
    → Threads
    → (priority stack_size entry userdata affinity process : ℕ) → Bool
    → Outcome (ThreadCall Bool)
create_thread fresh obj w priority stack_size entry userdata affinity process start_paused =
    if not (obj == 0) then done (rejected already_exists obj w) else elim (ctz 32 priority) [
      | none ↦ fault
      | some list ↦
          if leb 4 list
          then done (
              rejected invalid_parameter obj
                (record w { default_affinity = default_affinity_of w }))
          else if w.current == 0
          then fault
          else done (
            true,
            fresh,
            create_in fresh w priority list
                (if process == 0 then (w.thread w.current).owner else process) affinity start_paused
                stack_size entry userdata,
          )
    ]

-- What the methods that act on a live thread test first.
abbrev on_live : ℕ → Threads → ThreadCall Bool → ThreadCall Bool
on_live obj w act =
    if obj == 0
    then rejected unopened_handle obj w
    else if is_dead (w.thread obj).status
    then rejected thread_died obj w
    else act

unfoldable pub pause_thread : ℕ → Threads → ThreadCall Bool
pause_thread obj w =
    let status : Status = record no_status { can_run = true; paused = true } in
    on_live obj w (
      true,
      obj,
      logged (call_scheduler true) (with_thread obj (record (w.thread obj) { status = status }) w),
    )

unfoldable pub resume_thread : ℕ → Threads → ThreadCall Bool
resume_thread obj w =
    let status : Status = record ((w.thread obj).status) { paused = false } in
    on_live obj w (true, obj, with_thread obj (record (w.thread obj) { status = status }) w)

-- The switch of SetThreadPriority.
unfoldable pub list_of_priority : ℕ → Option ℕ
list_of_priority priority =
    if priority == 1
    then some 0
    else if priority == 2
    then some 1
    else if priority == 4
    then some 2
    else if priority == 8
    then some 3
    else none

-- The thread moves to another list.
unfoldable pub move_to : ℕ → Threads → (priority list : ℕ) → Threads
move_to obj w priority list =
    let old = (w.thread obj).priority_list in
    let w1 : Threads = with_run_list old (take_out obj (run_list w old)) w in
    let w2 : Threads = with_run_list list (join obj (run_list w1 list)) w1 in
    with_thread obj (record (w.thread obj) { priority_list = list; priority = priority }) w2

unfoldable pub set_thread_priority : ℕ → Threads → ℕ → ThreadCall Bool
set_thread_priority obj w priority = on_live obj w (
    if (w.thread obj).priority == priority
    then (true, obj, w)
    else elim (list_of_priority priority) [
      | none ↦ rejected invalid_parameter obj w
      | some list ↦ (true, obj, move_to obj w priority list)
    ])

-- Out of the list of its priority.
abbrev leave_run_list : ℕ → Threads → Threads
leave_run_list p w =
    let i = (w.thread p).priority_list in with_run_list i (take_out p (run_list w i)) w

unfoldable pub terminate_thread : ℕ → Threads → ℕ → ThreadCall Bool
terminate_thread obj w exit_code = on_live obj w (
    if obj == w.current
    then rejected access_denied obj w
    else let t = w.thread obj in
      let status : Status = record no_status { dead = true } in
      let w1 : Threads = with_thread obj (record t { status = status; exit_code = exit_code }) w in
      let w2 : Threads = if t.status.running then logged (call_scheduler true) w1 else w1 in
      (true, obj, leave_run_list obj (logged (free_stack obj t.owner) w2)))

unfoldable pub get_thread_status : ℕ → Threads → Status × Threads
get_thread_status obj w =
    if obj == 0 then (no_status, fail_with unopened_handle w) else ((w.thread obj).status, w)

unfoldable pub get_thread_exit_code : ℕ → Threads → ℕ × Threads
get_thread_exit_code obj w =
    if obj == 0 then (0, fail_with unopened_handle w) else ((w.thread obj).exit_code, w)

unfoldable pub get_thread_last_error : ℕ → Threads → Error × Threads
get_thread_last_error obj w =
    if obj == 0 then (success, fail_with unopened_handle w) else ((w.thread obj).last_error, w)

unfoldable pub get_thread_tid : ℕ → Threads → ℕ × Threads
get_thread_tid obj w =
    if obj == 0 then (0xffff_ffff, fail_with unopened_handle w) else ((w.thread obj).tid, w)

-- `delete`: the slab allocator clears the object.
abbrev delete_at : ℕ → Threads → Threads
delete_at p w = logged (delete_thread p) (with_thread p zero_thread w)

-- The rest of CloseHandle where no reference is left; `m_obj` keeps the address.
unfoldable pub close_last : ℕ → Threads → Outcome (ThreadCall Bool)
close_last obj w =
    let l = (w.thread obj).thread_list in
    if not ((w.list obj).prev == 0) && ((w.list obj).next == 0)
    then fault
    else done
        (true, obj, delete_at obj (with_process_list l (take_out_closing obj (process_list w l)) w))

unfoldable pub close_handle : ℕ → Threads → Outcome (ThreadCall Bool)
close_handle obj w =
    let references = sub32 (w.thread obj).references 1 in
    let w1 : Threads = with_thread obj (record (w.thread obj) { references = references }) w in
    if obj == 0
    then done (rejected unopened_handle obj w)
    else if not (is_dead (w.thread obj).status)
    then done (true, 0, w)
    else if references == 0
    then close_last obj w1
    else done (true, 0, w1)

-- ExitThreadImpl without the return to the scheduler: the part for a thread that is still
-- allocated. Its process's end is written to the log.
unfoldable pub exit_current : Threads → ℕ → Threads
exit_current w exit_code =
    let p = w.current in
    let status : Status = record no_status { dead = true } in
    let marked : Threads =
      with_thread p (record (w.thread p) { exit_code = exit_code; status = status; flags = 0 }) w in
    let w1 : Threads = leave_run_list p marked in
    let l = (w1.thread p).thread_list in
    let w2 : Threads = with_process_list l (take_out p (process_list w1 l)) w1 in
    let w3 : Threads =
      if (w2.thread_lists l).size == 0
      then logged (terminate_process (w.thread p).owner) w2
      else w2 in
    if (w.thread p).references == 0 then delete_at p w3 else w1

-- `known` is what SlabHasObject answers.
unfoldable pub exit_thread : Bool → Threads → ℕ → Threads
exit_thread known w exit_code =
    let w1 : Threads = if known then exit_current w exit_code else w in
    logged (call_scheduler false) (logged (free_stack w.current (w1.thread w.current).owner) w1)
