-- ===== src/Threads.antt =====
-- Threads and their lists: oboskrnl/multitasking/thread.h. A thread is in one of the four priority
-- lists, through `next_run` and `prev_run`, and in its process's list, through `next_list` and
-- `prev_list`. The bits of a thread's status are Booleans. What the kernel does beside that (the
-- scheduler, stacks, processes, the slab allocator) is written to a log, in order.
pub mod Lists
pub mod Handle
use obos_old.Prelude.{ℕ, Bool, false, List, [], ◌∷◌, ◌++◌, not, ◌&&◌, ◌==◌, if◌then◌else◌}
use obos_old.Links.{Links, Header, ListState}
use obos_old.Vfs.{Error, success}

pub record Status : Type 0 where
  pub dead : Bool
  pub can_run : Bool
  pub blocked : Bool
  pub paused : Bool
  pub clear_time_slice_index : Bool
  pub running : Bool

abbrev pub no_status : Status
no_status = record {
  dead = false;
  can_run = false;
  blocked = false;
  paused = false;
  clear_time_slice_index = false;
  running = false;
}

-- `status == THREAD_STATUS_DEAD`: that bit and no other.
unfoldable pub is_dead : Status → Bool
is_dead s =
    s.dead
    && not s.can_run
    && not s.blocked
    && not s.paused
    && not s.clear_time_slice_index
    && not s.running

pub record Thread : Type 0 where
  pub tid : ℕ
  pub status : Status
  pub priority : ℕ
  pub exit_code : ℕ
  pub last_error : Error
  pub references : ℕ
  pub owner : ℕ
  pub priority_list : ℕ
  pub thread_list : ℕ
  pub affinity : ℕ
  pub driver_identity : ℕ
  pub flags : ℕ

-- `new Thread{}`, and what the slab allocator leaves of a thread that was deleted.
abbrev pub zero_thread : Thread
zero_thread = record {
  tid = 0;
  status = no_status;
  priority = 0;
  exit_code = 0;
  last_error = success;
  references = 0;
  owner = 0;
  priority_list = 0;
  thread_list = 0;
  affinity = 0;
  driver_identity = 0;
  flags = 0;
}

pub data Event : Type 0 where
  call_scheduler : Bool → Event
  setup_context : (thread process stack_size entry userdata : ℕ) → Event
  free_stack : (thread process : ℕ) → Event
  terminate_process : ℕ → Event
  delete_thread : ℕ → Event

-- The priority lists are the numbers 0 to 3; a process's thread list has its process's address.
pub record Threads : Type 0 where
  pub thread : ℕ → Thread
  pub run : Links
  pub list : Links
  pub priority_lists : ℕ → Header
  pub thread_lists : ℕ → Header
  pub current : ℕ
  pub next_tid : ℕ
  pub default_affinity : ℕ
  pub cpu_ids : List ℕ
  pub log : List Event

abbrev pub with_thread : ℕ → Thread → Threads → Threads
with_thread p t w = record w { thread = λ q. if q == p then t else w.thread q }

-- SetLastError
abbrev pub fail_with : Error → Threads → Threads
fail_with e w =
    if w.current == 0
    then w
    else with_thread w.current (record (w.thread w.current) { last_error = e }) w

abbrev pub logged : Event → Threads → Threads
logged e w = record w { log = w.log ++ e ∷ [] }

abbrev pub run_list : Threads → ℕ → ListState
run_list w i = record { links = w.run; header = w.priority_lists i }

abbrev pub process_list : Threads → ℕ → ListState
process_list w p = record { links = w.list; header = w.thread_lists p }

abbrev pub with_run_list : ℕ → ListState → Threads → Threads
with_run_list i s w = record w {
  run = s.links;
  priority_lists = λ j. if j == i then s.header else w.priority_lists j;
}

abbrev pub with_process_list : ℕ → ListState → Threads → Threads
with_process_list p s w = record w {
  list = s.links;
  thread_lists = λ q. if q == p then s.header else w.thread_lists q;
}
