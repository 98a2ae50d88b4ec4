-- ===== src/Threads/Handle/Leaving.antt =====
-- The end of a thread: TerminateThread, CloseHandle and ExitThreadImpl.
use obos_old.Prelude.{ℕ, ◌≡◌, ◌≢◌, true, false, List, [], ◌∷◌, ◌++◌, has, erase, arith}
use obos_old.Outcome.{fault}
use obos_old.Links.Chain.{IsChain}
use obos_old.Links.Remove.{unlink-IsChain}
use obos_old.Vfs.{thread_died}
use obos_old.Threads.{
  is_dead, Event, Threads, run_list, process_list, fail_with, call_scheduler, free_stack,
}
use obos_old.Threads.Lists.{take_out, take_out-unlink}
use obos_old.Threads.Handle.{
  set_thread_priority, resume_thread, pause_thread, terminate_thread, close_last, close_handle,
  exit_current, exit_thread,
}

module _ (obj : ℕ) (w : Threads) (exit_code : ℕ) where
  abbrev after : Threads
  after = (terminate_thread obj w exit_code).2

  -- The list of the thread's priority.
  abbrev its_list : ℕ
  its_list = (w.thread obj).priority_list

  -- A live thread that is not the one that runs.
  pub record CanEnd : Type 0 where
    pub refers : obj ≢ 0
    pub alive : is_dead (w.thread obj).status ≡ false
    pub other : obj ≢ w.current

  terminate_thread-run : CanEnd → run_list after its_list ≡ take_out obj (run_list w its_list)
  unfolding terminate_thread
  terminate_thread-run c = ground arith

  terminate_thread-is_dead : CanEnd → is_dead (after.thread obj).status ≡ true
  unfolding terminate_thread is_dead
  terminate_thread-is_dead c = ground (arith, c.alive)

  terminate_thread-again :
      (v : Threads) (code : ℕ)
      → obj ≢ 0
      → is_dead (v.thread obj).status ≡ true
      → terminate_thread obj v code ≡ (false, obj, fail_with thread_died v)
  unfolding terminate_thread
  terminate_thread-again v code nz dead = ground arith

  -- TerminateThread of a live thread other than the running one succeeds: the thread is dead with
  -- the exit code, the other threads of its priority stay in its list in their order, and the lists
  -- of the processes are as they were.
  pub terminate_thread-IsChain :
      (xs : List ℕ)
      → CanEnd
      → has obj xs ≡ true
      → IsChain (run_list w its_list) xs
      → ((terminate_thread obj w exit_code).0 ≡ true)
        × (is_dead (after.thread obj).status ≡ true)
        × ((after.thread obj).exit_code ≡ exit_code)
        × IsChain (run_list after its_list) (erase obj xs)
        × ((p : ℕ) → process_list after p ≡ process_list w p)
  unfolding terminate_thread is_dead
  terminate_thread-IsChain xs c m chain = (
    ground (arith, c.alive),
    ground (arith, c.alive),
    ground (arith, c.alive),
    rw (terminate_thread-run c, take_out-unlink obj (run_list w its_list))
        (unlink-IsChain obj (run_list w its_list) xs m chain),
    λ p. ground (arith, c.alive),
  )

  -- Once TerminateThread has succeeded, the other operations on the thread are refused with
  -- THREAD_DIED, and change nothing but the error of the thread that runs.
  pub terminate_thread-refused :
      (priority exit_code2 : ℕ)
      → CanEnd
      → (pause_thread obj after ≡ (false, obj, fail_with thread_died after))
        × (resume_thread obj after ≡ (false, obj, fail_with thread_died after))
        × (set_thread_priority obj after priority ≡ (false, obj, fail_with thread_died after))
        × (terminate_thread obj after exit_code2 ≡ (false, obj, fail_with thread_died after))
  unfolding pause_thread resume_thread set_thread_priority
  terminate_thread-refused priority exit_code2 c =
      let dead : is_dead (after.thread obj).status ≡ true = terminate_thread-is_dead c in
      (
        ground arith,
        ground arith,
        ground arith,
        ground (arith, terminate_thread-again after exit_code2 c.refers dead),
      )

-- CloseHandle of the last reference to a dead thread that is the last of several threads in its
-- process's list writes through a null pointer.
pub close_handle-fault :
    (obj : ℕ) (w : Threads)
    → obj ≢ 0
    → is_dead (w.thread obj).status ≡ true
    → (w.thread obj).references ≡ 1
    → (w.list obj).prev ≢ 0
    → (w.list obj).next ≡ 0
    → close_handle obj w ≡ fault
unfolding close_handle close_last
close_handle-fault obj w nz dead one p n = ground arith

-- When a thread without a reference to it exits, its stack is freed for the process at the null
-- address, since the thread has been deleted by then; the scheduler is called last.
pub exit_thread-null_process :
    (w : Threads) (exit_code : ℕ)
    → (w.thread w.current).references ≡ 0
    → (before : List Event) × ((exit_thread true w exit_code).log
        ≡ (before ++ free_stack w.current 0 ∷ []) ++ call_scheduler false ∷ [])
unfolding exit_thread exit_current
exit_thread-null_process w exit_code zero_refs = ((exit_current w exit_code).log, ground arith)
