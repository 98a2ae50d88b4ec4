-- ===== src/Tests/Threads.antt =====
-- Two threads of normal priority in one process; the first of them runs.
use obos_old.Prelude.{ℕ, ◌≡◌, refl, true, false, [], ◌∷◌, some, arith, ◌==◌, if◌then◌else◌}
use obos_old.Outcome.{done}
use obos_old.Links.{Links, Header, empty_header}
use obos_old.Links.Chain.{IsChain}
use obos_old.Threads.{
  no_status, is_dead, Thread, zero_thread, Threads, with_thread, run_list, process_list,
}
use obos_old.Threads.Handle.{
  look_for_thread, look_in_lists, refer_to, open_thread, ctz, create_thread, list_of_priority,
  terminate_thread,
}
use obos_old.Threads.Handle.Opening.{CanJoin, create_thread-IsChain}
use obos_old.Threads.Handle.Leaving.{CanEnd, terminate_thread-IsChain}
use obos_old.Threads.Handle.Moving.{CanMove}

abbrev ready : Thread
ready = record zero_thread {
  tid = 7;
  status = record no_status { can_run = true };
  priority = 4;
  owner = 9;
  priority_list = 2;
  thread_list = 9;
}

abbrev both : Links
both = λ p.
    if p == 1
    then record { next = 2; prev = 0 }
    else if p == 2
    then record { next = 0; prev = 1 }
    else record { next = 0; prev = 0 }

abbrev pair : Header
pair = record { head = 1; tail = 2; size = 2 }

abbrev threads : Threads
threads = record {
  thread = λ p. if p == 2 then record ready { tid = 8; references = 1 } else ready;
  run = both;
  list = both;
  priority_lists = λ i. if i == 2 then pair else empty_header;
  thread_lists = λ p. if p == 9 then pair else empty_header;
  current = 1;
  next_tid = 9;
  default_affinity = 3;
  cpu_ids = 0 ∷ 1 ∷ [];
  log = [];
}

-- The second thread's address.
abbrev second : ℕ
second = 2

opens : open_thread 5 0 threads 8 ≡ done (refer_to 0 threads 2)
unfolding open_thread look_in_lists look_for_thread
opens = refl

normal_list : ctz 32 4 ≡ some 2
unfolding ctz
normal_list = refl

both_run : IsChain (run_list threads 2) (1 ∷ 2 ∷ [])
both_run = record { nodes = ground arith; count = refl; fits = omega arith }

both_owned : IsChain (process_list threads 9) (1 ∷ 2 ∷ [])
both_owned = record { nodes = ground arith; count = refl; fits = omega arith }

three_CanJoin : CanJoin 3 threads 2 9 (1 ∷ 2 ∷ []) (1 ∷ 2 ∷ [])
three_CanJoin = record {
  not_null = omega arith;
  not_run = refl;
  not_owned = refl;
  run_room = omega arith;
  process_room = omega arith;
  runs = both_run;
  owns = both_owned;
}

create_thread-IsChain_example :
    (w' : Threads) × (create_thread 3 0 threads 4 4096 100 0 0 9 false ≡ done (true, 3, w'))
    × ((w'.thread 3).references ≡ 1)
    × ((w'.thread 3).tid ≡ 9)
    × ((w'.thread 3).status ≡ record no_status { can_run = true; paused = false })
    × ((w'.thread 3).owner ≡ 9)
    × ((w'.thread 3).driver_identity ≡ (threads.thread threads.current).driver_identity)
    × ((w'.thread 3).priority_list ≡ 2)
    × IsChain (run_list w' 2) (1 ∷ 2 ∷ 3 ∷ [])
    × IsChain (process_list w' 9) (1 ∷ 2 ∷ 3 ∷ [])
create_thread-IsChain_example =
    create_thread-IsChain 3 threads 2 9 (1 ∷ 2 ∷ []) (1 ∷ 2 ∷ []) 4 4096 100 0 0 false normal_list
      (omega arith) (omega arith) (omega arith) three_CanJoin

two_CanEnd : CanEnd 2 threads 5
unfolding is_dead
two_CanEnd = record { refers = omega arith; alive = refl; other = omega arith }

terminate_thread-IsChain_example :
    ((terminate_thread 2 threads 5).0 ≡ true)
    × (is_dead ((terminate_thread 2 threads 5).2.thread 2).status ≡ true)
    × (((terminate_thread 2 threads 5).2.thread 2).exit_code ≡ 5)
    × IsChain (run_list (terminate_thread 2 threads 5).2 2) (1 ∷ [])
    × ((p : ℕ) → process_list (terminate_thread 2 threads 5).2 p ≡ process_list threads p)
terminate_thread-IsChain_example =
    terminate_thread-IsChain 2 threads 5 (1 ∷ 2 ∷ []) two_CanEnd refl both_run

abbrev ended : Threads
ended = (terminate_thread 2 threads 5).2

-- The second thread is dead, with one reference.
abbrev dead_threads : Threads
dead_threads =
    with_thread 2 (record (threads.thread 2) { status = record no_status { dead = true } }) threads

two_dead : is_dead (dead_threads.thread 2).status ≡ true
unfolding is_dead
two_dead = refl

one_CanMove : CanMove 1 threads 8 3
unfolding is_dead list_of_priority
one_CanMove = record {
  refers = omega arith;
  alive = refl;
  other = omega arith;
  known = refl;
  elsewhere = omega arith;
}
