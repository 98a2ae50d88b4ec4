-- ===== src/Threads/Handle/Opening.antt =====
-- Getting a handle: on a thread that exists, and on a new one.
use obos_old.Prelude.{
  ℕ, zero, suc, ◌+◌, ◌<◌, ◌≡◌, ◌≢◌, ap, ◌⊎◌, Bool, true, false, List, [], ◌∷◌, ◌++◌, some, has,
  length, u64, add32, arith,
}
use obos_old.Outcome.{done, >>=-eq-done}
use obos_old.Links.{push_back}
use obos_old.Links.Chain.{IsChain}
use obos_old.Links.Append.{push_back-IsChain}
use obos_old.Threads.{no_status, Threads, run_list, process_list}
use obos_old.Threads.Handle.{
  look_for_thread, look_in_lists, refer_to, open_thread, ctz, created, create_in, create_thread,
}

look_for_thread-Found :
    (fuel : ℕ) (w : Threads) (tid p r : ℕ)
    → look_for_thread fuel w tid p ≡ done r
    → (r ≡ 0) ⊎ ((r ≢ 0) × ((w.thread r).tid ≡ tid))
unfolding look_for_thread
look_for_thread-Found zero w tid p r e = cc
look_for_thread-Found (suc fuel) w tid p r e =
    ground (arith, look_for_thread-Found fuel w tid (w.run p).next r)

look_in_lists-Found :
    (fuel : ℕ) (w : Threads) (tid n i r : ℕ)
    → look_in_lists fuel w tid n i ≡ done r
    → (r ≡ 0) ⊎ ((r ≢ 0) × ((w.thread r).tid ≡ tid))
unfolding look_in_lists
look_in_lists-Found fuel w tid zero i r e = ground arith
look_in_lists-Found fuel w tid (suc n) i r e =
    let (p, f, g) = >>=-eq-done (look_for_thread fuel w tid (w.priority_lists i).head) _ r e in
    ground (
      arith,
      look_for_thread-Found fuel w tid (w.priority_lists i).head p f,
      look_in_lists-Found fuel w tid n (suc i) r,
    )

-- When OpenThread succeeds, the handle refers to a thread with the id that was asked for, whatever
-- it referred to before, and the thread has one reference more (modulo 2 ^ 32).
pub open_thread-Found :
    (fuel obj : ℕ) (w : Threads) (tid obj' : ℕ) (w' : Threads)
    → open_thread fuel obj w tid ≡ done (true, obj', w')
    → (obj' ≢ 0)
      × ((w.thread obj').tid ≡ tid)
      × ((w'.thread obj').references ≡ add32 (w.thread obj').references 1)
unfolding open_thread refer_to
open_thread-Found fuel obj w tid obj' w' e =
    let (p, f, g) =
      >>=-eq-done (look_in_lists fuel w tid 4 0) (λ p. done (refer_to obj w p)) (true, obj', w')
        e in
    let found = look_in_lists-Found fuel w tid 4 0 p f in (ground arith, ground arith, ground arith)

module _ (fresh : ℕ) (w : Threads) (list process : ℕ) (xs ys : List ℕ) where
  -- A new thread at an address that no list has, and lists with room for it.
  pub record CanJoin : Type 0 where
    pub not_null : fresh ≢ 0
    pub not_run : has fresh xs ≡ false
    pub not_owned : has fresh ys ≡ false
    pub run_room : length xs + 1 < u64
    pub process_room : length ys + 1 < u64
    pub runs : IsChain (run_list w list) xs
    pub owns : IsChain (process_list w process) ys

  create_in-run :
      (priority affinity : ℕ) (paused : Bool) (stack entry userdata : ℕ)
      → run_list (create_in fresh w priority list process affinity paused stack entry userdata) list
        ≡ push_back fresh (run_list w list)
  unfolding create_in
  create_in-run priority affinity paused stack entry userdata = ground arith

  create_in-process :
      (priority affinity : ℕ) (paused : Bool) (stack entry userdata : ℕ)
      → process_list
          (create_in fresh w priority list process affinity paused stack entry userdata)
          process
        ≡ push_back fresh (process_list w process)
  unfolding create_in
  create_in-process priority affinity paused stack entry userdata = ground arith

  create_in-thread :
      (priority affinity : ℕ) (paused : Bool) (stack entry userdata : ℕ)
      → (create_in fresh w priority list process affinity paused stack entry userdata).thread fresh
        ≡ created w priority list process affinity paused
  unfolding create_in
  create_in-thread priority affinity paused stack entry userdata = ground arith

  -- With an unused handle, a process that is not null, a current thread on the processor and a
  -- priority whose lowest bit names a list, CreateThread of a new thread, with lists that are
  -- well-formed and have room for it, succeeds: the handle refers to the new thread, which can run, is
  -- paused if that was asked for, belongs to the process, has the current thread's driver identity, the
  -- next id and one reference, and is the last of the list of its priority and of its process's list,
  -- both well-formed as before.
  pub create_thread-IsChain :
      (priority stack entry userdata affinity : ℕ) (paused : Bool)
      → ctz 32 priority ≡ some list
      → list < 4
      → process ≢ 0
      → w.current ≢ 0
      → CanJoin
      → (w' : Threads) × (create_thread fresh 0 w priority stack entry userdata affinity process
            paused
          ≡ done (true, fresh, w'))
        × ((w'.thread fresh).references ≡ 1)
        × ((w'.thread fresh).tid ≡ w.next_tid)
        × ((w'.thread fresh).status ≡ record no_status { can_run = true; paused = paused })
        × ((w'.thread fresh).owner ≡ process)
        × ((w'.thread fresh).driver_identity ≡ (w.thread w.current).driver_identity)
        × ((w'.thread fresh).priority_list ≡ list)
        × IsChain (run_list w' list) (xs ++ fresh ∷ [])
        × IsChain (process_list w' process) (ys ++ fresh ∷ [])
  unfolding create_thread
  create_thread-IsChain priority stack entry userdata affinity paused c l nz running j = (
    create_in fresh w priority list process affinity paused stack entry userdata,
    ground (arith, c),
    ap (λ t. t.references) (create_in-thread priority affinity paused stack entry userdata),
    ap (λ t. t.tid) (create_in-thread priority affinity paused stack entry userdata),
    ap (λ t. t.status) (create_in-thread priority affinity paused stack entry userdata),
    ap (λ t. t.owner) (create_in-thread priority affinity paused stack entry userdata),
    ap (λ t. t.driver_identity) (create_in-thread priority affinity paused stack entry userdata),
    ap (λ t. t.priority_list) (create_in-thread priority affinity paused stack entry userdata),
    rw (create_in-run priority affinity paused stack entry userdata)
        (push_back-IsChain fresh (run_list w list) xs j.not_null j.not_run j.run_room j.runs),
    rw (create_in-process priority affinity paused stack entry userdata) (
        push_back-IsChain fresh (process_list w process) ys j.not_null j.not_owned j.process_room
          j.owns),
  )
