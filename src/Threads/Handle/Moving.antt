-- ===== src/Threads/Handle/Moving.antt =====
-- SetThreadPriority and the lists that it moves a thread between.
use obos_old.Prelude.{
  ℕ, ◌≡◌, ◌≢◌, sym, true, false, List, some, subst, has, has-erase, erase, arith,
}
use obos_old.Links.Chain.{IsChain, IsChain-end, IsChain-frame, Seg-once}
use obos_old.Links.Remove.{unlink-IsChain}
use obos_old.Threads.{is_dead, Threads, run_list}
use obos_old.Threads.Lists.{take_out, join, take_out-unlink}
use obos_old.Threads.Handle.{list_of_priority, move_to, set_thread_priority}

module _ (obj : ℕ) (w : Threads) (priority list : ℕ) where
  abbrev moved : Threads
  moved = (set_thread_priority obj w priority).2

  -- A live thread, and another priority whose list is another one.
  pub record CanMove : Type 0 where
    pub refers : obj ≢ 0
    pub alive : is_dead (w.thread obj).status ≡ false
    pub other : (w.thread obj).priority ≢ priority
    pub known : list_of_priority priority ≡ some list
    pub elsewhere : (w.thread obj).priority_list ≢ list

  set_thread_priority-move_to :
      CanMove → set_thread_priority obj w priority ≡ (true, obj, move_to obj w priority list)
  unfolding set_thread_priority
  set_thread_priority-move_to c = ground (arith, c.known)

  move_to-tail : CanMove → (run_list (move_to obj w priority list) list).header.tail ≡ obj
  unfolding move_to join
  move_to-tail c = ground arith

  move_to-next :
      CanMove
      → (w.run obj).prev ≢ obj
      → (w.priority_lists list).tail ≢ obj
      → ((move_to obj w priority list).run obj).next ≡ (w.run obj).next
  unfolding move_to join take_out
  move_to-next c p t = ground arith

  -- When SetThreadPriority moves a thread that had a successor in the list of its old priority, the
  -- list of the new priority is not well-formed, whatever threads it is taken to hold: its last
  -- thread still leads to the old successor.
  pub set_thread_priority-broken :
      CanMove
      → (w.run obj).prev ≢ obj
      → (w.priority_lists list).tail ≢ obj
      → (w.run obj).next ≢ 0
      → (zs : List ℕ)
      → ((set_thread_priority obj w priority).0 ≡ true) × (IsChain (run_list moved list) zs → ⊥)
  set_thread_priority-broken c p t n zs =
      let r = set_thread_priority-move_to c in
      let end = λ (k : IsChain (run_list (move_to obj w priority list) list) zs).
        IsChain-end (run_list (move_to obj w priority list) list) zs
          (ground (arith, move_to-tail c, c.refers)) k in
      (
        ground (arith, r),
        λ k.
            let k' = subst (λ q. IsChain (run_list q.2 list) zs) r k in
            ground (arith, end k', move_to-tail c, move_to-next c p t),
      )

  move_to-links :
      (a : ℕ)
      → CanMove
      → a ≢ obj
      → a ≢ (w.priority_lists list).tail
      → (move_to obj w priority list).run a
        ≡ (take_out obj (run_list w (w.thread obj).priority_list)).links a
  unfolding move_to join
  move_to-links a c o t = ground arith

  move_to-header :
      CanMove
      → (run_list (move_to obj w priority list) (w.thread obj).priority_list).header
        ≡ (take_out obj (run_list w (w.thread obj).priority_list)).header
  unfolding move_to join
  move_to-header c = ground arith

  -- SetThreadPriority to another priority succeeds, and the threads that stay behind in the list of
  -- the old priority keep their order in a well-formed list, provided that the last thread of the
  -- new list is not one of them.
  pub set_thread_priority-IsChain :
      (xs : List ℕ)
      → CanMove
      → has obj xs ≡ true
      → has (w.priority_lists list).tail xs ≡ false
      → IsChain (run_list w (w.thread obj).priority_list) xs
      → ((set_thread_priority obj w priority).0 ≡ true)
        × IsChain (run_list moved (w.thread obj).priority_list) (erase obj xs)
  set_thread_priority-IsChain xs c m out chain =
      let old = (w.thread obj).priority_list in
      let left : IsChain (take_out obj (run_list w old)) (erase obj xs) =
        rw (take_out-unlink obj (run_list w old))
          (unlink-IsChain obj (run_list w old) xs m chain) in
      let w' = move_to obj w priority list in
      let once =
        Seg-once w.run 0 (w.priority_lists old).head (w.priority_lists old).tail obj xs
          chain.nodes in
      let same : (a : ℕ)
          → has a (erase obj xs) ≡ true
          → w'.run a ≡ (take_out obj (run_list w old)).links a =
        λ a i.
          move_to-links a c (ground (arith, once))
            (ground (arith, has-erase (w.priority_lists list).tail obj xs out)) in
      let header = move_to-header c in
      let stays : IsChain (run_list w' old) (erase obj xs) =
        IsChain-frame (take_out obj (run_list w old)) (run_list w' old) (erase obj xs) same header
          left in
      let r = set_thread_priority-move_to c in
      (ground (arith, r), subst (λ q. IsChain (run_list q.2 old) (erase obj xs)) (sym r) stays)
