-- ===== src/Threads/Lists.antt =====
-- How oboskrnl/multitasking/threadAPI/thrHandle.cpp takes a thread out of a list, and puts one in.
use obos_old.Prelude.{ℕ, ◌≡◌, fun_ext, arith, ◌==◌, if◌then◌else◌, add64, sub64}
use obos_old.Links.{Link, ListState, set_next, set_prev, unlink}

-- The neighbour before the thread is mended first, then the one behind it.
unfoldable pub take_out : ℕ → ListState → ListState
take_out node s =
    let l = s.header in
    let h = s.links in
    let h1 = if (h node).prev == 0 then h else set_next h (h node).prev (h node).next in
    let h2 = if (h1 node).next == 0 then h1 else set_prev h1 (h1 node).next (h1 node).prev in
    record {
      links = h2;
      header = record {
        head = if l.head == node then (h2 node).next else l.head;
        tail = if l.tail == node then (h2 node).prev else l.tail;
        size = sub64 l.size 1;
      };
    }

-- SetThreadPriority's way in at the end: `next_run` is left as it is, and so is `prev_run` where the
-- list is empty.
unfoldable pub join : ℕ → ListState → ListState
join node s =
    let l = s.header in
    record {
      links = if l.tail == 0 then s.links else set_prev (set_next s.links l.tail node) node l.tail;
      header = record {
        head = if l.head == 0 then node else l.head;
        tail = node;
        size = add64 l.size 1;
      };
    }

-- CloseHandle's way out: the test in front of `next_list->prev_list` looks at `prev_list`.
unfoldable pub take_out_closing : ℕ → ListState → ListState
take_out_closing node s =
    let l = s.header in
    let h = s.links in
    let h1 = if (h node).prev == 0 then h else set_next h (h node).prev (h node).next in
    let h2 = if (h1 node).prev == 0 then h1 else set_prev h1 (h1 node).next (h1 node).prev in
    record {
      links = h2;
      header = record {
        head = if l.head == node then (h2 node).next else l.head;
        tail = if l.tail == node then (h2 node).prev else l.tail;
        size = sub64 l.size 1;
      };
    }

-- The order in which the neighbours are mended does not matter.
take_out-next :
    (node : ℕ) (s : ListState) (a : ℕ)
    → ((take_out node s).links a).next ≡ ((unlink node s).links a).next
unfolding take_out unlink
take_out-next node s a = ground arith

take_out-prev :
    (node : ℕ) (s : ListState) (a : ℕ)
    → ((take_out node s).links a).prev ≡ ((unlink node s).links a).prev
unfolding take_out unlink
take_out-prev node s a = ground arith

take_out-header : (node : ℕ) (s : ListState) → (take_out node s).header ≡ (unlink node s).header
unfolding take_out unlink
take_out-header node s = ground arith

Link-ext : (l m : Link) → l.next ≡ m.next → l.prev ≡ m.prev → l ≡ m
Link-ext l m e f = cc

pub take_out-unlink : (node : ℕ) (s : ListState) → take_out node s ≡ unlink node s
take_out-unlink node s =
    let links : (take_out node s).links ≡ (unlink node s).links =
      fun_ext (λ a. Link-ext _ _ (take_out-next node s a) (take_out-prev node s a)) in
    let header = take_out-header node s in cc
