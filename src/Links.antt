-- ===== src/Links.antt =====
-- The intrusive doubly linked list that the kernel writes out by hand wherever it keeps one:
-- HandleList (oboskrnl/vfs/vfsNode.h) in the file and drive handles, FreeListNode in
-- oboskrnl/allocators/slab.cpp. Pointers are numbers and 0 is nullptr.
pub mod Chain
pub mod Append
pub mod Remove
pub mod Transfer
use obos_old.Prelude.{ℕ, Bool, ◌==◌, if◌then◌else◌, add64, sub64}

pub record Link : Type 0 where
  pub next : ℕ
  pub prev : ℕ

-- The `next` and `prev` fields of every node.
abbrev pub Links : Type 0
Links = ℕ → Link

pub record Header : Type 0 where
  pub head : ℕ
  pub tail : ℕ
  pub size : ℕ

abbrev pub empty_header : Header
empty_header = record { head = 0; tail = 0; size = 0 }

pub record ListState : Type 0 where
  pub links : Links
  pub header : Header

abbrev pub write : Links → ℕ → Link → Links
write h p c a = if a == p then c else h a

abbrev pub set_next : Links → ℕ → ℕ → Links
set_next h p q = write h p (record { next = q; prev = (h p).prev })

abbrev pub set_prev : Links → ℕ → ℕ → Links
set_prev h p q = write h p (record { next = (h p).next; prev = q })

-- FreeListNode::PushBack: the node's own `next` is left as it is.
unfoldable pub attach : ℕ → ListState → ListState
attach node s =
    let l = s.header in
    let h = if l.tail == 0 then s.links else set_next s.links l.tail node in
    record {
      links = set_prev h node l.tail;
      header = record {
        head = if l.head == 0 then node else l.head;
        tail = node;
        size = add64 l.size 1;
      };
    }

-- `new HandleListNode{}` at the address `node`, linked in at the end.
unfoldable pub push_back : ℕ → ListState → ListState
unfolding attach
push_back node s =
    attach node (record s { links = write s.links node (record { next = 0; prev = 0 }) })

-- FreeListNode::Remove, and the unlinking in the Close methods; each field is read when it is used.
unfoldable pub unlink : ℕ → ListState → ListState
unlink node s =
    let l = s.header in
    let h = s.links in
    let h1 = if (h node).next == 0 then h else set_prev h (h node).next (h node).prev in
    let h2 = if (h1 node).prev == 0 then h1 else set_next h1 (h1 node).prev (h1 node).next in
    record {
      links = h2;
      header = record {
        head = if l.head == node then (h2 node).next else l.head;
        tail = if l.tail == node then (h2 node).prev else l.tail;
        size = sub64 l.size 1;
      };
    }
