-- ===== src/Slab.antt =====
-- The slab allocator: oboskrnl/allocators/slab.h and slab.cpp. Each object type has a list of free
-- and a list of allocated nodes, and the object stands behind its node. The sizes of the objects and
-- of a node are parameters, and so is the address of the block that VirtualAlloc returns.
pub mod Allocating
pub mod Freeing
use obos_old.Prelude.{
  ℕ, zero, suc, ◌+◌, ◌*◌, ◌%◌, Bool, true, false, not, List, [], ◌∷◌, Option, none, some, ◌==◌, ltb,
  leb, if◌then◌else◌, add64, sub64,
}
use obos_old.Outcome.{Outcome, done, hang, ◌>>=◌}
use obos_old.Links.{Links, Header, ListState, attach, push_back, unlink}

pub record FreeList : Type 0 where
  pub free : Header
  pub allocated : Header

pub record Slab : Type 0 where
  pub links : Links
  pub lists : ℕ → FreeList
  pub initialized : Bool

abbrev pub free_list : Slab → ℕ → ListState
free_list s i = record { links = s.links; header = (s.lists i).free }

abbrev pub allocated_list : Slab → ℕ → ListState
allocated_list s i = record { links = s.links; header = (s.lists i).allocated }

abbrev pub with_free : ℕ → ListState → Slab → Slab
with_free i l s = record s {
  links = l.links;
  lists = λ j. if j == i then record (s.lists j) { free = l.header } else s.lists j;
}

abbrev pub with_allocated : ℕ → ListState → Slab → Slab
with_allocated i l s = record s {
  links = l.links;
  lists = λ j. if j == i then record (s.lists j) { allocated = l.header } else s.lists j;
}

-- The loop of ExpandFreeList: `count` nodes from the `i`-th one on.
unfoldable pub expand_loop : (count i block size : ℕ) → ListState → ListState
expand_loop zero i block size l = l
expand_loop (suc count) i block size l =
    expand_loop count (suc i) block size (push_back (block + i * size) l)

-- The room that ExpandFreeList gives to an object and its node.
abbrev pub real_size : (object node alignment : ℕ) → ℕ
real_size object node alignment =
    if alignment == 0 then object + node else object + node + (object + node) % alignment

-- The nodes are taken out of one list and put at the end of the other, the same node each time.
unfoldable pub move_to_allocated : ℕ → ℕ → ℕ → Slab → Slab
move_to_allocated zero i node s = s
move_to_allocated (suc count) i node s =
    let s1 = with_free i (unlink node (free_list s i)) s in
    move_to_allocated count i node (with_allocated i (attach node (allocated_list s1 i)) s1)

-- HasNode, which returns true on both ways out.
unfoldable pub has_node : ℕ → Links → ℕ → ℕ → Outcome Bool
has_node zero links object node = hang
has_node (suc fuel) links object node = elim (node == 0) [
  | true ↦ done true
  | false ↦ elim (node == object) [
    | true ↦ done true
    | false ↦ has_node fuel links object (links node).next
  ]
]

-- The index of an object type in the list of free lists: ObjectTypes::Invalid is 0.
abbrev pub type_index : ℕ → Option ℕ
type_index zero = none
type_index (suc i) = if leb 9 i then none else some i

module _ (object_size : ℕ → ℕ) (node_size : ℕ) where
  unfoldable pub expand_free_list : (i block count alignment : ℕ) → Slab → Slab
  expand_free_list i block count alignment s =
      with_free i
        (expand_loop count 0 block (real_size (object_size i) node_size alignment) (free_list s i))
        s

  -- SlabInitialize: the blocks of the nine types; the first is aligned to 16 bytes.
  unfoldable pub initialize_loop : (count i : ℕ) → (ℕ → ℕ) → Slab → Slab
  initialize_loop zero i blocks s = s
  initialize_loop (suc count) i blocks s =
      initialize_loop count (suc i) blocks
        (expand_free_list i (blocks i) 32 (if i == 0 then 16 else 0) s)

  unfoldable pub slab_initialize : (ℕ → ℕ) → Slab → Slab
  slab_initialize blocks s = record (initialize_loop 9 0 blocks s) { initialized = true }

  -- `blocks` are the blocks of SlabInitialize, `block1` and `block2` those of the two expansions
  -- that ImplSlabAllocate may ask for. The result is the first object's address, or null.
  unfoldable pub slab_allocate : (ℕ → ℕ) → (block1 block2 object_type count : ℕ) → Slab → ℕ × Slab
  slab_allocate blocks block1 block2 object_type count s =
      let s0 = if s.initialized then s else slab_initialize blocks s in
      elim (type_index object_type) [
        | none ↦ (0, s0)
        | some i ↦
            let s1 =
              if (s0.lists i).free.head == 0 then expand_free_list i block1 32 0 s0 else s0 in
            let s2 =
              if ltb (s1.lists i).free.size count
              then expand_free_list i block2 count 0 s1
              else s1 in
            let node = (s2.lists i).free.tail in
            (node + node_size, move_to_allocated count i node s2)
      ]

  unfoldable pub slab_has_object : (fuel object_type object : ℕ) → Slab → Outcome Bool
  slab_has_object fuel object_type object s = elim (type_index object_type) [
    | none ↦ done false
    | some i ↦ has_node fuel s.links object (s.lists i).allocated.head
  ]

  -- The node of the `k`-th of the objects that are freed.
  abbrev pub freed_node : (i object k : ℕ) → ℕ
  freed_node i object k = add64 (sub64 object node_size) (k * (object_size i + node_size))

  -- The first loop of ImplSlabFree.
  unfoldable pub all_have : (fuel i object count k : ℕ) → Slab → Outcome Bool
  all_have fuel i object zero k s = done true
  all_have fuel i object (suc count) k s =
      has_node fuel s.links (freed_node i object k) (s.lists i).allocated.head >>= λ has. elim has [
        | true ↦ all_have fuel i object count (suc k) s
        | false ↦ done false
      ]

  -- The second loop, without the clearing of the objects.
  unfoldable pub move_to_free : (i object count k : ℕ) → Slab → Slab
  move_to_free i object zero k s = s
  move_to_free i object (suc count) k s =
      let node = freed_node i object k in
      let s1 = with_allocated i (unlink node (allocated_list s i)) s in
      move_to_free i object count (suc k) (with_free i (attach node (free_list s1 i)) s1)

  unfoldable pub slab_free : (fuel object_type object count : ℕ) → Slab → Outcome Slab
  slab_free fuel object_type object count s =
      if not s.initialized then done s else elim (type_index object_type) [
        | none ↦ done s
        | some i ↦ all_have fuel i object count 0 s >>= λ all.
            done (if all then move_to_free i object count 0 s else s)
      ]
