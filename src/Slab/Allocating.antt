-- ===== src/Slab/Allocating.antt =====
-- Allocating one object, and giving it back.
use obos_old.Prelude.{
  ℕ, ◌+◌, ◌<◌, ◌≡◌, refl, ◌≢◌, true, false, List, [], ◌∷◌, ◌++◌, some, has, erase, length, u64,
  arith,
}
use obos_old.Links.{ListState}
use obos_old.Links.Chain.{IsChain, Seg-last, Seg-no_null, IsChain-end}
use obos_old.Links.Transfer.{given, after_source, transfer-IsChain}
use obos_old.Slab.{Slab, free_list, allocated_list, move_to_allocated, type_index, slab_allocate}

pub tail-member :
    (s : ListState) (xs : List ℕ) → s.header.head ≢ 0 → IsChain s xs → has s.header.tail xs ≡ true
tail-member s [] nz c = ground arith
tail-member s (x ∷ xs) nz c = Seg-last s.links 0 s.header.head s.header.tail x xs c.nodes

pub has-length : (a : ℕ) (xs : List ℕ) → has a xs ≡ true → length xs ≢ 0
has-length a [] h = ground arith
has-length a (x ∷ xs) h = omega arith

-- Of the two lists of a type: well-formed, without a common node, and room among the allocated.
pub record WellFormed (s : Slab) (i : ℕ) (xs zs : List ℕ) : Type 0 where
  pub free : IsChain (free_list s i) xs
  pub allocated : IsChain (allocated_list s i) zs
  pub apart : (a : ℕ) → has a zs ≡ true → has a xs ≡ false
  pub room : length zs + 1 < u64

free-move_to_allocated :
    (i node : ℕ) (s : Slab)
    → free_list (move_to_allocated 1 i node s) i
      ≡ after_source node s.links (s.lists i).free (s.lists i).allocated
unfolding move_to_allocated
free-move_to_allocated i node s = ground arith

allocated-move_to_allocated :
    (i node : ℕ) (s : Slab)
    → allocated_list (move_to_allocated 1 i node s) i
      ≡ given node s.links (s.lists i).free (s.lists i).allocated
unfolding move_to_allocated
allocated-move_to_allocated i node s = ground arith

module _ (object_size : ℕ → ℕ) (node_size : ℕ) (blocks : ℕ → ℕ) (block1 block2 : ℕ) where
  slab_allocate-move :
      (object_type i : ℕ) (s : Slab)
      → s.initialized ≡ true
      → type_index object_type ≡ some i
      → (s.lists i).free.head ≢ 0
      → (s.lists i).free.size ≢ 0
      → slab_allocate object_size node_size blocks block1 block2 object_type 1 s
        ≡ ((s.lists i).free.tail + node_size, move_to_allocated 1 i (s.lists i).free.tail s)
  unfolding slab_allocate
  slab_allocate-move object_type i s init t h n = ground (arith, t)

  -- On an initialized allocator with a free node of the type, ImplSlabAllocate of one object returns
  -- the object behind the last free node, and moves that node to the end of the allocated ones, both
  -- lists well-formed.
  pub slab_allocate-IsChain :
      (object_type i : ℕ) (s : Slab) (xs zs : List ℕ)
      → s.initialized ≡ true
      → type_index object_type ≡ some i
      → (s.lists i).free.head ≢ 0
      → WellFormed s i xs zs
      → let node = (s.lists i).free.tail in
        let r = slab_allocate object_size node_size blocks block1 block2 object_type 1 s in
        (r.0 ≡ node + node_size)
        × IsChain (free_list r.1 i) (erase node xs)
        × IsChain (allocated_list r.1 i) (zs ++ node ∷ [])
  slab_allocate-IsChain object_type i s xs zs init t h w =
      let node = (s.lists i).free.tail in
      let member = tail-member (free_list s i) xs h w.free in
      let size : (s.lists i).free.size ≢ 0 =
        ground (arith, w.free.count, has-length node xs member) in
      let nz : node ≢ 0 =
        ground (arith, member, Seg-no_null s.links 0 (s.lists i).free.head node xs w.free.nodes) in
      let moved =
        transfer-IsChain node s.links (s.lists i).free (s.lists i).allocated xs zs (record {
          source = w.free;
          target = w.allocated;
          member = member;
          final = IsChain-end (free_list s i) xs nz w.free;
          apart = w.apart;
          room = w.room;
        }) in
      rw (slab_allocate-move object_type i s init t h size) (
        refl,
        rw (free-move_to_allocated i node s) moved.0,
        rw (allocated-move_to_allocated i node s) moved.1,
      )
