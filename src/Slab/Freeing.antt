-- ===== src/Slab/Freeing.antt =====
-- Giving an object back.
use obos_old.Prelude.{
  ℕ, zero, suc, ◌+◌, ◌<◌, ◌≡◌, refl, ◌≢◌, true, List, [], ◌∷◌, ◌++◌, some, erase, length, u64,
  arith, subst,
}
use obos_old.Outcome.{done}
use obos_old.Links.{Links, Header, attach, unlink}
use obos_old.Links.Chain.{Seg, IsChain, IsChain-end}
use obos_old.Links.Transfer.{CanTransfer, given, after_source, transfer-IsChain}
use obos_old.Slab.{
  Slab, free_list, allocated_list, type_index, has_node, slab_has_object, all_have, freed_node,
  move_to_free, slab_free,
}

-- On a well-formed list, with fuel for each of its nodes and the end, the search of HasNode returns,
-- and what it returns is true.
has_node-true :
    (fuel : ℕ) (h : Links) (object prev p last : ℕ) (xs : List ℕ)
    → Seg h prev p last xs
    → length xs < fuel
    → has_node fuel h object p ≡ done true
unfolding has_node
has_node-true zero h object prev p last xs s l = absurd (omega arith)
has_node-true (suc fuel) h object prev p last [] s l = ground arith
has_node-true (suc fuel) h object prev p last (x ∷ xs) s l =
    ground (arith, has_node-true fuel h object x (h x).next last xs s.4 (omega arith))

given-tail : (n : ℕ) (h : Links) (from to : Header) → (given n h from to).header.tail ≡ n
unfolding attach
given-tail n h from to = refl

given-next :
    (n : ℕ) (h : Links) (from to : Header)
    → (h n).prev ≢ n
    → to.tail ≢ n
    → ((given n h from to).links n).next ≡ (h n).next
unfolding attach unlink
given-next n h from to p t = ground arith

module _ (object_size : ℕ → ℕ) (node_size : ℕ) (fuel : ℕ) (s : Slab) (i object_type : ℕ)
    (t : type_index object_type ≡ some i) where
  -- SlabHasObject answers true for every address, when the type is one of the nine and its
  -- allocated nodes form a well-formed list, with fuel for each of them and the end.
  pub slab_has_object-true :
      (object : ℕ) (zs : List ℕ)
      → IsChain (allocated_list s i) zs
      → length zs < fuel
      → slab_has_object object_size node_size fuel object_type object s ≡ done true
  unfolding slab_has_object
  slab_has_object-true object zs c l = ground (
    arith,
    t,
    has_node-true fuel s.links object 0 (s.lists i).allocated.head (s.lists i).allocated.tail zs
        c.nodes l,
  )

  freed_node-first :
      (node : ℕ)
      → node + node_size < u64
      → freed_node object_size node_size i (node + node_size) 0 ≡ node
  freed_node-first node room = ground arith

  free-move_to_free :
      (node : ℕ)
      → node + node_size < u64
      → free_list (move_to_free object_size node_size i (node + node_size) 1 0 s) i
        ≡ given node s.links (s.lists i).allocated (s.lists i).free
  unfolding move_to_free
  free-move_to_free node room = ground (arith, freed_node-first node room)

  allocated-move_to_free :
      (node : ℕ)
      → node + node_size < u64
      → allocated_list (move_to_free object_size node_size i (node + node_size) 1 0 s) i
        ≡ after_source node s.links (s.lists i).allocated (s.lists i).free
  unfolding move_to_free
  allocated-move_to_free node room = ground (arith, freed_node-first node room)

  slab_free-move :
      (node : ℕ) (zs : List ℕ)
      → s.initialized ≡ true
      → IsChain (allocated_list s i) zs
      → length zs < fuel
      → slab_free object_size node_size fuel object_type (node + node_size) 1 s
        ≡ done (move_to_free object_size node_size i (node + node_size) 1 0 s)
  unfolding slab_free all_have
  slab_free-move node zs init c l = ground (
    arith,
    t,
    has_node-true fuel s.links (freed_node object_size node_size i (node + node_size) 0) 0
        (s.lists i).allocated.head (s.lists i).allocated.tail zs c.nodes l,
  )

  -- Freeing one object whose node is the last of the allocated ones succeeds on an initialized
  -- allocator: the node becomes the last of the free ones, and both lists are well-formed.
  pub slab_free-IsChain :
      (node : ℕ) (xs zs : List ℕ)
      → s.initialized ≡ true
      → node + node_size < u64
      → CanTransfer node s.links (s.lists i).allocated (s.lists i).free zs xs
      → length zs < fuel
      → (s' : Slab) × (slab_free object_size node_size fuel object_type (node + node_size) 1 s
          ≡ done s')
        × IsChain (free_list s' i) (xs ++ node ∷ [])
        × IsChain (allocated_list s' i) (erase node zs)
  slab_free-IsChain node xs zs init room c l =
      let moved = transfer-IsChain node s.links (s.lists i).allocated (s.lists i).free zs xs c in
      (
        move_to_free object_size node_size i (node + node_size) 1 0 s,
        slab_free-move node zs init c.source l,
        rw (free-move_to_free node room) moved.1,
        rw (allocated-move_to_free node room) moved.0,
      )

  -- Freeing one object whose node has a successor among the allocated ones succeeds as well, but
  -- the list of the free nodes is not well-formed then, whatever nodes it is taken to hold: its
  -- last node still leads to an allocated one.
  pub slab_free-broken :
      (node : ℕ) (zs ws : List ℕ)
      → s.initialized ≡ true
      → node + node_size < u64
      → IsChain (allocated_list s i) zs
      → length zs < fuel
      → node ≢ 0
      → (s.links node).next ≢ 0
      → (s.links node).prev ≢ node
      → (s.lists i).free.tail ≢ node
      → (s' : Slab) × (slab_free object_size node_size fuel object_type (node + node_size) 1 s
          ≡ done s')
        × (IsChain (free_list s' i) ws → ⊥)
  slab_free-broken node zs ws init room c l nz n ps ft = (
    move_to_free object_size node_size i (node + node_size) 1 0 s,
    slab_free-move node zs init c l,
    λ k.
        let k' : IsChain (given node s.links (s.lists i).allocated (s.lists i).free) ws =
          subst (λ q. IsChain q ws) (free-move_to_free node room) k in
        ground (
          arith,
          given-tail node s.links (s.lists i).allocated (s.lists i).free,
          given-next node s.links (s.lists i).allocated (s.lists i).free ps ft,
          IsChain-end (given node s.links (s.lists i).allocated (s.lists i).free) ws
              (ground (arith, given-tail node s.links (s.lists i).allocated (s.lists i).free)) k',
        ),
  )
