-- ===== src/Tests/Slab.antt =====
-- Objects of 100 bytes behind nodes of 48, a block at 1000: the nodes 1000 and 1148 are free, and
-- 2000 and 2148 are allocated.
use obos_old.Prelude.{ℕ, ◌≡◌, refl, true, [], ◌∷◌, arith, ◌==◌, if◌then◌else◌}
use obos_old.Outcome.{done}
use obos_old.Links.{Links}
use obos_old.Links.Chain.{IsChain}
use obos_old.Slab.{Slab, free_list, allocated_list, slab_allocate, slab_free}
use obos_old.Slab.Allocating.{slab_allocate-IsChain}
use obos_old.Slab.Freeing.{slab_free-IsChain}

abbrev links : Links
links = λ p.
    if p == 1000
    then record { next = 1148; prev = 0 }
    else if p == 1148
    then record { next = 0; prev = 1000 }
    else if p == 2000
    then record { next = 2148; prev = 0 }
    else if p == 2148
    then record { next = 0; prev = 2000 }
    else record { next = 0; prev = 0 }

abbrev slab : Slab
slab = record {
  links = links;
  lists = λ i. record {
    free = record { head = 1000; tail = 1148; size = 2 };
    allocated = record { head = 2000; tail = 2148; size = 2 };
  };
  initialized = true;
}

free_nodes : IsChain (free_list slab 0) (1000 ∷ 1148 ∷ [])
free_nodes = record { nodes = ground arith; count = refl; fits = omega arith }

allocated_nodes : IsChain (allocated_list slab 0) (2000 ∷ 2148 ∷ [])
allocated_nodes = record { nodes = ground arith; count = refl; fits = omega arith }

abbrev size : ℕ → ℕ
size i = 100

slab_allocate-IsChain_example :
    ((slab_allocate size 48 size 0 0 1 1 slab).0 ≡ 1196)
    × IsChain (free_list (slab_allocate size 48 size 0 0 1 1 slab).1 0) (1000 ∷ [])
    × IsChain
        (allocated_list (slab_allocate size 48 size 0 0 1 1 slab).1 0)
        (2000 ∷ 2148 ∷ 1148 ∷ [])
slab_allocate-IsChain_example =
    slab_allocate-IsChain size 48 size 0 0 1 0 slab (1000 ∷ 1148 ∷ []) (2000 ∷ 2148 ∷ []) refl refl
      (omega arith)
      (record {
        free = free_nodes;
        allocated = allocated_nodes;
        apart = λ a i. ground arith;
        room = omega arith;
      })

slab_free-IsChain_example :
    (s' : Slab) × (slab_free size 48 5 1 2196 1 slab ≡ done s')
    × IsChain (free_list s' 0) (1000 ∷ 1148 ∷ 2148 ∷ [])
    × IsChain (allocated_list s' 0) (2000 ∷ [])
slab_free-IsChain_example =
    slab_free-IsChain size 48 5 slab 0 1 refl 2148 (1000 ∷ 1148 ∷ []) (2000 ∷ 2148 ∷ []) refl
      (omega arith)
      (record {
        source = allocated_nodes;
        target = free_nodes;
        member = refl;
        final = refl;
        apart = λ a i. ground arith;
        room = omega arith;
      })
      (omega arith)
