-- ===== src/Tests/Links.antt =====
-- A list of the nodes 1 and 2, and what happens to it.
use obos_old.Prelude.{◌≡◌, refl, [], ◌∷◌, arith, ◌==◌, if◌then◌else◌}
use obos_old.Links.{ListState, unlink}
use obos_old.Links.Chain.{IsChain}
use obos_old.Links.Remove.{unlink-IsChain}

abbrev two_nodes : ListState
two_nodes = record {
  links = λ p.
      if p == 1
      then record { next = 2; prev = 0 }
      else if p == 2
      then record { next = 0; prev = 1 }
      else record { next = 7; prev = 7 };
  header = record { head = 1; tail = 2; size = 2 };
}

two_nodes-IsChain : IsChain two_nodes (1 ∷ 2 ∷ [])
two_nodes-IsChain = record { nodes = ground arith; count = refl; fits = omega arith }

unlink-IsChain_example : IsChain (unlink 1 two_nodes) (2 ∷ [])
unlink-IsChain_example = unlink-IsChain 1 two_nodes (1 ∷ 2 ∷ []) refl two_nodes-IsChain

unlink_moves_head : (unlink 1 two_nodes).header.head ≡ 2
unfolding unlink
unlink_moves_head = refl
