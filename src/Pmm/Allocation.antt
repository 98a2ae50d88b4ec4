-- ===== src/Pmm/Allocation.antt =====
-- What allocatePhysicalPage returns.
use obos_old.Prelude.{
  ℕ, zero, suc, ◌+◌, ◌-◌, ◌*◌, ◌<◌, ◌≡◌, refl, ◌≢◌, true, false, List, [], ◌∷◌, u64, arith, length,
}
use obos_old.Outcome.{done, hang}
use obos_old.Links.Chain.{Seg, IsChain}
use obos_old.Pmm.{Pmm, find_pages, take_pages, allocate_physical_page, free_physical_page}

-- The manager is free and has nodes.
pub record Ready (s : Pmm) (xs : List ℕ) : Type 0 where
  pub unlocked : s.locked ≡ false
  pub nodes : IsChain s.list xs
  pub some_node : s.list.header.head ≢ 0

-- No node of the list has `n` pages.
abbrev pub NoneHas : Pmm → ℕ → List ℕ → Type 0
NoneHas s n [] = Unit
NoneHas s n (x ∷ xs) = (s.n_pages x < n) × NoneHas s n xs

find_pages-none :
    (fuel : ℕ) (s : Pmm) (n prev p last : ℕ) (x : ℕ) (xs : List ℕ)
    → Seg s.list.links prev p last (x ∷ xs)
    → NoneHas s n (x ∷ xs)
    → length xs < fuel
    → find_pages fuel s n p ≡ done 0
unfolding find_pages
find_pages-none zero s n prev p last x xs g f l = absurd (omega arith)
find_pages-none (suc fuel) s n prev p last x [] g f l = ground arith
find_pages-none (suc fuel) s n prev p last x (y ∷ ys) g f l =
    ground (arith, find_pages-none fuel s n x (s.list.links x).next last y ys g.4 f.1 (omega arith))

-- When no node has enough pages, the call returns 0, with the lock taken and interrupts off, so
-- that no later call of the manager returns.
pub allocate_physical_page-hang :
    (fuel fuel2 n m p k x : ℕ) (s : Pmm) (xs : List ℕ)
    → Ready s (x ∷ xs)
    → NoneHas s n (x ∷ xs)
    → length xs < fuel
    → (s' : Pmm) × (allocate_physical_page fuel n s ≡ done (0, s'))
      × (s'.interrupts ≡ false)
      × (allocate_physical_page fuel2 m s' ≡ hang)
      × (free_physical_page p k s' ≡ hang)
unfolding allocate_physical_page free_physical_page
allocate_physical_page-hang fuel fuel2 n m p k x s xs r f l =
    let none =
      find_pages-none fuel s n 0 s.list.header.head s.list.header.tail x xs r.nodes.nodes f l in
    (
      record s { locked = true; interrupts = false },
      ground (arith, none, r.unlocked, r.some_node, r.nodes.count),
      refl,
      ground arith,
      ground arith,
    )

find_pages-first :
    (s : Pmm) (n x fuel : ℕ) → 0 < fuel → n < s.n_pages x → find_pages fuel s n x ≡ done x
unfolding find_pages
find_pages-first s n x zero f l = absurd (omega arith)
find_pages-first s n x (suc fuel) f l = ground arith

find_pages-second :
    (s : Pmm) (n x y fuel : ℕ)
    → 1 < fuel
    → s.n_pages x < n
    → n < s.n_pages y
    → (s.list.links x).next ≡ y
    → y ≢ 0
    → find_pages fuel s n x ≡ done y
unfolding find_pages
find_pages-second s n x y zero f l m e nz = absurd (omega arith)
find_pages-second s n x y (suc fuel) f l m e nz =
    ground (arith, find_pages-first s n y fuel (omega arith) m)

take_pages-kept :
    (s : Pmm) (n p : ℕ)
    → n < s.n_pages p
    → ((take_pages n s p).1.n_pages p ≡ s.n_pages p - n)
      × ((take_pages n s p).1.list ≡ s.list)
      × ((take_pages n s p).1.locked ≡ s.locked)
unfolding take_pages
take_pages-kept s n p l = (ground arith, ground arith, ground arith)

take_pages-address :
    (s : Pmm) (n p x : ℕ)
    → s.list.header.head ≡ x
    → n < s.n_pages p
    → x + s.n_pages p * 4096 < u64
    → (take_pages n s p).0 ≡ x + (s.n_pages p - n) * 4096
unfolding take_pages
take_pages-address s n p x h l u = ground arith

take_pages-other :
    (s : Pmm) (n p q : ℕ) → n < s.n_pages p → q ≢ p → (take_pages n s p).1.n_pages q ≡ s.n_pages q
unfolding take_pages
take_pages-other s n p q l d = ground arith

module _ (fuel n x : ℕ) (s : Pmm) (xs : List ℕ) where
  -- When the first node has more pages than are asked for, the call returns the last of them: they
  -- begin where the node's remaining pages end, and end where the node's pages ended. The list stays
  -- the same.
  pub allocate_physical_page-first :
      Ready s (x ∷ xs)
      → 0 < fuel
      → n < s.n_pages x
      → x + s.n_pages x * 4096 < u64
      → (a : ℕ) × (s' : Pmm) × (allocate_physical_page fuel n s ≡ done (a, s'))
        × (a ≡ x + s'.n_pages x * 4096)
        × (a + n * 4096 ≡ x + s.n_pages x * 4096)
        × (s'.list ≡ s.list)
        × (s'.locked ≡ false)
  unfolding allocate_physical_page
  allocate_physical_page-first r f l u =
      let found = find_pages-first s n x fuel f l in
      let kept = take_pages-kept s n x l in
      (
        x + (s.n_pages x - n) * 4096,
        (take_pages n s x).1,
        ground (
          arith,
          found,
          r.unlocked,
          r.some_node,
          r.nodes.count,
          take_pages-address s n x x r.nodes.nodes.0 l u,
        ),
        ground (arith, kept.0),
        omega (arith, l),
        kept.1,
        ground (arith, kept.2, r.unlocked),
      )

  -- When the first node is too small and the second has more pages than are asked for, the call
  -- returns an address that is computed from the first node, although the pages are taken from the
  -- second.
  pub allocate_physical_page-later :
      (y : ℕ) (ys : List ℕ)
      → xs ≡ y ∷ ys
      → Ready s (x ∷ xs)
      → 1 < fuel
      → s.n_pages x < n
      → n < s.n_pages y
      → x + s.n_pages y * 4096 < u64
      → (s' : Pmm) × (allocate_physical_page fuel n s ≡ done (x + (s.n_pages y - n) * 4096, s'))
        × (s'.n_pages y ≡ s.n_pages y - n)
        × (s'.n_pages x ≡ s.n_pages x)
  unfolding allocate_physical_page
  allocate_physical_page-later y ys e r f l m u =
      let found : find_pages fuel s n x ≡ done y =
        find_pages-second s n x y fuel f l m (ground (arith, r.nodes.nodes, e))
          (ground (arith, r.nodes.nodes, e)) in
      let kept = take_pages-kept s n y m in
      (
        (take_pages n s y).1,
        ground (
          arith,
          found,
          r.unlocked,
          r.some_node,
          r.nodes.count,
          take_pages-address s n y x r.nodes.nodes.0 m u,
        ),
        kept.0,
        take_pages-other s n y x m (ground (arith, l, m)),
      )
