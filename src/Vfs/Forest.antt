-- ===== src/Vfs/Forest.antt =====
-- SearchForNode visits the whole forest below a node: it returns a node that the comparison
-- accepts, and null only if there is none.
use obos_old.Prelude.{
  ℕ, zero, suc, ◌+◌, ◌*◌, ◌≤◌, ◌<◌, ◌≡◌, refl, ◌≢◌, ◌⊎◌, inl, inr, Bool, true, false, ◌||◌, arith,
  ◌==◌, Bool-cases,
}
use obos_old.Outcome.{Outcome, done}
use obos_old.Vfs.{search_siblings, search_for_node, search_below}

-- A row of siblings, each with the row of its children.
pub data Forest : Type 0 where
  nil : Forest
  node : ℕ → Forest → Forest → Forest

abbrev pub size : Forest → ℕ
size nil = 0
size (node q c r) = 1 + size c + size r

-- The pointers `next` and `children` from `p` on form the forest.
abbrev pub Represents : (next children : ℕ → ℕ) → ℕ → Forest → Type 0
Represents next children p nil = p ≡ 0
Represents next children p (node q c r) =
    (p ≡ q)
    × (q ≢ 0)
    × Represents next children (children q) c
    × Represents next children (next q) r

abbrev pub AllNodes {κ} : (ℕ → Type κ) → Forest → Type κ
AllNodes P nil = Unit
AllNodes P (node q c r) = P q × AllNodes P c × AllNodes P r

abbrev pub AllRoots {κ} : (ℕ → Type κ) → Forest → Type κ
AllRoots P nil = Unit
AllRoots P (node q c r) = P q × AllRoots P r

abbrev pub has_node : ℕ → Forest → Bool
has_node p nil = false
has_node p (node q c r) = (p == q) || (has_node p c || has_node p r)

-- The outcome of a search with the test `t`.
abbrev pub Found : (ℕ → Bool) → Forest → ℕ → Type 0
Found t f r =
    ((r ≡ 0) × AllNodes (λ q. t q ≡ false) f) ⊎ ((r ≢ 0) × (has_node r f ≡ true) × (t r ≡ true))

-- The same for the roots alone.
abbrev RootFound : (ℕ → Bool) → Forest → ℕ → Type 0
RootFound t f r =
    ((r ≡ 0) × AllRoots (λ q. t q ≡ false) f) ⊎ ((r ≢ 0) × (has_node r f ≡ true) × (t r ≡ true))

-- What is left once the roots are known to fail.
abbrev BelowFound : (ℕ → Bool) → Forest → ℕ → Type 0
BelowFound t f r = AllRoots (λ q. t q ≡ false) f → Found t f r

module _ (compare : ℕ → Outcome Bool) (next children : ℕ → ℕ) (t : ℕ → Bool) where
  root_step :
      (q : ℕ) (c f : Forest) (r : ℕ) → t q ≡ false → RootFound t f r → RootFound t (node q c f) r
  root_step q c f r miss (inl (z, fails)) = inl (z, (miss, fails))
  root_step q c f r miss (inr (nz, m, h)) = inr (nz, ground arith, h)

  siblings_lem :
      (f : Forest) (p fuel : ℕ)
      → Represents next children p f
      → AllNodes (λ q. compare q ≡ done (t q)) f
      → size f < fuel
      → (r : ℕ) × (search_siblings compare next fuel p ≡ done r) × RootFound t f r
  unfolding search_siblings
  siblings_lem f p zero rep agree enough = absurd (omega arith)
  siblings_lem nil p (suc fuel) rep agree enough = (0, ground arith, inl (refl, tt))
  siblings_lem (node q c f) p (suc fuel) rep agree enough = elim (Bool-cases (t q)) [
    | inl hit ↦ (q, ground (arith, agree.0), inr (rep.1, ground arith, hit))
    | inr miss ↦
        let (r, e, found) = siblings_lem f (next q) fuel rep.3 agree.2 (omega arith) in
        (r, ground (arith, agree.0), root_step q c f r miss found)
  ]

  -- The roots, and then what lies below them.
  join_search :
      (f : Forest) (p fuel : ℕ)
      → p ≢ 0
      → (r : ℕ) × (search_siblings compare next (suc fuel) p ≡ done r) × RootFound t f r
      → (r : ℕ) × (search_below compare next children fuel p ≡ done r) × BelowFound t f r
      → (r : ℕ) × (search_for_node compare next children (suc fuel) p ≡ done r) × Found t f r
  unfolding search_for_node
  join_search f p fuel nz (r, e, inl (z, fails)) (s, e', below) = (s, ground arith, below fails)
  join_search f p fuel nz (r, e, inr (rz, m, h)) (s, e', below) = (r, ground arith, inr (rz, m, h))

  below_step :
      (q : ℕ) (c f : Forest) (r s : ℕ)
      → (r ≡ 0)
      → AllNodes (λ a. t a ≡ false) c
      → BelowFound t f s
      → BelowFound t (node q c f) s
  below_step q c f r s z fails below roots = elim (below roots.1) [
    | inl (sz, none_below) ↦ inl (sz, (roots.0, fails, none_below))
    | inr (nz, m, h) ↦ inr (nz, ground arith, h)
  ]

  join_below :
      (q : ℕ) (c f : Forest) (p fuel : ℕ)
      → p ≡ q
      → q ≢ 0
      → (r : ℕ) × (search_for_node compare next children fuel (children q) ≡ done r) × Found t c r
      → (r : ℕ) × (search_below compare next children fuel (next q) ≡ done r) × BelowFound t f r
      → (r : ℕ) × (search_below compare next children (suc fuel) p ≡ done r)
        × BelowFound t (node q c f) r
  unfolding search_below
  join_below q c f p fuel pq nz (r, e, inl (z, fails)) (s, e', below) =
      (s, ground arith, below_step q c f r s z fails below)
  join_below q c f p fuel pq nz (r, e, inr (rz, m, h)) (s, e', below) =
      (r, ground arith, λ roots. inr (rz, ground arith, h))

  mutual
    unfolding search_for_node search_below

    search_lem :
        (f : Forest) (p fuel : ℕ)
        → Represents next children p f
        → AllNodes (λ q. compare q ≡ done (t q)) f
        → 2 * size f + 2 ≤ fuel
        → (r : ℕ) × (search_for_node compare next children fuel p ≡ done r) × Found t f r
    search_lem f p zero rep agree enough = absurd (omega arith)
    search_lem nil p (suc fuel) rep agree enough = (0, ground arith, inl (refl, tt))
    search_lem (node q c f) p (suc fuel) rep agree enough =
        join_search (node q c f) p fuel (ground arith)
          (siblings_lem (node q c f) p (suc fuel) rep agree (omega arith))
          (below_lem (node q c f) p fuel rep agree (omega arith))

    below_lem :
        (f : Forest) (p fuel : ℕ)
        → Represents next children p f
        → AllNodes (λ q. compare q ≡ done (t q)) f
        → 2 * size f + 1 ≤ fuel
        → (r : ℕ) × (search_below compare next children fuel p ≡ done r) × BelowFound t f r
    below_lem f p zero rep agree enough = absurd (omega arith)
    below_lem nil p (suc fuel) rep agree enough = (0, ground arith, λ roots. inl (refl, tt))
    below_lem (node q c f) p (suc fuel) rep agree enough =
        join_below q c f p fuel rep.0 rep.1
          (search_lem c (children q) fuel rep.2 agree.1 (omega arith))
          (below_lem f (next q) fuel rep.3 agree.2 (omega arith))

  -- With fuel for two steps at each node, the search over a forest returns: a node of the forest
  -- that passes the test, or null, and then no node of the forest passes it.
  pub search_for_node-Found :
      (f : Forest) (root fuel : ℕ)
      → Represents next children root f
      → AllNodes (λ q. compare q ≡ done (t q)) f
      → 2 * size f + 2 ≤ fuel
      → (r : ℕ) × (search_for_node compare next children fuel root ≡ done r) × Found t f r
  search_for_node-Found f root fuel rep agree enough = search_lem f root fuel rep agree enough
