-- ===== src/Vector/Laws.antt =====
-- Vectors and the lists that they hold.
use obos_old.Prelude.{
  ℕ, zero, suc, ◌+◌, ◌-◌, ◌≤◌, ◌<◌, ◌≡◌, refl, List, [], ◌∷◌, ◌++◌, some, arith, ◌==◌,
  if◌then◌else◌, length, length-append, get_elem?, u64, inl, inr, eq_cases,
}
use obos_old.Outcome.{done, fault}
use obos_old.Vector.{
  block, no_block, Vector, in_block, is_null, reallocated, store, push_back_value, pop_back,
  element_at, read_at,
}

module _ {A : Type 0} where
  -- The vector holds the list, in a block of its capacity.
  pub record Holds (v : Vector A) (xs : List A) : Type 0 where
    pub count : v.size ≡ length xs
    pub room : v.size ≤ v.capacity
    pub own : v.ptr ≡ (if v.capacity == 0 then no_block else block v.capacity)
    pub same : (i : ℕ) → i < length xs → get_elem? xs i ≡ some (v.elements i)

  get-append :
      (xs : List A) (x : A) (i : ℕ) → i < length xs → get_elem? (xs ++ x ∷ []) i ≡ get_elem? xs i
  get-append [] x i l = absurd (omega arith)
  get-append (y ∷ xs) x zero l = refl
  get-append (y ∷ xs) x (suc i) l = get-append xs x i (omega arith)

  get-last : (xs : List A) (x : A) → get_elem? (xs ++ x ∷ []) (length xs) ≡ some x
  get-last [] x = refl
  get-last (y ∷ xs) x = get-last xs x

  -- push_back of a value to a vector that holds a list returns, and the vector holds the list with
  -- the value at its end, whether the block was large enough or not.
  pub push_back_value-Holds :
      (v : Vector A) (xs : List A) (x : A)
      → Holds v xs
      → v.capacity + 4 < u64
      → (v' : Vector A) × (push_back_value x v ≡ done v') × Holds v' (xs ++ x ∷ [])
  unfolding push_back_value store reallocated in_block is_null
  push_back_value-Holds v xs x h f =
      let c = if v.capacity == v.size then v.capacity + 4 else v.capacity in
      let longer = length-append xs (x ∷ []) in
      (
        record {
          ptr = block c;
          size = v.size + 1;
          capacity = c;
          elements = λ j. if j == v.size then x else v.elements j;
        },
        ground (arith, h.own, h.room),
        record {
          count = omega (arith, longer, h.count);
          room = ground (arith, h.room);
          own = ground (arith, h.room);
          same = λ i l. elim (eq_cases i (length xs)) [
            | inl e ↦ ground (arith, get-last xs x, h.count)
            | inr d ↦ ground (arith, get-append xs x i, h.same i, h.count, longer)
          ];
        },
      )

  -- A read of a vector that holds a list gives the list's element, and is one through the null
  -- reference when the list has none at the index.
  pub read_at-Holds :
      (v : Vector A) (xs : List A) (i : ℕ)
      → Holds v xs
      → (i < length xs → (x : A) × (get_elem? xs i ≡ some x) × (read_at i v ≡ done x))
        × (length xs ≤ i → read_at i v ≡ fault)
  unfolding read_at element_at in_block
  read_at-Holds v xs i h = (
    (λ l. (v.elements i, h.same i l, ground (arith, h.own, h.room, h.count))),
    λ l. ground (arith, h.count),
  )

  -- pop_back of a full vector of eight elements or more cuts its block down by four elements, so that
  -- a read of the new last element is outside of the block.
  pub pop_back-lost :
      (v : Vector A) (xs : List A)
      → Holds v xs
      → v.size ≡ v.capacity
      → 8 ≤ v.capacity
      → v.capacity < u64
      → (v' : Vector A) × (pop_back v ≡ done v')
        × (v'.size + 1 ≡ length xs)
        × (read_at (v'.size - 1) v' ≡ fault)
  unfolding pop_back read_at element_at in_block reallocated
  pop_back-lost v xs h e l u = (
    record v { ptr = block (v.capacity - 4); size = v.size - 1; capacity = v.capacity - 4 },
    ground (arith, h.own),
    ground (arith, h.count),
    ground arith,
  )
