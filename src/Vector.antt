-- ===== src/Vector.antt =====
-- utils::Vector: src/oboskrnl/utils/vector.h. The block behind m_ptr is its number of elements, or it
-- has been freed; an access outside of it is a fault, as is one through the null reference that `at`
-- gives for an index that is too large. What a new block holds does not matter to these functions.
pub mod Laws
use obos_old.Prelude.{
  ℕ, zero, suc, ◌+◌, ◌-◌, ◌%◌, Bool, true, false, not, ◌&&◌, ◌||◌, Option, none, some, ◌==◌, leb,
  ltb, if◌then◌else◌, add64, sub64,
}
use obos_old.Outcome.{Outcome, done, fault, ◌>>=◌}

pub data Block : Type 0 where
  no_block : Block
  block : ℕ → Block
  freed : Block

pub record Vector (A : Type 0) : Type 0 where
  pub ptr : Block
  pub size : ℕ
  pub capacity : ℕ
  pub elements : ℕ → A

-- Can the element be accessed?
unfoldable pub in_block : Block → ℕ → Bool
in_block no_block i = false
in_block (block n) i = ltb i n
in_block freed i = false

unfoldable pub is_null : Block → Bool
is_null no_block = true
is_null (block n) = false
is_null freed = false

-- `krealloc` of m_ptr, which must not have been freed. It is taken to succeed, and the number of
-- elements times their size not to overflow.
unfoldable pub reallocated : Block → ℕ → Outcome Block
reallocated no_block n = done (block n)
reallocated (block m) n = done (block n)
reallocated freed n = fault

-- `delete m_ptr`
unfoldable pub deleted : Block → Outcome Block
deleted no_block = done no_block
deleted (block n) = done freed
deleted freed = fault

module _ {A : Type 0} where
  abbrev pub empty_vector : (ℕ → A) → Vector A
  empty_vector memory = record { ptr = no_block; size = 0; capacity = 0; elements = memory }

  -- `m_ptr[i] = val`
  unfoldable pub store : ℕ → A → Vector A → Outcome (Vector A)
  store i val v =
      if in_block v.ptr i
      then done (record v { elements = λ j. if j == i then val else v.elements j })
      else fault

  -- push_back(val)
  unfoldable pub push_back_value : A → Vector A → Outcome (Vector A)
  push_back_value val v =
      let larger = add64 v.capacity 4 in
      let more = reallocated v.ptr larger >>= λ p. done (record v { ptr = p; capacity = larger }) in
      let grown = if ltb v.capacity (add64 v.size 1) || is_null v.ptr then more else done v in
      grown >>= λ w. store w.size val w >>= λ u. done (record u { size = add64 w.size 1 })

  -- push_back(), whose reference is the element at the old size.
  unfoldable pub push_back_slot : Vector A → Outcome (Vector A)
  push_back_slot v =
      let larger = add64 v.capacity 4 in
      let new_block = if is_null v.ptr then done (block larger) else reallocated v.ptr larger in
      let more = new_block >>= λ p. done (record v { ptr = p; capacity = larger }) in
      let grown = if leb v.capacity (add64 v.size 1) then more else done v in
      grown >>= λ w. done (record w { size = add64 w.size 1 })

  unfoldable pub pop_back : Vector A → Outcome (Vector A)
  pop_back v =
      let smaller = sub64 v.capacity 4 in
      let popped = record v { size = v.size - 1 } in
      if v.size == 0
      then done v
      else if not (ltb (v.size - 1) v.capacity)
      then done popped
      else if smaller == 0
      then done (record popped { capacity = 0 })
      else reallocated v.ptr smaller >>= λ p. done (record popped { ptr = p; capacity = smaller })

  -- at: none is the null reference.
  unfoldable pub element_at : ℕ → Vector A → Option ℕ
  element_at i v = if leb v.size i then none else some i

  -- A read through the reference that `at` gives.
  unfoldable pub read_at : ℕ → Vector A → Outcome A
  read_at i v = elim (element_at i v) [
    | none ↦ fault
    | some j ↦ if in_block v.ptr j then done (v.elements j) else fault
  ]

  unfoldable pub clear : Vector A → Outcome (Vector A)
  clear v = deleted v.ptr >>= λ p. done (record v { ptr = no_block; size = 0; capacity = 0 })

  unfoldable pub resize : ℕ → Vector A → Outcome (Vector A)
  resize new_size v =
      let larger = add64 new_size (new_size - new_size % 4) in
      if ltb new_size v.capacity
      then done (record v { size = new_size })
      else reallocated v.ptr larger >>= λ p.
          done (record v { ptr = p; size = new_size; capacity = larger })

  -- operator=(const Vector&), and the copy constructor of a vector that is `v` before: a vector
  -- without capacity is not copied.
  unfoldable pub copy : Vector A → Vector A → Vector A
  copy other v = if other.capacity == 0 then v else record {
    ptr = block other.capacity;
    size = other.size;
    capacity = other.capacity;
    elements = other.elements;
  }

  -- operator=(Vector&&): the target and the source, whose block is not the one that is deleted.
  unfoldable pub move_from : Vector A → Vector A → Vector A × Vector A
  move_from other v =
      let copied = copy other v in
      if other.capacity == 0 then (v, other) else (
        if is_null other.ptr then copied else record copied { ptr = freed },
        record other { ptr = no_block; size = 0; capacity = 0 },
      )
