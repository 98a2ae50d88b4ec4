-- ===== src/Hashmap.antt =====
-- utils::Hashmap: src/oboskrnl/utils/hashmap.h. The table of nodes maps an index to the key and value
-- of a used node; a bucket is the list of the table indexes of its chains, from `firstChain` on, and
-- `order` is the list of nodes that iterators follow. Chains and list nodes are linked in at the end
-- and taken out as in Links. What fresh memory holds behind an enlarged table is a parameter.
pub mod Finding
pub mod Refinement
pub mod Placing
pub mod Removing
use Prim.Native.Nat.{bit_and, bit_xor}
use obos_old.Prelude.{
  ℕ, zero, suc, ◌+◌, ◌-◌, ◌*◌, ◌/◌, ◌%◌, Bool, true, false, List, [], ◌∷◌, ◌++◌, Option, none, some,
  ◌==◌, ltb, if◌then◌else◌, erase, u64, add64, mul64,
}
use obos_old.Outcome.{Outcome, done, fault, ◌>>=◌}

pub record Hashmap (V : Type 0) : Type 0 where
  pub capacity : ℕ
  pub slots : ℕ → Option (ℕ × V)
  pub chains : ℕ → List ℕ
  pub order : List ℕ

-- What the allocator's memory holds before it is written.
pub record Memory (V : Type 0) : Type 0 where
  pub slots : ℕ → Option (ℕ × V)
  pub chains : ℕ → List ℕ

-- One byte of defaultHasher.
unfoldable pub hash_byte : ℕ → ℕ → ℕ
hash_byte h byte =
    let h1 = add64 (mul64 h 16) byte in
    let g = bit_and h1 0xf000_0000 in
    let h2 = if g == 0 then h1 else bit_xor h1 (g / 0x0100_0000) in bit_and h2 (u64 - 1 - g)

-- The loop of defaultHasher over the bytes of a key, the lowest first.
unfoldable pub hash_bytes : ℕ → ℕ → ℕ → ℕ
hash_bytes zero key h = h
hash_bytes (suc n) key h = hash_bytes n (key / 256) (hash_byte h (key % 256))

-- defaultHasher of a 64-bit key.
unfoldable pub default_hasher : ℕ → ℕ
unfolding hash_bytes hash_byte
default_hasher key = hash_bytes 8 key 0

module _ {V : Type 0} where
  abbrev pub empty_map : Hashmap V
  empty_map = record { capacity = 64; slots = λ i. none; chains = λ b. []; order = [] }

  -- The first of a bucket's nodes that has the key. A node that is not used has no key to read.
  unfoldable pub find_chain : (ℕ → Option (ℕ × V)) → ℕ → List ℕ → Outcome (Option ℕ)
  find_chain slots key [] = done none
  find_chain slots key (i ∷ is) =
      let rest = find_chain slots key is in
      elim (slots i) [ none ↦ fault | some kv ↦ if kv.0 == key then done (some i) else rest ]

  -- The first index that is not used, of `n` from `i` on.
  unfoldable pub first_free : (ℕ → Option (ℕ × V)) → (n i : ℕ) → Option ℕ
  first_free slots zero i = none
  first_free slots (suc n) i =
      let rest = first_free slots n (suc i) in elim (slots i) [ none ↦ some i | some kv ↦ rest ]

  -- expand, where the capacity has already been set to the new one: nothing is hashed again.
  unfoldable pub expand : Memory V → ℕ → Hashmap V → Hashmap V
  expand junk capacity m = record m {
    capacity = capacity;
    slots = λ i. if ltb i m.capacity then m.slots i else junk.slots i;
    chains = λ b. if ltb b m.capacity then m.chains b else junk.chains b;
  }

  -- The index for a new node, and the map with room for it.
  unfoldable pub reserve : Memory V → Hashmap V → ℕ × Hashmap V
  reserve junk m =
      let index : ℕ = elim (first_free m.slots m.capacity 0) [ none ↦ 0 | some i ↦ i ] in
      let m1 = if m.capacity == 0 then expand junk 64 m else m in
      elim (m1.slots index) [
        | none ↦ (index, m1)
        | some kv ↦ (suc index, expand junk (mul64 m1.capacity 2) m1)
      ]

  -- A node leaves its chain, the list and the table.
  unfoldable pub take_node : ℕ → ℕ → Hashmap V → Hashmap V
  take_node bucket index m = record m {
    slots = λ i. if i == index then none else m.slots i;
    chains = λ b. if b == bucket then erase index (m.chains b) else m.chains b;
    order = erase index m.order;
  }

module _ {V : Type 0} (hash : ℕ → ℕ) where
  unfoldable pub at : Hashmap V → ℕ → Outcome (Option V)
  at m key =
      if m.capacity == 0
      then done none
      else find_chain m.slots key (m.chains (hash key % m.capacity)) >>= λ found. elim found [
        | none ↦ done none
        | some i ↦ elim (m.slots i) [ none ↦ fault | some kv ↦ done (some kv.1) ]
      ]

  -- The new node, once its index is known. The field `next` of the node of the list of all nodes, which
  -- the source does not set, is taken for null.
  unfoldable pub place : ℕ → V → ℕ → Hashmap V → Hashmap V
  place key value index m =
      let bucket = hash key % m.capacity in
      record m {
        slots = λ i. if i == index then some (key, value) else m.slots i;
        chains = λ b. if b == bucket then m.chains b ++ index ∷ [] else m.chains b;
        order = m.order ++ index ∷ [];
      }

  unfoldable pub emplace_at : Memory V → ℕ → V → Hashmap V → Hashmap V
  emplace_at junk key value m = let r = reserve junk m in place key value r.0 r.1

  unfoldable pub remove : ℕ → Hashmap V → Outcome (Hashmap V)
  remove key m =
      if m.capacity == 0
      then done m
      else let bucket = hash key % m.capacity in
        find_chain m.slots key (m.chains bucket) >>= λ found. elim found [
          | none ↦ done m
          | some i ↦ done (take_node bucket i m)
        ]

  -- `&at(key) != nullptr`
  unfoldable pub contains : Hashmap V → ℕ → Outcome Bool
  contains m key = at m key >>= λ found. elim found [ none ↦ done false | some v ↦ done true ]

-- The destructor's part of it: every node of the list is freed, and the table has no room left.
unfoldable pub erase_all : {V : Type 0} → Hashmap V → Hashmap V
erase_all m = record { capacity = 0; slots = λ i. none; chains = λ b. []; order = m.order }
