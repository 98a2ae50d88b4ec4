-- ===== src/HandleTable/Full.antt =====
-- The table without an index to spare: what emplace_at does to a handle that is there.
use obos_old.Prelude.{ℕ, zero, suc, ◌+◌, ◌<◌, ◌≡◌, refl, ◌≢◌, Option, none, some, arith}
use obos_old.Hashmap.{Hashmap, Memory, first_free, expand, reserve, place, emplace_at}

-- Every index below the capacity is that of a used node.
abbrev pub IsFull : {V : Type 0} → Hashmap V → Type 0
IsFull {V} m = (i : ℕ) → i < m.capacity → (kv : ℕ × V) × (m.slots i ≡ some kv)

pub first_free-full :
    {V : Type 0} (slots : ℕ → Option (ℕ × V)) (n i : ℕ)
    → ((j : ℕ) → j < i + n → (kv : ℕ × V) × (slots j ≡ some kv))
    → first_free slots n i ≡ none
unfolding first_free
first_free-full slots zero i full = refl
first_free-full slots (suc n) i full =
    let (kv, e) = full i (omega arith) in
    let rest = first_free-full slots n (suc i) (λ j l. full j (omega arith)) in
    ground (arith, e, rest)

-- In a map of two nodes or more that is full, emplace_at of a key puts it at index 1: the key that
-- was there has no node below the old capacity any more, although nothing removed it.
pub emplace_at-full :
    {V : Type 0} (hash : ℕ → ℕ) (junk : Memory V) (m : Hashmap V) (k old : ℕ) (v w : V)
    → 1 < m.capacity
    → IsFull m
    → m.slots 1 ≡ some (old, w)
    → ((i : ℕ) (u : V) → m.slots i ≡ some (old, u) → i ≡ 1)
    → k ≢ old
    → ((emplace_at hash junk k v m).slots 1 ≡ some (k, v))
      × ((i : ℕ) (u : V) → i < m.capacity → (emplace_at hash junk k v m).slots i ≢ some (old, u))
unfolding emplace_at reserve place expand
emplace_at-full hash junk m k old v w c full e once other =
    let none_free = first_free-full m.slots m.capacity 0 (λ j l. full j (omega arith)) in
    let (kv, taken) = full 0 (omega arith) in
    (ground (arith, none_free, taken), λ i u l q. ground (arith, none_free, taken, once i u))
