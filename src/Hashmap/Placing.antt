-- ===== src/Hashmap/Placing.antt =====
-- A new key in the table.
use obos_old.Prelude.{
  Once, Once-append, ℕ, ◌<◌, ◌≡◌, inl, inr, true, false, [], ◌∷◌, Option, none, some, arith, ◌==◌,
  has, has-append, Bool-cases,
}
use obos_old.Hashmap.{Hashmap, Memory, reserve, place, emplace_at}
use obos_old.Hashmap.Finding.{first_free-none}
use obos_old.Hashmap.Refinement.{bucket_of, Refines, update}

module _ {V : Type 0} (hash : ℕ → ℕ) (m : Hashmap V) (f : ℕ → Option V) (k n : ℕ) (v : V)
    (r : Refines hash m f) (new : f k ≡ none) (free : m.slots n ≡ none) where
  abbrev placed : Hashmap V
  placed = place hash k v n m

  not_listed : (b : ℕ) → has n (m.chains b) ≡ false
  not_listed b = elim (Bool-cases (has n (m.chains b))) [
    | inl h ↦ absurd (ground (arith, r.used b n h))
    | inr h ↦ h
  ]

  place-used :
      (b i : ℕ)
      → has i (placed.chains b) ≡ true
      → (kv : ℕ × V) × (placed.slots i ≡ some kv) × (bucket_of hash placed kv.0 ≡ b)
  unfolding place
  place-used b i h = elim (Bool-cases (i == n)) [
    | inl e ↦ ((k, v), ground arith, ground (arith, not_listed b))
    | inr d ↦
        let (kv, g, q) = r.used b i (ground (arith, has-append i (m.chains b) (n ∷ []))) in
        (kv, ground arith, ground arith)
  ]

  place-listed :
      (i j : ℕ) (w : V)
      → placed.slots i ≡ some (j, w)
      → has i (placed.chains (bucket_of hash placed j)) ≡ true
  unfolding place
  place-listed i j w e =
      let chain = m.chains (bucket_of hash m j) in
      ground (arith, has-append i chain (n ∷ []), r.listed i j w)

  place-content : (i j : ℕ) (w : V) → placed.slots i ≡ some (j, w) → update f k (some v) j ≡ some w
  unfolding place
  place-content i j w e = ground (arith, r.content i j w)

  place_complete :
      (j : ℕ) (w : V) → update f k (some v) j ≡ some w → (i : ℕ) × (placed.slots i ≡ some (j, w))
  unfolding place
  place_complete j w e = elim (Bool-cases (j == k)) [
    | inl h ↦ (n, ground arith)
    | inr h ↦ let (i, g) = r.complete j w (ground arith) in (i, ground arith)
  ]

  place_unique :
      (i j l : ℕ) (w w' : V) → placed.slots i ≡ some (l, w) → placed.slots j ≡ some (l, w') → i ≡ j
  unfolding place
  place_unique i j l w w' e g =
      ground (arith, r.unique i j l w w', r.content i l w, r.content j l w')

  place-Once : (b : ℕ) → Once (placed.chains b)
  unfolding place
  place-Once b = elim (Bool-cases (b == bucket_of hash m k)) [
    | inl h ↦ rw h (Once-append (m.chains b) n (r.once b) (not_listed b))
    | inr h ↦ rw h (r.once b)
  ]

  pub place-Refines : Refines hash placed (update f k (some v))
  unfolding place
  place-Refines = record {
    room = r.room;
    used = place-used;
    listed = place-listed;
    content = place-content;
    complete = place_complete;
    unique = place_unique;
    once = place-Once;
  }

-- With an index to spare, emplace_at of a key that the table does not have makes it hold the value
-- for the key, and nothing else changes.
pub emplace_at-Refines :
    {V : Type 0} (hash : ℕ → ℕ) (junk : Memory V) (m : Hashmap V) (f : ℕ → Option V) (k j : ℕ)
    (v : V)
    → Refines hash m f
    → f k ≡ none
    → j < m.capacity
    → m.slots j ≡ none
    → Refines hash (emplace_at hash junk k v m) (update f k (some v))
unfolding emplace_at reserve
emplace_at-Refines hash junk m f k j v r new l e =
    let (n, found, free) = first_free-none m.slots m.capacity 0 j (omega arith) (omega arith) e in
    let same : reserve junk m ≡ (n, m) = ground (arith, r.room) in
    rw same (place-Refines hash m f k n v r new free)
