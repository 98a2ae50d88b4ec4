-- ===== src/Hashmap/Removing.antt =====
-- A key leaves the table.
use obos_old.Prelude.{
  Once, Once-erase, has-erase_other, has-erase_sub, ℕ, ◌≡◌, sym, fun_ext, inl, inr, true, Option,
  none, some, arith, ◌==◌, has, Bool-cases,
}
use obos_old.Outcome.{done}
use obos_old.Hashmap.{Hashmap, take_node, remove}
use obos_old.Hashmap.Refinement.{bucket_of, Refines, find-Refines, update}

module _ {V : Type 0} (hash : ℕ → ℕ) (m : Hashmap V) (f : ℕ → Option V) (k n : ℕ) (v : V)
    (r : Refines hash m f) (held : m.slots n ≡ some (k, v)) where
  abbrev taken : Hashmap V
  taken = take_node (bucket_of hash m k) n m

  take_node-used :
      (b i : ℕ)
      → has i (taken.chains b) ≡ true
      → (kv : ℕ × V) × (taken.slots i ≡ some kv) × (bucket_of hash taken kv.0 ≡ b)
  unfolding take_node
  take_node-used b i h =
      let sub : has i (m.chains b) ≡ true = ground (arith, has-erase_sub i n (m.chains b)) in
      let (kv, g, q) = r.used b i sub in
      let gone = Once-erase n (m.chains b) (r.once b) in (kv, ground (arith, gone.1), ground arith)

  take_node-listed :
      (i j : ℕ) (w : V)
      → taken.slots i ≡ some (j, w)
      → has i (taken.chains (bucket_of hash taken j)) ≡ true
  unfolding take_node
  take_node-listed i j w e =
      let chain = m.chains (bucket_of hash m j) in
      ground (arith, has-erase_other i n chain, r.listed i j w)

  take_node-content : (i j : ℕ) (w : V) → taken.slots i ≡ some (j, w) → update f k none j ≡ some w
  unfolding take_node
  take_node-content i j w e = ground (arith, r.content i j w, r.unique i n k w v)

  take_node_complete :
      (j : ℕ) (w : V) → update f k none j ≡ some w → (i : ℕ) × (taken.slots i ≡ some (j, w))
  unfolding take_node
  take_node_complete j w e = let (i, g) = r.complete j w (ground arith) in (i, ground arith)

  take_node_unique :
      (i j l : ℕ) (w w' : V) → taken.slots i ≡ some (l, w) → taken.slots j ≡ some (l, w') → i ≡ j
  unfolding take_node
  take_node_unique i j l w w' e g = ground (arith, r.unique i j l w w')

  take_node-Once : (b : ℕ) → Once (taken.chains b)
  unfolding take_node
  take_node-Once b = elim (Bool-cases (b == bucket_of hash m k)) [
    | inl h ↦ rw h (Once-erase n (m.chains b) (r.once b)).0
    | inr h ↦ rw h (r.once b)
  ]

  pub take_node-Refines : Refines hash taken (update f k none)
  unfolding take_node
  take_node-Refines = record {
    room = r.room;
    used = take_node-used;
    listed = take_node-listed;
    content = take_node-content;
    complete = take_node_complete;
    unique = take_node_unique;
    once = take_node-Once;
  }

Refines-same :
    {V : Type 0} (hash : ℕ → ℕ) (m : Hashmap V) (f g : ℕ → Option V)
    → ((j : ℕ) → f j ≡ g j)
    → Refines hash m f
    → Refines hash m g
Refines-same hash m f g e r = rw (sym (fun_ext e)) r

-- remove returns, the table has nothing for the key then, and nothing else changes, whether the key
-- was there or not.
pub remove-Refines :
    {V : Type 0} (hash : ℕ → ℕ) (m : Hashmap V) (f : ℕ → Option V) (k : ℕ)
    → Refines hash m f
    → (m' : Hashmap V) × (remove hash k m ≡ done m') × Refines hash m' (update f k none)
unfolding remove
remove-Refines hash m f k r = elim (find-Refines hash m f k r) [
  | inl (e, g) ↦
      (m, ground (arith, r.room), Refines-same hash m f (update f k none) (λ j. ground arith) r)
  | inr (v, e, i, g, h) ↦ (
    take_node (bucket_of hash m k) i m,
    ground (arith, r.room),
    take_node-Refines hash m f k i v r g,
  )
]
