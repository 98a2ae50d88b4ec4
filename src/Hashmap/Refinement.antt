-- ===== src/Hashmap/Refinement.antt =====
-- The table implements a finite map, a function from keys to optional values, as long as it has an
-- index to spare.
use obos_old.Prelude.{
  Once, ℕ, ◌%◌, ◌≡◌, ◌≢◌, ◌⊎◌, inl, inr, true, List, [], ◌∷◌, Option, none, some, arith, ◌==◌,
  if◌then◌else◌, has, Option-cases,
}
use obos_old.Outcome.{done}
use obos_old.Hashmap.{Hashmap, empty_map, find_chain, at}
use obos_old.Hashmap.Finding.{AllUsed, find_chain-none, find_chain-some}

abbrev pub update : {V : Type 0} → (ℕ → Option V) → ℕ → Option V → ℕ → Option V
update f k v j = if j == k then v else f j

module _ {V : Type 0} (hash : ℕ → ℕ) where
  abbrev pub bucket_of : Hashmap V → ℕ → ℕ
  bucket_of m k = hash k % m.capacity

  -- The table holds the pairs of the function `f`.
  pub record Refines (m : Hashmap V) (f : ℕ → Option V) : Type 0 where
    pub room : m.capacity ≢ 0
    pub used :
        (b i : ℕ)
        → has i (m.chains b) ≡ true
        → (kv : ℕ × V) × (m.slots i ≡ some kv) × (bucket_of m kv.0 ≡ b)
    pub listed :
        (i k : ℕ) (v : V) → m.slots i ≡ some (k, v) → has i (m.chains (bucket_of m k)) ≡ true
    pub content : (i k : ℕ) (v : V) → m.slots i ≡ some (k, v) → f k ≡ some v
    pub complete : (k : ℕ) (v : V) → f k ≡ some v → (i : ℕ) × (m.slots i ≡ some (k, v))
    pub unique : (i j k : ℕ) (v v' : V) → m.slots i ≡ some (k, v) → m.slots j ≡ some (k, v') → i ≡ j
    pub once : (b : ℕ) → Once (m.chains b)

  chain-AllUsed :
      (m : Hashmap V) (f : ℕ → Option V)
      → Refines m f
      → (b : ℕ) (is : List ℕ) → ((i : ℕ) → has i is ≡ true → has i (m.chains b) ≡ true)
      → AllUsed m.slots is
  chain-AllUsed m f r b [] sub = tt
  chain-AllUsed m f r b (i ∷ is) sub =
      let (kv, e, h) = r.used b i (sub i (ground arith)) in
      ((kv, e), chain-AllUsed m f r b is (λ j h. sub j (ground arith)))

  pub find-Refines :
      (m : Hashmap V) (f : ℕ → Option V) (k : ℕ)
      → Refines m f
      → ((f k ≡ none) × (find_chain m.slots k (m.chains (bucket_of m k)) ≡ done none))
        ⊎ ((v : V) × (f k ≡ some v)
            × (i : ℕ) × (m.slots i ≡ some (k, v))
            × (find_chain m.slots k (m.chains (bucket_of m k)) ≡ done (some i)))
  find-Refines m f k r =
      let all = chain-AllUsed m f r (bucket_of m k) (m.chains (bucket_of m k)) (λ i h. h) in
      elim (Option-cases (f k)) [
        | inl e ↦ inl (
          e,
          find_chain-none m.slots k (m.chains (bucket_of m k)) all
              (λ i v h g. ground (arith, r.content i k v g)),
        )
        | inr (v, e) ↦
            let (i, g) = r.complete k v e in
            inr (
              v,
              e,
              i,
              g,
              find_chain-some m.slots k (m.chains (bucket_of m k)) i v all (r.listed i k v g) g
                  (λ j v' h. r.unique j i k v' v h g),
            )
      ]

  -- Looking a key up in the table gives what the function has for it.
  pub at-Refines :
      (m : Hashmap V) (f : ℕ → Option V) (k : ℕ) → Refines m f → at hash m k ≡ done (f k)
  unfolding at
  at-Refines m f k r = elim (find-Refines m f k r) [
    | inl (e, g) ↦ ground (arith, r.room)
    | inr (v, e, i, g, h) ↦ ground (arith, r.room)
  ]

-- A new map holds nothing.
pub empty_map-Refines : {V : Type 0} (hash : ℕ → ℕ) → Refines {V = V} hash empty_map (λ k. none)
empty_map-Refines hash = record {
  room = λ e. omega arith;
  used = λ b i h. ground arith;
  listed = λ i k v e. ground arith;
  content = λ i k v e. ground arith;
  complete = λ k v e. ground arith;
  unique = λ i j k v v' e g. ground arith;
  once = λ b. tt;
}
