-- ===== src/Hashmap/Finding.antt =====
-- The search along the chain of a bucket.
use obos_old.Prelude.{
  ℕ, zero, suc, ◌+◌, ◌≤◌, ◌<◌, inl, inr, Option-cases, eq_cases, ◌≡◌, refl, true, List, [], ◌∷◌,
  Option, none, some, arith, has,
}
use obos_old.Outcome.{done}
use obos_old.Hashmap.{find_chain, first_free}

-- Every index of the chain is that of a used node.
abbrev pub AllUsed : {V : Type 0} → (ℕ → Option (ℕ × V)) → List ℕ → Type 0
AllUsed slots [] = Unit
AllUsed {V} slots (i ∷ is) = ((kv : ℕ × V) × (slots i ≡ some kv)) × AllUsed slots is

-- The first index that is not used, if there is one.
pub first_free-none :
    {V : Type 0} (slots : ℕ → Option (ℕ × V)) (n i j : ℕ)
    → i ≤ j
    → j < i + n
    → slots j ≡ none
    → (k : ℕ) × (first_free slots n i ≡ some k) × (slots k ≡ none)
unfolding first_free
first_free-none slots zero i j l u e = absurd (omega arith)
first_free-none slots (suc n) i j l u e = elim (Option-cases (slots i)) [
  | inl free ↦ (i, ground arith, free)
  | inr (kv, taken) ↦ elim (eq_cases i j) [
    | inl same ↦ absurd (ground arith)
    | inr other ↦
        let (k, f, g) = first_free-none slots n (suc i) j (omega arith) (omega arith) e in
        (k, ground arith, g)
  ]
]

module _ {V : Type 0} (slots : ℕ → Option (ℕ × V)) (key : ℕ) where
  pub find_chain-none :
      (is : List ℕ)
      → AllUsed slots is
      → ((i : ℕ) (v : V) → has i is ≡ true → slots i ≡ some (key, v) → ⊥)
      → find_chain slots key is ≡ done none
  unfolding find_chain
  find_chain-none [] u miss = refl
  find_chain-none (i ∷ is) ((kv, e), u) miss =
      let rest = find_chain-none is u (λ j v h. miss j v (ground arith)) in
      ground (arith, e, rest, miss i kv.1)

  pub find_chain-some :
      (is : List ℕ) (i : ℕ) (v : V)
      → AllUsed slots is
      → has i is ≡ true
      → slots i ≡ some (key, v)
      → ((j : ℕ) (v' : V) → slots j ≡ some (key, v') → j ≡ i)
      → find_chain slots key is ≡ done (some i)
  unfolding find_chain
  find_chain-some [] i v u m e unique = ground arith
  find_chain-some (j ∷ is) i v ((kv, f), u) m e unique =
      ground (arith, f, unique j kv.1, find_chain-some is i v u)
