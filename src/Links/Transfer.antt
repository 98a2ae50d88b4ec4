-- ===== src/Links/Transfer.antt =====
-- A node that moves from one list to the end of another, both on the same links.
use obos_old.Prelude.{
  ℕ, ◌+◌, ◌<◌, ◌≡◌, refl, ◌≢◌, true, false, List, [], ◌∷◌, ◌++◌, arith, has, erase, length,
  has-erase, u64, Bool-cases, inl, inr,
}
use obos_old.Links.{Links, Header, ListState, attach, unlink}
use obos_old.Links.Chain.{IsChain, IsChain-frame, Seg-once, Seg-last, Seg-no_null}
use obos_old.Links.Append.{attach-IsChain}
use obos_old.Links.Remove.{unlink-IsChain, unlink-other}

attach-other :
    (n : ℕ) (s : ListState) (a : ℕ) → a ≢ n → a ≢ s.header.tail → (attach n s).links a ≡ s.links a
unfolding attach
attach-other n s a ne nt = ground arith

unlink-next : (n : ℕ) (s : ListState) → (s.links n).next ≡ 0 → ((unlink n s).links n).next ≡ 0
unfolding unlink
unlink-next n s z = ground arith

tail_out :
    (s : ListState) (xs zs : List ℕ)
    → IsChain s zs
    → ((a : ℕ) → has a zs ≡ true → has a xs ≡ false)
    → has 0 xs ≡ false
    → has s.header.tail xs ≡ false
tail_out s xs [] c apart null = ground arith
tail_out s xs (z ∷ zs) c apart null =
    apart s.header.tail (Seg-last s.links 0 s.header.head s.header.tail z zs c.nodes)

-- The list that the node leaves, and the one that it joins.
abbrev pub taken : ℕ → Links → Header → ListState
taken n h from = unlink n (record { links = h; header = from })

abbrev pub given : ℕ → Links → (from to : Header) → ListState
given n h from to = attach n (record { links = (taken n h from).links; header = to })

-- Both at once.
abbrev pub after_source : ℕ → Links → (from to : Header) → ListState
after_source n h from to = record {
  links = (given n h from to).links;
  header = (taken n h from).header;
}

module _ (n : ℕ) (h : Links) (from to : Header) (xs zs : List ℕ) where
  -- Two disjoint lists, and a node of the first that has no successor.
  pub record CanTransfer : Type 0 where
    pub source : IsChain (record { links = h; header = from }) xs
    pub target : IsChain (record { links = h; header = to }) zs
    pub member : has n xs ≡ true
    pub final : (h n).next ≡ 0
    pub apart : (a : ℕ) → has a zs ≡ true → has a xs ≡ false
    pub room : length zs + 1 < u64

  pub transfer-IsChain :
      CanTransfer
      → IsChain (after_source n h from to) (erase n xs) × IsChain (given n h from to) (zs ++ n ∷ [])
  transfer-IsChain c =
      let source : ListState = record { links = h; header = from } in
      let target : ListState = record { links = h; header = to } in
      let null = Seg-no_null h 0 from.head from.tail xs c.source.nodes in
      let nz : n ≢ 0 = ground (arith, c.member) in
      let out : has n zs ≡ false = elim (Bool-cases (has n zs)) [
        | inl i ↦ absurd (ground (arith, c.apart n i, c.member))
        | inr o ↦ o
      ] in
      let once = Seg-once h 0 from.head from.tail n xs c.source.nodes in
      let left = unlink-IsChain n source xs c.member c.source in
      let spared : IsChain (record { links = (taken n h from).links; header = to }) zs =
        IsChain-frame target (record { links = (taken n h from).links; header = to }) zs
          (λ a i. unlink-other n source xs a c.member c.source (c.apart a i)) refl c.target in
      let last = tail_out target xs zs c.target c.apart null in
      let stays : IsChain (after_source n h from to) (erase n xs) =
        IsChain-frame (taken n h from) (after_source n h from to) (erase n xs)
          (λ a i.
            attach-other n (record { links = (taken n h from).links; header = to }) a
              (ground (arith, once)) (ground (arith, has-erase to.tail n xs last)))
          refl left in
      (
        stays,
        attach-IsChain n (record { links = (taken n h from).links; header = to }) zs nz
            (unlink-next n source c.final) out c.room spared,
      )
