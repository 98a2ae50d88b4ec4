-- ===== src/Links/Remove.antt =====
-- Taking a node out, wherever it stands.
use obos_old.Prelude.{
  ℕ, ◌≡◌, ◌≢◌, ◌⊎◌, inl, inr, true, false, List, [], ◌∷◌, arith, ◌==◌, if◌then◌else◌, has, erase,
  length, length-erase, has-erase, Bool-cases,
}
use obos_old.Links.{Links, ListState, unlink}
use obos_old.Links.Chain.{Seg, IsChain, Seg-frame, Seg-last, Seg-no_null}

-- What the heap `g` is after the node `n` was taken out of `h`.
record Detached (h g : Links) (n : ℕ) : Type 0 where
  prevs :
      (a : ℕ)
      → (g a).prev ≡ (
          if (h n).next == 0
          then (h a).prev
          else if a == (h n).next
          then (h n).prev
          else (h a).prev)
  nexts :
      (a : ℕ)
      → (g a).next ≡ (
          if (h n).prev == 0
          then (h a).next
          else if a == (h n).prev
          then (h n).next
          else (h a).next)

-- A node's neighbours are in the list, or are its ends.
next_mem :
    (h : Links) (prev p last n : ℕ) (xs : List ℕ)
    → has n xs ≡ true
    → Seg h prev p last xs
    → ((h n).next ≡ 0) ⊎ (has (h n).next xs ≡ true)
next_mem h prev p last n [] i s = ground arith
next_mem h prev p last n (x ∷ []) i s = ground arith
next_mem h prev p last n (x ∷ y ∷ xs) i s = ground (arith, next_mem h x (h x).next last n (y ∷ xs))

prev_mem :
    (h : Links) (prev p last n : ℕ) (xs : List ℕ)
    → has n xs ≡ true
    → Seg h prev p last xs
    → ((p ≡ n) × ((h n).prev ≡ prev)) ⊎ ((p ≢ n) × (has (h n).prev xs ≡ true))
prev_mem h prev p last n [] i s = ground arith
prev_mem h prev p last n (x ∷ xs) i s = ground (arith, prev_mem h x (h x).next last n xs)

-- The part behind the removed node.
behind :
    (h g : Links) (n last : ℕ) (xs : List ℕ)
    → Detached h g n
    → has n xs ≡ false
    → has (h n).prev xs ≡ false
    → Seg h n (h n).next last xs
    → Seg g (h n).prev (h n).next (if last == n then (h n).prev else last) xs
behind h g n last [] d out outp s = ground arith
behind h g n last (y ∷ ys) d out outp s =
    ground (arith, d.prevs y, d.nexts y, Seg-last h n (h n).next last y ys s, rest)
  where
    rest : Seg g y (h y).next last ys
    rest = Seg-frame h g y (h y).next last ys (λ a i. ground (arith, d.prevs a, d.nexts a)) s.4

Detached-Seg :
    (h g : Links) (n prev p last : ℕ) (xs : List ℕ)
    → Detached h g n
    → has n xs ≡ true
    → has prev xs ≡ false
    → Seg h prev p last xs
    → Seg g prev
        (if p == n then (h n).next else p)
        (if last == n then (h n).prev else last)
        (erase n xs)
Detached-Seg h g n prev p last [] d i out s = ground arith
Detached-Seg h g n prev p last (x ∷ xs) d i out s = elim (Bool-cases (n == x)) [
  | inl hit ↦ ground (arith, behind h g n last xs d)
  | inr miss ↦ ground (
    arith,
    d.prevs x,
    d.nexts x,
    next_mem h x (h x).next last n xs,
    prev_mem h x (h x).next last n xs,
    has-erase x n xs,
    Detached-Seg h g n x (h x).next last xs d (ground arith) (s.2) s.4,
  )
]

-- The node's own neighbours are other nodes.
record Apart (h : Links) (n : ℕ) : Type 0 where
  next_ne : (h n).next ≢ n
  prev_ne : (h n).prev ≢ n

first_mem :
    (h : Links) (prev p last : ℕ) (xs : List ℕ) → Seg h prev p last xs → (p ≡ 0) ⊎ (has p xs ≡ true)
first_mem h prev p last [] s = ground arith
first_mem h prev p last (x ∷ xs) s = ground arith

chain-Apart :
    (h : Links) (prev p last n : ℕ) (xs : List ℕ)
    → has n xs ≡ true
    → has prev xs ≡ false
    → Seg h prev p last xs
    → Apart h n
chain-Apart h prev p last n [] i out s = ground arith
chain-Apart h prev p last n (x ∷ xs) i out s = elim (Bool-cases (n == x)) [
  | inl hit ↦ record {
    next_ne = ground (arith, first_mem h x (h x).next last xs s.4);
    prev_ne = ground arith;
  }
  | inr miss ↦ chain-Apart h x (h x).next last n xs (ground arith) s.2 s.4
]

unlink-Detached : (n : ℕ) (s : ListState) → Apart s.links n → Detached s.links (unlink n s).links n
unfolding unlink
unlink-Detached n s a = record {
  prevs = λ b. ground (arith, a.next_ne, a.prev_ne);
  nexts = λ b. ground (arith, a.next_ne, a.prev_ne);
}

unlink-head :
    (n : ℕ) (s : ListState)
    → Apart s.links n
    → (unlink n s).header.head ≡ (if s.header.head == n then (s.links n).next else s.header.head)
unfolding unlink
unlink-head n s a = ground (arith, a.next_ne, a.prev_ne)

unlink-tail :
    (n : ℕ) (s : ListState)
    → Apart s.links n
    → (unlink n s).header.tail ≡ (if s.header.tail == n then (s.links n).prev else s.header.tail)
unfolding unlink
unlink-tail n s a = ground (arith, a.next_ne, a.prev_ne)

unlink-size :
    (n : ℕ) (s : ListState) (xs : List ℕ)
    → has n xs ≡ true
    → IsChain s xs
    → (unlink n s).header.size ≡ length (erase n xs)
unfolding unlink
unlink-size n s xs i c = ground (arith, length-erase n xs i, c.count, c.fits)

-- Removal drops the node from the sequence, wherever it stood, and keeps the rest in order.
pub unlink-IsChain :
    (n : ℕ) (s : ListState) (xs : List ℕ)
    → has n xs ≡ true
    → IsChain s xs
    → IsChain (unlink n s) (erase n xs)
unlink-IsChain n s xs i c =
    let null : has 0 xs ≡ false = Seg-no_null s.links 0 s.header.head s.header.tail xs c.nodes in
    let a : Apart s.links n =
      chain-Apart s.links 0 s.header.head s.header.tail n xs i null c.nodes in
    record {
      nodes =
          rw (unlink-head n s a, unlink-tail n s a)
            (Detached-Seg s.links (unlink n s).links n 0 s.header.head s.header.tail xs
              (unlink-Detached n s a) i null c.nodes);
      count = unlink-size n s xs i c;
      fits = omega (arith, length-erase n xs i, c.fits);
    }

-- Nodes outside the list are left alone.
pub unlink-other :
    (n : ℕ) (s : ListState) (xs : List ℕ) (a : ℕ)
    → has n xs ≡ true
    → IsChain s xs
    → has a xs ≡ false
    → (unlink n s).links a ≡ s.links a
unfolding unlink
unlink-other n s xs a i c out = ground (
  arith,
  next_mem s.links 0 s.header.head s.header.tail n xs i c.nodes,
  prev_mem s.links 0 s.header.head s.header.tail n xs i c.nodes,
)
