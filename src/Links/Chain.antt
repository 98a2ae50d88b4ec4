-- ===== src/Links/Chain.antt =====
-- What it means that a header and its nodes hold a sequence of addresses.
use obos_old.Prelude.{
  ℕ, ◌<◌, ◌≡◌, refl, ◌≢◌, true, false, List, [], ◌∷◌, arith, has, erase, length, Once, u64,
}
use obos_old.Links.{Links, ListState}

-- From `p`, with `prev` before it, the links lead through the distinct nodes of the list to null;
-- `last` is the final node, or `prev` when there is none.
abbrev pub Seg : Links → (prev p last : ℕ) → List ℕ → Type 0
Seg h prev p last [] = (p ≡ 0) × (last ≡ prev)
Seg h prev p last (x ∷ xs) =
    (p ≡ x) × (x ≢ 0) × (has x xs ≡ false) × ((h x).prev ≡ prev) × Seg h x (h x).next last xs

pub record IsChain (s : ListState) (xs : List ℕ) : Type 0 where
  pub nodes : Seg s.links 0 s.header.head s.header.tail xs
  pub count : s.header.size ≡ length xs
  pub fits : length xs < u64

-- A segment survives any change that spares its own nodes.
pub Seg-frame :
    (h g : Links) (prev p last : ℕ) (xs : List ℕ)
    → ((a : ℕ) → has a xs ≡ true → g a ≡ h a)
    → Seg h prev p last xs
    → Seg g prev p last xs
Seg-frame h g prev p last [] same s = s
Seg-frame h g prev p last (x ∷ xs) same s =
    let e : g x ≡ h x = same x (ground arith) in
    rw e (s.0, s.1, s.2, s.3, Seg-frame h g x (h x).next last xs (λ a i. same a (ground arith)) s.4)

pub Seg-last :
    (h : Links) (prev p last x : ℕ) (xs : List ℕ)
    → Seg h prev p last (x ∷ xs)
    → has last (x ∷ xs) ≡ true
Seg-last h prev p last x [] s = ground arith
Seg-last h prev p last x (y ∷ xs) s = ground (arith, Seg-last h x (h x).next last y xs (s.4))

-- No node of a segment is null.
pub Seg-no_null :
    (h : Links) (prev p last : ℕ) (xs : List ℕ) → Seg h prev p last xs → has 0 xs ≡ false
Seg-no_null h prev p last [] s = refl
Seg-no_null h prev p last (x ∷ xs) s = ground (arith, Seg-no_null h x (h x).next last xs s.4)

pub Seg-Once : (h : Links) (prev p last : ℕ) (xs : List ℕ) → Seg h prev p last xs → Once xs
Seg-Once h prev p last [] s = tt
Seg-Once h prev p last (x ∷ xs) s = (s.2, Seg-Once h x (h x).next last xs s.4)

-- Nothing follows the last node of a well-formed list.
pub Seg-end :
    (h : Links) (prev p last x : ℕ) (xs : List ℕ) → Seg h prev p last (x ∷ xs) → (h last).next ≡ 0
Seg-end h prev p last x [] s = ground arith
Seg-end h prev p last x (y ∷ xs) s = ground (arith, Seg-end h x (h x).next last y xs s.4)

pub IsChain-end :
    (s : ListState) (xs : List ℕ)
    → s.header.tail ≢ 0
    → IsChain s xs
    → (s.links s.header.tail).next ≡ 0
IsChain-end s [] nz c = ground arith
IsChain-end s (x ∷ xs) nz c = Seg-end s.links 0 s.header.head s.header.tail x xs c.nodes

pub IsChain-frame :
    (s t : ListState) (xs : List ℕ)
    → ((a : ℕ) → has a xs ≡ true → t.links a ≡ s.links a)
    → t.header ≡ s.header
    → IsChain s xs
    → IsChain t xs
IsChain-frame s t xs same e c = record {
  nodes = Seg-frame s.links t.links 0 t.header.head t.header.tail xs same (rw e c.nodes);
  count = rw e c.count;
  fits = c.fits;
}

-- A node stands in a list once.
pub Seg-once :
    (h : Links) (prev p last x : ℕ) (xs : List ℕ)
    → Seg h prev p last xs
    → has x (erase x xs) ≡ false
Seg-once h prev p last x [] s = refl
Seg-once h prev p last x (y ∷ xs) s = ground (arith, Seg-once h y (h y).next last x xs s.4)
