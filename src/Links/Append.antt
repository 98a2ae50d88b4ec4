-- ===== src/Links/Append.antt =====
-- Linking a node in at the end.
use obos_old.Prelude.{
  ℕ, ◌+◌, ◌<◌, ◌≡◌, refl, ◌≢◌, false, List, [], ◌∷◌, ◌++◌, arith, ◌==◌, if◌then◌else◌, has, length,
  length-append, has-append, u64,
}
use obos_old.Links.{Links, ListState, write, attach, push_back}
use obos_old.Links.Chain.{Seg, IsChain, Seg-frame, Seg-last}

-- What a new node `n` behind `last` looks like in the heap `g` that was `h` before.
record Attached (h g : Links) (last n : ℕ) : Type 0 where
  back : (g n).prev ≡ last
  final : (g n).next ≡ 0
  linked : last ≢ 0 → (g last).next ≡ n
  prevs : (a : ℕ) → a ≢ n → (g a).prev ≡ (h a).prev
  nexts : (a : ℕ) → a ≢ n → a ≢ last → (g a).next ≡ (h a).next

Seg-snoc :
    (h g : Links) (prev p last n : ℕ) (xs : List ℕ)
    → Attached h g last n
    → n ≢ 0
    → has n xs ≡ false
    → Seg h prev p last xs
    → Seg g prev (if p == 0 then n else p) n (xs ++ n ∷ [])
Seg-snoc h g prev p last n [] a nz out s = ground (arith, a.back, a.final)
Seg-snoc h g prev p last n (x ∷ []) a nz out s =
    ground (arith, a.prevs x, a.linked, Seg-snoc h g x (h x).next last n [] a nz refl s.4)
Seg-snoc h g prev p last n (x ∷ y ∷ xs) a nz out s = ground (
  arith,
  a.prevs x,
  a.nexts x,
  has-append x (y ∷ xs) (n ∷ []),
  Seg-last h x (h x).next last y xs s.4,
  Seg-snoc h g x (h x).next last n (y ∷ xs) a nz (ground arith) s.4,
)

tail-ne :
    (h : Links) (p last n : ℕ) (xs : List ℕ)
    → n ≢ 0
    → has n xs ≡ false
    → Seg h 0 p last xs
    → n ≢ last
tail-ne h p last n [] nz out s = ground arith
tail-ne h p last n (x ∷ xs) nz out s = ground (arith, Seg-last h 0 p last x xs s)

attach-Attached :
    (n : ℕ) (s : ListState)
    → (s.links n).next ≡ 0
    → n ≢ s.header.tail
    → Attached s.links (attach n s).links s.header.tail n
unfolding attach
attach-Attached n s z d = record {
  back = ground arith;
  final = ground arith;
  linked = ground arith;
  prevs = λ a ne. ground arith;
  nexts = λ a ne nt. ground arith;
}

-- A node that was outside the chain, with no successor of its own, becomes its last element.
pub attach-IsChain :
    (n : ℕ) (s : ListState) (xs : List ℕ)
    → n ≢ 0
    → (s.links n).next ≡ 0
    → has n xs ≡ false
    → length xs + 1 < u64
    → IsChain s xs
    → IsChain (attach n s) (xs ++ n ∷ [])
unfolding attach
attach-IsChain n s xs nz z out room c = record {
  nodes =
      Seg-snoc s.links (attach n s).links 0 s.header.head s.header.tail n xs
        (attach-Attached n s z (tail-ne s.links s.header.head s.header.tail n xs nz out c.nodes)) nz
        out c.nodes;
  count = omega (arith, length-append {0} xs (n ∷ []), c.count);
  fits = omega (arith, length-append {0} xs (n ∷ []));
}

-- A fresh node becomes the last element.
pub push_back-IsChain :
    (n : ℕ) (s : ListState) (xs : List ℕ)
    → n ≢ 0
    → has n xs ≡ false
    → length xs + 1 < u64
    → IsChain s xs
    → IsChain (push_back n s) (xs ++ n ∷ [])
unfolding push_back
push_back-IsChain n s xs nz out room c =
    attach-IsChain n (record s { links = write s.links n (record { next = 0; prev = 0 }) }) xs nz
      (ground arith) out room
      (record {
        nodes =
            Seg-frame s.links (write s.links n (record { next = 0; prev = 0 })) 0 s.header.head
              s.header.tail xs (λ a i. ground arith) c.nodes;
        count = c.count;
        fits = c.fits;
      })
