-- ===== src/CString/Slashes.antt =====
-- Paths as components between slashes: how many slashes there are, and how many at the end.
use mathlib.Core.List.{reverse, reverse-append, reverse-cons, append_assoc, append-nil}
use obos_old.Prelude.{
  ℕ, zero, suc, ◌+◌, ◌-◌, ◌≡◌, refl, ◌≢◌, sym, false, List, [], ◌∷◌, ◌++◌, arith, has, length,
}
use obos_old.CString.{CString, count_slashes, leading_slashes, trailing_slashes}

abbrev pub slashes : ℕ → CString
slashes zero = []
slashes (suc n) = b'/' ∷ slashes n

-- A component has a byte and no slash.
abbrev pub IsComponent : CString → Type 0
IsComponent [] = ⊥
IsComponent (c ∷ cs) = has b'/' (c ∷ cs) ≡ false

abbrev pub Components : List CString → Type 0
Components [] = Unit {0}
Components (c ∷ cs) = IsComponent c × Components cs

abbrev pub join : CString → List CString → CString
join c [] = c
join c (d ∷ cs) = c ++ b'/' ∷ join d cs

pub component-free : (c : CString) → IsComponent c → has b'/' c ≡ false
component-free [] h = absurd h
component-free (c ∷ cs) h = h

count-free : (c s : CString) → has b'/' c ≡ false → count_slashes (c ++ s) ≡ count_slashes s
unfolding count_slashes
count-free [] s h = refl
count-free (x ∷ c) s h = ground (arith, count-free c s)

count-slashes : (m : ℕ) → count_slashes (slashes m) ≡ m
unfolding count_slashes
count-slashes zero = refl
count-slashes (suc m) = omega (arith, count-slashes m)

count-join :
    (c : CString) (cs : List CString) (m : ℕ)
    → IsComponent c
    → Components cs
    → count_slashes (join c cs ++ slashes m) ≡ length cs + m
unfolding count_slashes
count-join c [] m h hs =
    omega (arith, count-free c (slashes m) (component-free c h), count-slashes m)
count-join c (d ∷ cs) m h hs = rw (append_assoc c (b'/' ∷ join d cs) (slashes m)) (
    omega (
      arith,
      count-free c (b'/' ∷ (join d cs ++ slashes m)) (component-free c h),
      count-join d cs m hs.0 hs.1,
    ))

-- The first byte is there and is no slash.
abbrev pub StartsFree : CString → Type 0
StartsFree [] = ⊥
StartsFree (c ∷ cs) = c ≢ b'/'

pub StartsFree-append : (s t : CString) → StartsFree s → StartsFree (s ++ t)
StartsFree-append [] t h = absurd h
StartsFree-append (c ∷ s) t h = h

StartsFree-reverse :
    (xs : CString) (x : ℕ) (t : CString)
    → has b'/' xs ≡ false
    → x ≢ b'/'
    → StartsFree (reverse xs ++ x ∷ t)
StartsFree-reverse [] x t h ne = ne
StartsFree-reverse (y ∷ ys) x t h ne =
    rw (reverse-cons y ys, append_assoc (reverse ys) (y ∷ []) (x ∷ t))
      (StartsFree-reverse ys y (x ∷ t) (ground arith) (ground arith))

component-StartsFree : (c : CString) → IsComponent c → StartsFree (reverse c)
component-StartsFree [] h = absurd h
component-StartsFree (x ∷ xs) h =
    rw (reverse-cons x xs) (StartsFree-reverse xs x [] (ground arith) (ground arith))

join-StartsFree :
    (c : CString) (cs : List CString)
    → IsComponent c
    → Components cs
    → StartsFree (reverse (join c cs))
join-StartsFree c [] h hs = component-StartsFree c h
join-StartsFree c (d ∷ cs) h hs =
    rw (reverse-append c (b'/' ∷ join d cs), reverse-cons b'/' (join d cs))
      (StartsFree-append (reverse (join d cs) ++ b'/' ∷ []) (reverse c)
        (StartsFree-append (reverse (join d cs)) (b'/' ∷ []) (join-StartsFree d cs hs.0 hs.1)))

leading-free : (s : CString) → StartsFree s → leading_slashes s ≡ 0
unfolding leading_slashes
leading-free [] h = refl
leading-free (c ∷ s) h = ground arith

trailing-slashes :
    (m : ℕ) (s : CString) → trailing_slashes (s ++ slashes m) ≡ leading_slashes (reverse s) + m
unfolding trailing_slashes
trailing-slashes zero s = rw (append-nil s) (omega arith)
trailing-slashes (suc m) s =
    let e : s ++ b'/' ∷ slashes m ≡ (s ++ b'/' ∷ []) ++ slashes m =
      sym (append_assoc s (b'/' ∷ []) (slashes m)) in
    rw (e, trailing-slashes m (s ++ b'/' ∷ []), reverse-append s (b'/' ∷ [])) (omega arith)

pub tokens_budget :
    (c : CString) (cs : List CString) (m : ℕ)
    → IsComponent c
    → Components cs
    → 1 + count_slashes (join c cs ++ slashes m) - trailing_slashes (join c cs ++ slashes m)
      ≡ length (c ∷ cs)
tokens_budget c cs m h hs = omega (
  arith,
  count-join c cs m h hs,
  trailing-slashes m (join c cs),
  leading-free (reverse (join c cs)) (join-StartsFree c cs h hs),
)
