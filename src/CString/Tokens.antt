-- ===== src/CString/Tokens.antt =====
-- Paths divided into their components, and compared.
use mathlib.Core.List.{append_assoc}
use obos_old.Prelude.{
  ℕ, zero, suc, ◌+◌, ◌-◌, ◌≡◌, refl, ◌≢◌, ◌↔◌, true, false, List, [], ◌∷◌, ◌++◌, ap, some, arith,
  has, length,
}
use obos_old.CString.{
  CString, take_to, skip_slashes, count_slashes, trailing_slashes, tokens_loop, tokens_of,
  divide_path_to_tokens, same_tokens, path_strcmp,
}
use obos_old.CString.Paths.{strcmp_iff}
use obos_old.CString.Slashes.{
  slashes, IsComponent, Components, join, component-free, tokens_budget, StartsFree,
  StartsFree-append,
}

skip-slashes : (n : ℕ) (s : CString) → skip_slashes (slashes n ++ s) ≡ skip_slashes s
unfolding skip_slashes
skip-slashes zero s = refl
skip-slashes (suc n) s = skip-slashes n s

-- What follows a component: nothing, or a slash.
abbrev Ends : CString → Type 0
Ends [] = Unit {0}
Ends (c ∷ cs) = c ≡ b'/'

take_to-free : (c s : CString) → has b'/' c ≡ false → Ends s → take_to (c ++ s) b'/' ≡ c
unfolding take_to
take_to-free [] [] h e = refl
take_to-free [] (x ∷ s) h e = ground arith
take_to-free (c ∷ cs) s h e = ground (arith, take_to-free cs s)

loop-free :
    (c s : CString) (n : ℕ)
    → has b'/' c ≡ false
    → tokens_loop false (c ++ s) n ≡ tokens_loop false s n
unfolding tokens_loop
loop-free [] s n h = refl
loop-free (c ∷ cs) [] zero h = refl
loop-free (c ∷ cs) (x ∷ s) zero h = refl
loop-free (c ∷ cs) s (suc n) h = ground (arith, loop-free cs s (suc n))

loop-zero : (s : CString) → tokens_loop false s 0 ≡ []
unfolding tokens_loop
loop-zero [] = refl
loop-zero (c ∷ s) = refl

Ends-slashes : (m : ℕ) → Ends (slashes m)
Ends-slashes zero = tt
Ends-slashes (suc m) = refl

loop-join :
    (c : CString) (cs : List CString) (m : ℕ)
    → IsComponent c
    → Components cs
    → tokens_loop false (b'/' ∷ (join c cs ++ slashes m)) (length (c ∷ cs)) ≡ c ∷ cs
unfolding tokens_loop
loop-join c [] m h hs =
    rw
      (take_to-free c (slashes m) (component-free c h) (Ends-slashes m), loop-zero (c ++ slashes m))
loop-join c (d ∷ cs) m h hs =
    let s : CString = b'/' ∷ (join d cs ++ slashes m) in
    let free : has b'/' c ≡ false = component-free c h in
    rw (
      append_assoc c (b'/' ∷ join d cs) (slashes m),
      take_to-free c s free refl,
      loop-free c s (suc (length cs)) free,
      loop-join d cs m hs.0 hs.1,
    )

loop-start :
    (x : ℕ) (s : CString) (n : ℕ)
    → x ≢ b'/'
    → tokens_loop true (x ∷ s) (suc n) ≡ take_to (x ∷ s) b'/' ∷ tokens_loop false s n
unfolding tokens_loop
loop-start x s n h = ground arith

loop-first :
    (c : CString) (cs : List CString) (m : ℕ)
    → IsComponent c
    → Components cs
    → tokens_loop true (join c cs ++ slashes m) (length (c ∷ cs)) ≡ c ∷ cs
loop-first [] cs m h hs = absurd h
loop-first (x ∷ xs) [] m h hs = rw (
  loop-start x (xs ++ slashes m) 0 (ground arith),
  take_to-free (x ∷ xs) (slashes m) h (Ends-slashes m),
  loop-free xs (slashes m) 0 (ground arith),
  loop-zero (slashes m),
)
loop-first (x ∷ xs) (d ∷ cs) m h hs =
    let s : CString = b'/' ∷ (join d cs ++ slashes m) in
    rw (
      append_assoc xs (b'/' ∷ join d cs) (slashes m),
      loop-start x (xs ++ s) (suc (length cs)) (ground arith),
      take_to-free (x ∷ xs) s h refl,
      loop-free xs s (suc (length cs)) (ground arith),
      loop-join d cs m hs.0 hs.1,
    )

component-StartsFree : (c : CString) → IsComponent c → StartsFree c
component-StartsFree [] h = h
component-StartsFree (x ∷ c) h = ground arith

join-StartsFree : (c : CString) (cs : List CString) → IsComponent c → StartsFree (join c cs)
join-StartsFree c [] h = component-StartsFree c h
join-StartsFree c (d ∷ cs) h = StartsFree-append c (b'/' ∷ join d cs) (component-StartsFree c h)

tokens_of-StartsFree :
    (s : CString)
    → StartsFree s
    → tokens_of s ≡ some (tokens_loop true s (1 + count_slashes s - trailing_slashes s))
tokens_of-StartsFree [] h = absurd h
tokens_of-StartsFree (c ∷ s) h = refl

skip-StartsFree : (s : CString) → StartsFree s → skip_slashes s ≡ s
unfolding skip_slashes
skip-StartsFree [] h = refl
skip-StartsFree (c ∷ s) h = ground arith

tail_free :
    (m : ℕ) (c : CString) (cs : List CString) → IsComponent c → StartsFree (join c cs ++ slashes m)
tail_free m c cs h = StartsFree-append (join c cs) (slashes m) (join-StartsFree c cs h)

-- A path, with any number of slashes before and behind it, is divided into its components.
pub divide_path_to_tokens-join :
    (k m : ℕ) (c : CString) (cs : List CString)
    → IsComponent c
    → Components cs
    → divide_path_to_tokens (slashes k ++ join c cs ++ slashes m) ≡ some (c ∷ cs)
unfolding divide_path_to_tokens
divide_path_to_tokens-join k m c cs h hs = rw (
  append_assoc (slashes k) (join c cs) (slashes m),
  skip-slashes k (join c cs ++ slashes m),
  skip-StartsFree (join c cs ++ slashes m) (tail_free m c cs h),
  tokens_of-StartsFree (join c cs ++ slashes m) (tail_free m c cs h),
  tokens_budget c cs m h hs,
  loop-first c cs m h hs,
)

same_tokens_iff : (xs ys : List CString) → (same_tokens xs ys ≡ true) ↔ (xs ≡ ys)
unfolding same_tokens
same_tokens_iff [] [] = (λ h. refl, λ e. refl)
same_tokens_iff [] (y ∷ ys) = (λ h. cc, λ e. cc)
same_tokens_iff (x ∷ xs) [] = (λ h. cc, λ e. cc)
same_tokens_iff (x ∷ xs) (y ∷ ys) = (
  λ h. ground (arith, strcmp_iff x y, same_tokens_iff xs ys),
  λ e. ground (arith, strcmp_iff x y, same_tokens_iff xs ys),
)

divided :
    (k m : ℕ) (c : CString) (cs : List CString)
    → IsComponent c
    → Components cs
    → divide_path_to_tokens (skip_slashes (slashes k ++ join c cs ++ slashes m)) ≡ some (c ∷ cs)
divided k m c cs h hs =
    rw
      (
        append_assoc (slashes k) (join c cs) (slashes m),
        skip-slashes k (join c cs ++ slashes m),
        skip-StartsFree (join c cs ++ slashes m) (tail_free m c cs h),
      )
      (divide_path_to_tokens-join 0 m c cs h hs)

path_strcmp-same_tokens :
    (p q : CString) (xs ys : List CString)
    → divide_path_to_tokens (skip_slashes p) ≡ some xs
    → divide_path_to_tokens (skip_slashes q) ≡ some ys
    → path_strcmp p q ≡ some (same_tokens xs ys)
unfolding path_strcmp
path_strcmp-same_tokens p q xs ys e f = ground arith

-- pathStrcmp compares two paths by their components: slashes before and behind do not count, and it
-- answers true exactly when the components are the same.
pub path_strcmp-join :
    (k m i j : ℕ) (c d : CString) (cs ds : List CString)
    → IsComponent c
    → Components cs
    → IsComponent d
    → Components ds
    → (path_strcmp (slashes k ++ join c cs ++ slashes m) (slashes i ++ join d ds ++ slashes j)
        ≡ some true)
      ↔ (◌≡◌ {A = List CString} (c ∷ cs) (d ∷ ds))
path_strcmp-join k m i j c d cs ds hc hcs hd hds =
    let e =
      path_strcmp-same_tokens (slashes k ++ join c cs ++ slashes m)
        (slashes i ++ join d ds ++ slashes j) (c ∷ cs) (d ∷ ds) (divided k m c cs hc hcs)
        (divided i j d ds hd hds) in
    let same = same_tokens_iff (c ∷ cs) (d ∷ ds) in
    rw e (λ h. same.0 (ground arith), λ h. ap some (same.1 h))
