-- ===== src/Vfs/Drives/Search.antt =====
-- What a search along a well-formed list of nodes finds.
use obos_old.Prelude.{
  ℕ, zero, suc, ◌<◌, ◌≡◌, Bool, true, false, List, [], ◌∷◌, arith, has, length, inl, inr, eq_cases,
}
use obos_old.Outcome.{done}
use obos_old.Links.{Links}
use obos_old.Links.Chain.{Seg}
use obos_old.Vfs.Drives.{find_entry}

-- The search along a chain finds the only entry that matches.
pub find_entry-only :
    (matches : ℕ → Bool) (h : Links) (fuel prev p last x : ℕ) (xs : List ℕ)
    → Seg h prev p last xs
    → length xs < fuel
    → has x xs ≡ true
    → matches x ≡ true
    → ((y : ℕ) → has y xs ≡ true → matches y ≡ true → y ≡ x)
    → find_entry matches (λ e. (h e).next) fuel p ≡ done x
unfolding find_entry
find_entry-only matches h zero prev p last x xs s l i m only = absurd (omega arith)
find_entry-only matches h (suc fuel) prev p last x [] s l i m only = ground arith
find_entry-only matches h (suc fuel) prev p last x (y ∷ xs) (e, n, o, b, s) l i m only =
    elim (eq_cases y x) [
      | inl same ↦ ground arith
      | inr other ↦
          let ih =
            find_entry-only matches h fuel y (h y).next last x xs s (omega arith) (ground arith) m
              (λ z k q. only z (ground arith) q) in
          ground (arith, ih, only y)
    ]

-- Without a match it ends at null.
pub find_entry-none :
    (matches : ℕ → Bool) (h : Links) (fuel prev p last : ℕ) (xs : List ℕ)
    → Seg h prev p last xs
    → length xs < fuel
    → ((y : ℕ) → has y xs ≡ true → matches y ≡ false)
    → find_entry matches (λ e. (h e).next) fuel p ≡ done 0
unfolding find_entry
find_entry-none matches h zero prev p last xs s l none = absurd (omega arith)
find_entry-none matches h (suc fuel) prev p last [] s l none = ground arith
find_entry-none matches h (suc fuel) prev p last (y ∷ xs) (e, n, o, b, s) l none =
    let ih =
      find_entry-none matches h fuel y (h y).next last xs s (omega arith)
        (λ z k. none z (ground arith)) in
    ground (arith, ih, none y)
