-- ===== src/FileIterators/Walk.antt =====
-- What a driver's file iterator gives from call to call, and how it ends.
use obos_old.Prelude.{
  ℕ, zero, suc, ◌+◌, ◌<◌, ◌≡◌, refl, ◌≢◌, true, false, List, [], ◌∷◌, ◌++◌, Option, some, ◌==◌, has,
  erase, length, arith, test-of-eq, test-of-ne, eq-of-test, length-erase, length-append, has-append,
  sym, Once-erase, u64,
}
use obos_old.Outcome.{Outcome, done, ◌>>=◌}
use obos_old.Links.{push_back, unlink}
use obos_old.Links.Chain.{Seg-no_null, Seg-Once, IsChain}
use obos_old.Links.Append.{push_back-IsChain}
use obos_old.Links.Remove.{unlink-IsChain}
use obos_old.Vfs.Drives.Search.{find_entry-only, find_entry-none}
use obos_old.FileIterators.{
  FileIterators, Next, ended, found, set_current, iter_create, look_for, iter_next, iter_close,
}

module _ {E : Type 0} where
  look_for-member :
      (fuel iter : ℕ) (s : FileIterators E) (xs : List ℕ)
      → IsChain s.iterators xs
      → length xs < fuel
      → has iter xs ≡ true
      → look_for fuel iter s ≡ done iter
  unfolding look_for
  look_for-member fuel iter s xs c l i =
      find_entry-only (λ p. p == iter) s.iterators.links fuel 0 s.iterators.header.head
        s.iterators.header.tail iter xs c.nodes l i (test-of-eq iter iter refl)
        (λ y k m. eq-of-test y iter m)

  look_for-none :
      (fuel iter : ℕ) (s : FileIterators E) (xs : List ℕ)
      → IsChain s.iterators xs
      → length xs < fuel
      → has iter xs ≡ false
      → look_for fuel iter s ≡ done 0
  unfolding look_for
  look_for-none fuel iter s xs c l i =
      find_entry-none (λ p. p == iter) s.iterators.links fuel 0 s.iterators.header.head
        s.iterators.header.tail xs c.nodes l
        (λ y k. test-of-ne y iter (λ q. ground (arith, k, i, q)))

  member-nonzero :
      (iter : ℕ) (s : FileIterators E) (xs : List ℕ)
      → IsChain s.iterators xs
      → has iter xs ≡ true
      → iter ≢ 0
  member-nonzero iter s xs c i e =
      let no_null : has 0 xs ≡ false =
        Seg-no_null s.iterators.links 0 s.iterators.header.head s.iterators.header.tail xs
          c.nodes in
      ground (arith, i, no_null)

  module _ {P : Type 0} (query : E → Outcome (Option P)) (p : E → P) where
    -- `n` calls of IterNext one after the other.
    unfoldable pub next_calls : ℕ → ℕ → ℕ → FileIterators E → Outcome (List (Next P))
    next_calls zero fuel iter s = done []
    next_calls (suc n) fuel iter s = iter_next query fuel iter s >>= λ r.
        next_calls n fuel iter r.1 >>= λ rest. done (r.0 ∷ rest)

    -- The driver knows each of the entries.
    unfoldable pub Answers : List E → Type 0
    Answers [] = Unit
    Answers (e ∷ entries) = (query e ≡ done (some (p e))) × Answers entries

    pub files : List E → List (Next P)
    files [] = ended ∷ []
    files (e ∷ entries) = found (p e) ∷ files entries

    iter_next-ended :
        (fuel iter : ℕ) (s : FileIterators E) (xs : List ℕ)
        → IsChain s.iterators xs
        → length xs < fuel
        → has iter xs ≡ true
        → s.current iter ≡ []
        → iter_next query fuel iter s ≡ done (ended, s)
    unfolding iter_next
    iter_next-ended fuel iter s xs c l i e =
        rw
          (
            look_for-member fuel iter s xs c l i,
            test-of-eq iter iter refl,
            test-of-ne iter 0 (member-nonzero iter s xs c i),
            e,
          )
          refl

    iter_next-found :
        (fuel iter : ℕ) (s : FileIterators E) (xs : List ℕ) (x : E) (entries : List E)
        → IsChain s.iterators xs
        → length xs < fuel
        → has iter xs ≡ true
        → s.current iter ≡ x ∷ entries
        → query x ≡ done (some (p x))
        → iter_next query fuel iter s ≡ done (found (p x), set_current iter entries s)
    unfolding iter_next
    iter_next-found fuel iter s xs x entries c l i e a =
        rw
          (
            look_for-member fuel iter s xs c l i,
            test-of-eq iter iter refl,
            test-of-ne iter 0 (member-nonzero iter s xs c i),
            e,
            a,
          )
          refl

    next_calls-files :
        (fuel iter : ℕ) (s : FileIterators E) (xs : List ℕ) (entries : List E)
        → IsChain s.iterators xs
        → length xs < fuel
        → has iter xs ≡ true
        → s.current iter ≡ entries
        → Answers entries
        → next_calls (suc (length entries)) fuel iter s ≡ done (files entries)
    unfolding next_calls Answers files set_current
    next_calls-files fuel iter s xs [] c l i e a = rw (iter_next-ended fuel iter s xs c l i e) refl
    next_calls-files fuel iter s xs (x ∷ entries) c l i e a =
        rw
          (
            iter_next-found fuel iter s xs x entries c l i e a.0,
            next_calls-files fuel iter (set_current iter entries s) xs entries c l i
                (rw (test-of-eq iter iter refl) refl) a.1,
          )
          refl

    -- When an iterator is created at a fresh address over entries that the driver knows,
    -- as many calls of IterNext as there are entries and one more
    -- give each entry's file in the order of the entries and then the end.
    pub next_calls-iter_create :
        (fuel iter : ℕ) (entries : List E) (s : FileIterators E) (xs : List ℕ)
        → iter ≢ 0
        → has iter xs ≡ false
        → IsChain s.iterators xs
        → length xs + 1 < fuel
        → length xs + 1 < u64
        → Answers entries
        → next_calls (suc (length entries)) fuel iter (iter_create iter entries s).1
          ≡ done (files entries)
    unfolding iter_create set_current
    next_calls-iter_create fuel iter entries s xs nz fresh c l fits a =
        let s' : FileIterators E =
          set_current iter entries (record s { iterators = push_back iter s.iterators }) in
        rw (test-of-ne iter 0 nz) (
          next_calls-files fuel iter s' (xs ++ iter ∷ []) entries
            (push_back-IsChain iter s.iterators xs nz fresh fits c)
            (omega (arith, length-append xs (iter ∷ [])))
            (ground (arith, has-append iter xs (iter ∷ []))) (rw (test-of-eq iter iter refl) refl)
            a)

  -- Closing an iterator of the list takes it out of the list, and closing it again is refused and
  -- changes nothing.
  pub iter_close-twice :
      (fuel iter : ℕ) (s : FileIterators E) (xs : List ℕ)
      → IsChain s.iterators xs
      → length xs < fuel
      → has iter xs ≡ true
      → (s' : FileIterators E) × (iter_close fuel iter s ≡ done (true, s'))
        × IsChain s'.iterators (erase iter xs)
        × (iter_close fuel iter s' ≡ done (false, s'))
  unfolding iter_close
  iter_close-twice fuel iter s xs c l i =
      let s' : FileIterators E = record s { iterators = unlink iter s.iterators } in
      let c' : IsChain s'.iterators (erase iter xs) = unlink-IsChain iter s.iterators xs i c in
      (
        s',
        rw
            (
              look_for-member fuel iter s xs c l i,
              test-of-eq iter iter refl,
              test-of-ne iter 0 (member-nonzero iter s xs c i),
            )
            refl,
        c',
        rw
            (
              look_for-none fuel iter s' (erase iter xs) c' (omega (arith, length-erase iter xs i))
                  (Once-erase iter xs (
                    Seg-Once s.iterators.links 0 s.iterators.header.head s.iterators.header.tail xs
                      c.nodes)).1,
              test-of-ne 0 iter (λ e. member-nonzero iter s xs c i (sym e)),
            )
            refl,
      )
