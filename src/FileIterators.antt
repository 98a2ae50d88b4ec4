-- ===== src/FileIterators.antt =====
-- The iterators over the files that a file system driver knows: IterCreate, IterNext and IterClose of
-- drivers/generic/initrd/interface.cpp, and FileIteratorCreate, FileIteratorNext and FileIteratorClose
-- of drivers/generic/fat/interface.cpp, which keep them in the same way. An iterator is an address in
-- the list g_iterators and has the rest of the driver's entries; what the driver tells of an entry
-- is a parameter.
pub mod Walk
use obos_old.Prelude.{
  ℕ, Bool, true, false, not, List, [], ◌∷◌, Option, none, some, ◌==◌, if◌then◌else◌,
}
use obos_old.Outcome.{Outcome, done, fault, ◌>>=◌}
use obos_old.Links.{ListState, attach, push_back, unlink}
use obos_old.Vfs.Drives.{find_entry}

-- g_iterators, and the `currentNode` of each.
pub record FileIterators (E : Type 0) : Type 0 where
  pub iterators : ListState
  pub current : ℕ → List E

-- `return false`, FILE_DOESNT_EXIST at the end, or the next file.
pub data Next (P : Type 0) : Type 0 where
  refused : Next P
  ended : Next P
  found : P → Next P

module _ {E : Type 0} where
  unfoldable pub set_current : ℕ → List E → FileIterators E → FileIterators E
  set_current iter entries s = record s {
    current = λ i. if i == iter then entries else s.current i;
  }

  -- With the cleared memory of kcalloc at `iter`, which is null when there is none.
  unfoldable pub iter_create : ℕ → List E → FileIterators E → Bool × FileIterators E
  unfolding set_current
  iter_create iter entries s =
      if iter == 0
      then (false, s)
      else (true, set_current iter entries (record s { iterators = push_back iter s.iterators }))

  -- FAT's takes the memory from `new`, and leaves its `next` as it is.
  unfoldable pub file_iterator_create : ℕ → List E → FileIterators E → Bool × FileIterators E
  unfolding set_current
  file_iterator_create iter entries s =
      (true, set_current iter entries (record s { iterators = attach iter s.iterators }))

  -- The search for the iterator in the list, with fuel.
  unfoldable pub look_for : ℕ → ℕ → FileIterators E → Outcome ℕ
  look_for fuel iter s =
      find_entry (λ p. p == iter) (λ p. (s.iterators.links p).next) fuel s.iterators.header.head

  unfoldable pub iter_next :
      {P : Type 0}
      → (E → Outcome (Option P))
      → ℕ
      → ℕ
      → FileIterators E
      → Outcome (Next P × FileIterators E)
  unfolding look_for set_current
  iter_next query fuel iter s = look_for fuel iter s >>= λ node.
      if not (node == iter)
      then done (refused, s)
      else if iter == 0
      then fault
      else elim (s.current iter) [
        | [] ↦ done (ended, s)
        | e ∷ entries ↦ query e >>= λ answer. elim answer [
          | none ↦ done (refused, s)
          | some p ↦ done (found p, set_current iter entries s)
        ]
      ]

  unfoldable pub iter_close : ℕ → ℕ → FileIterators E → Outcome (Bool × FileIterators E)
  unfolding look_for
  iter_close fuel iter s = look_for fuel iter s >>= λ node.
      if not (node == iter)
      then done (false, s)
      else if iter == 0
      then fault
      else done (true, record s { iterators = unlink iter s.iterators })
