-- ===== src/Vfs/Iterators/Walk.antt =====
-- Walks over a directory and over the drives.
use obos_old.Prelude.{ℕ, zero, suc, ◌≡◌, ◌≢◌, List, [], ◌∷◌, none, some, arith, length}
use obos_old.Outcome.{Outcome, done, hang, ◌>>=◌}
use obos_old.CString.{CString}
use obos_old.Vfs.{Vfs}
use obos_old.Vfs.Iterators.{DirectoryIterator, dereference, pre_increment}

-- The entries from `p` on, along `next`, to null.
abbrev pub Leads : (ℕ → ℕ) → ℕ → List ℕ → Type 0
Leads next p [] = p ≡ 0
Leads next p (x ∷ xs) = (p ≡ x) × (x ≢ 0) × Leads next (next x) xs

module _ (format : ℕ → CString → CString) (w : Vfs) where
  -- `for (; iter; ++iter) use(*iter);`: the texts, and the iterator in the end.
  unfoldable pub walk : ℕ → DirectoryIterator → Outcome (List CString × DirectoryIterator)
  walk zero it = hang
  walk (suc fuel) it =
      let next = (pre_increment format (λ p. 0) w it).1 in
      let rest = walk fuel next in
      elim (dereference format (λ p. 0) w it) [
        | none ↦ done ([], it)
        | some text ↦ rest >>= λ r. done (text ∷ r.0, r.1)
      ]

  -- The text of each entry.
  abbrev pub texts : List ℕ → List CString
  texts [] = []
  texts (x ∷ xs) = format (w.mount (w.dirent x).mount_point).id (w.dirent x).path ∷ texts xs

  -- A walk with ++ over a directory, from its first entry, gives the text of each entry once and in
  -- order, and ends without a current entry but with the directory.
  pub walk-texts :
      (xs : List ℕ) (it : DirectoryIterator)
      → Leads (λ p. (w.dirent p).next) it.current_node xs
      → walk (suc (length xs)) it
        ≡ done (texts xs, record { directory_node = it.directory_node; current_node = 0 })
  unfolding walk dereference pre_increment
  walk-texts [] it e = ground arith
  walk-texts (x ∷ xs) it (e, n, l) =
      let moved : DirectoryIterator = record {
        directory_node = it.directory_node;
        current_node = (w.dirent x).next;
      } in
      ground (arith, walk-texts xs moved l)
