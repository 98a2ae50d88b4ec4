-- ===== src/Partitions/Numbered.antt =====
-- The numbers of the partitions that RegisterGPTPartitionsOnDrive lists.
use obos_old.Prelude.{
  ℕ, zero, suc, ◌+◌, ◌≡◌, refl, subst, inl, inr, true, Option-cases, List, [], ◌∷◌, ◌++◌, some,
  length, add64, ◌*◌, sub64, arith,
}
use obos_old.Outcome.{Outcome, done, >>=-eq-done, done-eq-done}
use obos_old.Vfs.Drives.{Drives}
use obos_old.Vfs.DriveHandle.{DriveHandle, read_sectors}
use obos_old.Partitions.{PartitionInfo, Host, field, Registered, overwrite, leave}
use obos_old.Partitions.Gpt.{count_entries, entries_on, list_sectors}

-- The ids count up from `id`.
unfoldable pub IsNumbered : ℕ → List PartitionInfo → Type 0
IsNumbered id [] = Unit
IsNumbered id (p ∷ partitions) = (p.id ≡ id) × IsNumbered (suc id) partitions

IsNumbered-append :
    (id : ℕ) (xs ys : List PartitionInfo)
    → IsNumbered id xs
    → IsNumbered (id + length xs) ys
    → IsNumbered id (xs ++ ys)
unfolding IsNumbered
IsNumbered-append id [] ys p q = subst (λ (n : ℕ). IsNumbered n ys) (omega arith) q
IsNumbered-append id (x ∷ xs) ys p q =
    (p.0, IsNumbered-append (suc id) xs ys p.1 (subst (λ (n : ℕ). IsNumbered n ys) (omega arith) q))

IsNumbered-extend :
    (xs ys : List PartitionInfo)
    → IsNumbered 0 xs
    → IsNumbered (length xs) ys
    → IsNumbered 0 (xs ++ ys)
IsNumbered-extend xs ys p q =
    IsNumbered-append 0 xs ys p (subst (λ (n : ℕ). IsNumbered n ys) (omega arith) q)

entry : (id start_lba end_lba : ℕ) → PartitionInfo
entry id start_lba end_lba = record {
  id = id;
  lba_offset = start_lba;
  size_sectors = sub64 end_lba start_lba;
}

entries_on-IsNumbered :
    (block : List ℕ) (part_entry n id : ℕ) (entries : List PartitionInfo)
    → entries_on block part_entry n id ≡ done entries
    → IsNumbered id entries
unfolding entries_on IsNumbered entry
entries_on-IsNumbered block part_entry zero id entries e =
    subst (IsNumbered id) (done-eq-done _ _ e) tt
entries_on-IsNumbered block part_entry (suc n) id entries e =
    let (a, fa, ea) = >>=-eq-done (field block (128 * part_entry + 32) 8) _ entries e in
    let (b, fb, eb) = >>=-eq-done (field block (128 * part_entry + 40) 8) _ entries ea in
    let (rest, er, ed) = >>=-eq-done (entries_on block (suc part_entry) n (suc id)) _ entries eb in
    let p : IsNumbered id (entry id a b ∷ rest) =
      (refl, entries_on-IsNumbered block (suc part_entry) n (suc id) rest er) in
    subst (IsNumbered id) (done-eq-done _ _ ed) p

listed :
    {D : Type 0} (found partitions : List PartitionInfo) (w w' : Drives D)
    → ◌≡◌ {A = Outcome (Registered D)} (done (some found, w)) (done (some partitions, w'))
    → found ≡ partitions
listed found partitions w w' e = cc e

module _ {D : Type 0} (host : Host) (h : DriveHandle) (sector : ℕ) where
  pub list_sectors-IsNumbered :
      (size n lba : ℕ) (w : Drives D) (current : List ℕ) (found partitions : List PartitionInfo)
      (w' : Drives D)
      → IsNumbered 0 found
      → list_sectors host h sector size n lba w current found ≡ done (some partitions, w')
      → IsNumbered 0 partitions
  unfolding list_sectors leave
  list_sectors-IsNumbered size zero lba w current found partitions w' p e =
      subst (IsNumbered 0) (listed found partitions _ w' e) p
  list_sectors-IsNumbered size (suc n) lba w current found partitions w' p e =
      let read = read_sectors host.vectorized h w true lba 1 in
      elim (Option-cases read.0) [
        | inl failed ↦ absurd (cc (rw (list_sectors, failed) at e))
        | inr (r, got) ↦
            let (block, _, e1) =
              >>=-eq-done (overwrite current r.0) _ (some partitions, w')
                (rw (list_sectors, got) at e) in
            let (count, _, e2) =
              >>=-eq-done (count_entries (suc sector) sector size block 0 0) _ (some partitions, w')
                e1 in
            let (entries, on, e3) =
              >>=-eq-done (entries_on block 0 count (length found)) _ (some partitions, w') e2 in
            list_sectors-IsNumbered size n (add64 lba 1) read.1 block (found ++ entries) partitions
              w'
              (IsNumbered-extend found entries p
                (entries_on-IsNumbered block 0 count (length found) entries on))
              e3
      ]
