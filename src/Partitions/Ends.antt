-- ===== src/Partitions/Ends.antt =====
-- RegisterGPTPartitionsOnDrive ends: the fuel for the entries of a sector is enough, whatever size
-- the header tells for an entry.
use obos_old.Prelude.{
  ℕ, zero, suc, ◌+◌, ◌*◌, ◌/◌, ◌≤◌, ◌<◌, ◌≡◌, ◌≢◌, refl, sym, ◌∙◌, inl, inr, Bool, true, false,
  Bool-cases, Option-cases, List, [], ◌++◌, Option, none, some, length, take, drop, mul64, add64,
  ltb, leb, ◌||◌, ne-of-test, ◌==◌, arith,
}
use obos_old.Outcome.{Outcome, done, fault, hang, ◌>>=◌}
use obos_old.Vfs.Drives.{Drives}
use obos_old.Vfs.DriveHandle.{DriveHandle, read_sectors}
use obos_old.Partitions.{PartitionInfo, Host, field, overwrite}
use obos_old.Partitions.FirstRead.{IsRead, first_sector-IsRead}
use obos_old.Partitions.Crc.{CrcTable, crc32_bytes}
use obos_old.Partitions.Gpt.{
  GptHeader, header_at, all_zero, count_entries, entries_on, list_sectors, check_table, read_table,
  check_header, gpt_partitions, register_gpt_partitions_on_drive,
}

>>=-returns :
    {A B : Type 0} (m : Outcome A) (f : A → Outcome B)
    → m ≢ hang
    → ((a : A) → f a ≢ hang)
    → (m >>= f) ≢ hang
>>=-returns (done a) f p q = q a
>>=-returns fault f p q = λ e. cc e
>>=-returns hang f p q = absurd (p refl)

field-returns : (block : List ℕ) (offset n : ℕ) → field block offset n ≢ hang
unfolding field
field-returns block offset n e = ground arith

overwrite-returns : (block bytes : List ℕ) → overwrite block bytes ≢ hang
unfolding overwrite
overwrite-returns block bytes e = ground arith

header_at-returns : (block : List ℕ) → header_at block ≢ hang
unfolding header_at
header_at-returns block e = ground arith

lt-of-test : (a b : ℕ) → ltb a b ≡ true → a < b
lt-of-test a b h = ground arith

none_of : (a b : Bool) → (a || b) ≡ false → a ≡ false
none_of true b e = e
none_of false b e = refl

count_entries-returns :
    (fuel sector size : ℕ) (block : List ℕ) (offset n : ℕ)
    → size ≢ 0
    → sector ≤ offset + fuel
    → count_entries (suc fuel) sector size block offset n ≢ hang
unfolding count_entries
count_entries-returns zero sector size block offset n nz enough e = ground arith
count_entries-returns (suc fuel) sector size block offset n nz enough e =
    elim (Bool-cases (ltb offset sector)) [
      | inl more ↦ elim (Bool-cases (leb (offset + 16) (length block))) [
        | inr outside ↦ cc (rw (more, outside) at e)
        | inl inside ↦ elim (Bool-cases (all_zero (take 16 (drop offset block)))) [
          | inl last ↦ cc (rw (more, inside, last) at e)
          | inr other ↦
              count_entries-returns fuel sector size block (offset + size) (suc n) nz
                (omega (arith, lt-of-test offset sector more)) (rw (more, inside, other) at e)
        ]
      ]
      | inr all ↦ cc (rw all at e)
    ]

entries_on-returns :
    (block : List ℕ) (part_entry n id : ℕ) → entries_on block part_entry n id ≢ hang
unfolding entries_on
entries_on-returns block part_entry zero id = λ e. cc e
entries_on-returns block part_entry (suc n) id =
    >>=-returns (field block (128 * part_entry + 32) 8) _ (field-returns block _ 8) (λ a.
      >>=-returns (field block (128 * part_entry + 40) 8) _ (field-returns block _ 8) (λ b.
        >>=-returns (entries_on block (suc part_entry) n (suc id)) _
          (entries_on-returns block (suc part_entry) n (suc id)) (λ rest e. cc e)))

module _ {D : Type 0} (host : Host) (h : DriveHandle) (sector : ℕ) where
  list_sectors-returns :
      (size n lba : ℕ) (w : Drives D) (current : List ℕ) (found : List PartitionInfo)
      → size ≢ 0
      → list_sectors host h sector size n lba w current found ≢ hang
  unfolding list_sectors
  list_sectors-returns size zero lba w current found nz e = cc e
  list_sectors-returns size (suc n) lba w current found nz e =
      let read = read_sectors host.vectorized h w true lba 1 in
      elim (Option-cases read.0) [
        | inl failed ↦ cc (rw (list_sectors, failed) at e)
        | inr (r, got) ↦
            >>=-returns (overwrite current r.0) _ (overwrite-returns current r.0)
              (λ block.
                >>=-returns (count_entries (suc sector) sector size block 0 0) _
                  (count_entries-returns sector sector size block 0 0 nz (omega arith))
                  (λ count.
                    >>=-returns (entries_on block 0 count (length found)) _
                      (entries_on-returns block 0 count (length found))
                      (λ entries.
                        list_sectors-returns size n (add64 lba 1) read.1 block (found ++ entries)
                          nz)))
              (rw (list_sectors, got) at e)
      ]

  check_table-returns :
      (header : GptHeader) (n_sectors : ℕ) (t : CrcTable) (read : Option (List ℕ × ℕ) × Drives D)
      → header.sz_partition_entry ≢ 0
      → check_table host h sector header n_sectors t read ≢ hang
  unfolding check_table
  check_table-returns header n_sectors t (none, w) nz = λ e. cc e
  check_table-returns header n_sectors t (some r, w) nz =
      let bytes = mul64 sector n_sectors in
      >>=-returns (overwrite (host.fresh bytes) r.0) _ (overwrite-returns (host.fresh bytes) r.0)
        (λ current e.
          let listed =
            list_sectors-returns header.sz_partition_entry n_sectors header.partition_entry_lba w
              current [] nz in
          ground (arith, listed))

  read_table-returns :
      (header : GptHeader) (t : CrcTable) (w : Drives D)
      → read_table host h w sector header t ≢ hang
  unfolding read_table
  read_table-returns header t w e =
      let per_sector = sector / header.sz_partition_entry in
      let stops = (header.sz_partition_entry == 0) || (per_sector == 0) in
      elim (Bool-cases stops) [
        | inl zero_division ↦ cc (rw zero_division at e)
        | inr whole ↦
            check_table-returns header _ t _
              (ne-of-test header.sz_partition_entry 0 (none_of _ (per_sector == 0) whole))
              (rw whole at e)
      ]

  check_header-returns :
      (retries : ℕ) (t : CrcTable) (w : Drives D) (block : List ℕ)
      → check_header host h sector retries t w block ≢ hang
  unfolding check_header
  check_header-returns zero t w block =
      >>=-returns (header_at block) _ (header_at-returns block)
        (λ header. ground (arith, read_table-returns header (crc32_bytes header.cleared t).1 w))
  check_header-returns (suc retries) t w block =
      >>=-returns (header_at block) _ (header_at-returns block) (λ header e.
        let sum = crc32_bytes header.cleared t in
        let read = read_sectors host.vectorized h w true header.alternate_lba 1 in
        elim (Bool-cases (sum.0 == header.header_crc32)) [
          | inl right ↦ read_table-returns header sum.1 w (rw right at e)
          | inr wrong ↦ elim (Option-cases read.0) [
            | inl failed ↦ cc (rw (wrong, failed) at e)
            | inr (r, got) ↦
                >>=-returns (overwrite block r.0) _ (overwrite-returns block r.0)
                  (check_header-returns retries sum.1 read.1) (rw (wrong, got) at e)
          ]
        ])

-- Once the first read has given a block, RegisterGPTPartitionsOnDrive never runs on without end,
-- whatever the block and the rest of the drive hold: the fuel of a step for each byte of a sector is
-- enough, also for a size of 0 in the header.
pub register_gpt_partitions_on_drive-returns :
    {D : Type 0} (host : Host) (drive_id : ℕ) (t : CrcTable) (w : Drives D) (h : DriveHandle)
    (w1 : Drives D) (sector : ℕ) (block : List ℕ)
    → IsRead host drive_id 1 w h w1 sector block
    → register_gpt_partitions_on_drive host drive_id t w ≢ hang
unfolding register_gpt_partitions_on_drive gpt_partitions
register_gpt_partitions_on_drive-returns host drive_id t w h w1 sector block r e =
    >>=-returns (field block 0 8) _ (field-returns block 0 8)
      (λ signature. ground (arith, check_header-returns host h sector 1 t w1 block))
      (sym (first_sector-IsRead host drive_id 1 w h w1 sector block (gpt_partitions host t) r) ∙ e)
