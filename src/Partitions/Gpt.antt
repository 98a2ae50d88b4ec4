-- ===== src/Partitions/Gpt.antt =====
-- RegisterGPTPartitionsOnDrive, drivers/generic/gpt/main.cpp. The checksum's table is passed on
-- from call to call; krealloc asks for the bytes of all partitions, so that they have room.
use obos_old.Prelude.{
  ℕ, zero, suc, ◌+◌, ◌*◌, ◌/◌, ◌%◌, Bool, true, false, ◌&&◌, ◌||◌, List, [], ◌∷◌, ◌++◌, Option,
  none, some, ◌==◌, ltb, leb, not, if◌then◌else◌, length, take, drop, add64, sub64, mul64,
}
use obos_old.Outcome.{Outcome, done, fault, hang, ◌>>=◌}
use obos_old.Vfs.Drives.{Drives}
use obos_old.Vfs.DriveHandle.{DriveHandle, read_sectors}
use obos_old.Partitions.{
  PartitionInfo, Host, little_endian, field, overwrite, Registered, leave, Continue, first_sector,
}
use obos_old.Partitions.Crc.{CrcTable, crc32_bytes}

-- gpt_header, as far as it is read.
pub record GptHeader : Type 0 where
  pub signature : ℕ
  pub header_crc32 : ℕ
  pub alternate_lba : ℕ
  pub partition_entry_lba : ℕ
  pub n_partition_entries : ℕ
  pub sz_partition_entry : ℕ
  pub partition_table_crc32 : ℕ
  pub cleared : List ℕ

-- The fields of the block, and its 92 bytes with the checksum's field cleared.
unfoldable pub header_at : List ℕ → Outcome GptHeader
header_at block =
    if not (leb 92 (length block))
    then fault
    else done (record {
      signature = little_endian (take 8 block);
      header_crc32 = little_endian (take 4 (drop 16 block));
      alternate_lba = little_endian (take 8 (drop 32 block));
      partition_entry_lba = little_endian (take 8 (drop 72 block));
      n_partition_entries = little_endian (take 4 (drop 80 block));
      sz_partition_entry = little_endian (take 4 (drop 84 block));
      partition_table_crc32 = little_endian (take 4 (drop 88 block));
      cleared = take 16 block ++ 0 ∷ 0 ∷ 0 ∷ 0 ∷ take 72 (drop 20 block);
    })

unfoldable pub all_zero : List ℕ → Bool
all_zero [] = true
all_zero (b ∷ bytes) = (b == 0) && all_zero bytes

-- How many entries a sector has before the first with the GUID 0. The entries are
-- `sz_partition_entry` bytes apart; fuel is for a step per byte.
unfoldable pub count_entries : ℕ → (sector size : ℕ) → List ℕ → ℕ → ℕ → Outcome ℕ
unfolding all_zero
count_entries zero sector size block offset n = hang
count_entries (suc fuel) sector size block offset n =
    if not (ltb offset sector)
    then done n
    else if not (leb (offset + 16) (length block))
    then fault
    else elim (all_zero (take 16 (drop offset block))) [
      | true ↦ done n
      | false ↦ count_entries fuel sector size block (offset + size) (suc n)
    ]

-- The partitions of a sector: `table[partEntry]`, which are 128 bytes apart.
unfoldable pub entries_on : List ℕ → (part_entry n id : ℕ) → Outcome (List PartitionInfo)
unfolding field
entries_on block part_entry zero id = done []
entries_on block part_entry (suc n) id = field block (128 * part_entry + 32) 8 >>= λ start_lba.
    field block (128 * part_entry + 40) 8 >>= λ end_lba.
    entries_on block (suc part_entry) n (suc id) >>= λ rest.
    done (record { id = id; lba_offset = start_lba; size_sectors = sub64 end_lba start_lba } ∷ rest)

-- "EFI PART".
abbrev pub gpt_signature : ℕ
gpt_signature = 0x5452_4150_2049_4645

module _ {D : Type 0} where
  -- The loop over the table's sectors, `n` of them from `lba` on. `current` is the block that each is
  -- read into.
  unfoldable pub list_sectors :
      Host
      → DriveHandle
      → (sector size n lba : ℕ) → Drives D
      → List ℕ
      → List PartitionInfo
      → Outcome (Registered D)
  unfolding leave overwrite count_entries entries_on
  list_sectors host h sector size zero lba w current found = done (leave h w (some found))
  list_sectors host h sector size (suc n) lba w current found =
      let read = read_sectors host.vectorized h w true lba 1 in
      elim read.0 [
        | none ↦ done (leave h read.1 none)
        | some r ↦ overwrite current r.0 >>= λ block.
            count_entries (suc sector) sector size block 0 0 >>= λ count.
            entries_on block 0 count (length found) >>= λ entries.
            list_sectors host h sector size n (add64 lba 1) read.1 block (found ++ entries)
      ]

  -- The checksum of the table, and its partitions.
  unfoldable pub check_table :
      Host
      → DriveHandle
      → (sector : ℕ) → GptHeader
      → (n_sectors : ℕ) → CrcTable
      → Option (List ℕ × ℕ) × Drives D
      → Outcome (Registered D)
  unfolding leave overwrite list_sectors
  check_table host h sector header n_sectors t (none, w) = done (leave h w none)
  check_table host h sector header n_sectors t (some r, w) =
      let bytes = mul64 sector n_sectors in
      overwrite (host.fresh bytes) r.0 >>= λ current.
      if not (leb bytes (length current))
      then fault
      else if not ((crc32_bytes (take bytes current) t).0 == header.partition_table_crc32)
      then done (leave h w none)
      else list_sectors host h sector header.sz_partition_entry n_sectors header.partition_entry_lba
          w current []

  -- Division by 0 is a fault.
  unfoldable pub read_table :
      Host → DriveHandle → Drives D → (sector : ℕ) → GptHeader → CrcTable → Outcome (Registered D)
  unfolding check_table
  read_table host h w sector header t =
      let per_sector = sector / header.sz_partition_entry in
      let n = header.n_partition_entries in
      let n_sectors = n / per_sector + (if n % per_sector == 0 then 0 else 1) in
      if (header.sz_partition_entry == 0) || (per_sector == 0)
      then fault
      else check_table host h sector header n_sectors t
          (read_sectors host.vectorized h w true header.partition_entry_lba n_sectors)

  -- The checksum of the header, and at most `retries` times the alternate header in its place.
  unfoldable pub check_header :
      Host
      → DriveHandle
      → (sector retries : ℕ) → CrcTable
      → Drives D
      → List ℕ
      → Outcome (Registered D)
  unfolding leave overwrite header_at read_table
  check_header host h sector zero t w block = header_at block >>= λ header.
      let sum = crc32_bytes header.cleared t in
      if sum.0 == header.header_crc32
      then read_table host h w sector header sum.1
      else done (leave h w none)
  check_header host h sector (suc retries) t w block = header_at block >>= λ header.
      let sum = crc32_bytes header.cleared t in
      let read = read_sectors host.vectorized h w true header.alternate_lba 1 in
      elim (sum.0 == header.header_crc32) [
        | true ↦ read_table host h w sector header sum.1
        | false ↦ elim read.0 [
          | none ↦ done (leave h read.1 none)
          | some r ↦ overwrite block r.0 >>= check_header host h sector retries sum.1 read.1
        ]
      ]

  -- What follows the first read.
  unfoldable pub gpt_partitions : Host → CrcTable → Continue D
  unfolding leave field check_header
  gpt_partitions host t h w sector block = field block 0 8 >>= λ signature.
      if not (signature == gpt_signature)
      then done (leave h w none)
      else check_header host h sector 1 t w block

  -- With both results asked for.
  unfoldable pub register_gpt_partitions_on_drive :
      Host → ℕ → CrcTable → Drives D → Outcome (Registered D)
  unfolding first_sector gpt_partitions
  register_gpt_partitions_on_drive host drive_id t w =
      first_sector host drive_id 1 w (gpt_partitions host t)
