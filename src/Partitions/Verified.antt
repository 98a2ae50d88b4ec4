-- ===== src/Partitions/Verified.antt =====
-- What RegisterGPTPartitionsOnDrive has verified when it succeeds.
use obos_old.Prelude.{
  ℕ, zero, suc, ◌≡◌, refl, sym, ◌∙◌, ap, inl, inr, true, Bool-cases, Option-cases, List, [], Option,
  none, some, length, ◌/◌, ◌||◌, take, mul64, eq-of-test, ◌==◌, leb,
}
use obos_old.Outcome.{done, >>=-eq-done}
use obos_old.Vfs.Drives.{Drives}
use obos_old.Vfs.DriveHandle.{DriveHandle, read_sectors}
use obos_old.Partitions.{PartitionInfo, Host, field, overwrite, leave}
use obos_old.Partitions.FirstRead.{IsRead, first_sector-IsRead}
use obos_old.Partitions.Numbered.{IsNumbered, list_sectors-IsNumbered}
use obos_old.Partitions.Crc.{CrcTable, crc_init, crc, crc32_bytes}
use obos_old.Partitions.Crc.Bitwise.{IsReady, ensure_table-crc_init}
use obos_old.Partitions.Gpt.{
  GptHeader, header_at, check_table, read_table, check_header, gpt_signature, gpt_partitions,
  register_gpt_partitions_on_drive,
}

sum-crc_init :
    (bytes : List ℕ) (t : CrcTable)
    → IsReady t
    → (crc32_bytes bytes t).0 ≡ crc crc_init bytes 0xffff_ffff
unfolding crc32_bytes
sum-crc_init bytes t ready = rw (ensure_table-crc_init t ready) refl

crc32_bytes-IsReady : (bytes : List ℕ) (t : CrcTable) → IsReady t → IsReady (crc32_bytes bytes t).1
unfolding crc32_bytes IsReady
crc32_bytes-IsReady bytes t ready = inr (ensure_table-crc_init t ready)

module _ {D : Type 0} (host : Host) (h : DriveHandle) (sector : ℕ) where
  -- The partitions' table as it was read behind `w`, and that its checksum is the one that the header
  -- tells.
  pub record IsTable (w : Drives D) (header : GptHeader) : Type 0 where
    n_sectors : ℕ
    r : List ℕ × ℕ
    current : List ℕ
    reads : (read_sectors host.vectorized h w true header.partition_entry_lba n_sectors).0 ≡ some r
    arrives : overwrite (host.fresh (mul64 sector n_sectors)) r.0 ≡ done current
    sums :
        crc crc_init (take (mul64 sector n_sectors) current) 0xffff_ffff
        ≡ header.partition_table_crc32

  check_table-IsTable :
      (header : GptHeader) (n_sectors : ℕ) (t : CrcTable) (w : Drives D)
      (read : Option (List ℕ × ℕ) × Drives D) (partitions : List PartitionInfo) (w' : Drives D)
      → IsReady t
      → (read_sectors host.vectorized h w true header.partition_entry_lba n_sectors) ≡ read
      → check_table host h sector header n_sectors t read ≡ done (some partitions, w')
      → IsTable w header × IsNumbered 0 partitions
  unfolding check_table leave IsNumbered
  check_table-IsTable header n_sectors t w (none, w1) partitions w' ready got e = absurd (cc e)
  check_table-IsTable header n_sectors t w (some r, w1) partitions w' ready got e =
      let bytes = mul64 sector n_sectors in
      let sum : List ℕ → ℕ = λ c. (crc32_bytes (take bytes c) t).0 in
      let (current, arrived, e1) =
        >>=-eq-done (overwrite (host.fresh bytes) r.0) _ (some partitions, w') e in
      elim (Bool-cases (leb bytes (length current))) [
        | inr short ↦ absurd (cc (rw short at e1))
        | inl long ↦ elim (Bool-cases (sum current == header.partition_table_crc32)) [
          | inr wrong ↦ absurd (cc (rw (long, wrong) at e1))
          | inl right ↦
              let table : IsTable w header = record {
                n_sectors = n_sectors;
                r = r;
                current = current;
                reads = ap (λ (x : Option (List ℕ × ℕ) × Drives D). x.0) got;
                arrives = arrived;
                sums = sym (sum-crc_init (take bytes current) t ready) ∙ eq-of-test _ _ right;
              } in
              (
                table,
                list_sectors-IsNumbered host h sector header.sz_partition_entry n_sectors
                    header.partition_entry_lba w1 current [] partitions w' tt
                    (rw (long, right) at e1),
              )
        ]
      ]

  read_table-IsTable :
      (header : GptHeader) (t : CrcTable) (w : Drives D) (partitions : List PartitionInfo)
      (w' : Drives D)
      → IsReady t
      → read_table host h w sector header t ≡ done (some partitions, w')
      → IsTable w header × IsNumbered 0 partitions
  unfolding read_table
  read_table-IsTable header t w partitions w' ready e =
      let per_sector = sector / header.sz_partition_entry in
      elim (Bool-cases ((header.sz_partition_entry == 0) || (per_sector == 0))) [
        | inl zero_division ↦ absurd (cc (rw zero_division at e))
        | inr whole ↦ check_table-IsTable header _ t w _ partitions w' ready refl (rw whole at e)
      ]

  -- A header whose checksum is the one that it tells, in the block or, after `retries` at most, in what
  -- was read from the place of the alternate header.
  pub data Trusted : ℕ → Drives D → List ℕ → GptHeader → Drives D → Type 0 where
    own :
        {retries : ℕ} {w : Drives D} {block : List ℕ} {header : GptHeader}
        → header_at block ≡ done header
        → crc crc_init header.cleared 0xffff_ffff ≡ header.header_crc32
        → Trusted retries w block header w
    alternate :
        {retries : ℕ} {w w1 : Drives D} {block other : List ℕ} {first header : GptHeader}
        {r : List ℕ × ℕ}
        → header_at block ≡ done first
        → (read_sectors host.vectorized h w true first.alternate_lba 1).0 ≡ some r
        → overwrite block r.0 ≡ done other
        → Trusted retries
            (read_sectors host.vectorized h w true first.alternate_lba 1).1
            other
            header
            w1
        → Trusted (suc retries) w block header w1

  -- What stands behind a success.
  abbrev pub Verified : ℕ → Drives D → List ℕ → List PartitionInfo → Type 0
  Verified retries w block partitions =
      (header : GptHeader) × (w1 : Drives D) × Trusted retries w block header w1
      × IsTable w1 header
      × IsNumbered 0 partitions

  own-Verified :
      (retries : ℕ) (header : GptHeader) (t : CrcTable) (w : Drives D) (block : List ℕ)
      (partitions : List PartitionInfo) (w' : Drives D)
      → IsReady t
      → header_at block ≡ done header
      → ((crc32_bytes header.cleared t).0 == header.header_crc32) ≡ true
      → read_table host h w sector header (crc32_bytes header.cleared t).1
        ≡ done (some partitions, w')
      → Verified retries w block partitions
  own-Verified retries header t w block partitions w' ready at_block right e =
      let (table, ids) =
        read_table-IsTable header (crc32_bytes header.cleared t).1 w partitions w'
          (crc32_bytes-IsReady header.cleared t ready) e in
      let sum = sym (sum-crc_init header.cleared t ready) ∙ eq-of-test _ _ right in
      (header, w, own at_block sum, table, ids)

  check_header-Verified :
      (retries : ℕ) (t : CrcTable) (w : Drives D) (block : List ℕ) (partitions : List PartitionInfo)
      (w' : Drives D)
      → IsReady t
      → check_header host h sector retries t w block ≡ done (some partitions, w')
      → Verified retries w block partitions
  unfolding check_header leave
  check_header-Verified zero t w block partitions w' ready e =
      let (header, at_block, e1) = >>=-eq-done (header_at block) _ (some partitions, w') e in
      elim (Bool-cases ((crc32_bytes header.cleared t).0 == header.header_crc32)) [
        | inr wrong ↦ absurd (cc (rw wrong at e1))
        | inl right ↦
            own-Verified zero header t w block partitions w' ready at_block right (rw right at e1)
      ]
  check_header-Verified (suc retries) t w block partitions w' ready e =
      let (header, at_block, e1) = >>=-eq-done (header_at block) _ (some partitions, w') e in
      let read = read_sectors host.vectorized h w true header.alternate_lba 1 in
      elim (Bool-cases ((crc32_bytes header.cleared t).0 == header.header_crc32)) [
        | inl right ↦
            own-Verified (suc retries) header t w block partitions w' ready at_block right
              (rw right at e1)
        | inr wrong ↦ elim (Option-cases read.0) [
          | inl failed ↦ absurd (cc (rw (wrong, failed) at e1))
          | inr (r, got) ↦
              let (other, arrived, e2) =
                >>=-eq-done (overwrite block r.0) _ (some partitions, w') (rw (wrong, got) at e1) in
              let (last, w1, trusted, table, ids) =
                check_header-Verified retries (crc32_bytes header.cleared t).1 read.1 other
                  partitions w' (crc32_bytes-IsReady header.cleared t ready) e2 in
              (last, w1, alternate at_block got arrived trusted, table, ids)
        ]
      ]

-- When the first read gave a block and RegisterGPTPartitionsOnDrive succeeds, the block begins with
-- the signature; a header that was read from it, or from the place that its header tells for the
-- alternate one, has the checksum that it tells; so has the table of partitions that was read from
-- where this header tells; and the partitions are numbered from 0.
pub register_gpt_partitions_on_drive-Verified :
    {D : Type 0} (host : Host) (drive_id : ℕ) (t : CrcTable) (w : Drives D) (h : DriveHandle)
    (w1 : Drives D) (sector : ℕ) (block : List ℕ) (partitions : List PartitionInfo) (w' : Drives D)
    → IsRead host drive_id 1 w h w1 sector block
    → IsReady t
    → register_gpt_partitions_on_drive host drive_id t w ≡ done (some partitions, w')
    → (field block 0 8 ≡ done gpt_signature) × Verified host h sector 1 w1 block partitions
unfolding register_gpt_partitions_on_drive gpt_partitions leave
register_gpt_partitions_on_drive-Verified host drive_id t w h w1 sector block partitions w' r ready
      e =
    let e1 =
      sym (first_sector-IsRead host drive_id 1 w h w1 sector block (gpt_partitions host t) r) ∙ e in
    let (signature, begins, e2) = >>=-eq-done (field block 0 8) _ (some partitions, w') e1 in
    elim (Bool-cases (signature == gpt_signature)) [
      | inr wrong ↦ absurd (cc (rw wrong at e2))
      | inl right ↦ (
        begins ∙ ap done (eq-of-test signature gpt_signature right),
        check_header-Verified host h sector 1 t w1 block partitions w' ready (rw right at e2),
      )
    ]
