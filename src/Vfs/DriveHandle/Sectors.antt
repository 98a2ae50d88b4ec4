-- ===== src/Vfs/DriveHandle/Sectors.antt =====
-- Which sectors ReadSectors and WriteSectors let through to the driver.
use obos_old.Prelude.{
  ℕ, ◌+◌, ◌≤◌, ◌<◌, ◌≡◌, ◌≢◌, ◌↔◌, Bool, true, false, List, none, some, ltb, u64, arith,
}
use obos_old.Vfs.Drives.{Drives}
use obos_old.Vfs.DriveHandle.{DriveHandle, past_disk, past_partition, read_sectors}

module _ {D : Type 0} (h : DriveHandle) (w : Drives D) (lba_offset count : ℕ) where
  -- An open handle on a partition, and sectors that do not overflow 64 bits.
  pub record OnPartition : Type 0 where
    pub refers : h.node ≢ 0
    pub opened : h.closed ≡ false
    pub part : h.drive_node ≢ h.node
    pub fits : lba_offset + (w.partition h.node).lba_offset + count < u64
    pub part_fits : (w.partition h.node).lba_offset + (w.partition h.node).size_sectors + 1 < u64

  abbrev pub drive_id : ℕ
  drive_id = (w.drive h.drive_node).drive_id

  -- The count that the driver reports.
  abbrev pub disk_sectors : ℕ
  disk_sectors = ((w.storage_driver h.drive_node).query_disk_info w.devices drive_id 0 0).1

  past_disk-at :
      OnPartition
      → disk_sectors + 1 < u64
      → past_disk 0 h w lba_offset count
        ≡ ltb (disk_sectors + 1) (lba_offset + (w.partition h.node).lba_offset + count)
  unfolding past_disk
  past_disk-at o f = ground arith

  past_partition-at :
      OnPartition
      → past_partition h w lba_offset count
        ≡ ltb ((w.partition h.node).size_sectors + 1) (lba_offset + count)
  unfolding past_partition
  past_partition-at o = ground arith

  -- On an open handle of a partition, a read of at least one sector that the driver can make, with
  -- no overflow of 64 bits, succeeds exactly when the sectors end at most one sector behind the
  -- partition and at most one sector behind the disk.
  pub read_sectors_iff :
      (vectorized : Bool) (r : List ℕ × ℕ)
      → OnPartition
      → count ≢ 0
      → disk_sectors + 1 < u64
      → (w.storage_driver h.drive_node).read_sectors w.devices drive_id
          (lba_offset + (w.partition h.node).lba_offset)
          count
        ≡ some r
      → ((read_sectors vectorized h w true lba_offset count).0 ≢ none) ↔ (
          (lba_offset + count ≤ (w.partition h.node).size_sectors + 1)
          × (lba_offset + (w.partition h.node).lba_offset + count ≤ disk_sectors + 1))
  unfolding read_sectors
  read_sectors_iff vectorized r o nz f e = (
    λ ok. (
      ground (arith, past_disk-at o f, past_partition-at o),
      ground (arith, past_disk-at o f, past_partition-at o),
    ),
    λ within no. ground (arith, past_disk-at o f, past_partition-at o),
  )
