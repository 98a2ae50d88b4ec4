-- ===== src/Vfs/Drives.antt =====
-- The drives and partitions that drive handles refer to: DriveEntry, PartitionEntry and the lists of
-- handles in oboskrnl/vfs/vfsNode.h. Nodes are addresses, 0 is nullptr. A storage driver is code
-- that the kernel loads: its functions are parameters, over the state `D` of its devices.
pub mod Search
use obos_old.Prelude.{ℕ, zero, suc, Bool, true, false, List, Option, ◌==◌, if◌then◌else◌}
use obos_old.Outcome.{Outcome, done, hang}
use obos_old.CString.{CString}
use obos_old.Links.{Links, Header, ListState}
use obos_old.Vfs.{Error}

pub record PartitionEntry : Type 0 where
  pub next : ℕ
  pub partition_id : ℕ
  pub lba_offset : ℕ
  pub size_sectors : ℕ
  pub friendly_filesystem_name : CString
  pub refs : Header

pub record DriveEntry : Type 0 where
  pub next : ℕ
  pub drive_id : ℕ
  pub first_partition : ℕ
  pub n_partitions : ℕ
  pub refs : Header

-- What the kernel calls in a storage driver: QueryDiskInfo, with its result and the sector count and
-- sector size behind it, given what they were before, ReadSectors with the bytes and the number of sectors read, and
-- WriteSectors with the number of sectors written.
pub record StorageDriver (D : Type 0) : Type 0 where
  pub query_disk_info : D → (drive_id n_sectors sizeof_sector : ℕ) → Bool × ℕ × ℕ
  pub read_sectors : D → (drive_id lba_offset n_sectors : ℕ) → Option (List ℕ × ℕ)
  pub write_sectors : D → (drive_id lba_offset n_sectors : ℕ) → List ℕ → Option ℕ × D

pub record Drives (D : Type 0) : Type 0 where
  pub drive : ℕ → DriveEntry
  pub partition : ℕ → PartitionEntry
  pub is_partition : ℕ → Bool
  pub storage_driver : ℕ → StorageDriver D
  pub drives_head : ℕ
  pub links : Links
  pub holder : ℕ → ℕ
  pub devices : D
  pub last_error : Error

module _ {D : Type 0} where
  abbrev pub note_error : Error → Drives D → Drives D
  note_error e w = record w { last_error = e }

  abbrev pub drive_refs : Drives D → ℕ → ListState
  drive_refs w p = record { links = w.links; header = (w.drive p).refs }

  abbrev pub partition_refs : Drives D → ℕ → ListState
  partition_refs w p = record { links = w.links; header = (w.partition p).refs }

  abbrev pub with_drive_refs : Drives D → ℕ → ListState → Drives D
  with_drive_refs w p s = record w {
    links = s.links;
    drive = λ q. if q == p then record (w.drive q) { refs = s.header } else w.drive q;
  }

  abbrev pub with_partition_refs : Drives D → ℕ → ListState → Drives D
  with_partition_refs w p s = record w {
    links = s.links;
    partition = λ q. if q == p then record (w.partition q) { refs = s.header } else w.partition q;
  }

-- The loops that look for a drive and for a partition.
unfoldable pub find_entry : (ℕ → Bool) → (ℕ → ℕ) → ℕ → ℕ → Outcome ℕ
find_entry matches next zero node = hang
find_entry matches next (suc fuel) node = elim (node == 0) [
  | true ↦ done 0
  | false ↦ elim (matches node) [
    | true ↦ done node
    | false ↦ find_entry matches next fuel (next node)
  ]
]
