-- ===== src/Partitions.antt =====
-- The partition managers: drivers/x86_64/mbr/main.cpp (Mbr) and drivers/generic/gpt/main.cpp (Gpt, with
-- its checksum in Crc). They read the drive through a handle of their own. What sprintf makes of the
-- drive's number, the memory that is allocated and the uninitialized sector size are parameters; that
-- the memory is given back is outside this model.
pub mod Crc
pub mod Mbr
pub mod Gpt
pub mod FirstRead
pub mod Active
pub mod Numbered
pub mod Verified
pub mod Ends
use obos_old.Prelude.{
  ℕ, zero, suc, ◌+◌, ◌*◌, Bool, true, false, ◌&&◌, List, [], ◌∷◌, ◌++◌, Option, none, some, ◌==◌,
  ltb, leb, if◌then◌else◌, length, get_or, take, drop, add32, mul32,
}
use obos_old.Outcome.{Outcome, done, fault, ◌>>=◌}
use obos_old.CString.{CString}
use obos_old.Vfs.Drives.{Drives}
use obos_old.Vfs.DriveHandle.{
  DriveHandle, default_handle, open_drive, query_info, read_sectors, close_drive,
}

pub record PartitionInfo : Type 0 where
  pub id : ℕ
  pub lba_offset : ℕ
  pub size_sectors : ℕ

-- What the managers take from elsewhere: the text of sprintf, whether the kernel copies by vectors,
-- the addresses of the handle and of its list nodes with the fuel for the searches, the contents of
-- new memory, the bytes in a block that krealloc makes for a size, and what an uninitialized
-- size_t holds.
pub record Host : Type 0 where
  pub drive_path : ℕ → CString
  pub vectorized : Bool
  pub this : ℕ
  pub drive_link : ℕ
  pub partition_link : ℕ
  pub fuel : ℕ
  pub fresh : ℕ → List ℕ
  pub usable : ℕ → ℕ
  pub uninitialized : ℕ

-- `n` bytes from the offset, the lowest first. Outside the block is a fault.
unfoldable pub little_endian : List ℕ → ℕ
little_endian [] = 0
little_endian (b ∷ bytes) = b + 256 * little_endian bytes

unfoldable pub field : List ℕ → ℕ → ℕ → Outcome ℕ
unfolding little_endian
field block offset n =
    if leb (offset + n) (length block)
    then done (little_endian (take n (drop offset block)))
    else fault

-- A read from the drive into a block.
unfoldable pub overwrite : List ℕ → List ℕ → Outcome (List ℕ)
overwrite block bytes =
    if leb (length bytes) (length block) then done (bytes ++ drop (length bytes) block) else fault

-- What a call of a manager gives: the partitions, if the drive is the manager's, and the drives.
abbrev pub Registered : Type 0 → Type 0
Registered D = Option (List PartitionInfo) × Drives D

-- What a manager does with the sector size and the first sector.
abbrev pub Continue : Type 0 → Type 0
Continue D = DriveHandle → Drives D → ℕ → List ℕ → Outcome (Registered D)

module _ {D : Type 0} where
  -- The handle is closed on each way out, by Close or by its destructor.
  unfoldable pub leave : DriveHandle → Drives D → Option (List PartitionInfo) → Registered D
  leave h w partitions = (partitions, (close_drive h w).2)

  -- The first read has ended.
  unfoldable pub after_read :
      Host → DriveHandle → ℕ → Continue D → Option (List ℕ × ℕ) × Drives D → Outcome (Registered D)
  unfolding leave overwrite
  after_read host h sector continue (none, w) = done (leave h w none)
  after_read host h sector continue (some r, w) =
      overwrite (host.fresh sector) r.0 >>= continue h w sector

  -- QueryInfo has answered, or left the sector size as it was.
  unfoldable pub after_query :
      Host
      → ℕ
      → DriveHandle
      → Continue D
      → Option (ℕ × ℕ × Option ℕ) × Drives D
      → Outcome (Registered D)
  unfolding after_read
  after_query host lba h continue (none, w) =
      after_read host h host.uninitialized continue (read_sectors host.vectorized h w true lba 1)
  after_query host lba h continue (some i, w) =
      after_read host h i.1 continue (read_sectors host.vectorized h w true lba 1)

  -- The beginning of both managers: OpenDrive, the sector size and the first read.
  unfoldable pub first_sector :
      Host → (drive_id lba : ℕ) → Drives D → Continue D → Outcome (Registered D)
  unfolding after_query
  first_sector host drive_id lba w continue =
      open_drive host.fuel host.this host.drive_link host.partition_link default_handle w
        (some (host.drive_path drive_id)) true
      >>= λ opened. after_query host lba opened.1 continue (query_info opened.1 opened.2)
