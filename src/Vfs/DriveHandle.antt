-- ===== src/Vfs/DriveHandle.antt =====
-- DriveHandle: oboskrnl/vfs/devManip/driveHandle.h and driveHandle.cpp. A method takes the handle
-- and the drives' state and gives them back with its result. The memory that a driver has read into is
-- freed after the copy, outside this model.
pub mod Opening
pub mod Closing
pub mod Sectors
use obos_old.Prelude.{
  ℕ, suc, ◌+◌, ◌*◌, ◌/◌, Bool, true, false, ◌&&◌, ◌||◌, not, List, [], ◌∷◌, Option, none, some,
  ◌==◌, ltb, if◌then◌else◌, take, drop, add64, mul64,
}
use obos_old.Outcome.{Outcome, done, ◌>>=◌}
use obos_old.CString.{CString, str_contains, str_count_to_char, get_mount_id}
use obos_old.Links.{push_back, unlink}
use obos_old.Vfs.{
  Error, invalid_parameter, already_exists, unopened_handle, vfs_file_not_found, vfs_read_aborted,
  vfs_write_aborted, vfs_read_only, vfs_handle_not_referring_to_partition, vfs_driver_failure,
}
use obos_old.Vfs.Drives.{
  Drives, StorageDriver, note_error, drive_refs, partition_refs, with_drive_refs,
  with_partition_refs, find_entry,
}

pub record DriveHandle : Type 0 where
  pub node : ℕ
  pub handle_node : ℕ
  pub drive_node : ℕ
  pub drive_handle_node : ℕ
  pub can_write : Bool
  pub closed : Bool

-- A handle as it is constructed.
abbrev pub default_handle : DriveHandle
default_handle = record {
  node = 0;
  handle_node = 0;
  drive_node = 0;
  drive_handle_node = 0;
  can_write = false;
  closed = true;
}

-- What a call returns, the handle and the drives behind it.
abbrev pub DriveCall : Type 0 → Type 0 → Type 0
DriveCall D A = A × DriveHandle × Drives D

-- The methods' first test.
abbrev pub unopened : DriveHandle → Bool
unopened h = (h.node == 0) || h.closed

abbrev pub is_partition_handle : DriveHandle → Bool
is_partition_handle h = not (h.drive_node == h.node)

-- The numbers in `d[Pp]:/`, what stands behind the `D`.
unfoldable pub drive_id_of : CString → ℕ
drive_id_of name =
    get_mount_id name
      (if str_contains name b'P' then str_count_to_char name b'P' else str_count_to_char name b':')

unfoldable pub partition_id_of : CString → Option ℕ
partition_id_of name =
    let rest = drop (str_count_to_char name b'P' + 1) name in
    if str_contains name b'P' then some (get_mount_id rest (str_count_to_char rest b':')) else none

-- The bytes that the copy takes from what the driver read: whole 64-byte blocks where the kernel
-- has the vectorized copy.
unfoldable pub copied : Bool → List ℕ → ℕ → List ℕ
copied vectorized bytes size = take (if vectorized then size / 64 * 64 else size) bytes

module _ {D : Type 0} where
  abbrev refused : Error → DriveHandle → Drives D → DriveCall D Bool
  refused e h w = (false, h, note_error e w)

  -- The handle joins the drive's list; `dnode` is the address of its new list node.
  unfoldable pub attach_drive : ℕ → ℕ → DriveHandle → Drives D → ℕ → DriveHandle × Drives D
  attach_drive this dnode h w drive =
      let linked = with_drive_refs w drive (push_back dnode (drive_refs w drive)) in
      (
        record h { drive_handle_node = dnode; drive_node = drive },
        record linked { holder = λ p. if p == dnode then this else w.holder p },
      )

  -- The rest of OpenDrive for a partition. Its list node does not get the handle's address.
  unfoldable pub attach_partition : ℕ → Bool → DriveHandle → Drives D → ℕ → DriveCall D Bool
  attach_partition pnode read_only h w part =
      if part == 0 then refused vfs_file_not_found h w else (
        true,
        record h { can_write = not read_only; closed = false; node = part; handle_node = pnode },
        let linked = with_partition_refs w part (push_back pnode (partition_refs w part)) in
            record linked { holder = λ p. if p == pnode then 0 else w.holder p },
      )

  -- The rest of OpenDrive once the drive is known.
  unfoldable pub open_on :
      ℕ → ℕ → ℕ → ℕ → Bool → DriveHandle → Drives D → Option ℕ → ℕ → Outcome (DriveCall D Bool)
  open_on fuel this dnode pnode read_only h w partition_id drive =
      if drive == 0
      then done (refused vfs_file_not_found h w)
      else let (h1, w1) = attach_drive this dnode h w drive in
        elim partition_id [
          | none ↦
              done (true, record h1 { node = drive; can_write = not read_only; closed = false }, w1)
          | some id ↦
              find_entry (λ p. (w1.partition p).partition_id == id) (λ p. (w1.partition p).next)
                fuel (w1.drive drive).first_partition
              >>= λ part. done (attach_partition pnode read_only h1 w1 part)
        ]

  -- `this` is the handle's address, `dnode` and `pnode` what the calls of `new` return.
  unfoldable pub open_drive :
      ℕ → ℕ → ℕ → ℕ → DriveHandle → Drives D → Option CString → Bool → Outcome (DriveCall D Bool)
  open_drive fuel this dnode pnode h w path read_only =
      if not (h.node == 0) || not h.closed then done (refused already_exists h w) else elim path [
        | none ↦ done (refused invalid_parameter h w)
        | some p ↦ elim p [
          | [] ↦ done (refused invalid_parameter h w)
          | c ∷ name ↦
              if not (c == b'D')
              then done (refused invalid_parameter h w)
              else find_entry (λ q. (w.drive q).drive_id == drive_id_of name)
                  (λ q. (w.drive q).next) fuel w.drives_head
                >>= open_on fuel this dnode pnode read_only h w (partition_id_of name)
        ]
      ]

  -- Where the driver is told to start: `lbaOffset`.
  abbrev pub disk_offset : DriveHandle → Drives D → ℕ → ℕ
  disk_offset h w lba_offset =
      if is_partition_handle h then add64 lba_offset (w.partition h.node).lba_offset else lba_offset

  abbrev pub partition_size : DriveHandle → Drives D → ℕ
  partition_size h w = if is_partition_handle h then (w.partition h.node).size_sectors else 0

  -- The two bounds that ReadSectors and WriteSectors test; `n_sectors` is what the sector count
  -- holds when the driver is asked for it.
  unfoldable pub past_disk : ℕ → DriveHandle → Drives D → ℕ → ℕ → Bool
  past_disk n_sectors h w lba_offset count =
      let driver = w.storage_driver h.drive_node in
      let info = driver.query_disk_info w.devices (w.drive h.drive_node).drive_id n_sectors 0 in
      ltb (add64 info.1 1) (add64 (disk_offset h w lba_offset) count)

  unfoldable pub past_partition : DriveHandle → Drives D → ℕ → ℕ → Bool
  past_partition h w lba_offset count =
      let part = w.partition h.node in
      is_partition_handle h
      && ltb (add64 (add64 part.lba_offset part.size_sectors) 1)
          (add64 (disk_offset h w lba_offset) count)

  -- On success the bytes that arrive in the buffer and the number of sectors read.
  unfoldable pub read_sectors :
      Bool
      → DriveHandle
      → Drives D
      → (has_buffer : Bool) (lba_offset count : ℕ) → Option (List ℕ × ℕ) × Drives D
  read_sectors vectorized h w has_buffer lba_offset count =
      if unopened h
      then (none, note_error unopened_handle w)
      else if not has_buffer || (count == 0)
      then (none, note_error invalid_parameter w)
      else if past_disk 0 h w lba_offset count || past_partition h w lba_offset count
      then (none, note_error vfs_read_aborted w)
      else let driver = w.storage_driver h.drive_node in
        let id = (w.drive h.drive_node).drive_id in
        let info = driver.query_disk_info w.devices id 0 0 in
        elim (driver.read_sectors w.devices id (disk_offset h w lba_offset) count) [
          | none ↦ (none, note_error vfs_read_aborted w)
          | some r ↦ (some (copied vectorized r.0 (mul64 r.1 info.2), r.1), w)
        ]

  -- On success the number of sectors written.
  unfoldable pub write_sectors :
      DriveHandle → Drives D → Option (List ℕ) → (lba_offset count : ℕ) → Option ℕ × Drives D
  write_sectors h w buffer lba_offset count =
      if unopened h then (none, note_error unopened_handle w) else elim buffer [
        | none ↦ (none, note_error invalid_parameter w)
        | some bytes ↦
            if not h.can_write
            then (none, note_error vfs_read_only w)
            else if past_disk (partition_size h w) h w lba_offset count
            then (none, note_error vfs_write_aborted w)
            else if past_partition h w lba_offset count
            then (none, note_error vfs_read_aborted w)
            else let driver = w.storage_driver h.drive_node in
              let id = (w.drive h.drive_node).drive_id in
              let written =
                driver.write_sectors w.devices id (disk_offset h w lba_offset) count bytes in
              let w1 : Drives D = record w { devices = written.1 } in
              elim written.0 [
                | none ↦ (none, note_error vfs_write_aborted w1)
                | some n ↦ (some n, w1)
              ]
      ]

  unfoldable pub get_drive_id : DriveHandle → Drives D → ℕ × Drives D
  get_drive_id h w =
      if unopened h
      then (0xffff_ffff, note_error unopened_handle w)
      else ((w.drive h.drive_node).drive_id, w)

  -- `return false` gives the id 0.
  unfoldable pub get_partition_id : DriveHandle → Drives D → ℕ × Drives D
  get_partition_id h w =
      if unopened h
      then (0xffff_ffff, note_error unopened_handle w)
      else if not (w.is_partition h.node)
      then (0, note_error vfs_handle_not_referring_to_partition w)
      else ((w.partition h.node).partition_id, w)

  -- On success the sector count, the sector size and, for a whole drive, the partition count.
  unfoldable pub query_info : DriveHandle → Drives D → Option (ℕ × ℕ × Option ℕ) × Drives D
  query_info h w =
      if unopened h
      then (none, note_error unopened_handle w)
      else let drive = w.drive h.drive_node in
        let driver = w.storage_driver h.drive_node in
        let info = driver.query_disk_info w.devices drive.drive_id 0 0 in
        if not info.0 then (none, note_error vfs_driver_failure w) else (
          some (info.1, info.2, if is_partition_handle h then none else some drive.n_partitions),
          w,
        )

  -- On success the size, the offset and the name of the partition's file system.
  unfoldable pub query_partition_info : DriveHandle → Drives D → Option (ℕ × ℕ × CString) × Drives D
  query_partition_info h w =
      if unopened h
      then (none, note_error unopened_handle w)
      else if not (is_partition_handle h)
      then (none, note_error vfs_handle_not_referring_to_partition w)
      else let part = w.partition h.node in
        (some (part.size_sectors, part.lba_offset, part.friendly_filesystem_name), w)

  unfoldable pub close_drive : DriveHandle → Drives D → DriveCall D Bool
  close_drive h w =
      if unopened h
      then refused unopened_handle h w
      else let w1 =
          with_drive_refs w h.drive_node (unlink h.drive_handle_node (drive_refs w h.drive_node)) in
        (
          true,
          record default_handle { can_write = false; closed = true },
          if is_partition_handle h
              then with_partition_refs w1 h.node (unlink h.handle_node (partition_refs w1 h.node))
              else w1,
        )
