-- ===== src/Tests/Drives.antt =====
-- A drive of 100 sectors with one partition, the 20 sectors from 10 on.
use obos_old.Prelude.{
  ℕ, ◌+◌, ◌≤◌, ◌≡◌, refl, ◌≢◌, ◌↔◌, Bool, true, false, [], ◌∷◌, none, some, arith, ◌==◌,
}
use obos_old.Outcome.{done}
use obos_old.CString.{CString, get_mount_id, str_contains, str_count_to_char}
use obos_old.Links.{empty_header}
use obos_old.Links.Chain.{IsChain}
use obos_old.Vfs.{success}
use obos_old.Vfs.Drives.{Drives, StorageDriver, drive_refs, find_entry}
use obos_old.Vfs.DriveHandle.{
  DriveHandle, DriveCall, default_handle, drive_id_of, partition_id_of, open_on, attach_drive,
  attach_partition, open_drive, close_drive, read_sectors,
}
use obos_old.Vfs.DriveHandle.Closing.{close_drive-open_drive}
use obos_old.Vfs.DriveHandle.Sectors.{OnPartition, read_sectors_iff}

-- A driver that counts the writes.
abbrev driver : StorageDriver ℕ
driver = record {
  query_disk_info = λ d id n s. (true, 100, 512);
  read_sectors = λ d id lba n. some (1 ∷ 2 ∷ [], n);
  write_sectors = λ d id lba n bytes. (some n, d + 1);
}

abbrev drives : Drives ℕ
drives = record {
  drive = λ p. record {
    next = 0;
    drive_id = 0;
    first_partition = 20;
    n_partitions = 1;
    refs = empty_header;
  };
  partition = λ p. record {
    next = 0;
    partition_id = 1;
    lba_offset = 10;
    size_sectors = 20;
    friendly_filesystem_name = [];
    refs = empty_header;
  };
  is_partition = λ p. p == 20;
  storage_driver = λ p. driver;
  drives_head = 10;
  links = λ p. record { next = 0; prev = 0 };
  holder = λ p. 0;
  devices = 0;
  last_error = success;
}

-- "0:/", "0P1:/" and "0P2:/"
abbrev whole : CString
whole = b'0' ∷ b':' ∷ b'/' ∷ []

abbrev first : CString
first = b'0' ∷ b'P' ∷ b'1' ∷ b':' ∷ b'/' ∷ []

abbrev missing : CString
missing = b'0' ∷ b'P' ∷ b'2' ∷ b':' ∷ b'/' ∷ []

abbrev on_drive : DriveHandle × Drives ℕ
on_drive = attach_drive 77 50 default_handle drives 10

abbrev whole_handle : DriveHandle
whole_handle = record (on_drive.0) { node = 10; can_write = true; closed = false }

opens_whole :
    open_drive 5 77 50 51 default_handle drives (some (b'D' ∷ whole)) false
    ≡ done (true, whole_handle, on_drive.1)
unfolding open_drive open_on drive_id_of partition_id_of find_entry get_mount_id str_contains
    str_count_to_char attach_drive
opens_whole = refl

abbrev on_partition : DriveCall ℕ Bool
on_partition = attach_partition 51 true on_drive.0 on_drive.1 20

opens_partition :
    open_drive 5 77 50 51 default_handle drives (some (b'D' ∷ first)) true
    ≡ done (true, on_partition.1, on_partition.2)
unfolding open_drive open_on drive_id_of partition_id_of find_entry get_mount_id str_contains
    str_count_to_char attach_drive attach_partition
opens_partition = refl

no_partition_named : partition_id_of whole ≡ none
unfolding partition_id_of str_contains str_count_to_char
no_partition_named = refl

no_handles : IsChain (drive_refs drives 10) []
no_handles = ground arith

close_drive-open_drive_example :
    IsChain (drive_refs on_drive.1 10) (50 ∷ [])
    × ((close_drive whole_handle on_drive.1).0 ≡ true)
    × ((close_drive whole_handle on_drive.1).1 ≡ default_handle)
    × IsChain (drive_refs (close_drive whole_handle on_drive.1).2 10) []
close_drive-open_drive_example =
    close_drive-open_drive 5 77 50 51 drives false whole whole_handle on_drive.1 []
      no_partition_named opens_whole (omega arith) refl (omega arith) no_handles

names_missing : partition_id_of missing ≡ some 2
unfolding partition_id_of get_mount_id str_contains str_count_to_char
names_missing = refl

drive_found :
    find_entry
      (λ q. (drives.drive q).drive_id == drive_id_of missing)
      (λ q. (drives.drive q).next)
      5
      10
    ≡ done 10
unfolding drive_id_of find_entry get_mount_id str_contains str_count_to_char
drive_found = refl

none_found :
    find_entry (λ q. (drives.partition q).partition_id == 2) (λ q. (drives.partition q).next) 5 20
    ≡ done 0
unfolding find_entry
none_found = refl

abbrev partition_handle : DriveHandle
partition_handle = record {
  node = 20;
  handle_node = 51;
  drive_node = 10;
  drive_handle_node = 50;
  can_write = false;
  closed = false;
}

on_partition-OnPartition : OnPartition partition_handle drives 20 1
on_partition-OnPartition = record {
  refers = omega arith;
  opened = refl;
  part = omega arith;
  fits = omega arith;
  part_fits = omega arith;
}

-- The sector behind the partition's last.
read_sectors_iff_example :
    ((read_sectors false partition_handle drives true 20 1).0 ≢ none) ↔ ((21 ≤ 21) × (31 ≤ 101))
read_sectors_iff_example =
    read_sectors_iff partition_handle drives 20 1 false (1 ∷ 2 ∷ [], 1) on_partition-OnPartition
      (omega arith) (omega arith) refl
