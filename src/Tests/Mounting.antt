-- ===== src/Tests/Mounting.antt =====
-- Mounting with a driver of one file, a/b.
use obos_old.Prelude.{
  ℕ, ◌+◌, ◌≡◌, refl, true, false, [], ◌∷◌, none, some, arith, ◌==◌, if◌then◌else◌, Once,
}
use obos_old.Outcome.{done}
use obos_old.CString.{strcmp}
use obos_old.Links.{empty_header}
use obos_old.Vfs.{success}
use obos_old.Vfs.Mounting.{
  NodeTree, nothing, FoundFile, FilesystemDriver, setup_mount_point_entries,
}
use obos_old.Vfs.Mounting.Paths.{Answering}
use obos_old.Vfs.Mounting.Files.{HasAll, IsSplit, Tells, behind, setup_mount_point_entries-HasAll}
use obos_old.Vfs.Mounting.Table.{
  Mounted, MountState, MountHost, mounted, ids_of, is_mounted_at, existing_mount, mount_at, mount,
}
use obos_old.Vfs.Mounting.Table.Ids.{mount-Once}

abbrev file_ab : FoundFile
file_ab = record { filepath = b'a' ∷ b'/' ∷ b'b' ∷ []; filesize = 5; attribs = 16 }

-- The state counts the files that have been told; `a` is a directory.
abbrev driver : FilesystemDriver ℕ
driver = record {
  is_filesystem = true;
  is_initrd_filesystem = true;
  file_iterator_create = λ s. (some 7, 0);
  file_iterator_next = λ iter s. (some (if s == 0 then some file_ab else none), s + 1);
  file_iterator_close = λ iter s. (true, s);
  query_file_properties = λ path. some (if strcmp path (b'a' ∷ []) then (0, 4) else (5, 16));
}

driver-Answering : Answering driver.query_file_properties
unfolding Answering
driver-Answering path = (if strcmp path (b'a' ∷ []) then (0, 4) else (5, 16), refl)

driver-Tells : Tells driver 7 0 (file_ab ∷ [])
unfolding Tells IsSplit
driver-Tells = (refl, (((b'a' ∷ []) ∷ (b'b' ∷ []) ∷ []), (refl, (refl, (refl, tt)))), refl)

setup_mount_point_entries-HasAll_example :
    (after : NodeTree) × (setup_mount_point_entries driver 2 false 3
      ≡ done (some after, (driver.file_iterator_close 7 (behind driver 7 0 (file_ab ∷ []))).1))
    × HasAll (file_ab ∷ []) after
setup_mount_point_entries-HasAll_example =
    setup_mount_point_entries-HasAll driver 2 7 false 3 0 (file_ab ∷ []) refl refl driver-Answering
      driver-Tells refl (omega arith)

abbrev a_point : ℕ → Mounted
a_point id = record { id = id; is_initrd = true; partition = none; entries = nothing }

abbrev state : MountState ℕ ℕ
state = record {
  points = a_point 1 ∷ [];
  drives = record {
    drive = λ p. record {
      next = 0;
      drive_id = 0;
      first_partition = 0;
      n_partitions = 0;
      refs = empty_header;
    };
    partition = λ p. record {
      next = 0;
      partition_id = 0;
      lba_offset = 0;
      size_sectors = 0;
      friendly_filesystem_name = [];
      refs = empty_header;
    };
    is_partition = λ p. false;
    storage_driver = λ p. record {
      query_disk_info = λ d id n s. (true, 100, 512);
      read_sectors = λ d id lba n. none;
      write_sectors = λ d id lba n bytes. (none, d);
    };
    drives_head = 0;
    links = λ p. record { next = 0; prev = 0 };
    holder = λ p. 0;
    devices = 0;
    last_error = success;
  };
  driver_state = 0;
}

abbrev host : MountHost ℕ
host = record {
  initrd_driver = driver;
  filesystem_driver = λ node. none;
  partition_path = λ d p. [];
  this = 30;
  drive_link = 40;
  partition_link = 50;
  fuel = 4;
}

-- The initial RAM disk a second time, at an id of the caller's choice.
mounts_again :
    mount host 5 0 0 true false state
    ≡ done (mounted 5, record state { points = a_point 1 ∷ a_point 5 ∷ [] })
unfolding mount mount_at is_mounted_at existing_mount
mounts_again = refl

mount-Once_example : Once (ids_of (a_point 1 ∷ a_point 5 ∷ []))
mount-Once_example =
    mount-Once host 5 0 0 true false state (mounted 5)
      (record state { points = a_point 1 ∷ a_point 5 ∷ [] }) (refl, tt) (omega arith) mounts_again

-- The table has one entry, whose id is the one that is chosen without a wish.
chooses_taken :
    mount host 0xffff_ffff 0 0 true false state
    ≡ done (mounted 1, record state { points = a_point 1 ∷ a_point 1 ∷ [] })
unfolding mount mount_at is_mounted_at existing_mount
chooses_taken = refl
