-- ===== src/Tests/Partitions.antt =====
-- A drive with a sector of 128 bytes for each part of GPT, and one with a sector of MBR.
use obos_old.Prelude.{
  ℕ, zero, suc, ◌≡◌, ◌≢◌, refl, ◌∙◌, true, false, List, [], ◌∷◌, ◌++◌, some, arith, ◌==◌, inl,
  if◌then◌else◌,
}
use obos_old.Outcome.{done, fault, hang}
use obos_old.CString.{get_mount_id, str_contains, str_count_to_char}
use obos_old.Links.{empty_header}
use obos_old.Vfs.{success}
use obos_old.Vfs.Drives.{Drives, find_entry}
use obos_old.Vfs.DriveHandle.{
  DriveHandle, close_drive, open_drive, query_info, read_sectors, default_handle, attach_drive,
  open_on, drive_id_of, partition_id_of, past_disk, past_partition, copied,
}
use obos_old.Partitions.{
  Host, PartitionInfo, little_endian, field, overwrite, leave, first_sector, after_query,
  after_read,
}
use obos_old.Partitions.FirstRead.{IsRead, first_sector-IsRead}
use obos_old.Partitions.Crc.{CrcTable, complement, crc_bit, crc32_bytes, crc32_bytes_from_previous}
use obos_old.Partitions.Crc.Register.{shift_register}
use obos_old.Partitions.Crc.Bitwise.{IsBytes, IsReady, crc32_bytes-shift_register}
use obos_old.Partitions.Crc.Pieces.{crc32_bytes_from_previous-append}
use obos_old.Partitions.Mbr.{is_active, register_mbr_partitions_on_drive}
use obos_old.Partitions.Active.{
  number_in, part_at, actives, active_parts, register_mbr_partitions_on_drive-overrun,
}
use obos_old.Partitions.Verified.{Verified, register_gpt_partitions_on_drive-Verified}
use obos_old.Partitions.Ends.{register_gpt_partitions_on_drive-returns}
use obos_old.Partitions.Gpt.{
  header_at, count_entries, entries_on, list_sectors, check_table, read_table, check_header,
  gpt_signature, all_zero, gpt_partitions, register_gpt_partitions_on_drive,
}

abbrev zeros : ℕ → List ℕ
zeros zero = []
zeros (suc n) = 0 ∷ zeros n

-- "123456789"
abbrev digits_text : List ℕ
digits_text = 0x31 ∷ 0x32 ∷ 0x33 ∷ 0x34 ∷ 0x35 ∷ 0x36 ∷ 0x37 ∷ 0x38 ∷ 0x39 ∷ []

abbrev no_table : CrcTable
no_table = record { initialized = false; crctab = [] }

check_value : (crc32_bytes digits_text no_table).0 ≡ 0xcbf4_3926
unfolding crc32_bytes crc_bit
check_value = refl

abbrev gpt_sector : List ℕ
gpt_sector =
    69
      ∷ 70
      ∷ 73
      ∷ 32
      ∷ 80
      ∷ 65
      ∷ 82
      ∷ 84
      ∷ 0
      ∷ 0
      ∷ 1
      ∷ 0
      ∷ 92
      ∷ 0
      ∷ 0
      ∷ 0
      ∷ 223
      ∷ 27
      ∷ 248
      ∷ 128
      ∷ zeros 4
    ++ 1 ∷ zeros 7
    ++ 7 ∷ zeros 7
    ++ 34 ∷ zeros 7
    ++ 90 ∷ zeros 23
    ++ 2 ∷ zeros 7
    ++ 1 ∷ 0 ∷ 0 ∷ 0 ∷ 128 ∷ 0 ∷ 0 ∷ 0 ∷ 47 ∷ 64 ∷ 244 ∷ 190 ∷ zeros 36
    ++ []

abbrev table_sector : List ℕ
table_sector =
    1
      ∷ 1
      ∷ 1
      ∷ 1
      ∷ 1
      ∷ 1
      ∷ 1
      ∷ 1
      ∷ 1
      ∷ 1
      ∷ 1
      ∷ 1
      ∷ 1
      ∷ 1
      ∷ 1
      ∷ 1
      ∷ 2
      ∷ 2
      ∷ 2
      ∷ 2
      ∷ 2
      ∷ 2
      ∷ 2
      ∷ 2
      ∷ 2
      ∷ 2
      ∷ 2
      ∷ 2
      ∷ 2
      ∷ 2
      ∷ 2
      ∷ 2
      ∷ 40
      ∷ zeros 7
    ++ 99 ∷ zeros 87
    ++ []

digits_text-IsBytes : IsBytes digits_text
unfolding IsBytes
digits_text-IsBytes = ground arith

no_table-IsReady : IsReady no_table
unfolding IsReady
no_table-IsReady = inl refl

crc32_bytes-shift_register_example :
    (crc32_bytes digits_text no_table).0 ≡ complement (shift_register digits_text 0xffff_ffff)
crc32_bytes-shift_register_example =
    crc32_bytes-shift_register digits_text no_table digits_text-IsBytes no_table-IsReady

crc32_bytes_from_previous-append_example :
    (crc32_bytes_from_previous
      (0x30 ∷ [])
      (crc32_bytes digits_text no_table).0
      (crc32_bytes digits_text no_table).1).0
    ≡ (crc32_bytes (digits_text ++ 0x30 ∷ []) no_table).0
crc32_bytes_from_previous-append_example =
    crc32_bytes_from_previous-append digits_text (0x30 ∷ []) no_table digits_text-IsBytes
      no_table-IsReady

-- A boot sector with a partition in its first and in its third entry.
abbrev mbr_sector : List ℕ
mbr_sector =
    zeros 446
    ++ 0x80 ∷ zeros 7
    ++ 8 ∷ zeros 3
    ++ 58 ∷ zeros 3
    ++ zeros 16
    ++ 0x80 ∷ zeros 7
    ++ 60 ∷ zeros 3
    ++ 90 ∷ zeros 3
    ++ zeros 16
    ++ 0x55 ∷ 0xaa ∷ []

-- The sectors of a drive, of the given size.
abbrev disk : ℕ → (ℕ → List ℕ) → Drives ℕ
disk size sectors = record {
  drive = λ p. record {
    next = 0;
    drive_id = 0;
    first_partition = 0;
    n_partitions = 0;
    refs = empty_header;
  };
  partition = λ p. record {
    next = 0;
    partition_id = 0;
    lba_offset = 0;
    size_sectors = 0;
    friendly_filesystem_name = [];
    refs = empty_header;
  };
  is_partition = λ p. false;
  storage_driver = λ p. record {
    query_disk_info = λ d id n s. (true, 100, size);
    read_sectors = λ d id lba n. some (sectors lba, n);
    write_sectors = λ d id lba n bytes. (some n, d);
  };
  drives_head = 10;
  links = λ p. record { next = 0; prev = 0 };
  holder = λ p. 0;
  devices = 0;
  last_error = success;
}

-- "D0:/", and blocks of at least 24 bytes for a partition, or of just the bytes asked for.
abbrev host : (ℕ → ℕ) → Host
host usable = record {
  drive_path = λ id. b'D' ∷ b'0' ∷ b':' ∷ b'/' ∷ [];
  vectorized = false;
  this = 30;
  drive_link = 40;
  partition_link = 50;
  fuel = 4;
  fresh = zeros;
  usable = usable;
  uninitialized = 0;
}

abbrev mbr_disk : Drives ℕ
mbr_disk = disk 512 (λ lba. mbr_sector)

abbrev gpt_disk : Drives ℕ
gpt_disk = disk 128 (λ lba. if lba == 2 then table_sector else gpt_sector)

abbrev reader : DriveHandle
reader = record {
  node = 10;
  handle_node = 0;
  drive_node = 10;
  drive_handle_node = 40;
  can_write = false;
  closed = false;
}

abbrev opened : Drives ℕ → Drives ℕ
opened w = (attach_drive 30 40 default_handle w 10).1

reads_mbr :
    (usable : ℕ → ℕ) → IsRead (host usable) 0 0 mbr_disk reader (opened mbr_disk) 512 mbr_sector
unfolding open_drive open_on attach_drive drive_id_of partition_id_of get_mount_id str_contains
    str_count_to_char find_entry query_info read_sectors overwrite past_disk past_partition copied
reads_mbr usable = record {
  found = true;
  count = 100;
  partition_count = some 0;
  opened_drives = opened mbr_disk;
  queried_drives = opened mbr_disk;
  bytes = mbr_sector;
  n_read = 1;
  opens = refl;
  queries = refl;
  reads = refl;
  arrives = refl;
}

reads_gpt : IsRead (host (λ n. n)) 0 1 gpt_disk reader (opened gpt_disk) 128 gpt_sector
unfolding open_drive open_on attach_drive drive_id_of partition_id_of get_mount_id str_contains
    str_count_to_char find_entry query_info read_sectors overwrite past_disk past_partition copied
reads_gpt = record {
  found = true;
  count = 100;
  partition_count = some 0;
  opened_drives = opened gpt_disk;
  queried_drives = opened gpt_disk;
  bytes = gpt_sector;
  n_read = 1;
  opens = refl;
  queries = refl;
  reads = refl;
  arrives = refl;
}

signed : number_in mbr_sector 510 2 ≡ 0xaa55
unfolding number_in little_endian
signed = refl

abbrev partition : (id lba_offset size_sectors : ℕ) → PartitionInfo
partition id lba_offset size_sectors = record {
  id = id;
  lba_offset = lba_offset;
  size_sectors = size_sectors;
}

first_active : active_parts mbr_sector ≡ part_at mbr_sector 446 ∷ part_at mbr_sector 478 ∷ []
unfolding active_parts actives part_at number_in little_endian is_active
first_active = refl

register_mbr_partitions_on_drive-overrun_example :
    register_mbr_partitions_on_drive (host (λ n. n)) 0 mbr_disk ≡ fault
register_mbr_partitions_on_drive-overrun_example =
    register_mbr_partitions_on_drive-overrun (host (λ n. n)) 0 mbr_disk reader (opened mbr_disk) 512
      mbr_sector (part_at mbr_sector 446) (part_at mbr_sector 478 ∷ []) (reads_mbr (λ n. n))
      (omega arith) signed (omega arith) first_active

registered :
    register_gpt_partitions_on_drive (host (λ n. n)) 0 no_table gpt_disk
    ≡ done (some (partition 0 40 59 ∷ []), (close_drive reader (opened gpt_disk)).2)
unfolding register_gpt_partitions_on_drive first_sector after_query after_read gpt_partitions
    check_header header_at read_table check_table list_sectors count_entries entries_on crc32_bytes
    crc_bit leave field little_endian all_zero read_sectors overwrite past_disk past_partition
    copied attach_drive
registered =
    first_sector-IsRead (host (λ n. n)) 0 1 gpt_disk reader (opened gpt_disk) 128 gpt_sector
      (gpt_partitions (host (λ n. n)) no_table) reads_gpt
    ∙ refl

register_gpt_partitions_on_drive-Verified_example :
    (field gpt_sector 0 8 ≡ done gpt_signature)
    × Verified (host (λ n. n)) reader 128 1 (opened gpt_disk) gpt_sector (partition 0 40 59 ∷ [])
register_gpt_partitions_on_drive-Verified_example =
    register_gpt_partitions_on_drive-Verified (host (λ n. n)) 0 no_table gpt_disk reader
      (opened gpt_disk) 128 gpt_sector (partition 0 40 59 ∷ [])
      (close_drive reader (opened gpt_disk)).2 reads_gpt no_table-IsReady registered

register_gpt_partitions_on_drive-returns_example :
    register_gpt_partitions_on_drive (host (λ n. n)) 0 no_table gpt_disk ≢ hang
register_gpt_partitions_on_drive-returns_example =
    register_gpt_partitions_on_drive-returns (host (λ n. n)) 0 no_table gpt_disk reader
      (opened gpt_disk) 128 gpt_sector reads_gpt
