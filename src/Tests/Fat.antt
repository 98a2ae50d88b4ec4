-- ===== src/Tests/Fat.antt =====
-- The FAT driver at a directory with a long name, at short names, and at a file of two clusters.
use obos_old.Prelude.{
  ℕ, zero, suc, ◌+◌, ◌-◌, ◌/◌, ◌≡◌, refl, true, false, List, [], ◌∷◌, ◌++◌, Option, some, arith,
  take, drop,
}
use obos_old.Outcome.{done, ◌>>=◌}
use obos_old.CString.{CString, get_mount_id, path_strcmp, str_contains, str_count_to_char}
use obos_old.Links.{empty_header}
use obos_old.Vfs.{success}
use obos_old.Vfs.Drives.{Drives, find_entry}
use obos_old.Vfs.DriveHandle.{
  DriveHandle, attach_drive, copied, default_handle, drive_id_of, open_drive, open_on,
  partition_id_of, past_disk, past_partition, query_info, read_sectors,
}
use obos_old.Partitions.{Host}
use obos_old.Fat.Reading.{
  Partition, destroy_handle, fat32_first_sector_of_cluster, find_cache_entry, read_fat_file,
}
use obos_old.Fat.Reading.Clusters.{Serves, taken, whole}
use obos_old.Fat.Reading.Positions.{IsOpened, read_fat_file-unread, read_fat_file-whole}
use obos_old.Fat.{Bpb, number_at, fat32}
use obos_old.Fat.Directory.{
  CacheEntry, regular, lfn_strlen, lfn_chars, entry_kind, clusters_of, cluster_range, named,
  new_scan, short_name, look_for_entries,
}
use obos_old.Fat.Directory.LongNames.{descending, AreParts, joined, look_for_entries-joined}
use obos_old.Fat.Directory.ShortNames.{IsWord, IsShort, short_name-dotted, short_name-lost}

abbrev zeros : ℕ → List ℕ
zeros zero = []
zeros (suc n) = 0 ∷ zeros n

-- Two sectors of eight bytes for a cluster.
abbrev bpb : Bpb
bpb = record {
  oem_identifier = [];
  bytes_per_sector = 8;
  sectors_per_cluster = 2;
  n_resv_sectors = 1;
  n_fats = 1;
  n_root_directory_entries = 0;
  total_sector_count16 = 0;
  sectors_per_fat16 = 0;
  total_sector_count32 = 100;
  sectors_per_fat32 = 1;
  root_directory_cluster = 2;
  at_36 = [];
  at_52 = [];
}

-- "notes_of_today": thirteen characters and one.
abbrev part_1 : List ℕ
part_1 =
    1 ∷ b'n' ∷ 0 ∷ b'o' ∷ 0 ∷ b't' ∷ 0 ∷ b'e' ∷ 0 ∷ b's' ∷ 0 ∷ 0xf ∷ 0 ∷ 0 ∷ b'_' ∷ 0 ∷ b'o' ∷ 0
    ∷ b'f' ∷ 0 ∷ b'_' ∷ 0 ∷ b't' ∷ 0 ∷ b'o' ∷ 0 ∷ 0 ∷ 0 ∷ b'd' ∷ 0 ∷ b'a' ∷ 0 ∷ []

abbrev part_2 : List ℕ
part_2 = 0x42 ∷ b'y' ∷ zeros 9 ++ (0xf ∷ zeros 20)

-- "NOTES~1 ", of 20 bytes at the cluster 3.
abbrev short_entry : List ℕ
short_entry =
    b'N' ∷ b'O' ∷ b'T' ∷ b'E' ∷ b'S' ∷ b'~' ∷ b'1' ∷ b' ' ∷ b' ' ∷ b' ' ∷ b' ' ∷ 0x20 ∷ zeros 14
    ++ (3 ∷ 0 ∷ 20 ∷ 0 ∷ 0 ∷ 0 ∷ [])

abbrev notes : CacheEntry
notes = record {
  path =
      b'n' ∷ b'o' ∷ b't' ∷ b'e' ∷ b's' ∷ b'_' ∷ b'o' ∷ b'f' ∷ b'_' ∷ b't' ∷ b'o' ∷ b'd' ∷ b'a'
      ∷ b'y' ∷ [];
  kind = regular;
  read_only = false;
  hidden = false;
  filesize = 20;
  clusters = 3 ∷ 4 ∷ [];
}

two_parts : AreParts 0 (part_1 ∷ part_2 ∷ [])
unfolding AreParts entry_kind
two_parts = (refl, refl, (refl, refl, tt))

is_named : entry_kind short_entry ≡ named
unfolding entry_kind
is_named = refl

notes_clusters : clusters_of bpb short_entry ≡ done notes.clusters
unfolding clusters_of cluster_range number_at
notes_clusters = refl

look_for_entries-joined_example :
    look_for_entries bpb []
      (descending (part_1 ∷ part_2 ∷ []) (short_entry ∷ zeros 32 ∷ []))
      (new_scan [])
    ≡ (look_for_entries bpb [] (zeros 32 ∷ []) (new_scan []) >>= λ others. done (notes ∷ others))
unfolding joined lfn_strlen lfn_chars number_at
look_for_entries-joined_example =
    look_for_entries-joined bpb [] part_1 short_entry (part_2 ∷ []) (zeros 32 ∷ []) notes.clusters
      two_parts is_named (omega arith) notes_clusters

-- "A       C  " and "A       COM", each with the attributes of an ordinary file behind it.
abbrev one_letter : List ℕ
one_letter = b'A' ∷ []

abbrev padding : List ℕ → List ℕ
padding ext = b' ' ∷ b' ' ∷ b' ' ∷ b' ' ∷ b' ' ∷ b' ' ∷ ext ++ (b' ' ∷ [])

letter_c : IsShort one_letter (b'C' ∷ []) (padding (b'C' ∷ [])) []
unfolding IsWord
letter_c = record {
  word = ground arith;
  extension = ground arith;
  fits = omega arith;
  layout = refl;
}

abbrev com_text : List ℕ
com_text = b'C' ∷ b'O' ∷ b'M' ∷ []

letters_com : IsShort one_letter com_text (padding com_text) []
unfolding IsWord
letters_com = record {
  word = ground arith;
  extension = ground arith;
  fits = omega arith;
  layout = refl;
}

short_name-dotted_example :
    short_name (one_letter ++ (b' ' ∷ padding (b'C' ∷ []))) false ≡ b'A' ∷ b'.' ∷ b'C' ∷ []
short_name-dotted_example =
    short_name-dotted one_letter (b'C' ∷ []) (padding (b'C' ∷ [])) [] letter_c (omega arith)

short_name-lost_example :
    short_name (one_letter ++ (b' ' ∷ padding com_text)) false ≡ b'A' ∷ b'.' ∷ []
short_name-lost_example = short_name-lost one_letter com_text (padding com_text) [] letters_com refl

-- A drive whose sectors 1 to 4 are the two clusters of the file, from the cluster 3 on, with 16 bytes
-- in a cluster.
abbrev cluster_bytes : ℕ → List ℕ
cluster_bytes i =
    (10 + i) ∷ 11 ∷ 12 ∷ 13 ∷ 14 ∷ 15 ∷ 16 ∷ 17 ∷ 18 ∷ 19 ∷ 20 ∷ 21 ∷ 22 ∷ 23 ∷ 24 ∷ 25 ∷ []

abbrev file_disk : Drives ℕ
file_disk = record {
  drive = λ p. record {
    next = 0;
    drive_id = 0;
    first_partition = 0;
    n_partitions = 0;
    refs = empty_header;
  };
  partition = λ p. record {
    next = 0;
    partition_id = 0;
    lba_offset = 0;
    size_sectors = 0;
    friendly_filesystem_name = [];
    refs = empty_header;
  };
  is_partition = λ p. false;
  storage_driver = λ p. record {
    query_disk_info = λ d id n s. (true, 100, 8);
    read_sectors = λ d id lba n. some (cluster_bytes ((lba - 2) / 2), n);
    write_sectors = λ d id lba n bytes. (some n, d);
  };
  drives_head = 10;
  links = λ p. record { next = 0; prev = 0 };
  holder = λ p. 0;
  devices = 0;
  last_error = success;
}

-- "D0:/" for the whole drive.
abbrev drive_text : CString
drive_text = b'D' ∷ b'0' ∷ b':' ∷ b'/' ∷ []

abbrev host : Host
host = record {
  drive_path = λ id. drive_text;
  vectorized = false;
  this = 30;
  drive_link = 40;
  partition_link = 50;
  fuel = 4;
  fresh = zeros;
  usable = λ n. n;
  uninitialized = 0;
}

abbrev volume : Partition
volume = record { fat_type = fat32; entries = notes ∷ []; bpb = bpb; first_data_sec = 0 }

abbrev volumes : ℕ → ℕ → Option Partition
volumes d p = some volume

abbrev reader : DriveHandle
reader = record {
  node = 10;
  handle_node = 0;
  drive_node = 10;
  drive_handle_node = 40;
  can_write = true;
  closed = false;
}

abbrev opened : Drives ℕ
opened = (attach_drive 30 40 default_handle file_disk 10).1

is_opened : IsOpened host volumes 0 0 drive_text notes.path file_disk volume notes reader opened
unfolding open_drive open_on attach_drive drive_id_of partition_id_of get_mount_id str_contains
    str_count_to_char find_entry query_info find_cache_entry path_strcmp
is_opened = record {
  found = true;
  opened_drives = opened;
  known = refl;
  type = refl;
  sized = omega arith;
  cached = refl;
  opens = refl;
  queries = refl;
}

one-Serves : Serves host volume notes reader opened cluster_bytes 1
unfolding Serves read_sectors past_disk past_partition copied attach_drive
    fat32_first_sector_of_cluster
one-Serves zero l = (3, 2, refl, refl, refl)
one-Serves (suc i) l = absurd (omega arith)

read_fat_file-whole_example :
    read_fat_file host volumes 0 0 drive_text notes.path 2 4 file_disk
    ≡ done (
      some (take 4 (drop 2 (whole cluster_bytes 0 (taken host volume notes reader opened 4)))),
      destroy_handle reader opened,
    )
unfolding whole
read_fat_file-whole_example =
    read_fat_file-whole host volumes 0 0 drive_text notes.path file_disk volume notes reader opened
      2 4 cluster_bytes is_opened (omega arith) (omega arith) (omega arith) (omega arith) one-Serves
      refl (omega arith)

read_fat_file-unread_example :
    read_fat_file host volumes 0 0 drive_text notes.path 16 4 file_disk
    ≡ done (some (take 4 (drop 0 (zeros 16))), destroy_handle reader opened)
read_fat_file-unread_example =
    read_fat_file-unread host volumes 0 0 drive_text notes.path file_disk volume notes reader opened
      16 4 is_opened (omega arith) (omega arith) (omega arith) (omega arith) (omega arith)
      (omega arith)
