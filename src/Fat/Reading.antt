-- ===== src/Fat/Reading.antt =====
-- QueryFileProperties and ReadFile of drivers/generic/fat/interface.cpp. What sprintf makes of the
-- numbers of the drive and the partition, the addresses for the handle and the contents of new memory
-- are those of a partition manager's host.
pub mod Clusters
pub mod Positions
use obos_old.Prelude.{
  ℕ, zero, suc, ◌+◌, ◌-◌, ◌*◌, ◌/◌, ◌%◌, Bool, true, false, ◌&&◌, not, List, [], ◌∷◌, ◌++◌, Option,
  none, some, ◌==◌, ltb, leb, if◌then◌else◌, length, get_elem?, take, drop, u32, add64, sub64,
  mul64,
}
use obos_old.Outcome.{Outcome, done, fault, ◌>>=◌}
use obos_old.CString.{CString, path_strcmp}
use obos_old.Vfs.Drives.{Drives}
use obos_old.Vfs.DriveHandle.{
  DriveHandle, default_handle, unopened, open_drive, query_info, read_sectors, close_drive,
}
use obos_old.Partitions.{Host, overwrite}
use obos_old.FileIterators.{FileIterators, file_iterator_create}
use obos_old.Fat.{Bpb, FatType, invalid, fat12, fat16, fat32}
use obos_old.Fat.Directory.{CacheEntry, FileKind}

-- fatDriver::partition, as far as it is read here.
pub record Partition : Type 0 where
  pub fat_type : FatType
  pub entries : List CacheEntry
  pub bpb : Bpb
  pub first_data_sec : ℕ

-- g_partitions by g_partitionToIndex: the partition of a drive's and a partition's number.
abbrev pub Partitions : Type 0
Partitions = ℕ → ℕ → Option Partition

-- FindCacheEntry. The search ends at a path whose tokens are read out of bounds.
unfoldable pub find_cache_entry : List CacheEntry → CString → Outcome (Option CacheEntry)
unfolding path_strcmp
find_cache_entry [] path = done none
find_cache_entry (c ∷ entries) path = elim (path_strcmp c.path path) [
  | none ↦ fault
  | some same ↦ elim same [ true ↦ done (some c) | false ↦ find_cache_entry entries path ]
]

-- None for an unknown partition; an entry or none for FILE_DOESNT_EXIST.
unfoldable pub query_fat_file_properties :
    Partitions → CString → (drive_id partition_id : ℕ) → Outcome (Option (Option CacheEntry))
unfolding find_cache_entry
query_fat_file_properties partitions path drive_id partition_id =
    elim (partitions drive_id partition_id) [
      | none ↦ done none
      | some p ↦ find_cache_entry p.entries path >>= λ entry. done (some entry)
    ]

-- What FileIteratorNext tells of the current node: it asks for its path in its own partition.
unfoldable pub fat_iter_query :
    Partitions
    → (drive_id partition_id : ℕ) → CacheEntry
    → Outcome (Option (CString × Option CacheEntry))
unfolding query_fat_file_properties
fat_iter_query partitions drive_id partition_id entry =
    query_fat_file_properties partitions entry.path drive_id partition_id >>= λ answer.
    elim answer [ none ↦ done none | some found ↦ done (some (entry.path, found)) ]

-- FileIteratorCreate, with the address of the new iterator.
unfoldable pub create_fat_iterator :
    Partitions
    → (drive_id partition_id iter : ℕ) → FileIterators CacheEntry
    → Bool × FileIterators CacheEntry
unfolding file_iterator_create
create_fat_iterator partitions drive_id partition_id iter s =
    elim (partitions drive_id partition_id) [
      | none ↦ (false, s)
      | some p ↦ file_iterator_create iter p.entries s
    ]

-- fat32FirstSectorOfCluster.
unfoldable pub fat32_first_sector_of_cluster : Partition → ℕ → ℕ
fat32_first_sector_of_cluster p cluster =
    add64 (mul64 (sub64 cluster 2) p.bpb.sectors_per_cluster) p.first_data_sec % u32

-- A read to the position in a block.
unfoldable pub overwrite_at : ℕ → List ℕ → List ℕ → Outcome (List ℕ)
unfolding overwrite
overwrite_at position block bytes =
    overwrite (drop position block) bytes >>= λ rest. done (take position block ++ rest)

abbrev pub is_fat32 : FatType → Bool
is_fat32 invalid = false
is_fat32 fat12 = false
is_fat32 fat16 = false
is_fat32 fat32 = true

module _ {D : Type 0} where
  -- The loop over the clusters, `n` of them from the index `i` on. A failed read gives none; the
  -- block that is then given back is outside this model.
  unfoldable pub read_clusters :
      Bool
      → DriveHandle
      → Partition
      → CacheEntry
      → (n i position : ℕ) → Drives D
      → List ℕ
      → Outcome (Option (List ℕ) × Drives D)
  unfolding fat32_first_sector_of_cluster overwrite_at
  read_clusters vectorized h p entry zero i position w block = done (some block, w)
  read_clusters vectorized h p entry (suc n) i position w block =
      elim (get_elem? entry.clusters i) [
        | none ↦ fault
        | some cluster ↦
            let per_cluster = p.bpb.sectors_per_cluster * p.bpb.bytes_per_sector in
            let sector = fat32_first_sector_of_cluster p cluster in
            let read = read_sectors vectorized h w true sector p.bpb.sectors_per_cluster in
            elim read.0 [
              | none ↦ done (none, read.1)
              | some r ↦
                  overwrite_at position block r.0
                  >>= read_clusters vectorized h p entry n (suc i) (position + per_cluster) read.1
            ]
      ]

  -- The destructor of the handle.
  unfoldable pub destroy_handle : DriveHandle → Drives D → Drives D
  destroy_handle h w = if unopened h then w else (close_drive h w).2

  -- The copy at the end. Behind the block is a fault.
  unfoldable pub copy_out :
      DriveHandle
      → (offset n_to_read : ℕ) → Option (List ℕ) × Drives D
      → Outcome (Option (List ℕ) × Drives D)
  unfolding destroy_handle
  copy_out h offset n_to_read (none, w) = done (none, destroy_handle h w)
  copy_out h offset n_to_read (some block, w) =
      if leb (offset + n_to_read) (length block)
      then done (some (take n_to_read (drop offset block)), destroy_handle h w)
      else fault

  -- What follows the tests on the entry, with the handle opened or not.
  unfoldable pub read_entry :
      Host
      → Partition
      → CacheEntry
      → (n_to_skip n_to_read : ℕ) → DriveHandle
      → Drives D
      → Outcome (Option (List ℕ) × Drives D)
  unfolding read_clusters copy_out
  read_entry host p entry n_to_skip n_to_read h w =
      let per_cluster = p.bpb.sectors_per_cluster * p.bpb.bytes_per_sector in
      let n_clusters = n_to_read / per_cluster + (if n_to_read % per_cluster == 0 then 0 else 1) in
      let index = n_to_skip / per_cluster % u32 in
      let block = host.fresh (mul64 per_cluster n_clusters) in
      if is_fat32 p.fat_type
      then (read_clusters host.vectorized h p entry (n_clusters - index) index 0 w block
          >>= copy_out h (n_to_skip % per_cluster) n_to_read)
      else copy_out h (n_to_skip % per_cluster) n_to_read (some block, w)

  -- ReadFile, `drv_path` being the text "D%dP%d:/".
  unfoldable pub read_fat_file :
      Host
      → Partitions
      → (drive_id partition_id : ℕ) → (drv_path path : CString) → (n_to_skip n_to_read : ℕ)
      → Drives D
      → Outcome (Option (List ℕ) × Drives D)
  unfolding find_cache_entry read_entry
  read_fat_file host partitions drive_id partition_id drv_path path n_to_skip n_to_read w =
      elim (partitions drive_id partition_id) [
        | none ↦ done (none, w)
        | some p ↦ find_cache_entry p.entries path >>= λ found. elim found [
          | none ↦ done (none, w)
          | some entry ↦
              if leb entry.filesize n_to_skip
              then done (none, w)
              else if ltb entry.filesize (add64 n_to_skip n_to_read)
              then done (none, w)
              else if p.bpb.sectors_per_cluster * p.bpb.bytes_per_sector == 0
              then fault
              else (open_drive host.fuel host.this host.drive_link host.partition_link
                    default_handle w (some drv_path) false
                  >>= λ opened.
                      read_entry host p entry n_to_skip n_to_read opened.1
                        (query_info opened.1 opened.2).1)
        ]
      ]
