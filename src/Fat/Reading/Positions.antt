-- ===== src/Fat/Reading/Positions.antt =====
-- ReadFile of the FAT driver at positions in a file's first cluster, and behind the clusters that it
-- counts.
use obos_old.Prelude.{
  ℕ, ◌+◌, ◌*◌, ◌/◌, ◌%◌, ◌≤◌, ◌<◌, ◌≡◌, refl, ◌∙◌, Bool, false, List, some, length, take, drop,
  arith, mul64, add64, u32, u64, leb, ltb, ◌≢◌, test-of-ne,
}
use obos_old.Outcome.{done}
use obos_old.CString.{CString}
use obos_old.Vfs.Drives.{Drives}
use obos_old.Vfs.DriveHandle.{DriveHandle, default_handle, open_drive, query_info}
use obos_old.Partitions.{Host}
use obos_old.Fat.{fat32}
use obos_old.Fat.Directory.{CacheEntry}
use obos_old.Fat.Reading.{
  Partition, Partitions, find_cache_entry, destroy_handle, read_entry, read_fat_file,
}
use obos_old.Fat.Reading.Clusters.{
  whole, per_cluster, taken, Serves, read_entry-first, read_entry-later,
}

module _ {D : Type 0} (host : Host) (partitions : Partitions) (drive_id partition_id : ℕ)
    (drv_path path : CString) (w : Drives D) where
  -- The partition is one of FAT32, the file is in its cache, and its drive opens.
  pub record IsOpened (p : Partition) (entry : CacheEntry) (h : DriveHandle) (w1 : Drives D)
      : Type 0 where
    pub found : Bool
    pub opened_drives : Drives D
    pub known : partitions drive_id partition_id ≡ some p
    pub type : p.fat_type ≡ fat32
    pub sized : p.bpb.sectors_per_cluster * p.bpb.bytes_per_sector ≢ 0
    pub cached : find_cache_entry p.entries path ≡ done (some entry)
    pub opens :
        open_drive host.fuel host.this host.drive_link host.partition_link default_handle w
          (some drv_path)
          false
        ≡ done (found, h, opened_drives)
    pub queries : (query_info h opened_drives).1 ≡ w1

  module _ (p : Partition) (entry : CacheEntry) (h : DriveHandle) (w1 : Drives D)
      (n_to_skip n_to_read : ℕ) where
    read_fat_file-read_entry :
        IsOpened p entry h w1
        → n_to_skip < entry.filesize
        → n_to_skip + n_to_read ≤ entry.filesize
        → entry.filesize < u64
        → read_fat_file host partitions drive_id partition_id drv_path path n_to_skip n_to_read w
          ≡ read_entry host p entry n_to_skip n_to_read h w1
    unfolding read_fat_file
    read_fat_file-read_entry o within ends small =
        rw
          (
            read_fat_file,
            o.known,
            o.cached,
            before n_to_skip entry.filesize within,
            no_overflow n_to_skip n_to_read entry.filesize ends small,
            test-of-ne (p.bpb.sectors_per_cluster * p.bpb.bytes_per_sector) 0 o.sized,
            o.opens,
            o.queries,
          )
          refl
      where
        before : (a b : ℕ) → a < b → leb b a ≡ false
        before a b h = ground arith

        no_overflow : (a b c : ℕ) → a + b ≤ c → c < u64 → ltb c (add64 a b) ≡ false
        no_overflow a b c h k = ground arith

    -- A read that starts in the first cluster of a file and ends within as many clusters as it
    -- is long, rounded up, gives the bytes of these clusters from the position on and destroys its
    -- handle, when the drive reads these clusters and new memory has their size.
    pub read_fat_file-whole :
        (content : ℕ → List ℕ)
        → IsOpened p entry h w1
        → n_to_skip < entry.filesize
        → n_to_skip + n_to_read ≤ entry.filesize
        → entry.filesize < u64
        → n_to_skip < per_cluster host p entry h w1
        → Serves host p entry h w1 content (taken host p entry h w1 n_to_read)
        → length
            (host.fresh (mul64 (per_cluster host p entry h w1) (taken host p entry h w1 n_to_read)))
          ≡ length (whole content 0 (taken host p entry h w1 n_to_read))
        → n_to_skip + n_to_read ≤ length (whole content 0 (taken host p entry h w1 n_to_read))
        → read_fat_file host partitions drive_id partition_id drv_path path n_to_skip n_to_read w
          ≡ done (
            some (
                take n_to_read
                  (drop n_to_skip (whole content 0 (taken host p entry h w1 n_to_read)))),
            destroy_handle h w1,
          )
    read_fat_file-whole content o within ends small first serves room e =
        read_fat_file-read_entry o within ends small
        ∙ read_entry-first host p entry h w1 content n_to_skip n_to_read o.type first serves room e

    -- A read that starts at least as many clusters into a file as it is long, rounded up, reads
    -- nothing from the drive: it succeeds with what new memory holds.
    pub read_fat_file-unread :
        IsOpened p entry h w1
        → n_to_skip < entry.filesize
        → n_to_skip + n_to_read ≤ entry.filesize
        → entry.filesize < u64
        → taken host p entry h w1 n_to_read ≤ n_to_skip / per_cluster host p entry h w1
        → n_to_skip / per_cluster host p entry h w1 < u32
        → n_to_skip % per_cluster host p entry h w1 + n_to_read
          ≤ length (
              host.fresh
                (mul64 (per_cluster host p entry h w1) (taken host p entry h w1 n_to_read)))
        → read_fat_file host partitions drive_id partition_id drv_path path n_to_skip n_to_read w
          ≡ done (
            some (
                take n_to_read (
                  drop (n_to_skip % per_cluster host p entry h w1) (
                    host.fresh (
                      mul64 (per_cluster host p entry h w1) (taken host p entry h w1 n_to_read))))),
            destroy_handle h w1,
          )
    read_fat_file-unread o within ends small later index e =
        read_fat_file-read_entry o within ends small
        ∙ read_entry-later host p entry h w1 n_to_skip n_to_read o.type later index e
