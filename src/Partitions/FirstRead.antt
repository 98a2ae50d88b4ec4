-- ===== src/Partitions/FirstRead.antt =====
-- What a partition manager has read when it looks at its first sector.
use obos_old.Prelude.{ℕ, ◌≡◌, refl, Bool, true, List, Option, some}
use obos_old.Outcome.{Outcome, done}
use obos_old.Vfs.Drives.{Drives}
use obos_old.Vfs.DriveHandle.{DriveHandle, default_handle, open_drive, query_info, read_sectors}
use obos_old.Partitions.{Host, Registered, overwrite, after_read, after_query, first_sector}

module _ {D : Type 0} (host : Host) (drive_id lba : ℕ) (w : Drives D) where
  -- The drive opens, tells its sector size, and the sector arrives in the block of this size.
  pub record IsRead (h : DriveHandle) (w1 : Drives D) (sector : ℕ) (block : List ℕ) : Type 0 where
    pub found : Bool
    pub count : ℕ
    pub partition_count : Option ℕ
    pub opened_drives : Drives D
    pub queried_drives : Drives D
    pub bytes : List ℕ
    pub n_read : ℕ
    pub opens :
        open_drive host.fuel host.this host.drive_link host.partition_link default_handle w
          (some (host.drive_path drive_id))
          true
        ≡ done (found, h, opened_drives)
    pub queries :
        query_info h opened_drives ≡ (some (count, sector, partition_count), queried_drives)
    pub reads :
        read_sectors host.vectorized h queried_drives true lba 1 ≡ (some (bytes, n_read), w1)
    pub arrives : overwrite (host.fresh sector) bytes ≡ done block

  pub first_sector-IsRead :
      (h : DriveHandle) (w1 : Drives D) (sector : ℕ) (block : List ℕ)
      (continue : DriveHandle → Drives D → ℕ → List ℕ → Outcome (Registered D))
      → IsRead h w1 sector block
      → first_sector host drive_id lba w continue ≡ continue h w1 sector block
  unfolding first_sector after_query after_read
  first_sector-IsRead h w1 sector block continue r =
      rw (r.opens, r.queries, r.reads, r.arrives) refl
