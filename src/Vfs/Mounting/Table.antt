-- ===== src/Vfs/Mounting/Table.antt =====
-- The table of mount points: mount, unmount, getPartitionIDForMountPoint and
-- getMountPointsForPartitionID of oboskrnl/vfs/mount/mount.cpp. The driver that a partition has been
-- recognized by, and what sprintf makes of two numbers, are parameters.
pub mod Ids
use Prim.Native.Nat.{bit_or}
use obos_old.Prelude.{
  ℕ, ◌+◌, ◌*◌, ◌%◌, Bool, true, false, ◌&&◌, not, List, [], ◌∷◌, ◌++◌, Option, none, some, ◌==◌,
  if◌then◌else◌, length, u32,
}
use obos_old.Outcome.{Outcome, done, fault, ◌>>=◌}
use obos_old.CString.{CString}
use obos_old.Vfs.Drives.{Drives}
use obos_old.Vfs.DriveHandle.{DriveHandle, default_handle, unopened, open_drive, close_drive}
use obos_old.Vfs.Mounting.{NodeTree, FilesystemDriver, setup_mount_point_entries}

-- MountPoint, with the numbers of the drive and the partition, of which the initial RAM disk has none.
pub record Mounted : Type 0 where
  pub id : ℕ
  pub is_initrd : Bool
  pub partition : Option (ℕ × ℕ)
  pub entries : NodeTree

-- g_mountPoints with the drives and the state of the drivers.
pub record MountState (D S : Type 0) : Type 0 where
  pub points : List Mounted
  pub drives : Drives D
  pub driver_state : S

-- Success with the mount point's id, or the error; PARTITION_ALREADY_MOUNTED has the id of the other
-- mount point.
pub data MountResult : Type 0 where
  mounted : ℕ → MountResult
  already_mounted : MountResult
  partition_already_mounted : ℕ → MountResult
  drive_not_opened : MountResult
  unrecognized_partition_fs : MountResult
  driver_failed : MountResult

abbrev pub ids_of : List Mounted → List ℕ
ids_of [] = []
ids_of (m ∷ points) = m.id ∷ ids_of points

unfoldable pub is_mounted_at : ℕ → List Mounted → Bool
is_mounted_at point [] = false
is_mounted_at point (m ∷ points) = elim (m.id == point) [
  | true ↦ true
  | false ↦ is_mounted_at point points
]

-- The drive and the partition of a mount point, 0 and 0 without one.
abbrev pub numbers_of : Mounted → ℕ × ℕ
numbers_of m = elim m.partition [ none ↦ (0, 0) | some p ↦ p ]

-- The first mount point of the same kind on the same partition.
unfoldable pub existing_mount : Bool → (drive_id partition_id : ℕ) → List Mounted → Option Mounted
existing_mount is_initrd drive_id partition_id [] = none
existing_mount is_initrd drive_id partition_id (m ∷ points) =
    let same_kind = if is_initrd then m.is_initrd else not m.is_initrd in
    let numbers = numbers_of m in
    elim (same_kind && (numbers.0 == drive_id) && (numbers.1 == partition_id)) [
      | true ↦ some m
      | false ↦ existing_mount is_initrd drive_id partition_id points
    ]

-- What mounting takes from elsewhere: the drivers, the text "D%dP%d://", the addresses for the
-- handle and the fuel for the searches and for the driver's files.
pub record MountHost (S : Type 0) : Type 0 where
  pub initrd_driver : FilesystemDriver S
  pub filesystem_driver : ℕ → Option (FilesystemDriver S)
  pub partition_path : ℕ → ℕ → CString
  pub this : ℕ
  pub drive_link : ℕ
  pub partition_link : ℕ
  pub fuel : ℕ

module _ {D S : Type 0} (host : MountHost S) where
  -- The new mount point joins the table when its entries have been set up.
  unfoldable pub add_point :
      (id : ℕ) (is_initrd : Bool)
      → Option (ℕ × ℕ)
      → FilesystemDriver S
      → MountState D S
      → Outcome (MountResult × MountState D S)
  unfolding setup_mount_point_entries
  add_point id is_initrd partition driver s =
      setup_mount_point_entries driver host.fuel is_initrd s.driver_state >>= λ r. elim r.0 [
        | none ↦ done (driver_failed, record s { driver_state = r.1 })
        | some entries ↦
            let point : Mounted = record {
              id = id;
              is_initrd = is_initrd;
              partition = partition;
              entries = entries;
            } in
            done (mounted id, record s { points = s.points ++ point ∷ []; driver_state = r.1 })
      ]

  -- The handle is open; it is left open when nobody has recognized the partition.
  unfoldable pub mount_opened :
      (id : ℕ) → DriveHandle → MountState D S → Outcome (MountResult × MountState D S)
  unfolding add_point
  mount_opened id h s = elim (host.filesystem_driver h.node) [
    | none ↦ done (unrecognized_partition_fs, s)
    | some driver ↦
        let numbers : ℕ × ℕ =
          ((s.drives.drive h.drive_node).drive_id, (s.drives.partition h.node).partition_id) in
        let closed = if unopened h then s.drives else (close_drive h s.drives).2 in
        add_point id false (some numbers) driver (record s { drives = closed })
  ]

  -- The case without another mount point on the partition.
  unfoldable pub mount_new :
      (id drive_id partition_id : ℕ) (is_initrd : Bool)
      → MountState D S
      → Outcome (MountResult × MountState D S)
  unfolding add_point mount_opened
  mount_new id drive_id partition_id is_initrd s = elim is_initrd [
    | true ↦ add_point id true none host.initrd_driver s
    | false ↦
        open_drive host.fuel host.this host.drive_link host.partition_link default_handle s.drives
          (some (host.partition_path drive_id partition_id)) true
        >>= λ opened. elim opened.0 [
          | false ↦ done (drive_not_opened, record s { drives = opened.2 })
          | true ↦ mount_opened id opened.1 (record s { drives = opened.2 })
        ]
  ]

  -- What mount does once the id has been chosen.
  unfoldable pub mount_at :
      (id drive_id partition_id : ℕ) (is_initrd fail_if_mounted : Bool)
      → MountState D S
      → Outcome (MountResult × MountState D S)
  unfolding existing_mount mount_new
  mount_at id drive_id partition_id is_initrd fail_if_mounted s =
      elim (existing_mount is_initrd drive_id partition_id s.points) [
        | none ↦ mount_new id drive_id partition_id is_initrd s
        | some m ↦ elim fail_if_mounted [
          | true ↦ done (partition_already_mounted m.id, s)
          | false ↦
              let point = record m { id = id; is_initrd = is_initrd } in
              done (mounted id, record s { points = s.points ++ point ∷ [] })
        ]
      ]

  -- mount; 0xffffffff leaves the choice of the id to it.
  unfoldable pub mount :
      (point drive_id partition_id : ℕ) (is_initrd fail_if_mounted : Bool)
      → MountState D S
      → Outcome (MountResult × MountState D S)
  unfolding is_mounted_at mount_at
  mount point drive_id partition_id is_initrd fail_if_mounted s = elim (point == 0xffff_ffff) [
    | true ↦ mount_at (length s.points % u32) drive_id partition_id is_initrd fail_if_mounted s
    | false ↦ elim (is_mounted_at point s.points) [
      | true ↦ done (already_mounted, s)
      | false ↦ mount_at point drive_id partition_id is_initrd fail_if_mounted s
    ]
  ]

-- unmount is not implemented.
unfoldable pub unmount : ℕ → Bool
unmount point = false

unfoldable pub get_partition_id_for_mount_point : ℕ → List Mounted → ℕ
get_partition_id_for_mount_point point [] = 0xffff_ffff_ffff_ffff
get_partition_id_for_mount_point point (m ∷ points) = elim (m.id == point) [
  | true ↦ elim m.partition [ none ↦ 0 | some p ↦ bit_or p.1 (p.0 * 0x1_0000_0000) ]
  | false ↦ get_partition_id_for_mount_point point points
]

-- The ids that getMountPointsForPartitionID collects: the partition is read where there is none.
unfoldable pub get_mount_points_for_partition_id :
    (drive_id partition_id : ℕ) → List Mounted → Outcome (List ℕ)
get_mount_points_for_partition_id drive_id partition_id [] = done []
get_mount_points_for_partition_id drive_id partition_id (m ∷ points) = elim m.partition [
  | none ↦ fault
  | some p ↦ get_mount_points_for_partition_id drive_id partition_id points
]
