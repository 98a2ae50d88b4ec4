-- ===== src/Vfs.antt =====
-- The nodes of the virtual file system (oboskrnl/vfs/vfsNode.h) with the input devices
-- (oboskrnl/driverInterface/input_device.h), the state that the handles work on, and the searches
-- in it. Nodes are addresses in a store; 0 is nullptr. SetLastError writes the current thread's
-- error, which is the state's `last_error`.
pub mod Forest
pub mod FileHandle
pub mod Drives
pub mod DriveHandle
pub mod Iterators
pub mod Mounting
use obos_old.Prelude.{
  ℕ, zero, suc, ◌≡◌, Bool, true, false, List, [], ◌∷◌, Option, none, some, ◌==◌, if◌then◌else◌,
}
use obos_old.Outcome.{Outcome, done, fault, hang, ◌>>=◌}
use obos_old.CString.{CString}
use obos_old.Links.{Links, Header, ListState}

pub data Error : Type 0 where
  success invalid_parameter already_exists unopened_handle vfs_file_not_found : Error
  vfs_invalid_operation_on_object vfs_read_aborted vfs_write_aborted : Error
  vfs_read_only vfs_handle_not_referring_to_partition vfs_driver_failure : Error
  unimplemented_feature no_such_object thread_died access_denied : Error

pub data DirentType : Type 0 where
  invalid file symlink directory : DirentType

pub record DirectoryEntry : Type 0 where
  pub next : ℕ
  pub parent : ℕ
  pub children : ℕ
  pub dirent_type : DirentType
  pub filesize : ℕ
  pub path : CString
  pub linked_node : ℕ
  pub mount_point : ℕ
  pub refs : Header

pub record InputDevice : Type 0 where
  pub id : ℕ
  pub keys : List ℕ
  pub next : ℕ
  pub refs : Header

-- A mount point without a partition has drive 0 and partition 0.
pub record MountPoint : Type 0 where
  pub id : ℕ
  pub children : ℕ
  pub drive_id : ℕ
  pub partition_id : ℕ

pub record Vfs : Type 0 where
  pub dirent : ℕ → DirectoryEntry
  pub device : ℕ → InputDevice
  pub mount : ℕ → MountPoint
  pub devices_head : ℕ
  pub mount_points : List ℕ
  pub links : Links
  pub holder : ℕ → ℕ
  pub last_error : Error

abbrev pub set_last_error : Error → Vfs → Vfs
set_last_error e w = record w { last_error = e }

-- The list of the handles that refer to a directory entry or an input device.
abbrev pub dirent_refs : Vfs → ℕ → ListState
dirent_refs w p = record { links = w.links; header = (w.dirent p).refs }

abbrev pub device_refs : Vfs → ℕ → ListState
device_refs w p = record { links = w.links; header = (w.device p).refs }

abbrev pub with_dirent_refs : Vfs → ℕ → ListState → Vfs
with_dirent_refs w p s = record w {
  links = s.links;
  dirent = λ q. if q == p then record (w.dirent q) { refs = s.header } else w.dirent q;
}

abbrev pub with_device_refs : Vfs → ℕ → ListState → Vfs
with_device_refs w p s = record w {
  links = s.links;
  device = λ q. if q == p then record (w.device q) { refs = s.header } else w.device q;
}

-- The first sibling that the comparison accepts.
unfoldable pub search_siblings : (ℕ → Outcome Bool) → (ℕ → ℕ) → ℕ → ℕ → Outcome ℕ
search_siblings compare next zero node = hang
search_siblings compare next (suc fuel) node = elim (node == 0) [
  | true ↦ done 0
  | false ↦ compare node >>= λ hit. elim hit [
    | true ↦ done node
    | false ↦ search_siblings compare next fuel (next node)
  ]
]

-- Among the siblings of the root first, and then below each of them.
unfoldable mutual
  pub search_for_node : (ℕ → Outcome Bool) → (next children : ℕ → ℕ) → ℕ → ℕ → Outcome ℕ
  search_for_node compare next children zero root = hang
  search_for_node compare next children (suc fuel) root = elim (root == 0) [
    | true ↦ done 0
    | false ↦ search_siblings compare next (suc fuel) root >>= λ hit. elim (hit == 0) [
      | true ↦ search_below compare next children fuel root
      | false ↦ done hit
    ]
  ]

  pub search_below : (ℕ → Outcome Bool) → (next children : ℕ → ℕ) → ℕ → ℕ → Outcome ℕ
  search_below compare next children zero node = hang
  search_below compare next children (suc fuel) node = elim (node == 0) [
    | true ↦ done 0
    | false ↦ search_for_node compare next children fuel (children node) >>= λ hit.
        elim (hit == 0) [
          | true ↦ search_below compare next children fuel (next node)
          | false ↦ done hit
        ]
  ]

-- The last mount point of the table that has the id; 0 if there is none.
unfoldable pub find_mount : Vfs → ℕ → List ℕ → ℕ → ℕ
find_mount w id [] point = point
find_mount w id (p ∷ ps) point = find_mount w id ps (if (w.mount p).id == id then p else point)

-- driverInterface::GetUserInputDevice
unfoldable pub get_user_input_device : ℕ → Vfs → ℕ → ℕ → Outcome ℕ
get_user_input_device zero w id node = hang
get_user_input_device (suc fuel) w id node = elim (node == 0) [
  | true ↦ done 0
  | false ↦ elim ((w.device node).id == id) [
    | true ↦ done node
    | false ↦ get_user_input_device fuel w id (w.device node).next
  ]
]

-- `while (entry->direntType == DIRECTORY_ENTRY_TYPE_SYMLINK) entry = entry->linkedNode;`
unfoldable pub follow_links : ℕ → Vfs → ℕ → Outcome ℕ
follow_links zero w entry = hang
follow_links (suc fuel) w entry = elim (entry == 0) [
  | true ↦ fault
  | false ↦ elim (w.dirent entry).dirent_type [
    | symlink ↦ follow_links fuel w (w.dirent entry).linked_node
    | _ ↦ done entry
  ]
]
