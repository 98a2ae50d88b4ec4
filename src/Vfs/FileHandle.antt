-- ===== src/Vfs/FileHandle.antt =====
-- FileHandle: oboskrnl/vfs/fileManip/fileHandle.h and fileHandle.cpp. A method takes the handle and
-- the file system's state and gives them back with its result. The bits of `m_flags` are Booleans.
pub mod Open
pub mod Close
pub mod Read
pub mod Reading
pub mod Seek
use obos_old.Prelude.{
  ℕ, zero, suc, ◌+◌, ◌/◌, ◌%◌, ◌≡◌, Bool, true, false, ◌&&◌, ◌||◌, not, List, [], ◌∷◌, ◌++◌, Option,
  none, some, ◌==◌, leb, if◌then◌else◌, length, get_elem?, get_or, add64, sub64,
}
use obos_old.Outcome.{Outcome, done, fault, hang, ◌>>=◌}
use obos_old.CString.{CString, str_contains, get_mount_id, real_path, path_strcmp}
use obos_old.Links.{ListState, push_back, unlink}
use obos_old.Vfs.{
  Vfs, Error, invalid_parameter, already_exists, unopened_handle, vfs_file_not_found,
  vfs_invalid_operation_on_object, vfs_read_aborted, unimplemented_feature, DirentType, directory,
  invalid, file, symlink, set_last_error, dirent_refs, device_refs, with_dirent_refs,
  with_device_refs, search_for_node, find_mount, get_user_input_device, follow_links,
}

pub record Flags : Type 0 where
  pub is_input_device : Bool
  pub allow_write : Bool
  pub closed : Bool

abbrev pub flags_closed : Flags
flags_closed = record { is_input_device = false; allow_write = false; closed = true }

abbrev pub flags_input : Flags
flags_input = record { is_input_device = true; allow_write = false; closed = false }

pub record FileHandle : Type 0 where
  pub path_node : ℕ
  pub node : ℕ
  pub list_node : ℕ
  pub pos : ℕ
  pub flags : Flags

-- A handle as it is constructed.
abbrev pub closed_handle : FileHandle
closed_handle = record { path_node = 0; node = 0; list_node = 0; pos = 0; flags = flags_closed }

pub record OpenOptions : Type 0 where
  pub read_only : Bool
  pub append : Bool

pub data SeekPlace : Type 0 where
  cur beg end : SeekPlace

abbrev pub uoff_max : ℕ
uoff_max = 0xffff_ffff_ffff_ffff

-- What a call returns, the handle and the file system behind it.
abbrev pub Call : Type 0 → Type 0
Call A = A × FileHandle × Vfs

abbrev pub failed : Error → FileHandle → Vfs → Call Bool
failed e h w = (false, h, set_last_error e w)

-- __TestEof
unfoldable pub test_eof : FileHandle → Vfs → ℕ → Bool
test_eof h w pos =
    if h.flags.is_input_device
    then leb (length (w.device h.node).keys) pos
    else leb (w.dirent h.node).filesize pos

pub eof : FileHandle → Vfs → Bool
unfolding test_eof
eof h w = test_eof h w h.pos

unfoldable pub seek_to : FileHandle → Vfs → ℕ → SeekPlace → Call ℕ
seek_to h w count from =
    if h.flags.closed
    then (uoff_max, h, set_last_error unopened_handle w)
    else if h.flags.is_input_device
    then (uoff_max, h, set_last_error vfs_invalid_operation_on_object w)
    else (
      h.pos,
      record h {
        pos = elim from [
          | cur ↦ add64 h.pos count
          | beg ↦ count
          | end ↦ add64 (w.dirent h.node).filesize count
        ];
      },
      w,
    )

-- The rest of Open for `K<id>`: the handle joins the device's list.
unfoldable pub open_device : ℕ → ℕ → ℕ → FileHandle → Vfs → CString → Outcome (Call Bool)
open_device fuel this fresh h w name =
    get_user_input_device fuel w (get_mount_id name (length name)) w.devices_head >>= λ entry.
    if entry == 0
    then done (failed vfs_file_not_found h w)
    else let linked = with_device_refs w entry (push_back fresh (device_refs w entry)) in
      done (
        true,
        record h { path_node = entry; node = entry; list_node = fresh; flags = flags_input },
        record linked { holder = λ p. if p == fresh then this else w.holder p },
      )

-- The comparison that is handed to SearchForNode.
abbrev pub same_path : Vfs → CString → ℕ → Outcome Bool
same_path w path p = elim (path_strcmp (w.dirent p).path path) [ none ↦ fault | some b ↦ done b ]

abbrev pub search_in : ℕ → Vfs → CString → ℕ → Outcome ℕ
search_in fuel w path root =
    search_for_node (same_path w path) (λ p. (w.dirent p).next) (λ p. (w.dirent p).children) fuel
      root

-- The rest of Open once the entry and the file that it leads to are known.
unfoldable pub attach_file : ℕ → ℕ → FileHandle → Vfs → OpenOptions → (entry target : ℕ) → Call Bool
attach_file this fresh h w options entry target =
    let linked = with_dirent_refs w target (push_back fresh (dirent_refs w target)) in
    let w1 : Vfs = record linked { holder = λ p. if p == fresh then this else w.holder p } in
    let h1 : FileHandle = record h { path_node = entry; node = target; list_node = fresh } in
    let sought : Call ℕ = if options.append then seek_to h1 w1 0 end else (0, h1, w1) in
    let h2 : FileHandle = sought.1 in
    (
      true,
      record h2 {
        flags = record (h2.flags) {
          allow_write = if options.read_only then h2.flags.allow_write else true;
          closed = false;
        };
      },
      sought.2,
    )

-- The rest of Open once the search has returned: a directory is refused, a link is followed.
unfoldable pub settle : ℕ → ℕ → ℕ → FileHandle → Vfs → OpenOptions → ℕ → Outcome (Call Bool)
settle fuel this fresh h w options entry =
    if entry == 0 then done (failed vfs_file_not_found h w) else elim (w.dirent entry).dirent_type [
      | directory ↦ done (failed vfs_invalid_operation_on_object h w)
      | _ ↦ follow_links fuel w entry >>= λ target.
          done (attach_file this fresh h w options entry target)
    ]

-- The rest of Open for a path on a mount point.
unfoldable pub open_file :
    ℕ → ℕ → ℕ → FileHandle → Vfs → CString → OpenOptions → Outcome (Call Bool)
open_file fuel this fresh h w path options =
    if not (str_contains path b':')
    then done (failed invalid_parameter h w)
    else let point = find_mount w (get_mount_id path 0) w.mount_points 0 in
      if point == 0 then done (failed vfs_file_not_found h w) else elim (real_path path) [
        | none ↦ fault
        | some rest ↦
            search_in fuel w rest (w.mount point).children >>= settle fuel this fresh h w options
      ]

-- `this` is the handle's address, `fresh` what `new HandleListNode{}` returns.
unfoldable pub open_handle :
    ℕ → ℕ → ℕ → FileHandle → Vfs → Option CString → OpenOptions → Outcome (Call Bool)
open_handle fuel this fresh h w path options =
    if not h.flags.closed || not (h.node == 0)
    then done (failed already_exists h w)
    else elim path [
      | none ↦ done (failed invalid_parameter h w)
      | some p ↦ elim p [
        | [] ↦ open_file fuel this fresh h w [] options
        | c ∷ name ↦
            if c == b'K'
            then open_device fuel this fresh h w name
            else open_file fuel this fresh h w (c ∷ name) options
      ]
    ]

unfoldable pub close : FileHandle → Vfs → Call Bool
close h w =
    if h.flags.closed
    then failed unopened_handle h w
    else if (h.node == 0) || (h.list_node == 0)
    then failed unopened_handle h w
    else (
      true,
      closed_handle,
      if h.flags.is_input_device
          then with_device_refs w h.node (unlink h.list_node (device_refs w h.node))
          else with_dirent_refs w h.node (unlink h.list_node (dirent_refs w h.node)),
    )

pub write : FileHandle → Vfs → Call Bool
write h w = failed unimplemented_feature h w

unfoldable pub get_file_size : FileHandle → Vfs → ℕ × Vfs
get_file_size h w =
    if h.flags.closed || (h.node == 0)
    then (0, set_last_error unopened_handle w)
    else if h.flags.is_input_device
    then (uoff_max, set_last_error vfs_invalid_operation_on_object w)
    else ((w.dirent h.node).filesize, w)
