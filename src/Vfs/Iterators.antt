-- ===== src/Vfs/Iterators.antt =====
-- DirectoryIterator (src/oboskrnl/vfs/fileManip/directoryIterator.cpp) and DriveIterator
-- (src/oboskrnl/vfs/devManip/driveIterator.cpp). A text that a call returns is an option, none for a
-- null pointer; what sprintf makes of `%d:/%s` and of `D%d:/` is a parameter, as are the `prev` fields,
-- which only the iterators read.
pub mod Walk
pub mod Ends
use obos_old.Prelude.{
  ℕ, zero, suc, Bool, true, false, not, ◌&&◌, ◌||◌, List, [], ◌∷◌, Option, none, some, ◌==◌,
  if◌then◌else◌,
}
use obos_old.Outcome.{Outcome, done, fault, hang, ◌>>=◌}
use obos_old.CString.{CString, str_contains, get_mount_id, real_path}
use obos_old.Vfs.{
  Vfs, Error, set_last_error, directory, already_exists, invalid_parameter, vfs_file_not_found,
  vfs_invalid_operation_on_object, unopened_handle, find_mount, follow_links,
}
use obos_old.Vfs.FileHandle.{search_in}

pub record DirectoryIterator : Type 0 where
  pub directory_node : ℕ
  pub current_node : ℕ

abbrev pub new_iterator : DirectoryIterator
new_iterator = record { directory_node = 0; current_node = 0 }

-- What OpenAt and Close return, the iterator and the file system behind them.
abbrev pub IteratorCall : Type 0
IteratorCall = Bool × DirectoryIterator × Vfs

-- OpenAt once the search has returned: only a directory is opened.
unfoldable pub open_entry : ℕ → DirectoryIterator → Vfs → ℕ → Outcome IteratorCall
open_entry fuel it w entry =
    if entry == 0
    then done (false, it, set_last_error vfs_file_not_found w)
    else elim (w.dirent entry).dirent_type [
      | directory ↦ follow_links fuel w entry >>= λ target.
          done
            (true, record { directory_node = target; current_node = (w.dirent target).children }, w)
      | _ ↦ done (false, it, set_last_error vfs_invalid_operation_on_object w)
    ]

-- OpenAt of a path that is not null, once the mount point is known.
unfoldable pub open_in : ℕ → CString → DirectoryIterator → Vfs → ℕ → Outcome IteratorCall
open_in fuel path it w point =
    if point == 0
    then done (false, it, set_last_error vfs_file_not_found w)
    else elim (real_path path) [
      | none ↦ fault
      | some rest ↦ elim rest [
        | [] ↦
            done
              (true, record { directory_node = point; current_node = (w.mount point).children }, w)
        | c ∷ cs ↦ search_in fuel w (c ∷ cs) (w.mount point).children >>= open_entry fuel it w
      ]
    ]

-- DirectoryIterator::OpenAt
unfoldable pub open_at : ℕ → Option CString → DirectoryIterator → Vfs → Outcome IteratorCall
open_at fuel path it w =
    if not (it.current_node == 0) || not (it.directory_node == 0)
    then done (false, it, set_last_error already_exists w)
    else elim path [
      | none ↦ done (false, it, set_last_error invalid_parameter w)
      | some p ↦
          if not (str_contains p b':')
          then done (false, it, set_last_error invalid_parameter w)
          else open_in fuel p it w (find_mount w (get_mount_id p 0) w.mount_points 0)
    ]

-- DirectoryIterator::Close
unfoldable pub close_at : DirectoryIterator → Vfs → IteratorCall
close_at it w =
    if (it.current_node == 0) || (it.directory_node == 0)
    then (false, it, set_last_error unopened_handle w)
    else (true, new_iterator, w)

module _ (format : ℕ → CString → CString) (prev : ℕ → ℕ) (w : Vfs) where
  -- operator*
  unfoldable pub dereference : DirectoryIterator → Option CString
  dereference it =
      let entry = w.dirent it.current_node in
      if it.current_node == 0 then none else some (format (w.mount entry.mount_point).id entry.path)

  -- ++iter
  unfoldable pub pre_increment : DirectoryIterator → Option CString × DirectoryIterator
  pre_increment it =
      let moved = record it { current_node = (w.dirent it.current_node).next } in
      if it.current_node == 0 then (none, it) else (dereference moved, moved)

  -- iter++
  unfoldable pub post_increment : DirectoryIterator → Option CString × DirectoryIterator
  post_increment it =
      let moved = record it { current_node = (w.dirent it.current_node).next } in
      if it.current_node == 0
      then (none, it)
      else (if moved.current_node == 0 then none else dereference it, moved)

  -- --iter
  unfoldable pub pre_decrement : DirectoryIterator → Option CString × DirectoryIterator
  pre_decrement it =
      let moved = record it { current_node = prev it.current_node } in
      if it.current_node == 0
      then (none, it)
      else (if moved.current_node == 0 then none else dereference moved, moved)

  -- iter--
  unfoldable pub post_decrement : DirectoryIterator → Option CString × DirectoryIterator
  post_decrement it =
      let moved = record it { current_node = prev it.current_node } in
      if it.current_node == 0 then (none, it) else (dereference it, moved)

-- The drives that a DriveIterator walks over: their ids and links.
pub record DriveChain : Type 0 where
  pub head : ℕ
  pub id : ℕ → ℕ
  pub next : ℕ → ℕ
  pub prev : ℕ → ℕ

module _ (format : ℕ → CString) (d : DriveChain) where
  -- operator* of the drive iterator at the node; it begins at the head.
  unfoldable pub drive_path : ℕ → Option CString
  drive_path node = if node == 0 then none else some (format (d.id node))

  unfoldable pub pre_increment_drive : ℕ → Outcome (Option CString × ℕ)
  pre_increment_drive node =
      if node == 0 then fault else done (drive_path (d.next node), d.next node)

  unfoldable pub post_increment_drive : ℕ → Outcome (Option CString × ℕ)
  post_increment_drive node = if node == 0 then fault else done (drive_path node, d.next node)

  unfoldable pub pre_decrement_drive : ℕ → Outcome (Option CString × ℕ)
  pre_decrement_drive node =
      if node == 0 then fault else done (drive_path (d.prev node), d.prev node)

  unfoldable pub post_decrement_drive : ℕ → Outcome (Option CString × ℕ)
  post_decrement_drive node = if node == 0 then fault else done (drive_path node, d.prev node)
