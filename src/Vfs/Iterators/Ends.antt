-- ===== src/Vfs/Iterators/Ends.antt =====
-- The iterators at their ends.
use obos_old.Prelude.{ℕ, ◌≡◌, ◌≢◌, false, Option, none, some, arith}
use obos_old.Outcome.{done}
use obos_old.CString.{CString}
use obos_old.Vfs.{Vfs, set_last_error, already_exists, unopened_handle}
use obos_old.Vfs.Iterators.{DirectoryIterator, dereference, post_increment, close_at, open_at}

-- An iterator that has passed the last entry of its directory can neither be closed, which reports an
-- unopened handle, nor opened again, which reports that it is open already.
pub open_at-ended :
    (fuel : ℕ) (path : Option CString) (it : DirectoryIterator) (w : Vfs)
    → it.current_node ≡ 0
    → it.directory_node ≢ 0
    → (close_at it w ≡ (false, it, set_last_error unopened_handle w))
      × (open_at fuel path it w ≡ done (false, it, set_last_error already_exists w))
unfolding close_at open_at
open_at-ended fuel path it w c d = (ground arith, ground arith)

-- At the last entry of its directory, iter++ gives a null pointer although *iter has a text.
pub post_increment-last :
    (format : ℕ → CString → CString) (prev : ℕ → ℕ) (w : Vfs) (it : DirectoryIterator)
    → it.current_node ≢ 0
    → (w.dirent it.current_node).next ≡ 0
    → (text : CString) × (dereference format prev w it ≡ some text)
      × ((post_increment format prev w it).0 ≡ none)
unfolding dereference post_increment
post_increment-last format prev w it c n = (
  format (w.mount (w.dirent it.current_node).mount_point).id (w.dirent it.current_node).path,
  ground arith,
  ground arith,
)
