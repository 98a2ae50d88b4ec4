-- ===== src/Vfs/FileHandle/Seek.antt =====
-- SeekTo, and what the option to append does to Open.
use obos_old.Prelude.{ℕ, ◌≡◌, Bool, true, false, arith, Option-cases, inl, inr}
use obos_old.Outcome.{Outcome, done, Outcome-cases}
use obos_old.CString.{CString, get_mount_id, real_path}
use obos_old.Vfs.{Vfs, unopened_handle, set_last_error, follow_links, find_mount}
use obos_old.Vfs.FileHandle.{
  FileHandle, SeekPlace, beg, Call, seek_to, search_in, attach_file, settle, open_file,
}
use obos_old.Vfs.FileHandle.Reading.{IsFile}

-- The same outcome, but for the error that a refused SeekTo leaves behind a success.
abbrev pub noted : Outcome (Call Bool) → Outcome (Call Bool)
noted (done (true, h, w)) = done (true, h, set_last_error unopened_handle w)
noted r = r

settle-noted :
    (fuel this fresh : ℕ) (h : FileHandle) (w : Vfs) (ro : Bool) (entry : ℕ)
    → h.flags.closed ≡ true
    → settle fuel this fresh h w (record { read_only = ro; append = true }) entry
      ≡ noted (settle fuel this fresh h w (record { read_only = ro; append = false }) entry)
unfolding settle attach_file seek_to
settle-noted fuel this fresh h w ro entry c = elim (Outcome-cases (follow_links fuel w entry)) [
  | inl (target, f) ↦ ground (arith, f)
  | inr (inl f) ↦ ground (arith, f)
  | inr (inr f) ↦ ground (arith, f)
]

-- The option to append has no effect on the handle that Open returns: the seek to the end comes
-- before the handle counts as open, is refused, and leaves only its error.
pub open_file-append :
    (fuel this fresh : ℕ) (h : FileHandle) (w : Vfs) (path : CString) (ro : Bool)
    → h.flags.closed ≡ true
    → open_file fuel this fresh h w path (record { read_only = ro; append = true })
      ≡ noted (open_file fuel this fresh h w path (record { read_only = ro; append = false }))
unfolding open_file
open_file-append fuel this fresh h w path ro c = elim (Option-cases (real_path path)) [
  | inl r ↦ ground (arith, r)
  | inr (rest, r) ↦
      let point = find_mount w (get_mount_id path 0) w.mount_points 0 in
      elim (Outcome-cases (search_in fuel w rest (w.mount point).children)) [
        | inl (entry, s) ↦ ground (arith, r, s, settle-noted fuel this fresh h w ro entry c)
        | inr (inl s) ↦ ground (arith, r, s)
        | inr (inr s) ↦ ground (arith, r, s)
      ]
]

-- SeekTo on an open file returns the old position and changes nothing else, so that seeking to what
-- it returned, from the beginning, gives the handle back as it was.
pub seek_to-seek_to :
    (h : FileHandle) (w : Vfs) (count : ℕ) (from : SeekPlace)
    → IsFile h
    → let r = seek_to h w count from in (r.2 ≡ w) × ((seek_to r.1 r.2 r.0 beg).1 ≡ h)
unfolding seek_to
seek_to-seek_to h w count from f = ground (arith, f.opened, f.no_device)
