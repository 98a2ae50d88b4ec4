-- ===== src/Vfs/FileHandle/Close.antt =====
-- Open and Close keep the lists of handles that the nodes carry.
use obos_old.Prelude.{
  ℕ, ◌+◌, ◌<◌, ◌≡◌, refl, ◌≢◌, inl, inr, Bool, true, false, List, [], ◌∷◌, ◌++◌, Option, subst,
  if◌then◌else◌, length, has, has-append, erase-append_last, u64, arith,
}
use obos_old.Outcome.{done}
use obos_old.CString.{CString}
use obos_old.Links.{ListState, push_back, unlink}
use obos_old.Links.Chain.{IsChain}
use obos_old.Links.Append.{push_back-IsChain}
use obos_old.Links.Remove.{unlink-IsChain}
use obos_old.Vfs.{Vfs, dirent_refs, device_refs}
use obos_old.Vfs.FileHandle.{
  FileHandle, OpenOptions, Call, closed_handle, seek_to, attach_file, open_handle, close,
}
use obos_old.Vfs.FileHandle.Open.{Attached, DeviceAttached, open_handle-Attached}

-- The list of the handles that refer to the same node as `h`.
abbrev pub handle_refs : FileHandle → Vfs → ListState
handle_refs h w = if h.flags.is_input_device then device_refs w h.node else dirent_refs w h.node

-- What Open makes of a handle as constructed, in the file system `w`.
pub record Opened (this fresh : ℕ) (w : Vfs) (h' : FileHandle) (w' : Vfs) : Type 0 where
  pub opened : h'.flags.closed ≡ false
  pub refers : h'.node ≢ 0
  pub listed : h'.list_node ≡ fresh
  pub start : h'.pos ≡ 0
  pub holder : w'.holder fresh ≡ this
  pub pushed : handle_refs h' w' ≡ push_back fresh (handle_refs h' w)

attach_file-Opened :
    (this fresh : ℕ) (w : Vfs) (options : OpenOptions) (entry target : ℕ)
    → target ≢ 0
    → let r = attach_file this fresh closed_handle w options entry target in
      Opened this fresh w r.1 r.2
unfolding attach_file seek_to
attach_file-Opened this fresh w options entry target nz = record {
  opened = ground arith;
  refers = ground arith;
  listed = ground arith;
  start = ground arith;
  holder = ground arith;
  pushed = ground arith;
}

device-Opened :
    (this fresh : ℕ) (w : Vfs) (h' : FileHandle) (w' : Vfs) (options : OpenOptions)
    → DeviceAttached 0 this fresh closed_handle w options h' w'
    → Opened this fresh w h' w'
device-Opened this fresh w h' w' options (entry, nz, hq, wq) =
    rw (hq, wq)
      (record {
        opened = refl;
        refers = nz;
        listed = refl;
        start = refl;
        holder = ground arith;
        pushed = ground arith;
      })

file-Opened :
    (this fresh : ℕ) (w : Vfs) (h' : FileHandle) (w' : Vfs) (options : OpenOptions)
    → Attached 0 this fresh closed_handle w options h' w'
    → Opened this fresh w h' w'
file-Opened this fresh w h' w' options (entry, target, nz, e) =
    subst (λ (r : Call Bool). Opened this fresh w r.1 r.2) e
      (attach_file-Opened this fresh w options entry target nz)

close-unlink :
    (h : FileHandle) (w : Vfs)
    → h.flags.closed ≡ false
    → h.node ≢ 0
    → h.list_node ≢ 0
    → ((close h w).0 ≡ true)
      × ((close h w).1 ≡ closed_handle)
      × (handle_refs h (close h w).2 ≡ unlink h.list_node (handle_refs h w))
unfolding close
close-unlink h w o n l = (ground arith, ground arith, ground arith)

module _ (fuel this fresh : ℕ) (w : Vfs) (path : Option CString) (options : OpenOptions)
    (h' : FileHandle) (w' : Vfs)
    (ok : open_handle fuel this fresh closed_handle w path options ≡ done (true, h', w')) where
  -- A successful Open of a handle as constructed leaves it open, on a node that is not null, its list
  -- node recorded as its own and pushed to the back of that node's list; it stands at position 0, with
  -- OPTIONS_APPEND as well, although fileHandle.h says that this option seeks to the end.
  pub open_handle-Opened : Opened this fresh w h' w'
  open_handle-Opened =
      elim (open_handle-Attached fuel this fresh closed_handle w options h' w' path ok).2 [
        | inl file ↦ file-Opened this fresh w h' w' options file
        | inr device ↦ device-Opened this fresh w h' w' options device
      ]

  -- Opening adds the handle at the end of its node's list, and Close afterwards succeeds, makes the
  -- handle what it was when it was constructed, and gives the list back as it was before Open.
  pub close-open_handle :
      (xs : List ℕ)
      → fresh ≢ 0
      → has fresh xs ≡ false
      → length xs + 1 < u64
      → IsChain (handle_refs h' w) xs
      → IsChain (handle_refs h' w') (xs ++ fresh ∷ [])
        × ((close h' w').0 ≡ true)
        × ((close h' w').1 ≡ closed_handle)
        × IsChain (handle_refs h' (close h' w').2) xs
  close-open_handle xs nz out room chain =
      let o = open_handle-Opened in
      let (closes, default, unlinked) =
        close-unlink h' w' o.opened o.refers (ground (arith, o.listed)) in
      let joined : IsChain (handle_refs h' w') (xs ++ fresh ∷ []) =
        rw o.pushed (push_back-IsChain fresh (handle_refs h' w) xs nz out room chain) in
      let at_end : has fresh (xs ++ fresh ∷ []) ≡ true =
        ground (arith, has-append fresh xs (fresh ∷ [])) in
      let left = unlink-IsChain fresh (handle_refs h' w') (xs ++ fresh ∷ []) at_end joined in
      (
        joined,
        closes,
        default,
        rw (unlinked, o.listed)
            (subst (IsChain (unlink fresh (handle_refs h' w'))) (erase-append_last fresh xs out)
              left),
      )
