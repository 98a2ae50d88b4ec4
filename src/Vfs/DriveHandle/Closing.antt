-- ===== src/Vfs/DriveHandle/Closing.antt =====
-- Close after OpenDrive, where it succeeded on a whole drive and where it found no partition.
use obos_old.Prelude.{
  ℕ, ◌+◌, ◌<◌, ◌≡◌, refl, ◌≢◌, Bool, true, false, List, [], ◌∷◌, ◌++◌, none, some, subst, length,
  has, has-append, erase-append_last, u64, arith, ◌==◌,
}
use obos_old.Outcome.{done}
use obos_old.CString.{CString}
use obos_old.Links.{push_back, unlink}
use obos_old.Links.Chain.{IsChain}
use obos_old.Links.Append.{push_back-IsChain}
use obos_old.Links.Remove.{unlink-IsChain}
use obos_old.Vfs.{unopened_handle, vfs_file_not_found}
use obos_old.Vfs.Drives.{Drives, drive_refs, note_error, find_entry}
use obos_old.Vfs.DriveHandle.{
  DriveHandle, default_handle, drive_id_of, partition_id_of, attach_drive, attach_partition,
  open_on, open_drive, close_drive,
}
use obos_old.Vfs.DriveHandle.Opening.{Referring, open_drive-DriveOpened}

module _ {D : Type 0} (fuel this dnode pnode : ℕ) (w : Drives D) (read_only : Bool)
    (name : CString) where
  close_drive-unlink :
      (h : DriveHandle) (v : Drives D)
      → h.closed ≡ false
      → h.node ≢ 0
      → h.node ≡ h.drive_node
      → ((close_drive h v).0 ≡ true)
        × ((close_drive h v).1 ≡ default_handle)
        × (drive_refs (close_drive h v).2 h.node ≡ unlink h.drive_handle_node (drive_refs v h.node))
  unfolding close_drive
  close_drive-unlink h v o nz e = (ground arith, ground arith, ground arith)

  attach_drive-refs :
      (drive : ℕ)
      → drive_refs (attach_drive this dnode default_handle w drive).1 drive
        ≡ push_back dnode (drive_refs w drive)
  unfolding attach_drive
  attach_drive-refs drive = ground arith

  -- Opening a whole drive adds the handle at the end of the drive's list, and Close afterwards
  -- succeeds, makes the handle what it was when it was constructed, and gives the list back as it
  -- was.
  pub close_drive-open_drive :
      (h' : DriveHandle) (w' : Drives D) (xs : List ℕ)
      → partition_id_of name ≡ none
      → open_drive fuel this dnode pnode default_handle w (some (b'D' ∷ name)) read_only
        ≡ done (true, h', w')
      → dnode ≢ 0
      → has dnode xs ≡ false
      → length xs + 1 < u64
      → IsChain (drive_refs w h'.node) xs
      → IsChain (drive_refs w' h'.node) (xs ++ dnode ∷ [])
        × ((close_drive h' w').0 ≡ true)
        × ((close_drive h' w').1 ≡ default_handle)
        × IsChain (drive_refs (close_drive h' w').2 h'.node) xs
  close_drive-open_drive h' w' xs whole ok nz out room chain =
      let o = open_drive-DriveOpened fuel this dnode pnode w read_only name h' w' ok in
      let (same, made) =
        subst (λ p. Referring fuel this dnode pnode w read_only p h' w') whole o.referring in
      let (closes, default, unlinked) = close_drive-unlink h' w' o.opened o.refers same in
      let joined : IsChain (drive_refs w' h'.node) (xs ++ dnode ∷ []) =
        rw (made, same, attach_drive-refs h'.drive_node)
          (push_back-IsChain dnode (drive_refs w h'.drive_node) xs nz out room
            (subst (λ n. IsChain (drive_refs w n) xs) same chain)) in
      let at_end : has dnode (xs ++ dnode ∷ []) ≡ true =
        ground (arith, has-append dnode xs (dnode ∷ [])) in
      let left = unlink-IsChain dnode (drive_refs w' h'.node) (xs ++ dnode ∷ []) at_end joined in
      (
        joined,
        closes,
        default,
        rw (unlinked, o.listed)
            (subst (IsChain (unlink dnode (drive_refs w' h'.node))) (erase-append_last dnode xs out)
              left),
      )

  -- When the drive of the path is found but not the partition, OpenDrive fails with the handle
  -- closed as before, but has pushed a node for the handle to the back of the drive's list, and
  -- Close refuses to take it out again.
  pub open_drive-no_partition :
      (drive id : ℕ)
      → partition_id_of name ≡ some id
      → drive ≢ 0
      → find_entry
          (λ q. (w.drive q).drive_id == drive_id_of name)
          (λ q. (w.drive q).next)
          fuel
          w.drives_head
        ≡ done drive
      → find_entry
          (λ q. (w.partition q).partition_id == id)
          (λ q. (w.partition q).next)
          fuel
          (w.drive drive).first_partition
        ≡ done 0
      → (h' : DriveHandle) × (w' : Drives D) × (open_drive fuel this dnode pnode default_handle w
            (some (b'D' ∷ name))
            read_only
          ≡ done (false, h', w'))
        × (h'.closed ≡ true)
        × (w'.last_error ≡ vfs_file_not_found)
        × (drive_refs w' drive ≡ push_back dnode (drive_refs w drive))
        × (close_drive h' w' ≡ (false, h', note_error unopened_handle w'))
  unfolding open_drive open_on attach_drive attach_partition close_drive
  open_drive-no_partition drive id p nz f g =
      let a = attach_drive this dnode default_handle w drive in
      (
        a.0,
        note_error vfs_file_not_found a.1,
        ground (arith, p, f, g),
        refl,
        refl,
        ground arith,
        ground arith,
      )
