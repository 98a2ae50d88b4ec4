-- ===== src/Vfs/DriveHandle/Opening.antt =====
-- What OpenDrive looks up, and what it leaves behind on success and where it finds no partition.
use obos_old.Prelude.{
  ℕ, zero, suc, ◌≡◌, ◌≢◌, ◌⊎◌, Bool, true, false, not, ◌∷◌, Option, none, some, ◌==◌, arith,
}
use obos_old.Outcome.{done, >>=-eq-done}
use obos_old.CString.{CString}
use obos_old.Vfs.Drives.{Drives, find_entry}
use obos_old.Vfs.DriveHandle.{
  DriveHandle, default_handle, drive_id_of, partition_id_of, attach_drive, attach_partition,
  open_on, open_drive,
}

-- What a search that returned has found.
find_entry-Found :
    (matches : ℕ → Bool) (next : ℕ → ℕ) (fuel node r : ℕ)
    → find_entry matches next fuel node ≡ done r
    → (r ≡ 0) ⊎ ((r ≢ 0) × (matches r ≡ true))
unfolding find_entry
find_entry-Found matches next zero node r e = cc
find_entry-Found matches next (suc fuel) node r e =
    ground (arith, find_entry-Found matches next fuel (next node) r)

module _ {D : Type 0} (fuel this dnode pnode : ℕ) (w : Drives D) (read_only : Bool) where
  -- The node that the handle refers to: the drive itself, or a partition.
  abbrev pub Referring : Option ℕ → DriveHandle → Drives D → Type 0
  Referring none h' w' =
      (h'.node ≡ h'.drive_node) × (w' ≡ (attach_drive this dnode default_handle w h'.drive_node).1)
  Referring (some p) h' w' = ((w.partition h'.node).partition_id ≡ p) × (h'.handle_node ≡ pnode)

  -- What a handle is after OpenDrive succeeded for a drive and a partition.
  pub record DriveOpened (id : ℕ) (part : Option ℕ) (h' : DriveHandle) (w' : Drives D)
      : Type 0 where
    pub opened : h'.closed ≡ false
    pub refers : h'.node ≢ 0
    pub of_drive : h'.drive_node ≢ 0
    pub drive_id : (w.drive h'.drive_node).drive_id ≡ id
    pub listed : h'.drive_handle_node ≡ dnode
    pub writes : h'.can_write ≡ not read_only
    pub referring : Referring part h' w'

  attach_partition-DriveOpened :
      (id drive p entry : ℕ) (h' : DriveHandle) (w' : Drives D)
      → drive ≢ 0
      → (w.drive drive).drive_id ≡ id
      → ((entry ≡ 0) ⊎ ((entry ≢ 0) × (((w.partition entry).partition_id == p) ≡ true)))
      → (let a = attach_drive this dnode default_handle w drive in
          attach_partition pnode read_only a.0 a.1 entry)
        ≡ (true, h', w')
      → DriveOpened id (some p) h' w'
  unfolding attach_drive attach_partition
  attach_partition-DriveOpened id drive p entry h' w' nz same found e = record {
    opened = ground arith;
    refers = ground arith;
    of_drive = ground arith;
    drive_id = ground arith;
    listed = ground arith;
    writes = ground arith;
    referring = ground arith;
  }

  open_on-DriveOpened :
      (id drive : ℕ) (part : Option ℕ) (h' : DriveHandle) (w' : Drives D)
      → ((drive ≡ 0) ⊎ ((drive ≢ 0) × (((w.drive drive).drive_id == id) ≡ true)))
      → open_on fuel this dnode pnode read_only default_handle w part drive ≡ done (true, h', w')
      → DriveOpened id part h' w'
  unfolding open_on attach_drive
  open_on-DriveOpened id drive none h' w' found e = record {
    opened = ground arith;
    refers = ground arith;
    of_drive = ground arith;
    drive_id = ground arith;
    listed = ground arith;
    writes = ground arith;
    referring = ground arith;
  }
  open_on-DriveOpened id drive (some p) h' w' found e =
      let (h1, w1) = attach_drive this dnode default_handle w drive in
      let (entry, f, g) =
        >>=-eq-done
          (find_entry (λ q. (w1.partition q).partition_id == p) (λ q. (w1.partition q).next) fuel
            (w1.drive drive).first_partition)
          (λ q. done (attach_partition pnode read_only h1 w1 q)) (true, h', w') (ground arith) in
      attach_partition-DriveOpened id drive p entry h' w' (ground arith) (ground arith)
        (ground (
          arith,
          find_entry-Found (λ q. (w1.partition q).partition_id == p) (λ q. (w1.partition q).next)
              fuel (w1.drive drive).first_partition entry f,
        ))
        (ground arith)

  -- When OpenDrive of a handle as constructed succeeds, the path names a drive, and the handle is
  -- open on the drive with that id, or on a partition with the id that the path gives, with the
  -- right to write unless it was opened read only; its list node is the one that was made for the
  -- drive's list.
  pub open_drive-DriveOpened :
      (name : CString) (h' : DriveHandle) (w' : Drives D)
      → open_drive fuel this dnode pnode default_handle w (some (b'D' ∷ name)) read_only
        ≡ done (true, h', w')
      → DriveOpened (drive_id_of name) (partition_id_of name) h' w'
  unfolding open_drive
  open_drive-DriveOpened name h' w' e =
      let (drive, f, g) =
        >>=-eq-done
          (find_entry (λ q. (w.drive q).drive_id == drive_id_of name) (λ q. (w.drive q).next) fuel
            w.drives_head)
          (open_on fuel this dnode pnode read_only default_handle w (partition_id_of name))
          (true, h', w') e in
      open_on-DriveOpened (drive_id_of name) drive (partition_id_of name) h' w'
        (find_entry-Found (λ q. (w.drive q).drive_id == drive_id_of name) (λ q. (w.drive q).next)
          fuel w.drives_head drive f)
        g
