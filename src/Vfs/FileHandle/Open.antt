-- ===== src/Vfs/FileHandle/Open.antt =====
-- What it takes for Open to succeed, and what it leaves behind.
use obos_old.Prelude.{
  ℕ, zero, suc, ◌≡◌, ◌≢◌, ◌⊎◌, inl, inr, Bool, true, [], ◌∷◌, Option, none, some, ◌==◌,
  if◌then◌else◌, length, arith, Bool-cases, Option-cases,
}
use obos_old.Outcome.{done, ◌>>=◌, Outcome-cases, >>=-eq-done}
use obos_old.CString.{CString, get_mount_id, real_path}
use obos_old.Links.{push_back}
use obos_old.Vfs.{
  Vfs, device_refs, with_device_refs, follow_links, find_mount, get_user_input_device,
}
use obos_old.Vfs.FileHandle.{
  FileHandle, flags_input, OpenOptions, Call, open_device, search_in, attach_file, settle,
  open_file, open_handle,
}

-- A symbolic link is never followed to null.
follow_links-ne :
    (fuel : ℕ) (w : Vfs) (entry target : ℕ) → follow_links fuel w entry ≡ done target → target ≢ 0
unfolding follow_links
follow_links-ne zero w entry target e = cc
follow_links-ne (suc fuel) w entry target e =
    ground (arith, follow_links-ne fuel w (w.dirent entry).linked_node target)

-- What Open does once the entry is found, by its type.
settle_file-inv :
    (fuel this fresh : ℕ) (h : FileHandle) (w : Vfs) (options : OpenOptions) (entry : ℕ)
    (r : Call Bool)
    → (follow_links fuel w entry >>= λ target.
        done (attach_file this fresh h w options entry target))
      ≡ done r
    → (target : ℕ) × (target ≢ 0) × (attach_file this fresh h w options entry target ≡ r)
settle_file-inv fuel this fresh h w options entry r e =
    let (target, f, g) = >>=-eq-done (follow_links fuel w entry) _ r e in
    (target, follow_links-ne fuel w entry target f, ground arith)

module _ (fuel this fresh : ℕ) (h : FileHandle) (w : Vfs) (options : OpenOptions) (h' : FileHandle)
    (w' : Vfs) where
  -- The file that the handle refers to after a call that succeeded.
  abbrev pub Attached : Type 0
  Attached =
      (entry : ℕ) × (target : ℕ) × (target ≢ 0)
      × (attach_file this fresh h w options entry target ≡ (true, h', w'))

  settle-Attached :
      (entry : ℕ) → settle fuel this fresh h w options entry ≡ done (true, h', w') → Attached
  unfolding settle
  settle-Attached entry e = elim (Outcome-cases (follow_links fuel w entry)) [
    | inl (target, f) ↦ (entry, target, follow_links-ne fuel w entry target f, ground (arith, f))
    | inr (inl f) ↦ absurd (ground (arith, f))
    | inr (inr f) ↦ absurd (ground (arith, f))
  ]

  open_file-Attached :
      (path : CString) → open_file fuel this fresh h w path options ≡ done (true, h', w') → Attached
  unfolding open_file
  open_file-Attached path e = elim (Option-cases (real_path path)) [
    | inl r ↦ absurd (ground (arith, r))
    | inr (rest, r) ↦
        let point = find_mount w (get_mount_id path 0) w.mount_points 0 in
        elim (Outcome-cases (search_in fuel w rest (w.mount point).children)) [
          | inl (entry, s) ↦ settle-Attached entry (ground (arith, r, s))
          | inr (inl s) ↦ absurd (ground (arith, r, s))
          | inr (inr s) ↦ absurd (ground (arith, r, s))
        ]
  ]

  -- The device that the handle refers to after a call that succeeded.
  abbrev pub DeviceAttached : Type 0
  DeviceAttached =
      (entry : ℕ) × (entry ≢ 0)
      × (h' ≡ record h { path_node = entry; node = entry; list_node = fresh; flags = flags_input })
      × (w' ≡ record (with_device_refs w entry (push_back fresh (device_refs w entry))) {
        holder = λ p. if p == fresh then this else w.holder p;
      })

  open_device-DeviceAttached :
      (name : CString) → open_device fuel this fresh h w name ≡ done (true, h', w') → DeviceAttached
  unfolding open_device
  open_device-DeviceAttached name e =
      elim (Outcome-cases
        (get_user_input_device fuel w (get_mount_id name (length name)) w.devices_head)) [
          | inl (entry, g) ↦ (entry, ground (arith, g), ground (arith, g), ground (arith, g))
          | inr (inl g) ↦ absurd (ground (arith, g))
          | inr (inr g) ↦ absurd (ground (arith, g))
        ]

  -- Open succeeds on a closed handle only, and has then attached it to a file or a device.
  pub open_handle-Attached :
      (path : Option CString)
      → open_handle fuel this fresh h w path options ≡ done (true, h', w')
      → (h.flags.closed ≡ true) × (h.node ≡ 0) × (Attached ⊎ DeviceAttached)
  unfolding open_handle
  open_handle-Attached none e = absurd (ground arith)
  open_handle-Attached (some []) e =
      (ground arith, ground arith, inl (open_file-Attached [] (ground arith)))
  open_handle-Attached (some (c ∷ name)) e = (
    ground arith,
    ground arith,
    elim (Bool-cases (c == b'K')) [
      | inl k ↦ inr (open_device-DeviceAttached name (ground arith))
      | inr k ↦ inl (open_file-Attached (c ∷ name) (ground arith))
    ],
  )
