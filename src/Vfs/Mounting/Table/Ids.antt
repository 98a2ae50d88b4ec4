-- ===== src/Vfs/Mounting/Table/Ids.antt =====
-- The ids of the mount points.
use obos_old.Prelude.{
  ℕ, ◌≡◌, ◌≢◌, refl, sym, inl, inr, Bool, true, false, Bool-cases, Option-cases, List, [], ◌∷◌,
  ◌++◌, Option, none, some, has, Once, Once-append, arith, subst, test-of-ne, ap,
}
use obos_old.Outcome.{Outcome, done, fault, hang, ◌>>=◌}
use obos_old.Vfs.DriveHandle.{DriveHandle, default_handle, open_drive}
use obos_old.Vfs.Mounting.{FilesystemDriver, setup_mount_point_entries}
use obos_old.Vfs.Mounting.Table.{
  Mounted, MountState, MountResult, MountHost, ids_of, is_mounted_at, existing_mount, add_point,
  mount_opened, mount_new, mount_at, mount,
}

ids_of-append :
    (points : List Mounted) (m : Mounted) → ids_of (points ++ m ∷ []) ≡ ids_of points ++ m.id ∷ []
ids_of-append [] m = refl
ids_of-append (p ∷ points) m = ap (λ (l : List ℕ). p.id ∷ l) (ids_of-append points m)

has-ids_of :
    (point : ℕ) (points : List Mounted)
    → is_mounted_at point points ≡ false
    → has point (ids_of points) ≡ false
unfolding is_mounted_at
has-ids_of point [] h = refl
has-ids_of point (m ∷ points) h = ground (arith, has-ids_of point points)

Once-push :
    (points : List Mounted) (m : Mounted)
    → Once (ids_of points)
    → has m.id (ids_of points) ≡ false
    → Once (ids_of (points ++ m ∷ []))
Once-push points m o h =
    subst Once (sym (ids_of-append points m)) (Once-append (ids_of points) m.id o h)

module _ {D S : Type 0} where
  -- Where the call returns, no two mount points have the same id.
  unfoldable Keeps : Outcome (MountResult × MountState D S) → Type 0
  Keeps (done r) = Once (ids_of r.1.points)
  Keeps fault = Unit
  Keeps hang = Unit

  Keeps->>= :
      {A : Type 0} (m : Outcome A) (f : A → Outcome (MountResult × MountState D S))
      → ((a : A) → Keeps (f a))
      → Keeps (m >>= f)
  unfolding Keeps
  Keeps->>= (done a) f k = k a
  Keeps->>= fault f k = tt
  Keeps->>= hang f k = tt

  module _ (host : MountHost S) where
    add_point-Keeps :
        (id : ℕ) (is_initrd : Bool) (partition : Option (ℕ × ℕ)) (driver : FilesystemDriver S)
        (s : MountState D S)
        → Once (ids_of s.points)
        → has id (ids_of s.points) ≡ false
        → Keeps (add_point host id is_initrd partition driver s)
    unfolding add_point Keeps
    add_point-Keeps id is_initrd partition driver s o h =
        Keeps->>= (setup_mount_point_entries driver host.fuel is_initrd s.driver_state) _ (λ r.
          elim (Option-cases r.0) [
            | inl e ↦ rw (Keeps, e) o
            | inr (entries, e) ↦ rw (Keeps, e) (Once-push s.points _ o h)
          ])

    mount_opened-Keeps :
        (id : ℕ) (h : DriveHandle) (s : MountState D S)
        → Once (ids_of s.points)
        → has id (ids_of s.points) ≡ false
        → Keeps (mount_opened host id h s)
    unfolding mount_opened Keeps
    mount_opened-Keeps id h s o fresh = elim (Option-cases (host.filesystem_driver h.node)) [
      | inl e ↦ rw (Keeps, e) o
      | inr (driver, e) ↦ rw (mount_opened, e) (add_point-Keeps id false _ driver _ o fresh)
    ]

    mount_new-Keeps :
        (id drive_id partition_id : ℕ) (is_initrd : Bool) (s : MountState D S)
        → Once (ids_of s.points)
        → has id (ids_of s.points) ≡ false
        → Keeps (mount_new host id drive_id partition_id is_initrd s)
    unfolding mount_new Keeps
    mount_new-Keeps id drive_id partition_id true s o h =
        add_point-Keeps id true none host.initrd_driver s o h
    mount_new-Keeps id drive_id partition_id false s o h =
        Keeps->>=
          (open_drive host.fuel host.this host.drive_link host.partition_link default_handle
            s.drives (some (host.partition_path drive_id partition_id)) true)
          _
          (λ opened. elim (Bool-cases opened.0) [
            | inl e ↦ rw e (mount_opened-Keeps id opened.1 _ o h)
            | inr e ↦ rw (Keeps, e) o
          ])

    mount_at-Keeps :
        (id drive_id partition_id : ℕ) (is_initrd fail_if_mounted : Bool) (s : MountState D S)
        → Once (ids_of s.points)
        → has id (ids_of s.points) ≡ false
        → Keeps (mount_at host id drive_id partition_id is_initrd fail_if_mounted s)
    unfolding mount_at Keeps
    mount_at-Keeps id drive_id partition_id is_initrd fail_if_mounted s o h =
        elim (Option-cases (existing_mount is_initrd drive_id partition_id s.points)) [
          | inl e ↦ rw (mount_at, e) (mount_new-Keeps id drive_id partition_id is_initrd s o h)
          | inr (m, e) ↦ elim (Bool-cases fail_if_mounted) [
            | inl fails ↦ rw (mount_at, e, fails) o
            | inr goes_on ↦ rw (mount_at, e, goes_on) (Once-push s.points _ o h)
          ]
        ]

    mount-Keeps :
        (point drive_id partition_id : ℕ) (is_initrd fail_if_mounted : Bool) (s : MountState D S)
        → Once (ids_of s.points)
        → point ≢ 0xffff_ffff
        → Keeps (mount host point drive_id partition_id is_initrd fail_if_mounted s)
    unfolding Keeps mount
    mount-Keeps point drive_id partition_id is_initrd fail_if_mounted s o n =
        elim (Bool-cases (is_mounted_at point s.points)) [
          | inl taken ↦ rw (mount, test-of-ne point 0xffff_ffff n, taken) o
          | inr free ↦
              rw (mount, test-of-ne point 0xffff_ffff n, free)
                (mount_at-Keeps point drive_id partition_id is_initrd fail_if_mounted s o
                  (has-ids_of point s.points free))
        ]

    -- A mount at an id of the caller's choice that returns, whether it succeeds or fails, leaves the
    -- ids of the mount points different from each other when they were so before.
    pub mount-Once :
        (point drive_id partition_id : ℕ) (is_initrd fail_if_mounted : Bool) (s : MountState D S)
        (r : MountResult) (s' : MountState D S)
        → Once (ids_of s.points)
        → point ≢ 0xffff_ffff
        → mount host point drive_id partition_id is_initrd fail_if_mounted s ≡ done (r, s')
        → Once (ids_of s'.points)
    unfolding Keeps mount
    mount-Once point drive_id partition_id is_initrd fail_if_mounted s r s' o n e =
        subst Keeps e (mount-Keeps point drive_id partition_id is_initrd fail_if_mounted s o n)
