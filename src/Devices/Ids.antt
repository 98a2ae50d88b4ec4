-- ===== src/Devices/Ids.antt =====
-- The ids that registration gives.
use obos_old.Prelude.{
  ℕ, ◌+◌, ◌<◌, ◌≡◌, refl, sym, ◌≢◌, true, false, List, [], ◌∷◌, ◌++◌, arith, ◌==◌, has, erase,
  has-append, length, length-append, length-erase, u32, has-erase_other,
}
use obos_old.Outcome.{done}
use obos_old.Links.{attach, unlink}
use obos_old.Links.Chain.{Seg-no_null, IsChain}
use obos_old.Links.Append.{attach-IsChain}
use obos_old.Links.Remove.{unlink-IsChain}
use obos_old.Vfs.Drives.{find_entry}
use obos_old.Vfs.Drives.Search.{find_entry-only}
use obos_old.Devices.{
  Caller, Registry, close_all, delete_all, delete_entry, is_storage, with_entry, register_drive,
  unregister_drive, drop_input, unregister_input_device,
}

-- The drives are the list's entries, and all their ids are below their number.
pub record IsNumbered (r : Registry) (xs : List ℕ) : Type 0 where
  pub chain : IsChain r.drives xs
  pub below : (x : ℕ) → has x xs ≡ true → r.id x < length xs

-- When the ids of the drives are below their number, RegisterDrive by a storage driver puts the new
-- drive behind the others with an id that none of them has, by which the kernel finds it, and the ids
-- are below the number of drives again.
pub register_drive-IsNumbered :
    (c : Caller) (r : Registry) (xs : List ℕ) (entry : ℕ)
    → IsNumbered r xs
    → c.identity ≢ 0
    → is_storage c.service ≡ true
    → entry ≢ 0
    → (r.drives.links entry).next ≡ 0
    → has entry xs ≡ false
    → length xs + 1 < u32
    → (r' : Registry) × (register_drive c entry r ≡ (length xs, r'))
      × IsNumbered r' (xs ++ entry ∷ [])
      × (find_entry
            (λ e. r'.id e == length xs)
            (λ e. (r'.drives.links e).next)
            (length xs + 2)
            r'.drives.header.head
          ≡ done entry)
unfolding register_drive with_entry
register_drive-IsNumbered c r xs entry n i s nz z out room =
    let chain = attach-IsChain entry r.drives xs nz z out (omega arith) n.chain in
    let longer = length-append {0} xs (entry ∷ []) in
    let r' =
      with_entry entry (length xs) c.identity (record r { drives = attach entry r.drives }) in
    (
      r',
      ground (arith, n.chain.count),
      record {
        chain = chain;
        below = λ x h. ground (arith, has-append x xs (entry ∷ []), n.below x, longer);
      },
      find_entry-only (λ e. r'.id e == length xs) r'.drives.links (length xs + 2) 0
          r'.drives.header.head r'.drives.header.tail entry (xs ++ entry ∷ []) chain.nodes
          (omega (arith, longer)) (ground (arith, has-append entry xs (entry ∷ []))) (ground arith)
          (λ y h m. ground (arith, has-append y xs (entry ∷ []), n.below y)),
    )

-- After UnregisterDrive of a drive with an id of its own, the next RegisterDrive gives the id of the
-- drive that was registered last, which is still in the list.
pub register_drive-unregister_drive :
    (c : Caller) (r : Registry) (xs : List ℕ) (x y entry : ℕ)
    → IsNumbered r xs
    → length xs < u32
    → has x xs ≡ true
    → has y xs ≡ true
    → x ≢ y
    → ((z : ℕ) → has z xs ≡ true → r.id z ≡ r.id x → z ≡ x)
    → r.id y + 1 ≡ length xs
    → c.identity ≢ 0
    → is_storage c.service ≡ true
    → (r' : Registry) × (unregister_drive (length xs + 1) (r.id x) r ≡ done r')
      × IsChain r'.drives (erase x xs)
      × (has y (erase x xs) ≡ true)
      × (r'.id y ≡ r.id y)
      × ((register_drive c entry r').0 ≡ r.id y)
unfolding unregister_drive register_drive
register_drive-unregister_drive c r xs x y entry n small i j d only last k s =
    let null =
      Seg-no_null r.drives.links 0 r.drives.header.head r.drives.header.tail xs n.chain.nodes in
    let found =
      find_entry-only (λ e. r.id e == r.id x) r.drives.links (length xs + 1) 0 r.drives.header.head
        r.drives.header.tail x xs n.chain.nodes (omega arith) i (ground arith)
        (λ z h m. only z h (ground arith)) in
    let left = unlink-IsChain x r.drives xs i n.chain in
    let less = length-erase x xs i in
    (
      record r {
        drives = unlink x r.drives;
        log =
            r.log ++ close_all (r.handles x) ++ delete_all (r.partitions x) ++ delete_entry x ∷ [];
      },
      ground (arith, found, null),
      left,
      ground (arith, has-erase_other y x xs (λ e. d (sym e))),
      refl,
      ground (arith, left.count, less),
    )

-- UnregisterInputDevice of a device that is registered takes one from the number of drives, which
-- then is not the length of their list.
pub unregister_input_device-count :
    (r : Registry) (xs ds : List ℕ) (x : ℕ)
    → IsChain r.inputs xs
    → IsChain r.drives ds
    → has x xs ≡ true
    → ((z : ℕ) → has z xs ≡ true → r.id z ≡ r.id x → z ≡ x)
    → 0 < length ds
    → (r' : Registry) × (unregister_input_device (length xs + 1) (r.id x) r ≡ done r')
      × (r'.drives.header.size + 1 ≡ length ds)
      × (r'.inputs.header.size ≡ length xs)
      × (length (erase x xs) + 1 ≡ length xs)
unfolding unregister_input_device drop_input
unregister_input_device-count r xs ds x c d i only l =
    let null = Seg-no_null r.inputs.links 0 r.inputs.header.head r.inputs.header.tail xs c.nodes in
    let found =
      find_entry-only (λ e. r.id e == r.id x) r.inputs.links (length xs + 1) 0 r.inputs.header.head
        r.inputs.header.tail x xs c.nodes (omega arith) i (ground arith)
        (λ z h m. only z h (ground arith)) in
    (
      drop_input x r,
      ground (arith, found, null),
      ground (arith, d.count, d.fits),
      ground (arith, c.count),
      omega (arith, length-erase x xs i),
    )
