-- ===== src/Vfs/FileHandle/Reading.antt =====
-- What Read does at the end of a file, within a file, and on an input device.
use obos_old.Prelude.{
  ℕ, zero, suc, ◌+◌, ◌*◌, ◌/◌, ◌≤◌, ◌<◌, ◌≡◌, refl, ◌≢◌, Bool, true, false, List, [], ◌∷◌, Option,
  none, some, if◌then◌else◌, length, take, drop, arith, u64, ◌∙◌, get_elem?-drop, get_elem?-none,
}
use obos_old.Outcome.{done, fault, hang}
use obos_old.Vfs.{Vfs, vfs_read_aborted, set_last_error}
use obos_old.Vfs.FileHandle.{FileHandle, test_eof}
use obos_old.Vfs.FileHandle.Read.{
  Arrivals, arrive, wait_for_data, copy_keys, ReadFile, read_now, read,
}

-- A handle that Open returned for a file.
pub record IsFile (h : FileHandle) : Type 0 where
  pub opened : h.flags.closed ≡ false
  pub no_device : h.flags.is_input_device ≡ false
  pub refers : h.node ≢ 0

-- A handle that Open returned for an input device.
pub record IsDevice (h : FileHandle) : Type 0 where
  pub opened : h.flags.closed ≡ false
  pub device : h.flags.is_input_device ≡ true
  pub refers : h.node ≢ 0

-- No arrival changes a file.
wait_for_data-hang :
    (h : FileHandle) (n : ℕ) (w : Vfs) (arrivals : Arrivals)
    → h.flags.is_input_device ≡ false
    → (w.dirent h.node).filesize ≤ h.pos
    → h.pos + n < u64
    → wait_for_data h n w arrivals ≡ hang
unfolding wait_for_data test_eof
wait_for_data-hang h n w [] d end fits = ground arith
wait_for_data-hang h n w (a ∷ more) d end fits =
    ground (arith, wait_for_data-hang h n (arrive a w) more)

-- At the end of a file Read waits for ever, whatever arrives, for every count.
pub read-hang :
    (f : ReadFile) (h : FileHandle) (w : Vfs) (arrivals : Arrivals) (buffer peek : Bool) (n : ℕ)
    → IsFile h
    → (w.dirent h.node).filesize ≤ h.pos
    → h.pos + n < u64
    → read f h w arrivals buffer n peek ≡ hang
unfolding read test_eof
read-hang f h w arrivals buffer peek n file end fits = ground (
  arith,
  file.opened,
  file.no_device,
  file.refers,
  wait_for_data-hang h n w arrivals file.no_device end fits,
)

wait_for_data-done :
    (h : FileHandle) (n : ℕ) (w : Vfs) (arrivals : Arrivals)
    → test_eof h w h.pos ≡ false
    → wait_for_data h n w arrivals ≡ done (w, arrivals)
unfolding wait_for_data
wait_for_data-done h n w [] e = ground arith
wait_for_data-done h n w (a ∷ more) e = ground arith

-- Before the end Read does not wait.
read-read_now :
    (f : ReadFile) (h : FileHandle) (w : Vfs) (arrivals : Arrivals) (buffer peek : Bool) (n : ℕ)
    → h.flags.closed ≡ false
    → h.node ≢ 0
    → test_eof h w h.pos ≡ false
    → read f h w arrivals buffer n peek ≡ read_now f h w buffer n peek
unfolding read
read-read_now f h w arrivals buffer peek n o nz e =
    ground (arith, wait_for_data-done h n w arrivals e, wait_for_data-done h (n / 2) w arrivals e)

abbrev pub file_read : ReadFile → FileHandle → Vfs → ℕ → Option (List ℕ)
file_read f h w n =
    let point = w.mount (w.dirent h.node).mount_point in
    f point.drive_id point.partition_id (w.dirent h.node).path h.pos n

-- Before the end of a file, Read of one byte or more is decided by the driver alone, whether or not
-- the bytes that are asked for lie within the file: on success the position moves behind them, or
-- stays for a peek; on failure only the error is set.
pub read-file_read :
    (f : ReadFile) (h : FileHandle) (w : Vfs) (arrivals : Arrivals) (peek : Bool) (n : ℕ)
    → IsFile h
    → h.pos < (w.dirent h.node).filesize
    → 0 < n
    → h.pos + n < u64
    → read f h w arrivals true n peek ≡ elim (file_read f h w n) [
      | none ↦ done ((false, []), h, set_last_error vfs_read_aborted w)
      | some bytes ↦ done ((true, bytes), (if peek then h else record h { pos = h.pos + n }), w)
    ]
unfolding read_now test_eof
read-file_read f h w arrivals peek n file inside some_byte fits =
    read-read_now f h w arrivals true peek n file.opened file.refers
      (ground (arith, file.no_device))
    ∙ ground (arith, file.no_device)

copy_keys-take :
    (keys : List ℕ) (pos n : ℕ)
    → pos + n ≤ length keys
    → copy_keys keys pos n ≡ done (take n (drop pos keys))
unfolding copy_keys
copy_keys-take keys pos zero h = refl
copy_keys-take keys pos (suc n) h =
    let (k, at_pos, rest) = get_elem?-drop keys pos (omega arith) in
    ground (arith, at_pos, rest, copy_keys-take keys (suc pos) n (omega arith))

copy_keys-fault :
    (keys : List ℕ) (pos n : ℕ)
    → pos ≤ length keys
    → length keys < pos + n
    → copy_keys keys pos n ≡ fault
unfolding copy_keys
copy_keys-fault keys pos zero h k = absurd (omega arith)
copy_keys-fault keys pos (suc n) h k =
    ground
      (arith, get_elem?-none keys pos, get_elem?-drop keys pos, copy_keys-fault keys (suc pos) n)

-- On an input device a Read of `m` keys (2 bytes each) that have all arrived writes those keys, and
-- the position moves by `m`, or stays for a peek.
pub read-keys :
    (f : ReadFile) (h : FileHandle) (w : Vfs) (arrivals : Arrivals) (peek : Bool) (m : ℕ)
    → IsDevice h
    → 0 < m
    → h.pos + m ≤ length (w.device h.node).keys
    → length (w.device h.node).keys < u64
    → read f h w arrivals true (m * 2) peek
      ≡ done (
        (true, take m (drop h.pos (w.device h.node).keys)),
        (if peek then h else record h { pos = h.pos + m }),
        w,
      )
unfolding read_now test_eof
read-keys f h w arrivals peek m dev some_key there fits =
    let half : m * 2 / 2 ≡ m = omega arith in
    read-read_now f h w arrivals true peek (m * 2) dev.opened dev.refers
      (ground (arith, dev.device))
    ∙ ground (arith, half, dev.device, copy_keys-take (w.device h.node).keys h.pos m there)

-- Where only some of the keys have arrived, Read does not wait for the others: it reads through a
-- null reference.
pub read-keys_fault :
    (f : ReadFile) (h : FileHandle) (w : Vfs) (arrivals : Arrivals) (peek : Bool) (m : ℕ)
    → IsDevice h
    → h.pos < length (w.device h.node).keys
    → length (w.device h.node).keys < h.pos + m
    → read f h w arrivals true (m * 2) peek ≡ fault
unfolding read_now test_eof
read-keys_fault f h w arrivals peek m dev some_key missing =
    let half : m * 2 / 2 ≡ m = omega arith in
    read-read_now f h w arrivals true peek (m * 2) dev.opened dev.refers
      (ground (arith, dev.device))
    ∙ ground (
      arith,
      half,
      dev.device,
      copy_keys-fault (w.device h.node).keys h.pos m (omega arith) missing,
    )
