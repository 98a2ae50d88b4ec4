-- ===== src/Vfs/FileHandle/Read.antt =====
-- FileHandle::Read. Data may arrive from the drivers while it waits: the arrivals are an argument.
use obos_old.Prelude.{
  ℕ, zero, suc, ◌/◌, ◌%◌, Bool, true, false, ◌&&◌, ◌||◌, not, List, [], ◌∷◌, ◌++◌, Option, none,
  some, ◌==◌, if◌then◌else◌, get_elem?, add64, sub64,
}
use obos_old.Outcome.{Outcome, done, fault, hang, ◌>>=◌}
use obos_old.CString.{CString}
use obos_old.Vfs.{Vfs, invalid_parameter, unopened_handle, vfs_read_aborted, set_last_error}
use obos_old.Vfs.FileHandle.{FileHandle, Call, test_eof}

-- What the drivers append to input devices while a reader polls, one entry for each poll.
abbrev pub Arrivals : Type 0
Arrivals = List (ℕ × List ℕ)

abbrev pub arrive : ℕ × List ℕ → Vfs → Vfs
arrive (d, keys) w = record w {
  device =
      λ q. if q == d then record (w.device q) { keys = (w.device q).keys ++ keys } else w.device q;
}

-- The busy wait of Read: while the position and the place where the read would end are both at the
-- end of the file. With no arrival left it goes on for ever.
unfoldable pub wait_for_data : FileHandle → ℕ → Vfs → Arrivals → Outcome (Vfs × Arrivals)
wait_for_data h count w [] =
    if test_eof h w h.pos && test_eof h w (add64 h.pos count) then hang else done (w, [])
wait_for_data h count w (a ∷ more) = elim (test_eof h w h.pos && test_eof h w (add64 h.pos count)) [
  | true ↦ wait_for_data h count (arrive a w) more
  | false ↦ done (w, a ∷ more)
]

-- node->data[i + pos] for the indices below the count; an element out of range is a null reference.
unfoldable pub copy_keys : List ℕ → ℕ → ℕ → Outcome (List ℕ)
copy_keys keys pos zero = done []
copy_keys keys pos (suc n) = elim (get_elem? keys pos) [
  | none ↦ fault
  | some k ↦ copy_keys keys (suc pos) n >>= λ rest. done (k ∷ rest)
]

-- A file system driver's ReadFile: the drive, the partition, the path, the offset and the count.
-- The data is what it writes to the buffer; `none` stands for false.
abbrev pub ReadFile : Type 0
ReadFile = (drive partition : ℕ) → CString → (offset count : ℕ) → Option (List ℕ)

-- The result of Read, with what was written to the buffer.
abbrev pub ReadCall : Type 0
ReadCall = Call (Bool × List ℕ)

abbrev pub advance : FileHandle → ℕ → Bool → FileHandle
advance h n peek = if peek then h else record h { pos = add64 h.pos n }

-- Read from the copy on; `buffer` says whether `data` is not null.
unfoldable pub read_now : ReadFile → FileHandle → Vfs → Bool → ℕ → Bool → Outcome ReadCall
read_now read_file h w buffer n peek =
    if n == 0
    then done ((true, []), h, w)
    else if not buffer
    then done ((true, []), advance h n peek, w)
    else if h.flags.is_input_device
    then (if n % 2 == 0
        then (copy_keys (w.device h.node).keys h.pos (n / 2) >>= λ keys.
            done ((true, keys), advance h (n / 2) peek, w))
        else done ((false, []), h, set_last_error invalid_parameter w))
    else let point = w.mount (w.dirent h.node).mount_point in
      elim (read_file point.drive_id point.partition_id (w.dirent h.node).path h.pos n) [
        | none ↦ done ((false, []), h, set_last_error vfs_read_aborted w)
        | some bytes ↦ done ((true, bytes), advance h n peek, w)
      ]

-- The position of the last unit that the call asks for.
abbrev pub last_wanted : FileHandle → ℕ → ℕ
last_wanted h n =
    if h.flags.is_input_device then sub64 (add64 h.pos (n / 2)) 1 else add64 h.pos (sub64 n 1)

abbrev pub wanted : FileHandle → ℕ → ℕ
wanted h n = if h.flags.is_input_device then n / 2 else n

-- Waits if the test holds.
abbrev pub wait_if : Bool → FileHandle → ℕ → Vfs → Arrivals → Outcome (Vfs × Arrivals)
wait_if b h n w a = elim b [ true ↦ wait_for_data h (wanted h n) w a | false ↦ done (w, a) ]

unfoldable pub read : ReadFile → FileHandle → Vfs → Arrivals → Bool → ℕ → Bool → Outcome ReadCall
read read_file h w arrivals buffer n peek =
    if h.flags.closed || (h.node == 0)
    then done ((false, []), h, set_last_error unopened_handle w)
    else wait_if (test_eof h w h.pos) h n w arrivals >>= λ (w1, as1).
        wait_if (test_eof h w1 (last_wanted h n)) h n w1 as1 >>= λ (w2, as2).
        read_now read_file h w2 buffer n peek
