-- ===== src/Fat/Directory.antt =====
-- FAT32LookForEntriesInDirectory of drivers/generic/fat/cache.cpp. An entry is its 32 bytes, which are
-- read as a fat_dirEntry or as a fat_lfn. The clusters of a file are taken to follow each other, as
-- the driver does.
pub mod LongNames
pub mod ShortNames
use Prim.Native.Nat.{bit_and, bit_or}
use obos_old.Prelude.{
  ℕ, zero, suc, ◌+◌, ◌-◌, ◌*◌, ◌/◌, ◌%◌, Bool, true, false, ◌&&◌, not, List, [], ◌∷◌, ◌++◌, Option,
  none, some, ◌==◌, ltb, if◌then◌else◌, length, get_or, take, drop, u32, u64, add32, mul64,
}
use obos_old.Outcome.{Outcome, done, fault, ◌>>=◌}
use obos_old.CString.{CString, str_count_to_char}
use obos_old.Fat.{Bpb, number_at}

pub data FileKind : Type 0 where
  regular : FileKind
  directory : FileKind

-- cacheEntry, as the search makes it.
pub record CacheEntry : Type 0 where
  pub path : CString
  pub kind : FileKind
  pub read_only : Bool
  pub hidden : Bool
  pub filesize : ℕ
  pub clusters : List ℕ

-- fat_lfn: character `i`, 0 behind the last one.
unfoldable pub lfn_at : List ℕ → ℕ → ℕ
lfn_at lfn i =
    if ltb i 5
    then number_at lfn (1 + 2 * i) 2
    else if ltb i 11
    then number_at lfn (14 + 2 * (i - 5)) 2
    else if ltb i 13
    then number_at lfn (28 + 2 * (i - 11)) 2
    else 0

-- The loop of lfn_strlen, in which `ret` has at most `n` steps to go.
unfoldable pub lfn_strlen_loop : List ℕ → ℕ → ℕ → ℕ
unfolding lfn_at
lfn_strlen_loop lfn zero ret = ret
lfn_strlen_loop lfn (suc n) ret = elim (not (lfn_at lfn ret == 0) && ltb ret 13) [
  | true ↦ lfn_strlen_loop lfn n (suc ret)
  | false ↦ ret
]

unfoldable pub lfn_strlen : List ℕ → ℕ
unfolding lfn_strlen_loop
lfn_strlen lfn = lfn_strlen_loop lfn 13 0

-- `(char)lfn_at(lfn, i)` for the `n` characters from `i` on.
unfoldable pub lfn_chars : List ℕ → ℕ → ℕ → CString
unfolding lfn_at
lfn_chars lfn i zero = []
lfn_chars lfn i (suc n) = lfn_at lfn i % 256 ∷ lfn_chars lfn (suc i) n

unfoldable pub long_name : List (Option (List ℕ)) → CString
unfolding lfn_strlen lfn_chars
long_name [] = []
long_name (none ∷ parts) = long_name parts
long_name (some lfn ∷ parts) = lfn_chars lfn 0 (lfn_strlen lfn) ++ long_name parts

-- Where a part of a long name goes: at its index, behind null pointers if need be.
unfoldable pub place_part : {A : Type 0} → List (Option A) → ℕ → A → List (Option A)
place_part [] zero part = some part ∷ []
place_part [] (suc i) part = none ∷ place_part [] i part
place_part (p ∷ parts) zero part = some part ∷ parts
place_part (p ∷ parts) (suc i) part = p ∷ place_part parts i part

pub data EntryKind : Type 0 where
  last : EntryKind
  deleted : EntryKind
  long_part : EntryKind
  volume_id : EntryKind
  named : EntryKind

-- The tests at the head of the loop.
unfoldable pub entry_kind : List ℕ → EntryKind
entry_kind e =
    let first = get_or e 0 0 in
    let attribs = get_or e 11 0 in
    if first == 0
    then last
    else if first == 0xe5
    then deleted
    else if attribs == 0xf
    then long_part
    else if bit_and attribs 8 == 0
    then named
    else volume_id

abbrev pub is_directory : List ℕ → Bool
is_directory e = not (bit_and (get_or e 11 0) 0x10 == 0)

-- The bytes up to a 0.
unfoldable pub until_zero : List ℕ → CString
until_zero [] = []
until_zero (b ∷ bytes) = elim (b == 0) [ true ↦ [] | false ↦ b ∷ until_zero bytes ]

-- strCountToChar reads on behind the name, into what follows in memory.
unfoldable pub name_part : List ℕ → ℕ → CString
unfolding until_zero str_count_to_char
name_part bytes field_size = take (str_count_to_char (until_zero bytes) b' ' % field_size) bytes

-- What the search appends without a long name; `bytes` is the entry with what follows.
unfoldable pub short_name : List ℕ → Bool → CString
unfolding name_part
short_name bytes is_dir =
    if is_dir then name_part bytes 11 else name_part bytes 8 ++ b'.' ∷ name_part (drop 8 bytes) 3

unfoldable pub cluster_range : ℕ → ℕ → List ℕ
cluster_range first zero = []
cluster_range first (suc n) = first ∷ cluster_range (suc first) n

-- The clusters from the first one on; a division by 0 is a fault.
unfoldable pub clusters_of : Bpb → List ℕ → Outcome (List ℕ)
unfolding cluster_range
clusters_of bpb e =
    let size = number_at e 28 4 in
    let per_cluster = bpb.sectors_per_cluster * bpb.bytes_per_sector in
    let base = bit_or (number_at e 26 2) (number_at e 20 2 * 0x1_0000) in
    let whole = size / per_cluster + (if size % per_cluster == 0 then 0 else 1) in
    let after = (base + whole) % u32 in
    let end = if is_directory e then add32 after 1 else after in
    if per_cluster == 0 then fault else done (cluster_range base (end - base))

-- The bytes of the path are copied; the source does not write a terminator behind them.
unfoldable pub entry_of : Bpb → CString → List ℕ → Outcome CacheEntry
unfolding clusters_of
entry_of bpb path e = clusters_of bpb e >>= λ clusters. done (record {
  path = path;
  kind = if is_directory e then directory else regular;
  read_only = not (bit_and (get_or e 11 0) 1 == 0);
  hidden = not (bit_and (get_or e 11 0) 2 == 0);
  filesize = number_at e 28 4;
  clusters = clusters;
})

-- curPath, isLFN and lfnEntriesInOrder.
pub record Scan : Type 0 where
  pub cur_path : CString
  pub is_lfn : Bool
  pub lfn_entries : List (Option (List ℕ))

abbrev pub new_scan : CString → Scan
new_scan init_path = record { cur_path = init_path; is_lfn = false; lfn_entries = [] }

-- The entries in memory, one behind the other.
unfoldable pub bytes_of : List (List ℕ) → List ℕ
bytes_of [] = []
bytes_of (e ∷ entries) = e ++ bytes_of entries

-- The loop. Behind the bytes that were read is a fault; so is an order of 0, whose index is the
-- greatest number.
unfoldable pub look_for_entries : Bpb → CString → List (List ℕ) → Scan → Outcome (List CacheEntry)
unfolding place_part entry_kind long_name short_name entry_of bytes_of
look_for_entries bpb init_path [] s = fault
look_for_entries bpb init_path (e ∷ entries) s = elim (entry_kind e) [
  | last ↦ done []
  | deleted ↦ look_for_entries bpb init_path entries s
  | long_part ↦ elim (bit_and (get_or e 0 0) 0xbf) [
    | zero ↦ fault
    | suc i ↦
        look_for_entries bpb init_path entries
          (record s { is_lfn = true; lfn_entries = place_part s.lfn_entries i e })
  ]
  | volume_id ↦ look_for_entries bpb init_path entries s
  | named ↦
      let path = if s.is_lfn then s.cur_path ++ long_name s.lfn_entries else s.cur_path in
      elim (get_or e 0 0 == b'.') [
        | true ↦ look_for_entries bpb init_path entries (record s { cur_path = path })
        | false ↦
            entry_of bpb
              (if s.is_lfn
                then path
                else path ++ short_name (e ++ bytes_of entries) (is_directory e))
              e
            >>= λ entry. look_for_entries bpb init_path entries (new_scan init_path) >>= λ others.
                done (entry ∷ others)
      ]
]
