-- ===== src/Initrd/Archive.antt =====
-- The cache of an archive, and what is read through it.
use obos_old.Prelude.{
  ℕ, zero, suc, ◌+◌, ◌-◌, ◌*◌, ◌/◌, ◌≤◌, ◌<◌, ◌≡◌, refl, ap, ◌∙◌, ◌⊎◌, inl, inr, true, false, List,
  [], ◌∷◌, Option, none, some, arith, length, get_elem?, ltb, if◌then◌else◌, u64, add32, sub32,
  mul32,
}
use obos_old.Outcome.{done, fault}
use obos_old.CString.{CString, strcmp}
use obos_old.Initrd.{
  UstarEntry, UstarEntryCache, attributes_of, oct2bin_loop, oct2bin, filesize_of, cache_of,
  cache_entries, initialize_filesystem_cache, get_cache_for_path, file_exists, bytes_from,
  read_file,
}

-- The number that octal digits stand for, behind the number `n`.
unfoldable pub octal : List ℕ → ℕ → ℕ
octal [] n = n
octal (c ∷ cs) n = octal cs (n * 8 + (c - b'0'))

unfoldable pub AreOctal : List ℕ → Type 0
AreOctal [] = Unit
AreOctal (c ∷ cs) = (b'0' ≤ c) × (c ≤ b'7') × AreOctal cs

-- The size of an entry's file.
abbrev pub size_of : UstarEntry → ℕ
size_of e = octal e.filesize_octal 0

-- Where the next entry is: behind the header of 512 bytes and the data in whole blocks of 512 bytes.
abbrev pub after : UstarEntry → ℕ → ℕ
after e address = address + 512 + (size_of e + 511) / 512 * 512

-- The archive has the entries from the address on, each behind the data of the one before it, and
-- then something that is no entry. The sizes are octal numbers of 31 bits, and no address is over 64.
unfoldable pub Archives : (ℕ → UstarEntry) → ℕ → List UstarEntry → Type 0
Archives archive address [] = (archive address).indication ≡ false
Archives archive address (e ∷ es) =
    (archive address ≡ e)
    × (e.indication ≡ true)
    × AreOctal e.filesize_octal
    × (size_of e < 0x8000_0000)
    × (after e address < u64)
    × Archives archive (after e address) es

-- What the cache is to have: the size of each file, and its data behind the header.
unfoldable pub caches : ℕ → List UstarEntry → List UstarEntryCache
caches address [] = []
caches address (e ∷ es) =
    record {
      entry = e;
      entry_filesize = size_of e;
      entry_attributes = attributes_of e.type;
      data_start = address + 512;
      data_end = after e address;
    }
    ∷ caches (after e address) es

octal-grows : (cs : List ℕ) (n : ℕ) → n ≤ octal cs n
unfolding octal
octal-grows [] n = omega arith
octal-grows (c ∷ cs) n = let more = octal-grows cs (n * 8 + (c - b'0')) in omega arith

oct2bin_loop-octal :
    (cs : List ℕ) (n : ℕ) → AreOctal cs → octal cs n < 0x8000_0000 → oct2bin_loop cs n ≡ octal cs n
unfolding oct2bin_loop octal AreOctal
oct2bin_loop-octal [] n a l = refl
oct2bin_loop-octal (c ∷ cs) n (low, high, a) l =
    let grows = octal-grows cs (n * 8 + (c - b'0')) in
    let step : sub32 (add32 (mul32 n 8) c) b'0' ≡ n * 8 + (c - b'0') = omega arith in
    ap (oct2bin_loop cs) step ∙ oct2bin_loop-octal cs (n * 8 + (c - b'0')) a l

filesize_of-octal :
    (e : UstarEntry)
    → AreOctal e.filesize_octal
    → size_of e < 0x8000_0000
    → filesize_of e ≡ size_of e
unfolding filesize_of oct2bin
filesize_of-octal e a s = ground (arith, oct2bin_loop-octal e.filesize_octal 0 a s)

cache_of-caches :
    (e : UstarEntry) (address : ℕ)
    → AreOctal e.filesize_octal
    → size_of e < 0x8000_0000
    → after e address < u64
    → cache_of e address ≡ record {
      entry = e;
      entry_filesize = size_of e;
      entry_attributes = attributes_of e.type;
      data_start = address + 512;
      data_end = after e address;
    }
unfolding cache_of
cache_of-caches e address a s l = ground (arith, filesize_of-octal e a s)

cache_entries-caches :
    (archive : ℕ → UstarEntry) (address : ℕ) (es : List UstarEntry)
    → Archives archive address es
    → cache_entries archive (suc (length es)) address ≡ done (caches address es)
unfolding cache_entries Archives caches
cache_entries-caches archive address [] a = ground arith
cache_entries-caches archive address (e ∷ es) (same, ustar, digits, small, inside, a) =
    let cached = cache_of-caches e address digits small inside in
    ground (arith, cached, cache_entries-caches archive (after e address) es a)

-- InitializeFilesystemCache of an archive with an entry, whose sizes are octal numbers of 31 bits and
-- whose addresses do not overflow, returns with a round for each entry and the end. The cache has
-- the entries in order: each has the number of its octal digits as its size and its data 512 bytes
-- behind its header, and the next header is behind the data rounded up to whole blocks of 512 bytes.
pub initialize_filesystem_cache-caches :
    (archive : ℕ → UstarEntry) (address : ℕ) (e : UstarEntry) (es : List UstarEntry)
    → Archives archive address (e ∷ es)
    → initialize_filesystem_cache archive (suc (suc (length es))) address
      ≡ done (caches address (e ∷ es))
unfolding initialize_filesystem_cache Archives
initialize_filesystem_cache-caches archive address e es a =
    let starts : (archive address).indication ≡ true = ap (λ x. x.indication) a.0 ∙ a.1 in
    rw (initialize_filesystem_cache, starts) (cache_entries-caches archive address (e ∷ es) a)

-- No entry of the cache has the path.
abbrev pub Misses : CString → List UstarEntryCache → Type 0
Misses path [] = Unit
Misses path (c ∷ cs) = (strcmp path c.entry.path ≡ false) × Misses path cs

get_cache_for_path-missing :
    (path : CString) (cs : List UstarEntryCache)
    → Misses path cs
    → get_cache_for_path path cs ≡ fault
unfolding get_cache_for_path
get_cache_for_path-missing path [] m = refl
get_cache_for_path-missing path (c ∷ cs) (m, ms) =
    ground (arith, get_cache_for_path-missing path cs ms)

-- FileExists and ReadFile of a path that is not in the archive read through a null pointer instead
-- of returning false.
pub file_exists-missing :
    (memory : ℕ → ℕ) (path : CString) (cs : List UstarEntryCache) (skip n : ℕ)
    → Misses path cs
    → (file_exists path cs ≡ fault) × (read_file memory cs path skip n ≡ fault)
unfolding file_exists read_file
file_exists-missing memory path cs skip n m =
    let missing = get_cache_for_path-missing path cs m in
    (ground (arith, missing), ground (arith, missing))

bytes_from-at :
    (memory : ℕ → ℕ) (n address i : ℕ)
    → get_elem? (bytes_from memory n address) i
      ≡ (if ltb i n then some (memory (address + i)) else none)
unfolding bytes_from
bytes_from-at memory zero address i = ground arith
bytes_from-at memory (suc n) address zero = ground arith
bytes_from-at memory (suc n) address (suc i) =
    let next : suc address + i ≡ address + suc i = omega arith in
    ground (arith, bytes_from-at memory n (suc address) i, next)

le_or_lt : (a b : ℕ) → (a ≤ b) ⊎ (b < a)
le_or_lt a b = ground arith

-- What a read of `n` bytes from the position on may give: a failure when the position is not in the
-- file or the bytes do not end in it, and otherwise the `n` bytes of the file's data that stand there.
unfoldable pub Reads : (ℕ → ℕ) → UstarEntryCache → ℕ → ℕ → Option (List ℕ) → Type 0
Reads memory c skip n none = (c.entry_filesize ≤ skip) ⊎ (c.entry_filesize < skip + n)
Reads memory c skip n (some bytes) =
    (skip < c.entry_filesize)
    × (skip + n ≤ c.entry_filesize)
    × ((i : ℕ)
        → get_elem? bytes i ≡ (if ltb i n then some (memory (c.data_start + skip + i)) else none))

-- ReadFile of a file of the cache, without overflow of the two numbers, returns. It gives as many
-- bytes as were asked for, byte `i` of them being the byte of memory at the start of the file's data
-- plus the position plus `i`, when the position is in the file and the bytes end in it, and it fails
-- only when they do not.
pub read_file-Reads :
    (memory : ℕ → ℕ) (cs : List UstarEntryCache) (path : CString) (c : UstarEntryCache) (skip n : ℕ)
    → get_cache_for_path path cs ≡ done c
    → skip + n < u64
    → (r : Option (List ℕ)) × (read_file memory cs path skip n ≡ done r) × Reads memory c skip n r
unfolding read_file Reads
read_file-Reads memory cs path c skip n e o = elim (le_or_lt c.entry_filesize skip) [
  | inl a ↦ (none, ground arith, inl a)
  | inr a ↦ elim (le_or_lt (skip + n) c.entry_filesize) [
    | inl b ↦ (
      some (bytes_from memory n (c.data_start + skip)),
      ground arith,
      (a, b, bytes_from-at memory n (c.data_start + skip)),
    )
    | inr b ↦ (none, ground arith, inr b)
  ]
]
