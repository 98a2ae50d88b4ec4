-- ===== src/Initrd.antt =====
-- The initial RAM disk: src/drivers/generic/initrd/parse.cpp and interface.cpp beside it, whose
-- iterators are in FileIterators. The archive is the header at every address and the byte at every address;
-- a header takes 512 bytes. The cache is the list of its nodes.
pub mod Archive
pub mod Files
use obos_old.Prelude.{
  ℕ, zero, suc, ◌+◌, ◌-◌, ◌*◌, ◌/◌, ◌%◌, Bool, true, false, not, List, [], ◌∷◌, Option, none, some,
  ◌==◌, ltb, leb, if◌then◌else◌, u32, u64, add32, sub32, mul32, add64, mul64,
}
use obos_old.Outcome.{Outcome, done, fault, hang, ◌>>=◌}
use obos_old.CString.{CString, strcmp}

-- `indication`: it begins with "ustar" and a terminator.
pub record UstarEntry : Type 0 where
  pub path : CString
  pub filesize_octal : List ℕ
  pub type : ℕ
  pub indication : Bool

pub data Attributes : Type 0 where
  no_attributes : Attributes
  read_only_file : Attributes
  directory : Attributes
  hardlink : Attributes
  doesnt_exist : Attributes

pub record UstarEntryCache : Type 0 where
  pub entry : UstarEntry
  pub entry_filesize : ℕ
  pub entry_attributes : Attributes
  pub data_start : ℕ
  pub data_end : ℕ

unfoldable pub oct2bin_loop : List ℕ → ℕ → ℕ
oct2bin_loop [] n = n
oct2bin_loop (c ∷ cs) n = oct2bin_loop cs (sub32 (add32 (mul32 n 8) c) b'0')

-- oct2bin, an int.
unfoldable pub oct2bin : List ℕ → ℕ
unfolding oct2bin_loop
oct2bin str = oct2bin_loop str 0

-- `size_t filesize = oct2bin(...)` extends the sign.
unfoldable pub filesize_of : UstarEntry → ℕ
filesize_of e = let n = oct2bin e.filesize_octal in if ltb n 0x8000_0000 then n else n + (u64 - u32)

unfoldable pub attributes_of : ℕ → Attributes
attributes_of type =
    if type == b'0'
    then read_only_file
    else if type == b'5'
    then directory
    else if type == b'1'
    then hardlink
    else no_attributes

-- The cache of the entry at the address.
unfoldable pub cache_of : UstarEntry → ℕ → UstarEntryCache
cache_of e address =
    let filesize = filesize_of e in
    let start = add64 address 512 in
    let blocks = filesize / 512 + (if filesize % 512 == 0 then 0 else 1) in
    record {
      entry = e;
      entry_filesize = filesize;
      entry_attributes = attributes_of e.type;
      data_start = start;
      data_end = if filesize == 0 then start else add64 start (mul64 blocks 512);
    }

-- The loop of InitializeFilesystemCache, from the address on.
unfoldable pub cache_entries : (ℕ → UstarEntry) → ℕ → ℕ → Outcome (List UstarEntryCache)
cache_entries archive zero address = hang
cache_entries archive (suc fuel) address =
    let cache = cache_of (archive address) address in
    let rest = cache_entries archive fuel cache.data_end in
    if not (archive address).indication then done [] else rest >>= λ cs. done (cache ∷ cs)

-- InitializeFilesystemCache; an archive without an entry stops the kernel.
unfoldable pub initialize_filesystem_cache :
    (ℕ → UstarEntry) → ℕ → ℕ → Outcome (List UstarEntryCache)
initialize_filesystem_cache archive fuel address =
    if (archive address).indication then cache_entries archive fuel address else fault

-- GetCacheForPath: behind the last node, a null node is read.
unfoldable pub get_cache_for_path : CString → List UstarEntryCache → Outcome UstarEntryCache
get_cache_for_path path [] = fault
get_cache_for_path path (c ∷ cs) =
    let rest = get_cache_for_path path cs in if strcmp path c.entry.path then done c else rest

-- FileExists
unfoldable pub file_exists : CString → List UstarEntryCache → Outcome Bool
file_exists path cs = get_cache_for_path path cs >>= λ c. done true

-- GetFileAttribute: the result, the size and the attributes.
unfoldable pub get_file_attribute : CString → List UstarEntryCache → Outcome (Bool × ℕ × Attributes)
get_file_attribute path cs =
    get_cache_for_path path cs >>= λ c. done (true, c.entry_filesize, c.entry_attributes)

-- initrdInterface::QueryFileProperties
unfoldable pub query_file_properties :
    CString → List UstarEntryCache → Outcome (Bool × ℕ × Attributes)
query_file_properties path cs =
    get_file_attribute path cs >>= λ r. if r.0 then done r else done (false, 0, doesnt_exist)

-- `n` bytes from the address on.
unfoldable pub bytes_from : (ℕ → ℕ) → ℕ → ℕ → List ℕ
bytes_from memory zero address = []
bytes_from memory (suc n) address = memory address ∷ bytes_from memory n (suc address)

-- initrdInterface::ReadFile: the bytes, or none for a failure.
unfoldable pub read_file :
    (ℕ → ℕ) → List UstarEntryCache → CString → (n_to_skip n_to_read : ℕ) → Outcome (Option (List ℕ))
read_file memory cs path n_to_skip n_to_read = get_cache_for_path path cs >>= λ c.
    if leb c.entry_filesize n_to_skip
    then done none
    else if ltb c.entry_filesize (add64 n_to_skip n_to_read)
    then done none
    else done (some (bytes_from memory n_to_read (c.data_start + n_to_skip)))

-- What IterNext tells of the current node: it asks QueryFileProperties for its path.
unfoldable pub iter_query :
    List UstarEntryCache → UstarEntryCache → Outcome (Option (CString × ℕ × Attributes))
unfolding query_file_properties
iter_query cs c = query_file_properties c.entry.path cs >>= λ r.
    done (if r.0 then some (c.entry.path, r.1, r.2) else none)
