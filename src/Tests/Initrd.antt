-- ===== src/Tests/Initrd.antt =====
-- The initial RAM disk at a concrete archive.
use obos_old.Prelude.{ℕ, List, Option, ◌≡◌, refl, true, false, [], ◌∷◌, arith, ◌==◌, if◌then◌else◌}
use obos_old.Outcome.{done}
use obos_old.CString.{strcmp}
use obos_old.Links.{empty_header, attach, push_back}
use obos_old.Links.Chain.{IsChain}
use obos_old.FileIterators.{FileIterators, iter_create, iter_close}
use obos_old.FileIterators.Walk.{next_calls, files, iter_close-twice}
use obos_old.Initrd.Files.{Others, Distinct, file_of, next_calls-archive}
use obos_old.Initrd.{
  iter_query, UstarEntry, UstarEntryCache, attributes_of, read_only_file,
  initialize_filesystem_cache, get_cache_for_path, read_file,
}
use obos_old.Initrd.Archive.{
  AreOctal, octal, Archives, caches, Reads, initialize_filesystem_cache-caches, read_file-Reads,
}

-- A file of 9 bytes with the name a.
abbrev small_file : UstarEntry
small_file = record {
  path = b'a' ∷ [];
  filesize_octal = b'0' ∷ b'1' ∷ b'1' ∷ [];
  type = b'0';
  indication = true;
}

abbrev archive : ℕ → UstarEntry
archive a = if a == 0x1000 then small_file else record small_file { indication = false }

small_file-Archives : Archives archive 0x1000 (small_file ∷ [])
unfolding Archives AreOctal octal
small_file-Archives = (
  refl,
  refl,
  (omega arith, omega arith, (omega arith, omega arith, (omega arith, omega arith, tt))),
  omega arith,
  omega arith,
  refl,
)

abbrev small_cache : UstarEntryCache
small_cache = record {
  entry = small_file;
  entry_filesize = 9;
  entry_attributes = read_only_file;
  data_start = 0x1200;
  data_end = 0x1400;
}

initialize_filesystem_cache-caches_example :
    initialize_filesystem_cache archive 2 0x1000 ≡ done (small_cache ∷ [])
unfolding caches octal attributes_of
initialize_filesystem_cache-caches_example =
    initialize_filesystem_cache-caches archive 0x1000 small_file [] small_file-Archives

read_file-Reads_example :
    (r : Option (List ℕ)) × (read_file (λ a. a) (small_cache ∷ []) (b'a' ∷ []) 2 3 ≡ done r)
    × Reads (λ a. a) small_cache 2 3 r
unfolding strcmp get_cache_for_path
read_file-Reads_example =
    read_file-Reads (λ a. a) (small_cache ∷ []) (b'a' ∷ []) small_cache 2 3 refl (omega arith)

abbrev no_iterators : FileIterators UstarEntryCache
no_iterators = record {
  iterators = record { links = λ p. record { next = 0; prev = 0 }; header = empty_header };
  current = λ i. [];
}

no_iterators_chain : IsChain no_iterators.iterators []
no_iterators_chain = ground arith

next_calls-archive_example :
    next_calls
      (iter_query (small_cache ∷ []))
      file_of
      2
      2
      7
      (iter_create 7 (small_cache ∷ []) no_iterators).1
    ≡ done (files (iter_query (small_cache ∷ [])) file_of (small_cache ∷ []))
unfolding Distinct Others
next_calls-archive_example =
    next_calls-archive (small_cache ∷ []) 2 7 no_iterators [] (tt, tt) (omega arith) refl
      no_iterators_chain (omega arith) (omega arith)

abbrev one_iterator : FileIterators UstarEntryCache
one_iterator = (iter_create 7 (small_cache ∷ []) no_iterators).1

one_iterator_chain : IsChain one_iterator.iterators (7 ∷ [])
unfolding iter_create push_back attach
one_iterator_chain = ground arith

iter_close-twice_example :
    (s' : FileIterators UstarEntryCache) × (iter_close 2 7 one_iterator ≡ done (true, s'))
    × IsChain s'.iterators []
    × (iter_close 2 7 s' ≡ done (false, s'))
iter_close-twice_example =
    iter_close-twice 2 7 one_iterator (7 ∷ []) one_iterator_chain (omega arith) refl
