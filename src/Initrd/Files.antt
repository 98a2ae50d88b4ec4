-- ===== src/Initrd/Files.antt =====
-- The iteration over the files of an archive.
use obos_old.Prelude.{ℕ, suc, ◌+◌, ◌<◌, ◌≡◌, refl, ◌≢◌, false, List, [], ◌∷◌, has, length, u64}
use obos_old.Outcome.{done}
use obos_old.CString.{CString, strcmp}
use obos_old.CString.Paths.{strcmp_iff}
use obos_old.Links.Chain.{IsChain}
use obos_old.FileIterators.{FileIterators, iter_create}
use obos_old.FileIterators.Walk.{next_calls, Answers, files, next_calls-iter_create}
use obos_old.Initrd.{
  UstarEntryCache, Attributes, get_cache_for_path, get_file_attribute, query_file_properties,
  iter_query,
}

-- None of the entries has the path.
unfoldable pub Others : CString → List UstarEntryCache → Type 0
Others path [] = Unit
Others path (c ∷ cs) = (strcmp c.entry.path path ≡ false) × Others path cs

-- No two entries have the same path.
unfoldable pub Distinct : List UstarEntryCache → Type 0
Distinct [] = Unit
Distinct (c ∷ cs) = Others c.entry.path cs × Distinct cs

-- The search for their paths finds the entries of `sought` themselves.
Known : List UstarEntryCache → List UstarEntryCache → Type 0
Known cs [] = Unit
Known cs (e ∷ sought) = (get_cache_for_path e.entry.path cs ≡ done e) × Known cs sought

Known-behind :
    (c : UstarEntryCache) (cs sought : List UstarEntryCache)
    → Others c.entry.path sought
    → Known cs sought
    → Known (c ∷ cs) sought
unfolding Known Others get_cache_for_path
Known-behind c cs [] o k = tt
Known-behind c cs (e ∷ sought) o k = (rw (o.0) k.0, Known-behind c cs sought o.1 k.1)

Known-self : (cs : List UstarEntryCache) → Distinct cs → Known cs cs
unfolding Known Distinct get_cache_for_path
Known-self [] d = tt
Known-self (c ∷ cs) d = (
  rw ((strcmp_iff c.entry.path c.entry.path).1 refl) refl,
  Known-behind c cs cs d.0 (Known-self cs d.1),
)

-- The path, the size and the attributes of an entry.
unfoldable pub file_of : UstarEntryCache → CString × ℕ × Attributes
file_of c = (c.entry.path, c.entry_filesize, c.entry_attributes)

Known-Answers :
    (cs sought : List UstarEntryCache) → Known cs sought → Answers (iter_query cs) file_of sought
unfolding Known Answers iter_query query_file_properties get_file_attribute file_of
Known-Answers cs [] k = tt
Known-Answers cs (e ∷ sought) k = (rw (k.0) refl, Known-Answers cs sought k.1)

-- Over an archive in which no two entries have the same path, an iterator that is created at a
-- fresh address gives, by IterNext, the path, the size and the attributes of each entry once and in
-- order, and then the end, whatever other iterators there are.
pub next_calls-archive :
    (cs : List UstarEntryCache) (fuel iter : ℕ) (s : FileIterators UstarEntryCache) (xs : List ℕ)
    → Distinct cs
    → iter ≢ 0
    → has iter xs ≡ false
    → IsChain s.iterators xs
    → length xs + 1 < fuel
    → length xs + 1 < u64
    → next_calls (iter_query cs) file_of (suc (length cs)) fuel iter (iter_create iter cs s).1
      ≡ done (files (iter_query cs) file_of cs)
next_calls-archive cs fuel iter s xs d nz fresh c l fits =
    next_calls-iter_create (iter_query cs) file_of fuel iter cs s xs nz fresh c l fits
      (Known-Answers cs cs (Known-self cs d))
