-- ===== src/Fat/Directory/LongNames.antt =====
-- The parts of a long name stand in front of their entry, the last part first.
use Prim.Native.Nat.{bit_and}
use obos_old.Prelude.{
  ℕ, zero, suc, ◌≡◌, refl, ap, ◌∙◌, ◌≢◌, true, not, List, [], ◌∷◌, ◌++◌, Option, none, some, get_or,
  test-of-ne, ◌==◌, if◌then◌else◌,
}
use obos_old.Outcome.{done, ◌>>=◌}
use obos_old.CString.{CString}
use obos_old.Fat.{Bpb, number_at}
use obos_old.Fat.Directory.{
  regular, directory, CacheEntry, is_directory, clusters_of, lfn_strlen, lfn_chars, long_name,
  place_part, long_part, named, entry_kind, entry_of, new_scan, look_for_entries,
}

-- The entries of the parts, which are given in the order of the name, in front of `tail`.
unfoldable pub descending : List (List ℕ) → List (List ℕ) → List (List ℕ)
descending [] tail = tail
descending (x ∷ parts) tail = descending parts (x ∷ tail)

-- Parts of a long name with the orders from `i + 1` on.
unfoldable pub AreParts : ℕ → List (List ℕ) → Type 0
AreParts i [] = Unit
AreParts i (x ∷ parts) =
    (entry_kind x ≡ long_part) × (bit_and (get_or x 0 0) 0xbf ≡ suc i) × AreParts (suc i) parts

-- The characters of the parts, one behind the other.
unfoldable pub joined : List (List ℕ) → CString
joined [] = []
joined (x ∷ parts) = lfn_chars x 0 (lfn_strlen x) ++ joined parts

all_some : List (List ℕ) → List (Option (List ℕ))
all_some [] = []
all_some (x ∷ parts) = some x ∷ all_some parts

nones : ℕ → List (Option (List ℕ)) → List (Option (List ℕ))
nones zero rest = rest
nones (suc i) rest = none ∷ nones i rest

place_parts_down : ℕ → List (List ℕ) → List (Option (List ℕ))
place_parts_down i [] = []
place_parts_down i (x ∷ parts) = place_part (place_parts_down (suc i) parts) i x

place_part-first : (i : ℕ) (x : List ℕ) → place_part [] i x ≡ nones i (some x ∷ [])
unfolding place_part nones
place_part-first zero x = refl
place_part-first (suc i) x = ap (λ (l : List (Option (List ℕ))). none ∷ l) (place_part-first i x)

place_part-next :
    (i : ℕ) (x : List ℕ) (rest : List (Option (List ℕ)))
    → place_part (nones (suc i) rest) i x ≡ nones i (some x ∷ rest)
unfolding place_part nones
place_part-next zero x rest = refl
place_part-next (suc i) x rest =
    ap (λ (l : List (Option (List ℕ))). none ∷ l) (place_part-next i x rest)

place_parts_down-nones :
    (i : ℕ) (x : List ℕ) (parts : List (List ℕ))
    → place_parts_down i (x ∷ parts) ≡ nones i (all_some (x ∷ parts))
unfolding place_parts_down all_some
place_parts_down-nones i x [] = place_part-first i x
place_parts_down-nones i x (y ∷ parts) =
    ap (λ (l : List (Option (List ℕ))). place_part l i x) (place_parts_down-nones (suc i) y parts)
    ∙ place_part-next i x (all_some (y ∷ parts))

long_name-joined : (parts : List (List ℕ)) → long_name (all_some parts) ≡ joined parts
unfolding long_name all_some joined
long_name-joined [] = refl
long_name-joined (x ∷ parts) = rw (long_name-joined parts) refl

-- The search goes through the parts and has each at its place.
look_for_entries-parts :
    (bpb : Bpb) (init_path : CString) (i : ℕ) (x : List ℕ) (parts tail : List (List ℕ))
    → AreParts i (x ∷ parts)
    → look_for_entries bpb init_path (descending (x ∷ parts) tail) (new_scan init_path)
      ≡ look_for_entries bpb init_path tail (record {
        cur_path = init_path;
        is_lfn = true;
        lfn_entries = place_parts_down i (x ∷ parts);
      })
unfolding look_for_entries descending AreParts place_parts_down
look_for_entries-parts bpb init_path i x [] tail a = rw (look_for_entries, a.0, a.1) refl
look_for_entries-parts bpb init_path i x (y ∷ parts) tail a =
    look_for_entries-parts bpb init_path (suc i) y parts (x ∷ tail) a.2
    ∙ rw (look_for_entries, a.0, a.1) refl

-- Parts of a long name in the order of the disk, the last one first, and the entry that they belong
-- to, whose short name does not begin with a dot, give one file in the cache when the file's
-- clusters can be computed: its path is the directory's with the characters of the parts in the
-- order of the name, and its size, attributes and clusters are the entry's; the search goes on
-- behind them as it began.
pub look_for_entries-joined :
    (bpb : Bpb) (init_path : CString) (x e : List ℕ) (parts tail : List (List ℕ))
    (clusters : List ℕ)
    → AreParts 0 (x ∷ parts)
    → entry_kind e ≡ named
    → get_or e 0 0 ≢ b'.'
    → clusters_of bpb e ≡ done clusters
    → let file : CacheEntry = record {
      path = init_path ++ joined (x ∷ parts);
      kind = if is_directory e then directory else regular;
      read_only = not (bit_and (get_or e 11 0) 1 == 0);
      hidden = not (bit_and (get_or e 11 0) 2 == 0);
      filesize = number_at e 28 4;
      clusters = clusters;
    } in
      look_for_entries bpb init_path (descending (x ∷ parts) (e ∷ tail)) (new_scan init_path) ≡ (
        look_for_entries bpb init_path tail (new_scan init_path) >>= λ others. done (file ∷ others))
unfolding look_for_entries nones entry_of
look_for_entries-joined bpb init_path x e parts tail clusters a k dot m =
    look_for_entries-parts bpb init_path 0 x parts (e ∷ tail) a
    ∙ rw
        (
          look_for_entries,
          k,
          test-of-ne (get_or e 0 0) b'.' dot,
          place_parts_down-nones 0 x parts,
          long_name-joined (x ∷ parts),
          entry_of,
          m,
        )
        refl
