-- ===== src/Fat/Reading/Clusters.antt =====
-- Which bytes ReadFile of the FAT driver gives.
use native.Mathlib.Nat.{mod-eq_of_lt, div-eq_of_lt}
use obos_old.Prelude.{
  ℕ, zero, suc, ◌+◌, ◌-◌, ◌*◌, ◌/◌, ◌%◌, ◌≤◌, ◌<◌, ◌≡◌, refl, ap, sym, ◌∙◌, true, List, [], ◌∷◌,
  ◌++◌, some, length, get_elem?, take, drop, arith, mul64, u32, leb, ◌==◌, if◌then◌else◌,
  length-append,
}
use mathlib.Core.List.{append_assoc}
use obos_old.Outcome.{done}
use obos_old.Vfs.Drives.{Drives}
use obos_old.Vfs.DriveHandle.{DriveHandle, read_sectors}
use obos_old.Partitions.{Host, overwrite}
use obos_old.Fat.{fat32}
use obos_old.Fat.Directory.{CacheEntry}
use obos_old.Fat.Reading.{
  Partition, fat32_first_sector_of_cluster, overwrite_at, read_clusters, destroy_handle, copy_out,
  read_entry,
}

-- The contents of `n` clusters from the index `i` on.
unfoldable pub whole : (ℕ → List ℕ) → ℕ → ℕ → List ℕ
whole content i zero = []
whole content i (suc n) = content i ++ whole content (suc i) n

drop-length : (xs ys : List ℕ) → drop (length xs) (xs ++ ys) ≡ ys
drop-length [] ys = refl
drop-length (x ∷ xs) ys = drop-length xs ys

take-length : (xs ys : List ℕ) → take (length xs) (xs ++ ys) ≡ xs
take-length [] ys = refl
take-length (x ∷ xs) ys = ap (λ (l : List ℕ). x ∷ l) (take-length xs ys)

length-drop : (n : ℕ) (xs : List ℕ) → length (drop n xs) ≡ length xs - n
length-drop zero xs = omega arith
length-drop (suc n) [] = omega arith
length-drop (suc n) (x ∷ xs) = omega (arith, length-drop n xs)

fits : (a b : ℕ) → a ≤ b → leb a b ≡ true
fits a b h = ground arith

minus_none : (n : ℕ) → n - 0 ≡ n
minus_none n = omega arith

minus_more : (n i : ℕ) → n ≤ i → n - i ≡ 0
minus_more n i h = omega arith

overwrite_at-middle :
    (before rest bytes : List ℕ)
    → length bytes ≤ length rest
    → overwrite_at (length before) (before ++ rest) bytes
      ≡ done (before ++ (bytes ++ drop (length bytes) rest))
unfolding overwrite_at overwrite
overwrite_at-middle before rest bytes l =
    rw (drop-length before rest, fits (length bytes) (length rest) l, take-length before rest) refl

module _ {D : Type 0} (host : Host) (p : Partition) (entry : CacheEntry) (h : DriveHandle)
    (w : Drives D) where
  abbrev pub per_cluster : ℕ
  per_cluster = p.bpb.sectors_per_cluster * p.bpb.bytes_per_sector

  -- The entry has a cluster at each of the indices below `n`, which the drive reads as `content`.
  unfoldable pub Serves : (ℕ → List ℕ) → ℕ → Type 0
  Serves content n =
      (i : ℕ)
      → i < n
      → (cluster : ℕ) × (read : ℕ) × (get_elem? entry.clusters i ≡ some cluster)
        × (read_sectors host.vectorized h w true (fat32_first_sector_of_cluster p cluster)
              p.bpb.sectors_per_cluster
            ≡ (some (content i, read), w))
        × (length (content i) ≡ per_cluster)

  read_clusters-whole :
      (content : ℕ → List ℕ) (n i m : ℕ) (before rest : List ℕ)
      → Serves content m
      → i + n ≤ m
      → length rest ≡ length (whole content i n)
      → read_clusters host.vectorized h p entry n i (length before) w (before ++ rest)
        ≡ done (some (before ++ whole content i n), w)
  unfolding read_clusters whole Serves
  read_clusters-whole content zero i m before [] s l e = refl
  read_clusters-whole content zero i m before (x ∷ rest) s l e = absurd (omega (arith, e))
  read_clusters-whole content (suc n) i m before rest s l e =
      let (cluster, read, at, reads, sized) = s i (omega arith) in
      let rest' = drop (length (content i)) rest in
      let split = length-append (content i) (whole content (suc i) n) in
      let place : length before + per_cluster ≡ length (before ++ content i) =
        omega (arith, length-append before (content i), sized) in
      rw
        (
          read_clusters,
          at,
          reads,
          overwrite_at-middle before rest (content i) (omega (arith, e, split)),
          place,
          sym (append_assoc before (content i) rest'),
          reads,
        )
        (read_clusters-whole content n (suc i) m (before ++ content i) rest' s (omega arith)
            (omega (arith, e, split, length-drop (length (content i)) rest))
          ∙ ap (λ (b : List ℕ). done (some b, w))
              (append_assoc before (content i) (whole content (suc i) n)))

  -- How many clusters ReadFile takes for `n_to_read` bytes.
  abbrev pub taken : ℕ → ℕ
  taken n_to_read = n_to_read / per_cluster + (if n_to_read % per_cluster == 0 then 0 else 1)

  pub read_entry-first :
      (content : ℕ → List ℕ) (n_to_skip n_to_read : ℕ)
      → p.fat_type ≡ fat32
      → n_to_skip < per_cluster
      → Serves content (taken n_to_read)
      → length (host.fresh (mul64 per_cluster (taken n_to_read)))
        ≡ length (whole content 0 (taken n_to_read))
      → n_to_skip + n_to_read ≤ length (whole content 0 (taken n_to_read))
      → read_entry host p entry n_to_skip n_to_read h w
        ≡ done (
          some (take n_to_read (drop n_to_skip (whole content 0 (taken n_to_read)))),
          destroy_handle h w,
        )
  unfolding read_entry copy_out
  read_entry-first content n_to_skip n_to_read t l s room e =
      rw
        (
          t,
          div-eq_of_lt {n = n_to_skip} l,
          mod-eq_of_lt {n = n_to_skip} l,
          minus_none (taken n_to_read),
          read_clusters-whole content (taken n_to_read) 0 (taken n_to_read) []
              (host.fresh (mul64 per_cluster (taken n_to_read))) s (omega arith) room,
          fits (n_to_skip + n_to_read) (length (whole content 0 (taken n_to_read))) e,
        )
        refl

  pub read_entry-later :
      (n_to_skip n_to_read : ℕ)
      → p.fat_type ≡ fat32
      → taken n_to_read ≤ n_to_skip / per_cluster
      → n_to_skip / per_cluster < u32
      → n_to_skip % per_cluster + n_to_read
        ≤ length (host.fresh (mul64 per_cluster (taken n_to_read)))
      → read_entry host p entry n_to_skip n_to_read h w
        ≡ done (
          some (
              take n_to_read (
                drop (n_to_skip % per_cluster) (host.fresh (mul64 per_cluster (taken n_to_read))))),
          destroy_handle h w,
        )
  unfolding read_entry copy_out read_clusters
  read_entry-later n_to_skip n_to_read t later small e =
      rw
        (
          t,
          mod-eq_of_lt {n = n_to_skip / per_cluster} small,
          minus_more (taken n_to_read) (n_to_skip / per_cluster) later,
          fits (n_to_skip % per_cluster + n_to_read)
              (length (host.fresh (mul64 per_cluster (taken n_to_read)))) e,
        )
        refl
