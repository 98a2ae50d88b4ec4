-- ===== src/Fat.antt =====
-- The FAT driver, drivers/generic/fat: its structures (fat_structs.h, fat32_structs.h, cache.h), Probe
-- and GetFatType of cache.cpp; Directory is the search in a directory of cache.cpp, and Reading is
-- interface.cpp, whose iterators are in FileIterators. Structures are the bytes that the driver
-- reads.
pub mod Directory
pub mod Reading
use Prim.Native.Nat.{bit_and}
use obos_old.Prelude.{
  ℕ, zero, suc, ◌+◌, ◌-◌, ◌*◌, ◌/◌, ◌%◌, Bool, true, false, ◌&&◌, ◌||◌, not, List, [], ◌∷◌, Option,
  none, some, ◌==◌, ltb, if◌then◌else◌, get_or, take, drop, u32, add32, sub32, mul32,
}
use obos_old.Outcome.{Outcome, done, fault, ◌>>=◌}
use obos_old.CString.{CString, strcmp}
use obos_old.Vfs.Drives.{Drives}
use obos_old.Vfs.DriveHandle.{DriveHandle, read_sectors}
use obos_old.Partitions.{little_endian, overwrite}

pub data FatType : Type 0 where
  invalid : FatType
  fat12 : FatType
  fat16 : FatType
  fat32 : FatType

-- generic_bpb with ebpb_fat32, as far as they are read. `at_36` and `at_52` are the bytes from there
-- on, the second one sysIdentifierString.
pub record Bpb : Type 0 where
  pub oem_identifier : List ℕ
  pub bytes_per_sector : ℕ
  pub sectors_per_cluster : ℕ
  pub n_resv_sectors : ℕ
  pub n_fats : ℕ
  pub n_root_directory_entries : ℕ
  pub total_sector_count16 : ℕ
  pub sectors_per_fat16 : ℕ
  pub total_sector_count32 : ℕ
  pub sectors_per_fat32 : ℕ
  pub root_directory_cluster : ℕ
  pub at_36 : List ℕ
  pub at_52 : List ℕ

-- The `n` bytes at the offset, as a number.
unfoldable pub number_at : List ℕ → ℕ → ℕ → ℕ
unfolding little_endian
number_at block offset n = little_endian (take n (drop offset block))

unfoldable pub bpb_at : List ℕ → Bpb
bpb_at block = record {
  oem_identifier = take 8 (drop 3 block);
  bytes_per_sector = number_at block 11 2;
  sectors_per_cluster = number_at block 13 1;
  n_resv_sectors = number_at block 14 2;
  n_fats = number_at block 16 1;
  n_root_directory_entries = number_at block 17 2;
  total_sector_count16 = number_at block 19 2;
  sectors_per_fat16 = number_at block 22 2;
  total_sector_count32 = number_at block 32 4;
  sectors_per_fat32 = number_at block 36 4;
  root_directory_cluster = number_at block 44 4;
  at_36 = drop 0x36 block;
  at_52 = drop 0x52 block;
}

abbrev zeroes : ℕ → List ℕ
zeroes zero = []
zeroes (suc n) = 0 ∷ zeroes n

abbrev differ : Bool → Bool → Bool
differ a b = if a then not b else b

-- "FAT"
abbrev pub fat_text : CString
fat_text = b'F' ∷ b'A' ∷ b'T' ∷ []

-- The test of Probe.
unfoldable pub is_fat : Bpb → Bool
unfolding strcmp
is_fat bpb =
    let ret = differ (strcmp (take 3 bpb.at_36) fat_text) (strcmp (take 3 bpb.at_52) fat_text) in
    if not (bpb.total_sector_count16 == 0) && not (bpb.total_sector_count32 == 0)
    then false
    else ret

-- Probe: the block, when it is one of FAT. `new generic_bpb{}` is 512 cleared bytes.
unfoldable pub probe :
    {D : Type 0} → Bool → DriveHandle → Drives D → Outcome (Option Bpb × Drives D)
unfolding is_fat overwrite bpb_at
probe vectorized h w =
    let read = read_sectors vectorized h w true 0 1 in
    elim read.0 [
      | none ↦ done (none, read.1)
      | some r ↦ overwrite (zeroes 512) r.0 >>= λ block.
          let bpb = bpb_at block in done (if is_fat bpb then some bpb else none, read.1)
    ]

-- "MSDOS5.1", "MSWIN4.1", "mkdosfs", "mkfs.fat" and "FRDOS5.1".
unfoldable pub is_trusted : List ℕ → Bool
unfolding strcmp
is_trusted oem =
    strcmp (take 8 oem) (b'M' ∷ b'S' ∷ b'D' ∷ b'O' ∷ b'S' ∷ b'5' ∷ b'.' ∷ b'1' ∷ [])
    || strcmp (take 8 oem) (b'M' ∷ b'S' ∷ b'W' ∷ b'I' ∷ b'N' ∷ b'4' ∷ b'.' ∷ b'1' ∷ [])
    || strcmp (take 7 oem) (b'm' ∷ b'k' ∷ b'd' ∷ b'o' ∷ b's' ∷ b'f' ∷ b's' ∷ [])
    || strcmp (take 8 oem) (b'm' ∷ b'k' ∷ b'f' ∷ b's' ∷ b'.' ∷ b'f' ∷ b'a' ∷ b't' ∷ [])
    || strcmp (take 8 oem) (b'F' ∷ b'R' ∷ b'D' ∷ b'O' ∷ b'S' ∷ b'5' ∷ b'.' ∷ b'1' ∷ [])

-- What the identifier string of a trusted block tells.
unfoldable pub identified_type : Bpb → FatType
unfolding strcmp
identified_type bpb =
    if strcmp (take 5 bpb.at_36) (b'F' ∷ b'A' ∷ b'T' ∷ b'1' ∷ b'2' ∷ [])
    then fat12
    else if strcmp (take 5 bpb.at_36) (b'F' ∷ b'A' ∷ b'T' ∷ b'1' ∷ b'6' ∷ [])
    then fat16
    else if strcmp (take 5 bpb.at_52) (b'F' ∷ b'A' ∷ b'T' ∷ b'3' ∷ b'2' ∷ [])
    then fat32
    else invalid

unfoldable pub type_of_count : ℕ → FatType
type_of_count cluster_count =
    if ltb cluster_count 4085 then fat12 else if ltb cluster_count 65525 then fat16 else fat32

-- The numbers of a volume, from its block and the sectors of a FAT. A division by 0 is a fault.
pub record Geometry : Type 0 where
  pub tot_sec : ℕ
  pub root_dir_sectors : ℕ
  pub first_data_sec : ℕ
  pub data_sec : ℕ
  pub cluster_count : ℕ

unfoldable pub geometry : Bpb → ℕ → Outcome Geometry
geometry bpb fat_sz =
    let root =
      (bpb.n_root_directory_entries * 32 + (bpb.bytes_per_sector - 1)) / bpb.bytes_per_sector in
    let tot =
      if bpb.total_sector_count16 == 0
      then bpb.total_sector_count32
      else bpb.total_sector_count16 in
    let first = add32 (add32 bpb.n_resv_sectors (mul32 bpb.n_fats fat_sz)) root in
    let data_sec = sub32 tot first in
    if (bpb.bytes_per_sector == 0) || (bpb.sectors_per_cluster == 0)
    then fault
    else done (record {
      tot_sec = tot;
      root_dir_sectors = root;
      first_data_sec = first;
      data_sec = data_sec;
      cluster_count = data_sec / bpb.sectors_per_cluster;
    })

-- `uint16_t FatSz`.
unfoldable pub fat_sz16 : Bpb → ℕ
fat_sz16 bpb =
    if bpb.sectors_per_fat16 == 0 then bpb.sectors_per_fat32 % 0x1_0000 else bpb.sectors_per_fat16

unfoldable pub get_fat_type : Bpb → Outcome FatType
unfolding is_trusted identified_type type_of_count geometry fat_sz16
get_fat_type bpb =
    if is_trusted bpb.oem_identifier
    then done (identified_type bpb)
    else (geometry bpb (fat_sz16 bpb) >>= λ g. done (type_of_count g.cluster_count))
