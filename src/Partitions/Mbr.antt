-- ===== src/Partitions/Mbr.antt =====
-- RegisterMBRPartitionsOnDrive, drivers/x86_64/mbr/main.cpp. The four entries begin at byte 446 of the
-- first sector, the signature stands at byte 510.
use Prim.Native.Nat.{bit_and}
use obos_old.Prelude.{
  ℕ, zero, suc, ◌+◌, ◌*◌, Bool, List, [], ◌∷◌, ◌++◌, none, some, ◌==◌, leb, not, if◌then◌else◌,
  sub32,
}
use obos_old.Outcome.{Outcome, done, fault, ◌>>=◌}
use obos_old.Vfs.Drives.{Drives}
use obos_old.Vfs.DriveHandle.{DriveHandle}
use obos_old.Partitions.{PartitionInfo, Host, field, Registered, leave, first_sector}

-- mbr_part, as far as it is read.
pub record MbrPart : Type 0 where
  pub attribs : ℕ
  pub starting_lba : ℕ
  pub end_lba : ℕ

unfoldable pub read_part : List ℕ → ℕ → Outcome MbrPart
unfolding field
read_part block offset = field block offset 1 >>= λ a. field block (offset + 8) 4 >>= λ s.
    field block (offset + 12) 4 >>= λ e.
    done (record { attribs = a; starting_lba = s; end_lba = e })

unfoldable pub read_parts : List ℕ → ℕ → ℕ → Outcome (List MbrPart)
unfolding read_part
read_parts block offset zero = done []
read_parts block offset (suc n) =
    read_part block offset >>= λ p. read_parts block (offset + 16) n >>= λ rest. done (p ∷ rest)

unfoldable pub is_active : MbrPart → Bool
is_active p = not (bit_and p.attribs 0x80 == 0)

unfoldable pub info_of : ℕ → MbrPart → PartitionInfo
info_of id p = record {
  id = id;
  lba_offset = p.starting_lba;
  size_sectors = sub32 p.end_lba p.starting_lba;
}

-- The loop over the entries. `krealloc(partitionInfo, ++nPartitions)` asks for as many bytes as
-- there are partitions; a partition's data is 24 bytes behind those before it.
unfoldable pub list_active :
    (ℕ → ℕ) → List MbrPart → ℕ → List PartitionInfo → Outcome (List PartitionInfo)
unfolding is_active info_of
list_active usable [] n found = done found
list_active usable (p ∷ parts) n found =
    if not (is_active p)
    then list_active usable parts n found
    else if leb (24 * suc n) (usable (suc n))
    then list_active usable parts (suc n) (found ++ info_of n p ∷ [])
    else fault

module _ {D : Type 0} where
  -- What follows the first read.
  unfoldable pub mbr_partitions :
      Host → DriveHandle → Drives D → ℕ → List ℕ → Outcome (Registered D)
  unfolding leave field read_parts list_active
  mbr_partitions host h w sector block = field block 510 2 >>= λ signature.
      if not (signature == 0xaa55)
      then done (leave h w none)
      else (read_parts block 446 4 >>= λ parts.
          list_active host.usable parts 0 [] >>= λ partitions. done (leave h w (some partitions)))

  -- With both results asked for.
  unfoldable pub register_mbr_partitions_on_drive : Host → ℕ → Drives D → Outcome (Registered D)
  unfolding first_sector mbr_partitions
  register_mbr_partitions_on_drive host drive_id w =
      first_sector host drive_id 0 w (mbr_partitions host)
