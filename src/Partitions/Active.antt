-- ===== src/Partitions/Active.antt =====
-- The active entries of the first sector, and what RegisterMBRPartitionsOnDrive does with them.
use obos_old.Prelude.{
  ℕ, ◌+◌, ◌*◌, ◌≤◌, ◌<◌, ◌≡◌, refl, ◌∙◌, false, Bool-cases, inl, inr, List, [], ◌∷◌, length, take,
  drop, leb, if◌then◌else◌, arith,
}
use obos_old.Outcome.{done, fault}
use obos_old.Vfs.Drives.{Drives}
use obos_old.Vfs.DriveHandle.{DriveHandle}
use obos_old.Partitions.{Host, little_endian, field}
use obos_old.Partitions.FirstRead.{IsRead, first_sector-IsRead}
use obos_old.Partitions.Mbr.{
  MbrPart, read_part, read_parts, is_active, list_active, mbr_partitions,
  register_mbr_partitions_on_drive,
}

unfoldable pub number_in : List ℕ → ℕ → ℕ → ℕ
number_in block offset n = little_endian (take n (drop offset block))

unfoldable pub part_at : List ℕ → ℕ → MbrPart
unfolding number_in
part_at block offset = record {
  attribs = number_in block offset 1;
  starting_lba = number_in block (offset + 8) 4;
  end_lba = number_in block (offset + 12) 4;
}

unfoldable pub actives : List MbrPart → List MbrPart
actives [] = []
actives (p ∷ parts) = if is_active p then p ∷ actives parts else actives parts

abbrev four : List ℕ → List MbrPart
four block = part_at block 446 ∷ part_at block 462 ∷ part_at block 478 ∷ part_at block 494 ∷ []

-- The active ones of the four entries.
unfoldable pub active_parts : List ℕ → List MbrPart
unfolding actives
active_parts block = actives (four block)

field-at :
    (block : List ℕ) (offset n : ℕ)
    → offset + n ≤ length block
    → field block offset n ≡ done (number_in block offset n)
unfolding field number_in
field-at block offset n h = ground arith

read_part-at :
    (block : List ℕ) (offset : ℕ)
    → offset + 16 ≤ length block
    → read_part block offset ≡ done (part_at block offset)
unfolding read_part part_at
read_part-at block offset h =
    rw
      (
        field-at block offset 1 (omega arith),
        field-at block (offset + 8) 4 (omega arith),
        field-at block (offset + 12) 4 (omega arith),
      )
      refl

read_parts-at : (block : List ℕ) → 512 ≤ length block → read_parts block 446 4 ≡ done (four block)
unfolding read_parts
read_parts-at block h =
    rw
      (
        read_part-at block 446 (omega arith),
        read_part-at block 462 (omega arith),
        read_part-at block 478 (omega arith),
        read_part-at block 494 (omega arith),
      )
      refl

list_active-overrun :
    (usable : ℕ → ℕ) (parts : List MbrPart) (first : MbrPart) (others : List MbrPart)
    → usable 1 < 24
    → actives parts ≡ first ∷ others
    → list_active usable parts 0 [] ≡ fault
unfolding list_active actives
list_active-overrun usable [] first others small e = absurd (cc e)
list_active-overrun usable (p ∷ parts) first others small e = elim (Bool-cases (is_active p)) [
  | inl a ↦ rw (a, no_room_test (24 * 1) (usable 1) small) refl
  | inr i ↦ rw i (list_active-overrun usable parts first others small (rw i at e))
]
  where
    no_room_test : (a b : ℕ) → b < a → leb a b ≡ false
    no_room_test a b h = ground arith

-- With blocks of just the bytes that the loop asks for, the first active entry is written past its
-- block.
pub register_mbr_partitions_on_drive-overrun :
    {D : Type 0} (host : Host) (drive_id : ℕ) (w : Drives D) (h : DriveHandle) (w1 : Drives D)
    (sector : ℕ) (block : List ℕ) (first : MbrPart) (others : List MbrPart)
    → IsRead host drive_id 0 w h w1 sector block
    → 512 ≤ length block
    → number_in block 510 2 ≡ 0xaa55
    → host.usable 1 < 24
    → active_parts block ≡ first ∷ others
    → register_mbr_partitions_on_drive host drive_id w ≡ fault
unfolding register_mbr_partitions_on_drive mbr_partitions active_parts
register_mbr_partitions_on_drive-overrun host drive_id w h w1 sector block first others r l s small
      e =
    first_sector-IsRead host drive_id 0 w h w1 sector block (mbr_partitions host) r
    ∙ rw
        (
          field-at block 510 2 l,
          s,
          read_parts-at block l,
          list_active-overrun host.usable (four block) first others small e,
        )
        refl
