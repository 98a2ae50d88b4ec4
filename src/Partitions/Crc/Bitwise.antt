-- ===== src/Partitions/Crc/Bitwise.antt =====
-- The checksum by a table (crc in drivers/generic/gpt/main.cpp) against the shift register.
use Prim.Native.Nat.{bit_and, bit_xor}
use obos_old.Prelude.{
  ℕ, zero, suc, ◌+◌, ◌-◌, ◌*◌, ◌/◌, ◌%◌, ◌<◌, ◌≡◌, refl, ap, ◌⊎◌, sym, ◌∙◌, inl, inr, false, List,
  [], ◌∷◌, ltb, get_or, u32, arith, bit_xor-zero, bit_xor-lt, bit_xor-fields, bit_xor_comm,
  low_byte, Bool-cases,
}
use obos_old.Partitions.Crc.Register.{
  feed_bits, shift_register, crc_bits-xor, crc_bits-feed_bits, crc_bits-shift,
}
use obos_old.Partitions.Crc.{
  CrcTable, crc_bits, crc_entries, crc_init, complement, sign_extend, crc_loop, crc, ensure_table,
  crc32_bytes,
}

-- The entry `j` of the table.
get_or-crc_entries : (i n j : ℕ) → j < n → get_or (crc_entries i n) j 0 ≡ crc_bits 8 (i + j)
unfolding crc_entries
get_or-crc_entries i zero j h = absurd (omega arith)
get_or-crc_entries i (suc n) zero h = ap (crc_bits 8) (omega arith)
get_or-crc_entries i (suc n) (suc j) h =
    get_or-crc_entries (suc i) n j (omega arith) ∙ ap (crc_bits 8) (omega arith)

above_byte :
    (a b m n : ℕ)
    → m < 256
    → n < 256
    → bit_xor (a * 256 + m) (b * 256 + n) ≡ bit_xor a b * 256 + bit_xor m n
above_byte a b m n p q = bit_xor-fields 8 a b m n p q

in_byte : (a m n : ℕ) → m < 256 → n < 256 → bit_xor (a * 256 + m) n ≡ a * 256 + bit_xor m n
in_byte a m n p q =
    ap (bit_xor (a * 256 + m)) (no_high n)
    ∙ above_byte a 0 m n p q
    ∙ ap (λ (t : ℕ). t * 256 + bit_xor m n) (bit_xor-zero a)
  where
    no_high : (n : ℕ) → n ≡ 0 * 256 + n
    no_high n = omega arith

whole : (r : ℕ) → r / 256 * 256 + r % 256 ≡ r
whole r = omega arith

-- A number is its low byte and the rest.
low_and_high : (r : ℕ) → bit_xor (r / 256 * 256) (r % 256) ≡ r
low_and_high r = omega (
  arith,
  ap (λ (t : ℕ). bit_xor t (r % 256)) (no_low (r / 256)),
  in_byte (r / 256) 0 (r % 256) (omega arith) (omega arith),
  bit_xor_comm 0 (r % 256),
  bit_xor-zero (r % 256),
)
  where
    no_low : (a : ℕ) → a * 256 ≡ a * 256 + 0
    no_low a = omega arith

low_byte-xor : (r c q : ℕ) → c < 256 → bit_xor r (q * 256 + c) % 256 ≡ bit_xor r c % 256
low_byte-xor r c q h = omega (
  arith,
  ap (λ (t : ℕ). bit_xor t (q * 256 + c)) (whole r),
  ap (λ (t : ℕ). bit_xor t c) (whole r),
  above_byte (r / 256) q (r % 256) c (omega arith) h,
  in_byte (r / 256) (r % 256) c (omega arith) h,
)

high-xor : (r c : ℕ) → c < 256 → bit_xor r c / 256 ≡ r / 256
high-xor r c h = omega (
  arith,
  ap (λ (t : ℕ). bit_xor t c) (whole r),
  in_byte (r / 256) (r % 256) c (omega arith) h,
  bit_xor-lt 8 (r % 256) c (omega arith) h,
)

sign_extend-byte :
    (r c : ℕ) → c < 256 → bit_and (bit_xor r (sign_extend c)) 0xff ≡ bit_xor r c % 256
sign_extend-byte r c h = elim (Bool-cases (ltb c 128)) [
  | inl p ↦ rw (p) (low_byte (bit_xor r c))
  | inr p ↦ rw (p) (low_byte (bit_xor r (u32 - 256 + c)) ∙ low_byte-xor r c 0xff_ffff h)
]

-- Eight steps, by the entry for the low byte.
crc_bits-split : (x : ℕ) → crc_bits 8 x ≡ bit_xor (x / 256) (crc_bits 8 (x % 256))
crc_bits-split x =
    ap (crc_bits 8) (sym (low_and_high x))
    ∙ crc_bits-xor 8 (x / 256 * 256) (x % 256)
    ∙ ap (λ (t : ℕ). bit_xor t (crc_bits 8 (x % 256))) (crc_bits-shift 8 (x / 256))

crc_init-entry : (i : ℕ) → i < 256 → get_or crc_init i 0 ≡ crc_bits 8 i
unfolding crc_init
crc_init-entry i h = get_or-crc_entries 0 256 i h ∙ ap (crc_bits 8) (from_first i)
  where
    from_first : (i : ℕ) → 0 + i ≡ i
    from_first i = omega arith

-- A step with the table takes the eight bits of a byte.
table_step :
    (r c : ℕ)
    → c < 256
    → bit_xor (r / 256) (get_or crc_init (bit_and (bit_xor r (sign_extend c)) 0xff) 0)
      ≡ feed_bits 8 c r
table_step r c h = cc (
  ap (λ (t : ℕ). get_or crc_init t 0) (sign_extend-byte r c h),
  crc_init-entry (bit_xor r c % 256) (omega arith),
  crc_bits-split (bit_xor r c),
  high-xor r c h,
  crc_bits-feed_bits 8 c r h,
)

-- The bytes of the message are bytes.
unfoldable pub IsBytes : List ℕ → Type 0
IsBytes [] = Unit
IsBytes (c ∷ bytes) = (c < 256) × IsBytes bytes

pub crc_loop-shift_register :
    (message : List ℕ) (r : ℕ)
    → IsBytes message
    → crc_loop crc_init message r ≡ shift_register message r
unfolding IsBytes crc_loop shift_register
crc_loop-shift_register [] r h = refl
crc_loop-shift_register (c ∷ message) r h =
    rw (table_step r c h.0) (crc_loop-shift_register message (feed_bits 8 c r) h.1)

-- The table is as crcInit leaves it, or yet to be filled.
unfoldable pub IsReady : CrcTable → Type 0
IsReady t = (t.initialized ≡ false) ⊎ (t.crctab ≡ crc_init)

pub ensure_table-crc_init : (t : CrcTable) → IsReady t → (ensure_table t).crctab ≡ crc_init
unfolding ensure_table IsReady
ensure_table-crc_init t r = ground arith

-- For a message of bytes, whether the table is filled already or is filled by this call, the
-- checksum by the table is the complement of what the shift register of CRC-32 holds after the bits
-- of the message, from a register of ones on.
pub crc32_bytes-shift_register :
    (message : List ℕ) (t : CrcTable)
    → IsBytes message
    → IsReady t
    → (crc32_bytes message t).0 ≡ complement (shift_register message 0xffff_ffff)
unfolding crc32_bytes crc
crc32_bytes-shift_register message t b r =
    rw (ensure_table-crc_init t r) (ap complement (crc_loop-shift_register message 0xffff_ffff b))
