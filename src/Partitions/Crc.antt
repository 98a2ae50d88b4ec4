-- ===== src/Partitions/Crc.antt =====
-- The checksum of GPT: crcInit, crc, crc32_bytes and crc32_bytes_from_previous in
-- drivers/generic/gpt/main.cpp. The table and its flag are the state; bytes are numbers, which a
-- `char` extends with its sign.
pub mod Register
pub mod Bitwise
pub mod Pieces
use Prim.Native.Nat.{bit_and, bit_xor}
use obos_old.Prelude.{
  ℕ, zero, suc, ◌+◌, ◌-◌, ◌*◌, ◌/◌, Bool, true, false, List, [], ◌∷◌, ltb, if◌then◌else◌, get_or,
  u32, sub32,
}

-- _x86_64_initialized_crc32 and crctab.
pub record CrcTable : Type 0 where
  pub initialized : Bool
  pub crctab : List ℕ

-- One turn of crcInit's inner loop.
unfoldable pub crc_bit : ℕ → ℕ
crc_bit crc = let mask = sub32 0 (bit_and crc 1) in bit_xor (crc / 2) (bit_and 0xedb8_8320 mask)

unfoldable pub crc_bits : ℕ → ℕ → ℕ
crc_bits zero crc = crc
crc_bits (suc j) crc = crc_bits j (crc_bit crc)

-- The table from the entry `i` on, `n` entries.
unfoldable pub crc_entries : ℕ → ℕ → List ℕ
unfolding crc_bits
crc_entries i zero = []
crc_entries i (suc n) = crc_bits 8 i ∷ crc_entries (suc i) n

unfoldable pub crc_init : List ℕ
unfolding crc_entries
crc_init = crc_entries 0 256

abbrev pub complement : ℕ → ℕ
complement x = u32 - 1 - x

-- `char` to uint32_t.
abbrev pub sign_extend : ℕ → ℕ
sign_extend c = if ltb c 128 then c else u32 - 256 + c

unfoldable pub crc_loop : List ℕ → List ℕ → ℕ → ℕ
crc_loop crctab [] result = result
crc_loop crctab (c ∷ rest) result =
    let index = bit_and (bit_xor result (sign_extend c)) 0xff in
    crc_loop crctab rest (bit_xor (result / 256) (get_or crctab index 0))

unfoldable pub crc : List ℕ → List ℕ → ℕ → ℕ
unfolding crc_loop
crc crctab bytes result = complement (crc_loop crctab bytes result)

-- The table is filled by the first call.
unfoldable pub ensure_table : CrcTable → CrcTable
unfolding crc_init
ensure_table t = if t.initialized then t else record { initialized = true; crctab = crc_init }

unfoldable pub crc32_bytes_from_previous : List ℕ → ℕ → CrcTable → ℕ × CrcTable
unfolding crc ensure_table
crc32_bytes_from_previous bytes previous t =
    let t1 = ensure_table t in (crc t1.crctab bytes (complement previous), t1)

unfoldable pub crc32_bytes : List ℕ → CrcTable → ℕ × CrcTable
unfolding crc ensure_table
crc32_bytes bytes t = let t1 = ensure_table t in (crc t1.crctab bytes 0xffff_ffff, t1)
