-- ===== src/Partitions/Crc/Pieces.antt =====
-- A checksum over pieces of a message: crc32_bytes_from_previous goes on where crc32_bytes ended.
use obos_old.Prelude.{
  ℕ, zero, suc, ◌/◌, ◌%◌, ◌^◌, ◌<◌, ◌≡◌, refl, ap, List, [], ◌∷◌, ◌++◌, arith, bit_xor-lt,
}
use obos_old.Partitions.Crc.{
  CrcTable, crc_init, complement, crc_loop, crc, ensure_table, crc32_bytes,
  crc32_bytes_from_previous,
}
use obos_old.Partitions.Crc.Register.{feed, feed_bits, shift_register, polynomial}
use obos_old.Partitions.Crc.Bitwise.{
  IsBytes, IsReady, crc_loop-shift_register, ensure_table-crc_init,
}

feed-lt : (bit r : ℕ) → r < 2 ^ 32 → feed bit r < 2 ^ 32
unfolding feed
feed-lt bit r h = ground (arith, bit_xor-lt 32 (r / 2) polynomial)

feed_bits-lt : (n byte r : ℕ) → r < 2 ^ 32 → feed_bits n byte r < 2 ^ 32
unfolding feed_bits
feed_bits-lt zero byte r h = h
feed_bits-lt (suc n) byte r h =
    feed_bits-lt n (byte / 2) (feed (byte % 2) r) (feed-lt (byte % 2) r h)

shift_register-lt : (message : List ℕ) (r : ℕ) → r < 2 ^ 32 → shift_register message r < 2 ^ 32
unfolding shift_register
shift_register-lt [] r h = h
shift_register-lt (c ∷ message) r h =
    shift_register-lt message (feed_bits 8 c r) (feed_bits-lt 8 c r h)

crc_loop-append :
    (table first second : List ℕ) (r : ℕ)
    → crc_loop table (first ++ second) r ≡ crc_loop table second (crc_loop table first r)
unfolding crc_loop
crc_loop-append table [] second r = refl
crc_loop-append table (c ∷ first) second r = crc_loop-append table first second _

complement-twice : (x : ℕ) → x < 2 ^ 32 → complement (complement x) ≡ x
complement-twice x h = omega arith

ensure_table-twice : (t : CrcTable) → ensure_table (ensure_table t) ≡ ensure_table t
unfolding ensure_table
ensure_table-twice t = ground arith

-- For a message of two pieces, the first one of bytes, crc32_bytes of the first and then
-- crc32_bytes_from_previous of the second with its result give the checksum of the whole message.
pub crc32_bytes_from_previous-append :
    (first second : List ℕ) (t : CrcTable)
    → IsBytes first
    → IsReady t
    → (crc32_bytes_from_previous second (crc32_bytes first t).0 (crc32_bytes first t).1).0
      ≡ (crc32_bytes (first ++ second) t).0
unfolding crc32_bytes crc32_bytes_from_previous crc
crc32_bytes_from_previous-append first second t b r =
    let e = ensure_table-crc_init t r in
    rw (ensure_table-twice t, e, crc_loop-append crc_init first second 0xffff_ffff)
      (ap (λ (x : ℕ). complement (crc_loop crc_init second x))
        (rw (crc_loop-shift_register first 0xffff_ffff b) (
          complement-twice (shift_register first 0xffff_ffff)
            (shift_register-lt first 0xffff_ffff (omega arith)))))
