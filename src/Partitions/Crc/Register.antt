-- ===== src/Partitions/Crc/Register.antt =====
-- The shift register that CRC-32 is: it takes the bits of the message one at a time, the lowest of
-- each byte first. crcInit's inner loop (drivers/generic/gpt/main.cpp) is its step with no input.
use Prim.Native.Nat.{bit_xor}
use native.Mathlib.Nat.{pow-suc}
use obos_old.Prelude.{
  ℕ, zero, suc, ◌+◌, ◌*◌, ◌/◌, ◌%◌, ◌<◌, ◌≡◌, refl, ap, ◌≢◌, sym, ◌∙◌, ◌^◌, test-of-eq, test-of-ne,
  inl, inr, List, [], ◌∷◌, ◌==◌, if◌then◌else◌, arith, half-bit_xor, parity-bit_xor, bit_xor-zero,
  mul-two-pow, bit_xor-swap, bit_xor_comm, bit_xor_assoc, low_bit, eq_cases,
}
use obos_old.Partitions.Crc.{crc_bit, crc_bits}

abbrev pub polynomial : ℕ
polynomial = 0xedb8_8320

-- One bit of the message goes into the register.
unfoldable pub feed : ℕ → ℕ → ℕ
feed bit register = if bit == register % 2 then register / 2 else bit_xor (register / 2) polynomial

unfoldable pub feed_bits : ℕ → ℕ → ℕ → ℕ
unfolding feed
feed_bits zero byte register = register
feed_bits (suc n) byte register = feed_bits n (byte / 2) (feed (byte % 2) register)

unfoldable pub shift_register : List ℕ → ℕ → ℕ
unfolding feed_bits
shift_register [] register = register
shift_register (c ∷ message) register = shift_register message (feed_bits 8 c register)

-- What a step takes off: the polynomial or nothing.
taken : ℕ → ℕ
taken zero = 0
taken (suc n) = polynomial

crc_bit-taken : (r : ℕ) → crc_bit r ≡ bit_xor (r / 2) (taken (r % 2))
unfolding crc_bit taken
crc_bit-taken r = elim (eq_cases (r % 2) 0) [
  | inl p ↦ rw (low_bit r, p) refl
  | inr p ↦ rw (low_bit r, odd r p) refl
]
  where
    odd : (r : ℕ) → r % 2 ≢ 0 → r % 2 ≡ 1
    odd r h = omega arith

feed-taken : (bit r : ℕ) → bit < 2 → feed bit r ≡ bit_xor (r / 2) (taken ((r + bit) % 2))
unfolding feed taken
feed-taken bit r h = elim (eq_cases bit (r % 2)) [
  | inl p ↦ rw (test-of-eq bit (r % 2) p, same bit r p) (sym (bit_xor-zero (r / 2)))
  | inr p ↦ rw (test-of-ne bit (r % 2) p, other bit r h p) refl
]
  where
    same : (bit r : ℕ) → bit ≡ r % 2 → (r + bit) % 2 ≡ 0
    same bit r h = omega arith

    other : (bit r : ℕ) → bit < 2 → bit ≢ r % 2 → (r + bit) % 2 ≡ 1
    other bit r h n = omega arith

taken-xor : (x y : ℕ) → x < 2 → y < 2 → taken ((x + y) % 2) ≡ bit_xor (taken x) (taken y)
unfolding taken
taken-xor zero zero p q = refl
taken-xor zero (suc zero) p q = refl
taken-xor (suc zero) zero p q = refl
taken-xor (suc zero) (suc zero) p q = refl
taken-xor zero (suc (suc y)) p q = absurd (omega arith)
taken-xor (suc zero) (suc (suc y)) p q = absurd (omega arith)
taken-xor (suc (suc x)) y p q = absurd (omega arith)

taken-parity : (a b : ℕ) → taken (bit_xor a b % 2) ≡ bit_xor (taken (a % 2)) (taken (b % 2))
taken-parity a b =
    rw (parity-bit_xor a b, parities a b) (taken-xor (a % 2) (b % 2) (omega arith) (omega arith))
  where
    parities : (a b : ℕ) → (a + b) % 2 ≡ (a % 2 + b % 2) % 2
    parities a b = omega arith

-- Dividing by the polynomial is linear.
crc_bit-xor : (a b : ℕ) → crc_bit (bit_xor a b) ≡ bit_xor (crc_bit a) (crc_bit b)
crc_bit-xor a b =
    rw
      (
        crc_bit-taken (bit_xor a b),
        crc_bit-taken a,
        crc_bit-taken b,
        half-bit_xor a b,
        taken-parity a b,
      )
      (bit_xor-swap (a / 2) (b / 2) (taken (a % 2)) (taken (b % 2)))

pub crc_bits-xor : (n a b : ℕ) → crc_bits n (bit_xor a b) ≡ bit_xor (crc_bits n a) (crc_bits n b)
unfolding crc_bits
crc_bits-xor zero a b = refl
crc_bits-xor (suc n) a b = rw (crc_bit-xor a b) (crc_bits-xor n (crc_bit a) (crc_bit b))

-- A bit can be fed one at a time, or lie in the register beforehand.
crc_bit-feed : (byte r : ℕ) → crc_bit (bit_xor r byte) ≡ bit_xor (feed (byte % 2) r) (byte / 2)
crc_bit-feed byte r = cc (
  crc_bit-taken (bit_xor r byte),
  half-bit_xor r byte,
  ap taken (parity-bit_xor r byte),
  feed-taken (byte % 2) r (omega arith),
  ap taken (parities r byte),
  bit_xor_assoc (r / 2) (byte / 2) (taken ((r + byte) % 2)),
  bit_xor_assoc (r / 2) (taken ((r + byte) % 2)) (byte / 2),
  bit_xor_comm (byte / 2) (taken ((r + byte) % 2)),
)
  where
    parities : (r byte : ℕ) → (r + byte % 2) % 2 ≡ (r + byte) % 2
    parities r byte = omega arith

-- With all its bits fed, nothing of the byte is left.
pub crc_bits-feed_bits :
    (n byte r : ℕ) → byte < 2 ^ n → crc_bits n (bit_xor r byte) ≡ feed_bits n byte r
unfolding crc_bits feed_bits
crc_bits-feed_bits zero zero r h = bit_xor-zero r
crc_bits-feed_bits zero (suc byte) r h = absurd (omega arith)
crc_bits-feed_bits (suc n) byte r h =
    rw (crc_bit-feed byte r)
      (crc_bits-feed_bits n (byte / 2) (feed (byte % 2) r) (omega (arith, pow-suc 2 n)))

crc_bit-double : (y : ℕ) → crc_bit (y * 2) ≡ y
unfolding taken
crc_bit-double y = crc_bit-taken (y * 2) ∙ rw (even y, half y) (bit_xor-zero y)
  where
    even : (y : ℕ) → (y * 2) % 2 ≡ 0
    even y = omega arith

    half : (y : ℕ) → (y * 2) / 2 ≡ y
    half y = omega arith

-- Zeroes below are shifted out.
pub crc_bits-shift : (n x : ℕ) → crc_bits n (x * 2 ^ n) ≡ x
unfolding crc_bits
crc_bits-shift zero x = omega arith
crc_bits-shift (suc n) x = rw (mul-two-pow x n, crc_bit-double (x * 2 ^ n)) (crc_bits-shift n x)
