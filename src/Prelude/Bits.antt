-- ===== src/Prelude/Bits.antt =====
-- Exclusive or of machine integers and the mask of a byte: the laws of binary digits, from the
-- recursion that the native operations stand for.
use Prim.Native.Nat.{
  ℕ, zero, suc, ◌+◌, ◌*◌, ◌/◌, ◌%◌, ◌^◌, ◌≤◌, ◌<◌, bit_and, bit_xor, digits, differ, min,
  bit_and-bitwise, bit_xor-bitwise,
}
use mathlib.Core.Path.{◌≡◌, refl, ap}
use native.Mathlib.Nat.{pow-suc}
use native.Mathlib.Omega.{arith}

-- Any fuel that the first number allows gives the same digits.
fuel_irrelevant :
    (z : ℕ → ℕ) (f : ℕ → ℕ → ℕ) (n m a b : ℕ) → a ≤ n → a ≤ m → digits z f n a b ≡ digits z f m a b
fuel_irrelevant z f zero zero a b p q = refl
fuel_irrelevant z f zero (suc m) zero b p q = refl
fuel_irrelevant z f zero (suc m) (suc a) b p q = absurd (omega arith)
fuel_irrelevant z f (suc n) zero zero b p q = refl
fuel_irrelevant z f (suc n) zero (suc a) b p q = absurd (omega arith)
fuel_irrelevant z f (suc n) (suc m) zero b p q = refl
fuel_irrelevant z f (suc n) (suc m) (suc a) b p q =
    omega (arith, fuel_irrelevant z f n m (suc a / 2) (b / 2) (omega arith) (omega arith))

differ-parity : (x y : ℕ) → x < 2 → y < 2 → differ x y ≡ (x + y) % 2
differ-parity zero zero p q = refl
differ-parity zero (suc zero) p q = refl
differ-parity (suc zero) zero p q = refl
differ-parity (suc zero) (suc zero) p q = refl
differ-parity zero (suc (suc y)) p q = absurd (omega arith)
differ-parity (suc zero) (suc (suc y)) p q = absurd (omega arith)
differ-parity (suc (suc x)) y p q = absurd (omega arith)

zero-bit_xor : (b : ℕ) → bit_xor 0 b ≡ b
zero-bit_xor b = bit_xor-bitwise 0 b

pub bit_xor_step : (a b : ℕ) → bit_xor a b ≡ bit_xor (a / 2) (b / 2) * 2 + (a + b) % 2
bit_xor_step zero b = omega (arith, zero-bit_xor b, zero-bit_xor (b / 2))
bit_xor_step (suc a) b = omega (
  arith,
  bit_xor-bitwise (suc a) b,
  bit_xor-bitwise (suc a / 2) (b / 2),
  fuel_irrelevant (λ y. y) differ a (suc a / 2) (suc a / 2) (b / 2) (omega arith) (omega arith),
  differ-parity (suc a % 2) (b % 2) (omega arith) (omega arith),
)

-- Two numbers within a bound halve within half of it, so that a bound serves as fuel.
comm_fuel : (n a b : ℕ) → a ≤ n → b ≤ n → bit_xor a b ≡ bit_xor b a
comm_fuel zero zero zero p q = refl
comm_fuel zero zero (suc b) p q = absurd (omega arith)
comm_fuel zero (suc a) b p q = absurd (omega arith)
comm_fuel (suc n) a b p q = omega (
  arith,
  bit_xor_step a b,
  bit_xor_step b a,
  comm_fuel n (a / 2) (b / 2) (omega arith) (omega arith),
)

pub bit_xor_comm : (a b : ℕ) → bit_xor a b ≡ bit_xor b a
bit_xor_comm a b = comm_fuel (a + b) a b (omega arith) (omega arith)

pub bit_xor-zero : (a : ℕ) → bit_xor a 0 ≡ a
bit_xor-zero a = omega (arith, bit_xor_comm a 0, zero-bit_xor a)

pub half-bit_xor : (a b : ℕ) → bit_xor a b / 2 ≡ bit_xor (a / 2) (b / 2)
half-bit_xor a b = omega (arith, bit_xor_step a b)

pub parity-bit_xor : (a b : ℕ) → bit_xor a b % 2 ≡ (a + b) % 2
parity-bit_xor a b = omega (arith, bit_xor_step a b)

-- Halves and parities settle an equation between two exclusive ors.
xor_from_halves :
    (a b c d : ℕ)
    → bit_xor (a / 2) (b / 2) ≡ bit_xor (c / 2) (d / 2)
    → (a + b) % 2 ≡ (c + d) % 2
    → bit_xor a b ≡ bit_xor c d
xor_from_halves a b c d h p = omega (arith, bit_xor_step a b, bit_xor_step c d)

assoc_fuel :
    (n a b c : ℕ) → a ≤ n → b ≤ n → c ≤ n → bit_xor (bit_xor a b) c ≡ bit_xor a (bit_xor b c)
assoc_fuel zero zero zero zero p q r = refl
assoc_fuel zero zero zero (suc c) p q r = absurd (omega arith)
assoc_fuel zero zero (suc b) c p q r = absurd (omega arith)
assoc_fuel zero (suc a) b c p q r = absurd (omega arith)
assoc_fuel (suc n) a b c p q r =
    xor_from_halves (bit_xor a b) c a (bit_xor b c)
      (rw (half-bit_xor a b, half-bit_xor b c)
        (assoc_fuel n (a / 2) (b / 2) (c / 2) (omega arith) (omega arith) (omega arith)))
      (omega (arith, parity-bit_xor a b, parity-bit_xor b c))

pub bit_xor_assoc : (a b c : ℕ) → bit_xor (bit_xor a b) c ≡ bit_xor a (bit_xor b c)
bit_xor_assoc a b c = assoc_fuel (a + b + c) a b c (omega arith) (omega arith) (omega arith)

self_fuel : (n a : ℕ) → a ≤ n → bit_xor a a ≡ 0
self_fuel zero zero p = refl
self_fuel zero (suc a) p = absurd (omega arith)
self_fuel (suc n) a p = omega (arith, bit_xor_step a a, self_fuel n (a / 2) (omega arith))

pub bit_xor_self : (a : ℕ) → bit_xor a a ≡ 0
bit_xor_self a = self_fuel a a (omega arith)

-- Words of `k` bits stay words of `k` bits.
pub bit_xor-lt : (k a b : ℕ) → a < 2 ^ k → b < 2 ^ k → bit_xor a b < 2 ^ k
bit_xor-lt zero zero zero p q = omega arith
bit_xor-lt zero zero (suc b) p q = absurd (omega arith)
bit_xor-lt zero (suc a) b p q = absurd (omega arith)
bit_xor-lt (suc k) a b p q =
    ground (arith, bit_xor_step a b, pow-suc 2 k, bit_xor-lt k (a / 2) (b / 2))

pub mul-two-pow : (q k : ℕ) → q * 2 ^ suc k ≡ q * 2 ^ k * 2
mul-two-pow q k = omega (arith, ap (λ (t : ℕ). q * t) (pow-suc 2 k))

-- The low `k` digits and those above them are taken apart.
pub bit_xor-fields :
    (k a b m n : ℕ)
    → m < 2 ^ k
    → n < 2 ^ k
    → bit_xor (a * 2 ^ k + m) (b * 2 ^ k + n) ≡ bit_xor a b * 2 ^ k + bit_xor m n
bit_xor-fields zero a b zero zero p q = ground arith
bit_xor-fields zero a b zero (suc n) p q = absurd (omega arith)
bit_xor-fields zero a b (suc m) n p q = absurd (omega arith)
bit_xor-fields (suc k) a b m n p q = ground (
  arith,
  bit_xor_step (a * 2 ^ suc k + m) (b * 2 ^ suc k + n),
  bit_xor_step m n,
  mul-two-pow a k,
  mul-two-pow b k,
  mul-two-pow (bit_xor a b) k,
  pow-suc 2 k,
  bit_xor-fields k a b (m / 2) (n / 2),
)

-- Four factors change places.
pub bit_xor-swap :
    (a b c d : ℕ) → bit_xor (bit_xor a b) (bit_xor c d) ≡ bit_xor (bit_xor a c) (bit_xor b d)
bit_xor-swap a b c d = cc (
  bit_xor_assoc a b (bit_xor c d),
  bit_xor_assoc b c d,
  bit_xor_comm b c,
  bit_xor_assoc c b d,
  bit_xor_assoc a c (bit_xor b d),
)

pub bit_and_step : (a b : ℕ) → bit_and a b ≡ bit_and (a / 2) (b / 2) * 2 + min (a % 2) (b % 2)
bit_and_step zero b = omega (arith, bit_and-bitwise 0 b, bit_and-bitwise 0 (b / 2))
bit_and_step (suc a) b = omega (
  arith,
  bit_and-bitwise (suc a) b,
  bit_and-bitwise (suc a / 2) (b / 2),
  fuel_irrelevant (λ y. 0) min a (suc a / 2) (suc a / 2) (b / 2) (omega arith) (omega arith),
)

and_none_fuel : (n a : ℕ) → a ≤ n → bit_and a 0 ≡ 0
and_none_fuel zero zero p = refl
and_none_fuel zero (suc a) p = absurd (omega arith)
and_none_fuel (suc n) a p = omega (arith, bit_and_step a 0, and_none_fuel n (a / 2) (omega arith))

pub low_bit : (a : ℕ) → bit_and a 1 ≡ a % 2
low_bit a = omega (arith, bit_and_step a 1, and_none_fuel (a / 2) (a / 2) (omega arith))

low_nibble : (a : ℕ) → bit_and a 0xf ≡ a % 16
low_nibble a = omega (
  arith,
  bit_and_step a 0xf,
  bit_and_step (a / 2) 7,
  bit_and_step (a / 2 / 2) 3,
  low_bit (a / 2 / 2 / 2),
)

pub low_byte : (a : ℕ) → bit_and a 0xff ≡ a % 256
low_byte a = omega (
  arith,
  bit_and_step a 0xff,
  bit_and_step (a / 2) 0x7f,
  bit_and_step (a / 2 / 2) 0x3f,
  bit_and_step (a / 2 / 2 / 2) 0x1f,
  low_nibble (a / 2 / 2 / 2 / 2),
)
