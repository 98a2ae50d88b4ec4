-- ===== src/Prelude/Words.antt =====
-- Machine integers are native numbers; what wraps is written out by these.
use Prim.Native.Nat.{ℕ, ◌+◌, ◌-◌, ◌*◌, ◌%◌, ◌^◌}

abbrev pub u64 : ℕ
u64 = 2 ^ 64

abbrev pub u32 : ℕ
u32 = 2 ^ 32

-- uint64_t sums, differences and products.
abbrev pub add64 : ℕ → ℕ → ℕ
add64 a b = (a + b) % u64

abbrev pub sub64 : ℕ → ℕ → ℕ
sub64 a b = (a + u64 - b) % u64

abbrev pub mul64 : ℕ → ℕ → ℕ
mul64 a b = (a * b) % u64

-- uint32_t sums, differences and products.
abbrev pub add32 : ℕ → ℕ → ℕ
add32 a b = (a + b) % u32

abbrev pub sub32 : ℕ → ℕ → ℕ
sub32 a b = (a + u32 - b) % u32

abbrev pub mul32 : ℕ → ℕ → ℕ
mul32 a b = (a * b) % u32
