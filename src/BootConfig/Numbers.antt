-- ===== src/BootConfig/Numbers.antt =====
-- Numbers in the configuration.
use obos_old.Prelude.{
  some, ℕ, ◌+◌, ◌-◌, ◌*◌, ◌%◌, ◌<◌, ◌≡◌, refl, true, false, List, [], ◌∷◌, arith, u64, add64, mul64,
}
use obos_old.CString.MountId.{Digits, of_digits, ascii}
use obos_old.BootConfig.Values.{
  is_decimal, all_of, dec2bin_loop, dec2bin, is_prefixed, str_to_integer_type, integer,
  process_data_token,
}

of_digits-mod64 :
    (a b : ℕ) (ds : List ℕ) → a % u64 ≡ b % u64 → of_digits a ds % u64 ≡ of_digits b ds % u64
of_digits-mod64 a b [] h = h
of_digits-mod64 a b (d ∷ ds) h = of_digits-mod64 (a * 10 + d) (b * 10 + d) ds (omega arith)

dec2bin_loop-of_digits :
    (ds : List ℕ) (acc : ℕ)
    → Digits ds
    → acc < u64
    → dec2bin_loop (ascii ds) acc ≡ of_digits acc ds % u64
unfolding dec2bin_loop is_decimal
dec2bin_loop-of_digits [] acc h small = omega arith
dec2bin_loop-of_digits (d ∷ ds) acc (h, hs) small =
    let step : add64 (mul64 acc 10) (d + 48 - b'0') ≡ (acc * 10 + d) % u64 = ground arith in
    let ih = dec2bin_loop-of_digits ds ((acc * 10 + d) % u64) hs (omega arith) in
    let drop_mod = of_digits-mod64 ((acc * 10 + d) % u64) (acc * 10 + d) ds (omega arith) in
    ground (arith, ih, step, drop_mod)

all_of-ascii : (ds : List ℕ) → Digits ds → all_of is_decimal (ascii ds) ≡ true
unfolding all_of is_decimal
all_of-ascii [] h = refl
all_of-ascii (d ∷ ds) (h, hs) = ground (arith, all_of-ascii ds hs)

is_prefixed-ascii : (ds : List ℕ) → Digits ds → is_prefixed (ascii ds) ≡ false
unfolding is_prefixed
is_prefixed-ascii [] h = refl
is_prefixed-ascii (d ∷ []) h = refl
is_prefixed-ascii (d ∷ e ∷ ds) (h, (g, hs)) = ground arith

-- A value of decimal digits, however many, is the integer that they stand for modulo 2 ^ 64.
pub process_data_token-of_digits :
    (ds : List ℕ)
    → Digits ds
    → process_data_token (ascii ds) ≡ some (integer (of_digits 0 ds % u64))
unfolding process_data_token str_to_integer_type dec2bin
process_data_token-of_digits ds h =
    ground (
      arith,
      is_prefixed-ascii ds h,
      all_of-ascii ds h,
      dec2bin_loop-of_digits ds 0 h (omega arith),
    )
