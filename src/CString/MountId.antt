-- ===== src/CString/MountId.antt =====
-- Numbers in paths.
use obos_old.Prelude.{
  ℕ, suc, ◌+◌, ◌*◌, ◌%◌, ◌<◌, ◌≡◌, refl, false, List, [], ◌∷◌, ◌++◌, map, arith, has, length, u32,
  add32, mul32, ap, ◌∙◌,
}
use obos_old.CString.{
  CString, str_count_to_char, digit_value, mount_id_loop, skip_newline, get_mount_id,
}
use obos_old.CString.Paths.{count-append}

-- Every entry is a decimal digit.
abbrev pub Digits : List ℕ → Type 0
Digits [] = Unit {0}
Digits (d ∷ ds) = (d < 10) × Digits ds

-- The number that a row of decimal digits stands for, with `acc` in front.
abbrev pub of_digits : ℕ → List ℕ → ℕ
of_digits acc [] = acc
of_digits acc (d ∷ ds) = of_digits (acc * 10 + d) ds

abbrev pub ascii : List ℕ → CString
ascii = map (λ d. d + 48)

of_digits-mod :
    (a b : ℕ) (ds : List ℕ) → a % u32 ≡ b % u32 → of_digits a ds % u32 ≡ of_digits b ds % u32
of_digits-mod a b [] h = h
of_digits-mod a b (d ∷ ds) h = of_digits-mod (a * 10 + d) (b * 10 + d) ds (omega arith)

mount_id_step :
    (acc d : ℕ) → d < 10 → add32 (mul32 acc 10) (digit_value (d + 48)) ≡ (acc * 10 + d) % u32
mount_id_step acc d h = ground arith

mount_id_loop-of_digits :
    (ds : List ℕ) (rest : CString) (acc : ℕ)
    → Digits ds
    → acc < u32
    → mount_id_loop (length ds) (ascii ds ++ rest) acc ≡ of_digits acc ds % u32
unfolding mount_id_loop
mount_id_loop-of_digits [] rest acc h small = omega arith
mount_id_loop-of_digits (d ∷ ds) rest acc h small =
    let next : ℕ = (acc * 10 + d) % u32 in
    rw (mount_id_step acc d h.0) (
      mount_id_loop-of_digits ds rest next h.1 (omega arith)
      ∙ of_digits-mod next (acc * 10 + d) ds (omega arith))

ascii-has : (ch : ℕ) (ds : List ℕ) → 57 < ch → Digits ds → has ch (ascii ds) ≡ false
ascii-has ch [] h ok = refl
ascii-has ch (d ∷ ds) h ok = ground (arith, ascii-has ch ds)

length-ascii : (ds : List ℕ) → length (ascii ds) ≡ length ds
length-ascii [] = refl
length-ascii (d ∷ ds) = ap suc (length-ascii ds)

-- The decimal number in front of the first colon is read, modulo 2 ^ 32.
pub get_mount_id-of_digits :
    (d : ℕ) (ds : List ℕ) (rest : CString)
    → Digits (d ∷ ds)
    → get_mount_id (ascii (d ∷ ds) ++ b':' ∷ rest) 0 ≡ of_digits 0 (d ∷ ds) % u32
unfolding get_mount_id
get_mount_id-of_digits d ds rest h =
    let n : str_count_to_char (ascii (d ∷ ds) ++ b':' ∷ rest) b':' ≡ suc (length ds) =
      count-append b':' (ascii (d ∷ ds)) rest (ascii-has b':' (d ∷ ds) (omega arith) h)
      ∙ length-ascii (d ∷ ds) in
    let start : skip_newline (ascii (d ∷ ds) ++ b':' ∷ rest) ≡ ascii (d ∷ ds) ++ b':' ∷ rest =
      ground (arith, h.0) in
    rw (n, start) (mount_id_loop-of_digits (d ∷ ds) (b':' ∷ rest) 0 h (omega arith))
