-- ===== src/BootConfig/Values.antt =====
-- What the text behind an `=` stands for: cfg.cpp 38-136 and ProcessDataToken, without the branch for
-- arrays. A number of more than sixteen hexadecimal digits, whose shifts C++ leaves open, keeps the
-- last sixteen.
use Prim.Native.Nat.{bit_or}
use mathlib.Core.List.{reverse}
use obos_old.Prelude.{
  ℕ, suc, ◌+◌, ◌-◌, ◌*◌, ◌%◌, ◌^◌, Bool, true, false, ◌&&◌, ◌||◌, [], ◌∷◌, Option, none, some, ◌==◌,
  leb, if◌then◌else◌, drop, u64, add64, mul64,
}
use obos_old.CString.{CString, strcmp}

-- The digit of dec2bin, and the tests of strToIntegerType.
unfoldable pub is_decimal : ℕ → Bool
is_decimal c = leb b'0' c && leb c b'9'

unfoldable pub is_hex : ℕ → Bool
is_hex c = is_decimal c || (leb b'A' c && leb c b'F') || (leb b'a' c && leb c b'f')

unfoldable pub all_of : (ℕ → Bool) → CString → Bool
all_of test [] = true
all_of test (c ∷ cs) = test c && all_of test cs

unfoldable pub dec2bin_loop : CString → ℕ → ℕ
dec2bin_loop [] ret = ret
dec2bin_loop (c ∷ cs) ret =
    dec2bin_loop cs (if is_decimal c then add64 (mul64 ret 10) (c - b'0') else ret)

unfoldable pub dec2bin : CString → ℕ
unfolding dec2bin_loop
dec2bin str = dec2bin_loop str 0

-- The value of a digit of hex2bin; anything else counts as 0.
unfoldable pub hex_digit : ℕ → ℕ
hex_digit c =
    if leb b'0' c && leb c b'9'
    then c - b'0'
    else if leb b'A' c && leb c b'F'
    then c - b'A' + 10
    else if leb b'a' c && leb c b'f'
    then c - b'a' + 10
    else 0

-- The loop of hex2bin, from the last character to the first.
unfoldable pub hex2bin_loop : CString → ℕ → ℕ → ℕ
hex2bin_loop [] j ret = ret
hex2bin_loop (c ∷ cs) j ret = hex2bin_loop cs (suc j) (bit_or ret (hex_digit c * 2 ^ (j * 4) % u64))

unfoldable pub hex2bin : CString → ℕ
hex2bin str = hex2bin_loop (reverse str) 0 0

pub data IntegerType : Type 0 where
  invalid_integer : IntegerType
  decimal : IntegerType
  hex : IntegerType

-- `memcmp(str, "0x", 2)`
unfoldable pub is_prefixed : CString → Bool
is_prefixed (c ∷ d ∷ cs) = (c == b'0') && (d == b'x')
is_prefixed (c ∷ []) = false
is_prefixed [] = false

unfoldable pub str_to_integer_type : CString → IntegerType
str_to_integer_type str =
    if is_prefixed str
    then (if all_of is_hex (drop 2 str) then hex else invalid_integer)
    else if all_of is_decimal str
    then decimal
    else invalid_integer

-- What ProcessDataToken makes of a token that is not an array.
pub data Element : Type 0 where
  integer : ℕ → Element
  boolean : Bool → Element
  string : CString → Element

abbrev pub true_text : CString
true_text = b't' ∷ b'r' ∷ b'u' ∷ b'e' ∷ []

abbrev pub false_text : CString
false_text = b'f' ∷ b'a' ∷ b'l' ∷ b's' ∷ b'e' ∷ []

-- A value that is not a number; none stands for what the branch for arrays makes of a text that
-- begins with `[`, which is not modelled.
unfoldable pub word_element : CString → Option Element
word_element [] = some (string [])
word_element (c ∷ cs) =
    if c == b'['
    then none
    else if strcmp (c ∷ cs) true_text
    then some (boolean true)
    else if strcmp (c ∷ cs) false_text
    then some (boolean false)
    else some (string (c ∷ cs))

-- ProcessDataToken
unfoldable pub process_data_token : CString → Option Element
process_data_token text = elim (str_to_integer_type text) [
  | decimal ↦ some (integer (dec2bin text))
  | hex ↦ some (integer (hex2bin text))
  | invalid_integer ↦ word_element text
]
