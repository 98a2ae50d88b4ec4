-- ===== src/Tests/Config.antt =====
-- The boot configuration at concrete texts.
use obos_old.Prelude.{true, ◌≡◌, refl, List, [], ◌∷◌}
use obos_old.Outcome.{fault}
use obos_old.CString.{CString}
use obos_old.CString.MountId.{ascii}
use obos_old.BootConfig.{
  is_whitespace, run_lexical_analysis, run_lexer, lex_step, find_token, take_token, is_operator,
  count_to_whitespace_or_char,
}
use obos_old.BootConfig.Settings.{Setting, number, flag, words}
use obos_old.BootConfig.Values.{hex2bin, hex2bin_loop, hex_digit}

abbrev two_entries : List (CString × CString)
two_entries = (b'a' ∷ [], ascii (4 ∷ 2 ∷ [])) ∷ (b'b' ∷ b'c' ∷ [], b'x' ∷ b' ' ∷ b'#' ∷ []) ∷ []

-- `a = 42`, `b = true` and `c = x #`.
abbrev three_settings : List (CString × Setting)
three_settings =
    (b'a' ∷ [], number (4 ∷ 2 ∷ []))
    ∷ (b'b' ∷ [], flag true)
    ∷ (b'c' ∷ [], words (b'x' ∷ b' ' ∷ b'#' ∷ []))
    ∷ []

-- A line without an `=`.
missing_equals : run_lexical_analysis (b'a' ∷ b' ' ∷ b'b' ∷ []) ≡ fault
unfolding run_lexical_analysis run_lexer lex_step find_token take_token is_whitespace is_operator
    count_to_whitespace_or_char
missing_equals = refl

-- 0x1F
hex2bin_test : hex2bin (b'0' ∷ b'x' ∷ b'1' ∷ b'F' ∷ []) ≡ 31
unfolding hex2bin hex2bin_loop hex_digit
hex2bin_test = refl
