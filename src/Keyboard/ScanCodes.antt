-- ===== src/Keyboard/ScanCodes.antt =====
-- The keyboard's table: drivers/x86_64/ps2Keyboard/scancodes.h and scancodes.cpp, indexed by the
-- scan code. The special keys are the numbers of SpecialKeys in oboskrnl/driverInterface/struct.h.
use obos_old.Prelude.{ℕ, Bool, true, false, List, [], ◌∷◌}

pub record KeyCap : Type 0 where
  pub ch : ℕ
  pub shift_alias : ℕ
  pub skip_extended : Bool
  pub extended_ch : ℕ

abbrev pub key_cap : ℕ → ℕ → Bool → ℕ → KeyCap
key_cap ch shift_alias skip extended = record {
  ch = ch;
  shift_alias = shift_alias;
  skip_extended = skip;
  extended_ch = extended;
}

abbrev keys_00 : List KeyCap → List KeyCap
keys_00 rest =
    key_cap 0x0 0 false 0
    ∷ key_cap 0x1b 0 false 0
    ∷ key_cap b'1' b'!' false 0
    ∷ key_cap b'2' b'@' false 0
    ∷ key_cap b'3' b'#' false 0
    ∷ key_cap b'4' b'$' false 0
    ∷ key_cap b'5' b'%' false 0
    ∷ key_cap b'6' b'^' false 0
    ∷ key_cap b'7' b'&' false 0
    ∷ key_cap b'8' b'*' false 0
    ∷ key_cap b'9' b'(' false 0
    ∷ key_cap b'0' b')' false 0
    ∷ key_cap b'-' b'_' false 0
    ∷ key_cap b'=' b'+' false 0
    ∷ key_cap 8 0 false 0
    ∷ key_cap 9 0 false 0
    ∷ key_cap b'Q' 0 false 0
    ∷ key_cap b'W' 0 false 0
    ∷ key_cap b'E' 0 false 0
    ∷ key_cap b'R' 0 false 0
    ∷ key_cap b'T' 0 false 0
    ∷ key_cap b'Y' 0 false 0
    ∷ key_cap b'U' 0 false 0
    ∷ key_cap b'I' 0 false 0
    ∷ key_cap b'O' 0 false 0
    ∷ key_cap b'P' 0 false 0
    ∷ key_cap b'[' b'{' false 0
    ∷ key_cap b']' b'}' false 0
    ∷ key_cap 10 0 true 0
    ∷ key_cap 0x104 0 false 0x101
    ∷ key_cap b'A' 0 false 0
    ∷ key_cap b'S' 0 false 0
    ∷ key_cap b'D' 0 false 0
    ∷ key_cap b'F' 0 false 0
    ∷ key_cap b'G' 0 false 0
    ∷ key_cap b'H' 0 false 0
    ∷ key_cap b'J' 0 false 0
    ∷ key_cap b'K' 0 false 0
    ∷ key_cap b'L' 0 false 0
    ∷ key_cap b';' b':' false 0
    ∷ key_cap 39 34 false 0
    ∷ key_cap b'`' b'~' false 0
    ∷ key_cap 0x105 0 true 0
    ∷ key_cap 92 b'|' false 0
    ∷ key_cap b'Z' 0 false 0
    ∷ rest

abbrev keys_2d : List KeyCap
keys_2d =
    key_cap b'X' 0 false 0
    ∷ key_cap b'C' 0 false 0
    ∷ key_cap b'V' 0 false 0
    ∷ key_cap b'B' 0 false 0
    ∷ key_cap b'N' 0 false 0
    ∷ key_cap b'M' 0 false 0
    ∷ key_cap b',' b'<' false 0
    ∷ key_cap b'.' b'>' false 0
    ∷ key_cap b'/' b'?' true 0
    ∷ key_cap 0 0 false 0
    ∷ key_cap b'*' 0 false 0
    ∷ key_cap 0 0 false 0x102
    ∷ key_cap b' ' 0 false 0
    ∷ key_cap 0 0 false 0
    ∷ key_cap 0 0 true 0x10e
    ∷ key_cap 0 0 true 0x10f
    ∷ key_cap 0 0 true 0x110
    ∷ key_cap 0 0 true 0x111
    ∷ key_cap 0 0 true 0x112
    ∷ key_cap 0 0 true 0x113
    ∷ key_cap 0 0 true 0x114
    ∷ key_cap 0 0 true 0x115
    ∷ key_cap 0 0 true 0x116
    ∷ key_cap 0 0 true 0x117
    ∷ key_cap 0 0 true 0x107
    ∷ key_cap 0 0 true 0x120
    ∷ key_cap b'7' 0 false 0x10b
    ∷ key_cap b'8' 0 false 0x11b
    ∷ key_cap b'9' 0 false 0x109
    ∷ key_cap b'-' 0 false 0
    ∷ key_cap b'4' 0 false 0x11d
    ∷ key_cap b'5' 0 false 0
    ∷ key_cap b'6' 0 false 0x11e
    ∷ key_cap b'+' 0 false 0
    ∷ key_cap b'1' 0 false 0x10c
    ∷ key_cap b'2' 0 false 0x11c
    ∷ key_cap b'3' 0 false 0x10a
    ∷ key_cap b'0' 0 false 0x10d
    ∷ key_cap b'.' 0 false 0x11f
    ∷ key_cap 0 0 false 0
    ∷ key_cap 0 0 false 0
    ∷ key_cap 0 0 false 0
    ∷ key_cap 0 0 true 0x118
    ∷ key_cap 0 0 true 0x119
    ∷ []

unfoldable pub g_keys : List KeyCap
g_keys = keys_00 keys_2d
