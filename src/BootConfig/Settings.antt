-- ===== src/BootConfig/Settings.antt =====
-- The parser reads back numbers, truth values and texts.
use obos_old.Prelude.{ℕ, ◌%◌, ◌≡◌, ◌≢◌, Bool, true, false, List, [], ◌∷◌, Option, some, u64}
use obos_old.CString.{CString}
use obos_old.CString.MountId.{Digits, of_digits, ascii}
use obos_old.BootConfig.Values.{
  Element, integer, boolean, string, is_decimal, true_text, false_text,
}
use obos_old.BootConfig.Printing.{IsName, IsData}

pub data Setting : Type 0 where
  number : List ℕ → Setting
  flag : Bool → Setting
  words : CString → Setting

-- How a setting is written.
abbrev pub print_setting : Setting → CString
print_setting (number ds) = ascii ds
print_setting (flag true) = true_text
print_setting (flag false) = false_text
print_setting (words s) = s

-- What it means.
abbrev pub meaning : Setting → Element
meaning (number ds) = integer (of_digits 0 ds % u64)
meaning (flag b) = boolean b
meaning (words s) = string s

-- A number has a digit; words are data that do not begin with a digit and are no truth value.
abbrev pub IsSetting : Setting → Type 0
IsSetting (number []) = ⊥
IsSetting (number (d ∷ ds)) = Digits (d ∷ ds)
IsSetting (flag b) = Unit
IsSetting (words []) = ⊥
IsSetting (words (c ∷ cs)) =
    IsData (c ∷ cs) × (is_decimal c ≡ false) × (c ∷ cs ≢ true_text) × (c ∷ cs ≢ false_text)

abbrev pub AreSettings : List (CString × Setting) → Type 0
AreSettings [] = Unit
AreSettings ((name, v) ∷ vs) = ((name ≢ []) × IsName name × IsSetting v) × AreSettings vs

-- The lines' names and texts.
abbrev pub lines_of : List (CString × Setting) → List (CString × CString)
lines_of [] = []
lines_of ((name, v) ∷ vs) = (name, print_setting v) ∷ lines_of vs

abbrev pub meanings : List (CString × Setting) → List (CString × Option Element)
meanings [] = []
meanings ((name, v) ∷ vs) = (name, some (meaning v)) ∷ meanings vs
