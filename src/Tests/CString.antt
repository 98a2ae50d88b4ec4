-- ===== src/Tests/CString.antt =====
-- Paths at concrete texts.
use obos_old.Prelude.{[], ◌∷◌}
use obos_old.CString.{CString}

abbrev pub usr : CString
usr = b'u' ∷ b's' ∷ b'r' ∷ []

abbrev bin : CString
bin = b'b' ∷ b'i' ∷ b'n' ∷ []
