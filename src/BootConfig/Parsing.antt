-- ===== src/BootConfig/Parsing.antt =====
-- The parser reads back what is written out line by line.
use obos_old.Prelude.{Option, List, [], ◌∷◌}
use obos_old.CString.{CString}
use obos_old.BootConfig.Values.{Element, process_data_token}

-- The map's entries for the lines.
abbrev pub elements_of : List (CString × CString) → List (CString × Option Element)
elements_of [] = []
elements_of ((name, value) ∷ es) = (name, process_data_token value) ∷ elements_of es
