-- ===== src/Tests/Vectors.antt =====
-- Vectors at concrete inputs.
use obos_old.Prelude.{ℕ, ◌≡◌, refl, List, [], ◌∷◌, ◌++◌, arith}
use obos_old.Outcome.{done}
use obos_old.Vector.{block, Vector, push_back_value}
use obos_old.Vector.Laws.{Holds, push_back_value-Holds}

abbrev counting : Vector ℕ
counting = record { ptr = block 8; size = 8; capacity = 8; elements = λ i. i }

abbrev to_seven : List ℕ
to_seven = 0 ∷ 1 ∷ 2 ∷ 3 ∷ 4 ∷ 5 ∷ 6 ∷ 7 ∷ []

counting-Holds : Holds counting to_seven
counting-Holds = record { count = refl; room = omega arith; own = refl; same = λ i l. ground arith }

push_back_value-Holds_example :
    (v : Vector ℕ) × (push_back_value 8 counting ≡ done v) × Holds v (to_seven ++ 8 ∷ [])
push_back_value-Holds_example =
    push_back_value-Holds counting to_seven 8 counting-Holds (omega arith)
