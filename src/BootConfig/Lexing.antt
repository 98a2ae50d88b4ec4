-- ===== src/BootConfig/Lexing.antt =====
-- The lexer returns.
use obos_old.Prelude.{
  ℕ, zero, suc, ◌+◌, ◌-◌, ◌*◌, ◌≤◌, ◌<◌, ◌≡◌, ◌≢◌, refl, eq_cases, false, [], ◌∷◌, some, arith,
  length, drop, ◌⊎◌, Bool-cases, none, inl, inr,
}
use obos_old.Outcome.{done, fault, hang, Outcome-cases}
use obos_old.CString.{CString}
use obos_old.BootConfig.{
  TokenType, variable_name, operator, data_token, array_initializer, is_whitespace,
  count_to_whitespace_or_char, count_to_char, Lexer, next_line, take_token, find_token, lex_step,
  run_lexer,
}

pub length-drop : (k : ℕ) (s : CString) → length (drop k s) ≡ length s - k
length-drop zero s = omega arith
length-drop (suc k) [] = omega arith
length-drop (suc k) (c ∷ cs) = omega (arith, length-drop k cs)

-- What is left to do at most: two rounds for a character, one for a name that may be empty.
abbrev rounds_left : CString → TokenType → ℕ
rounds_left s variable_name = length s * 2 + 1
rounds_left s operator = length s * 2
rounds_left s data_token = length s * 2
rounds_left s array_initializer = length s * 2

abbrev pub rounds : Lexer → ℕ
rounds l = rounds_left l.text l.searching

-- The lexer only looks for the three kinds of tokens.
abbrev pub Looks : TokenType → Type 0
Looks variable_name = Unit
Looks operator = Unit
Looks data_token = Unit
Looks array_initializer = ⊥

rounds_left-le : (s : CString) (t : TokenType) → rounds_left s t ≤ length s * 2 + 1
rounds_left-le s variable_name = omega arith
rounds_left-le s operator = omega arith
rounds_left-le s data_token = omega arith
rounds_left-le s array_initializer = omega arith

rounds_left-ge : (s : CString) (t : TokenType) → length s * 2 ≤ rounds_left s t
rounds_left-ge s variable_name = omega arith
rounds_left-ge s operator = omega arith
rounds_left-ge s data_token = omega arith
rounds_left-ge s array_initializer = omega arith

-- A token that is found moves the lexer on.
find_token-less :
    (c : ℕ) (cs : CString) (t : TokenType) (l : Lexer)
    → l.text ≡ c ∷ cs
    → l.searching ≡ t
    → Looks t
    → is_whitespace c ≡ false
    → c ≢ 0
    → (rounds (find_token l) < rounds l) × Looks (find_token l).searching
unfolding find_token take_token count_to_char is_whitespace
find_token-less c cs variable_name l e t k w nz =
    let k = length-drop (count_to_whitespace_or_char l.text b'=') l.text in ground (arith, k)
find_token-less c cs operator l e t k w nz = ground arith
find_token-less c cs data_token l e t k w nz =
    let k = length-drop (count_to_char cs b'\n') cs in ground (arith, k)
find_token-less c cs array_initializer l e t k w nz = absurd k

lex_step-less :
    (l l' : Lexer) (s : CString)
    → l.text ≡ s
    → Looks l.searching
    → lex_step l ≡ done (some l')
    → (rounds l' < rounds l) × Looks l'.searching
unfolding lex_step next_line
lex_step-less l l' [] e k h = ground arith
lex_step-less l l' (c ∷ cs) e k h =
    let ge = rounds_left-ge l.text l.searching in
    let dropped = length-drop (suc (count_to_char l.text b'\n')) l.text in
    elim (Bool-cases (is_whitespace c)) [
      | inl w ↦ let le = rounds_left-le l'.text l'.searching in ground (arith, ge, le, dropped)
      | inr w ↦ elim (eq_cases c 0) [
        | inl z ↦ absurd (ground (arith, z, h))
        | inr nz ↦
            let found = find_token-less c cs l.searching l e refl k w nz in
            let le = rounds_left-le l'.text l'.searching in ground (arith, ge, le, dropped, found)
      ]
    ]

lex_step-hang : (l : Lexer) → ¬ (lex_step l ≡ hang)
unfolding lex_step
lex_step-hang l e = ground arith

pub run_lexer-returns :
    (fuel : ℕ) (l : Lexer)
    → Looks l.searching
    → rounds l < fuel
    → ((l' : Lexer) × (run_lexer fuel l ≡ done l')) ⊎ (run_lexer fuel l ≡ fault)
unfolding run_lexer
run_lexer-returns zero l k r = absurd (omega arith)
run_lexer-returns (suc fuel) l k r = elim (Outcome-cases (lex_step l)) [
  | inl (none, e) ↦ inl (l, ground (arith, e))
  | inl (some l', e) ↦
      let (less, k') = lex_step-less l l' l.text refl k e in
      elim (run_lexer-returns fuel l' k' (omega arith)) [
        | inl (last, f) ↦ inl (last, ground (arith, e, f))
        | inr f ↦ inr (ground (arith, e, f))
      ]
  | inr (inl e) ↦ inr (ground (arith, e))
  | inr (inr e) ↦ absurd (lex_step-hang l e)
]

-- A run that returns is the run with enough fuel.
pub run_lexer-enough :
    (n m : ℕ) (l x : Lexer)
    → Looks l.searching
    → rounds l < m
    → run_lexer n l ≡ done x
    → run_lexer m l ≡ done x
unfolding run_lexer
run_lexer-enough zero m l x k r e = absurd (cc e)
run_lexer-enough (suc n) zero l x k r e = absurd (omega arith)
run_lexer-enough (suc n) (suc m) l x k r e = elim (Outcome-cases (lex_step l)) [
  | inl (none, f) ↦ ground (arith, f, e)
  | inl (some l', f) ↦
      let (less, k') = lex_step-less l l' l.text refl k f in
      let next = run_lexer-enough n m l' x k' (omega arith) (ground (arith, f, e)) in
      ground (arith, f, next)
  | inr (inl f) ↦ absurd (ground (arith, f, e))
  | inr (inr f) ↦ absurd (ground (arith, f, e))
]
