-- ===== src/BootConfig/Printing.antt =====
-- The lexer on a configuration that is written out line by line.
use obos_old.Prelude.{
  ap, ℕ, ◌≡◌, refl, true, false, ◌||◌, List, [], ◌∷◌, ◌++◌, some, arith, ◌==◌, if◌then◌else◌,
  length, take, drop, add64, has, map,
}
use obos_old.CString.{CString}
use obos_old.Outcome.{done}
use obos_old.BootConfig.{
  TokenType, variable_name, operator, data_token, Token, is_whitespace, count_to_whitespace_or_char,
  count_to_char, Lexer, take_token, find_token, is_operator, lex_step,
}

-- A name has no white space, no `=` and no `#`.
abbrev pub IsName : CString → Type 0
IsName [] = Unit
IsName (c ∷ cs) = (((c == 0) || is_whitespace c || (c == b'=') || (c == b'#')) ≡ false) × IsName cs

-- Data begins with neither white space nor `#` nor `[`, ends at the end of its line and has no
-- terminator.
abbrev pub IsData : CString → Type 0
IsData [] = ⊥
IsData (c ∷ cs) =
    (((c == 0) || is_whitespace c || (c == b'#') || (c == b'[')) ≡ false)
    × (has b'\n' cs ≡ false)
    × (has 0 cs ≡ false)

abbrev pub Entries : List (CString × CString) → Type 0
Entries [] = Unit
Entries ((name, value) ∷ es) = ((name ≡ [] → ⊥) × IsName name × IsData value) × Entries es

abbrev pub print_entries : List (CString × CString) → CString
print_entries [] = []
print_entries ((name, value) ∷ es) =
    name ++ (b' ' ∷ b'=' ∷ b' ' ∷ (value ++ (b'\n' ∷ print_entries es)))

-- What the parser reads of a token.
abbrev pub view : Token → TokenType × CString
view t = (t.type, t.contents)

abbrev pub views : List (CString × CString) → List (TokenType × CString)
views [] = []
views ((name, value) ∷ es) =
    (variable_name, name) ∷ (operator, b'=' ∷ []) ∷ (data_token, value) ∷ views es

count_name :
    (n s : CString) → IsName n → count_to_whitespace_or_char (n ++ b' ' ∷ s) b'=' ≡ length n
unfolding count_to_whitespace_or_char is_whitespace
count_name [] s i = refl
count_name (c ∷ cs) s (i, is) = ground (arith, count_name cs s is)

count_line :
    (d s : CString)
    → has b'\n' d ≡ false
    → has 0 d ≡ false
    → count_to_char (d ++ b'\n' ∷ s) b'\n' ≡ length d
unfolding count_to_char
count_line [] s h z = refl
count_line (c ∷ cs) s h z = ground (arith, count_line cs s)

take-append : (a b : CString) → take (length a) (a ++ b) ≡ a
take-append [] b = refl
take-append (x ∷ xs) b = ap (λ s. x ∷ s) (take-append xs b)

drop-append : (a b : CString) → drop (length a) (a ++ b) ≡ b
drop-append [] b = refl
drop-append (x ∷ xs) b = drop-append xs b

-- A lexer with the text that looks for the token, with the tokens so far.
abbrev pub At : CString → TokenType → List (TokenType × CString) → Lexer → Type 0
At s t ts l = (l.text ≡ s) × (l.searching ≡ t) × (map view l.tokens ≡ ts)

map-snoc : (ts : List Token) (t : Token) → map view (ts ++ t ∷ []) ≡ map view ts ++ view t ∷ []
map-snoc [] t = refl
map-snoc (x ∷ xs) t = ap (λ s. view x ∷ s) (map-snoc xs t)

pub step_space :
    (c : ℕ) (s : CString) (t : TokenType) (ts : List (TokenType × CString)) (l : Lexer)
    → is_whitespace c ≡ true
    → At (c ∷ s) t ts l
    → (l' : Lexer) × (lex_step l ≡ done (some l')) × At s t ts l'
unfolding lex_step is_whitespace
step_space c s t ts l w (a, b, d) = (
  record l {
    text = s;
    line = if c == b'\n' then add64 l.line 1 else l.line;
    character = if c == b'\n' then 1 else add64 l.character 1;
  },
  ground arith,
  (refl, b, d),
)

-- The token that is taken, with its characters in front of the rest.
take_token-At :
    (x rest : CString) (t next : TokenType) (ts : List (TokenType × CString)) (l : Lexer)
    → At (x ++ rest) t ts l
    → At rest next (ts ++ (t, x) ∷ []) (take_token (length x) next l)
unfolding take_token
take_token-At x rest t next ts l (a, b, d) =
    let token : Token = record {
      contents = take (length x) l.text;
      type = l.searching;
      line = l.line;
      character = l.character;
    } in
    let tk : take (length x) l.text ≡ x = ground (arith, take-append x rest) in
    (ground (arith, drop-append x rest), refl, ground (arith, map-snoc l.tokens token, tk))

pub step_name :
    (c : ℕ) (cs rest : CString) (ts : List (TokenType × CString)) (l : Lexer)
    → IsName (c ∷ cs)
    → At ((c ∷ cs) ++ b' ' ∷ rest) variable_name ts l
    → (l' : Lexer) × (lex_step l ≡ done (some l'))
      × At (b' ' ∷ rest) operator (ts ++ (variable_name, c ∷ cs) ∷ []) l'
unfolding lex_step find_token is_operator
step_name c cs rest ts l i (a, b, d) =
    let n = count_name (c ∷ cs) rest i in
    (
      take_token (length (c ∷ cs)) operator l,
      ground (arith, n),
      take_token-At (c ∷ cs) (b' ' ∷ rest) variable_name operator ts l (a, b, d),
    )

pub step_equals :
    (rest : CString) (ts : List (TokenType × CString)) (l : Lexer)
    → At (b'=' ∷ rest) operator ts l
    → (l' : Lexer) × (lex_step l ≡ done (some l'))
      × At rest data_token (ts ++ (operator, b'=' ∷ []) ∷ []) l'
unfolding lex_step find_token is_operator is_whitespace
step_equals rest ts l (a, b, d) = (
  take_token 1 data_token l,
  ground arith,
  take_token-At (b'=' ∷ []) rest operator data_token ts l (a, b, d),
)

pub step_value :
    (c : ℕ) (cs rest : CString) (ts : List (TokenType × CString)) (l : Lexer)
    → IsData (c ∷ cs)
    → At ((c ∷ cs) ++ b'\n' ∷ rest) data_token ts l
    → (l' : Lexer) × (lex_step l ≡ done (some l'))
      × At (b'\n' ∷ rest) variable_name (ts ++ (data_token, c ∷ cs) ∷ []) l'
unfolding lex_step find_token is_operator is_whitespace
step_value c cs rest ts l (i, h, z) (a, b, d) =
    let n = count_line (c ∷ cs) rest (ground (arith, h)) (ground (arith, z)) in
    (
      take_token (length (c ∷ cs)) variable_name l,
      ground (arith, n),
      take_token-At (c ∷ cs) (b'\n' ∷ rest) data_token variable_name ts l (a, b, d),
    )
