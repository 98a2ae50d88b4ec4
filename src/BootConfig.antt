-- ===== src/BootConfig.antt =====
-- The parser of the boot configuration: src/oboskrnl/boot/cfg.cpp. The text ends with a terminator
-- behind its bytes. Error messages are their kind with the line and character they name. The value of
-- a text that begins with `[`, an array, is left out.
pub mod Values
pub mod Lexing
pub mod Printing
pub mod Parsing
pub mod Numbers
pub mod Settings
use obos_old.Prelude.{
  ℕ, zero, suc, ◌+◌, ◌-◌, ◌*◌, Bool, true, false, not, ◌&&◌, ◌||◌, List, [], ◌∷◌, ◌++◌, Option,
  none, some, ◌==◌, leb, if◌then◌else◌, length, take, drop, u64, add64, mul64,
}
use obos_old.Outcome.{Outcome, done, fault, hang, ◌>>=◌}
use obos_old.CString.{CString}
use obos_old.BootConfig.Values.{Element, process_data_token}

pub data TokenType : Type 0 where
  variable_name : TokenType
  operator : TokenType
  data_token : TokenType
  array_initializer : TokenType

pub record Token : Type 0 where
  pub contents : CString
  pub type : TokenType
  pub line : ℕ
  pub character : ℕ

-- `isWhitespace`
unfoldable pub is_whitespace : ℕ → Bool
is_whitespace c =
    (c == b' ') || (c == b'\t') || (c == b'\n') || (c == 11) || (c == 12) || (c == b'\r')

unfoldable pub count_to_whitespace_or_char : CString → ℕ → ℕ
count_to_whitespace_or_char [] ch = 0
count_to_whitespace_or_char (c ∷ cs) ch =
    let rest = count_to_whitespace_or_char cs ch in
    if (c == 0) || is_whitespace c || (c == ch) then 0 else suc rest

pub data ConfigError : Type 0 where
  unexpected_variable_name : (line character : ℕ) → ConfigError
  unexpected_data : (line character : ℕ) → ConfigError

-- The locals of RunLexicalAnalysis; `text` is what is left from `iter` on.
pub record Lexer : Type 0 where
  pub text : CString
  pub line : ℕ
  pub character : ℕ
  pub searching : TokenType
  pub tokens : List Token

-- utils::strCountToChar of a text that may have a terminator among its bytes.
unfoldable pub count_to_char : CString → ℕ → ℕ
count_to_char [] ch = 0
count_to_char (c ∷ cs) ch =
    let rest = count_to_char cs ch in if (c == 0) || (c == ch) then 0 else suc rest

-- The rest of the line is passed over, the newline included.
unfoldable pub next_line : Lexer → Lexer
unfolding count_to_char
next_line l = record l {
  text = drop (suc (count_to_char l.text b'\n')) l.text;
  line = add64 l.line 1;
  character = 1;
}

-- A token of the length is taken from the text.
unfoldable pub take_token : ℕ → TokenType → Lexer → Lexer
take_token len next l = record l {
  text = drop len l.text;
  character = add64 l.character len;
  searching = next;
  tokens =
      l.tokens
      ++ record {
        contents = take len l.text;
        type = l.searching;
        line = l.line;
        character = l.character;
      }
        ∷ [];
}

unfoldable pub find_token : Lexer → Lexer
unfolding count_to_char
find_token l = elim l.searching [
  | variable_name ↦ take_token (count_to_whitespace_or_char l.text b'=') operator l
  | operator ↦ take_token 1 data_token l
  | data_token ↦ take_token (count_to_char l.text b'\n') variable_name l
  | array_initializer ↦ l
]

unfoldable pub is_operator : TokenType → Bool
is_operator operator = true
is_operator variable_name = false
is_operator data_token = false
is_operator array_initializer = false

-- One round of RunLexicalAnalysis; none is its end. The message for a missing `=` takes at least 44
-- bytes and is written to a buffer of 34, which is a fault.
unfoldable pub lex_step : Lexer → Outcome (Option Lexer)
lex_step l = elim l.text [
  | [] ↦ done none
  | c ∷ cs ↦
      if c == 0
      then done none
      else if c == b'#'
      then done (some (next_line l))
      else if is_whitespace c
      then done (
          some (record l {
            text = cs;
            line = if c == b'\n' then add64 l.line 1 else l.line;
            character = if c == b'\n' then 1 else add64 l.character 1;
          }))
      else if is_operator l.searching && not (c == b'=')
      then fault
      else done (some (find_token l))
]

unfoldable pub run_lexer : ℕ → Lexer → Outcome Lexer
run_lexer zero l = hang
run_lexer (suc fuel) l =
    lex_step l >>= λ r. elim r [ none ↦ done l | some next ↦ run_lexer fuel next ]

-- RunLexicalAnalysis
unfoldable pub run_lexical_analysis : CString → Outcome Lexer
run_lexical_analysis text =
    run_lexer (length text * 2 + 2)
      (record { text = text; line = 1; character = 0; searching = variable_name; tokens = [] })

-- The locals of Parse, and what it puts into the map, in order.
pub record Parser : Type 0 where
  pub name : CString
  pub is_looking_for_name : Bool
  pub elements : List (CString × Option Element)
  pub errors : List ConfigError

-- A name is copied as it stands; the source does not write a terminator behind the copy.
unfoldable pub parse_token : Token → Parser → Parser
parse_token t p = elim t.type [
  | operator ↦ record p { is_looking_for_name = false }
  | variable_name ↦
      if p.is_looking_for_name
      then record p { name = t.contents }
      else record p { errors = p.errors ++ unexpected_variable_name t.line t.character ∷ [] }
  | data_token ↦
      if p.is_looking_for_name
      then record p { errors = p.errors ++ unexpected_data t.line t.character ∷ [] }
      else record p {
        name = [];
        is_looking_for_name = true;
        elements = p.elements ++ (p.name, process_data_token t.contents) ∷ [];
      }
  | array_initializer ↦ p
]

unfoldable pub parse_tokens : List Token → Parser → Parser
parse_tokens [] p = p
parse_tokens (t ∷ ts) p = parse_tokens ts (parse_token t p)

-- Parse; its result is that there are no errors. The lexer that returns has none.
unfoldable pub parse : CString → Outcome Parser
parse text = run_lexical_analysis text >>= λ l. done (
    parse_tokens l.tokens
      (record { name = []; is_looking_for_name = true; elements = []; errors = [] }))
