-- ===== src/Fat/Directory/ShortNames.antt =====
-- The names that the driver makes of the eleven bytes of a short name.
use obos_old.Prelude.{
  ℕ, suc, ◌<◌, ◌≡◌, refl, ap, ◌∙◌, ◌≢◌, ◌%◌, false, List, [], ◌∷◌, ◌++◌, length, take, drop, arith,
  test-of-ne,
}
use obos_old.CString.{str_count_to_char}
use obos_old.Fat.Directory.{until_zero, name_part, short_name}

-- No byte is a space or a terminator.
unfoldable pub IsWord : List ℕ → Type 0
IsWord [] = Unit
IsWord (b ∷ word) = (b ≢ b' ') × (b ≢ 0) × IsWord word

until_zero-other : (b : ℕ) (bytes : List ℕ) → b ≢ 0 → until_zero (b ∷ bytes) ≡ b ∷ until_zero bytes
unfolding until_zero
until_zero-other b bytes n = rw (until_zero, test-of-ne b 0 n) refl

count-word :
    (word rest : List ℕ)
    → IsWord word
    → str_count_to_char (until_zero (word ++ b' ' ∷ rest)) b' ' ≡ length word
unfolding IsWord until_zero str_count_to_char
count-word [] rest w = refl
count-word (b ∷ word) rest w =
    rw (until_zero-other b (word ++ b' ' ∷ rest) w.1, test-of-ne b b' ' w.0)
      (ap suc (count-word word rest w.2))

take-word : (word rest : List ℕ) → take (length word) (word ++ rest) ≡ word
take-word [] rest = refl
take-word (b ∷ word) rest = ap (λ (l : List ℕ). b ∷ l) (take-word word rest)

-- A word with a space behind it, which fits the field: the word; a word as long as the field:
-- nothing.
name_part-word :
    (word rest : List ℕ) (field_size : ℕ)
    → IsWord word
    → name_part (word ++ b' ' ∷ rest) field_size
      ≡ take (length word % field_size) (word ++ b' ' ∷ rest)
unfolding name_part
name_part-word word rest field_size w = rw (count-word word rest w) refl

small_mod : (a : ℕ) → a < 8 → a % 8 ≡ a
small_mod a h = omega arith

small_mod3 : (a : ℕ) → a < 3 → a % 3 ≡ a
small_mod3 a h = omega arith

module _ (base ext padding rest : List ℕ) where
  -- The eleven bytes: a name of at most seven characters, and an extension, each with a space behind.
  pub record IsShort : Type 0 where
    pub word : IsWord base
    pub extension : IsWord ext
    pub fits : length base < 8
    pub layout : drop 8 (base ++ b' ' ∷ padding) ≡ ext ++ b' ' ∷ rest

  short_name-base :
      IsShort
      → short_name (base ++ b' ' ∷ padding) false
        ≡ base ++ b'.' ∷ take (length ext % 3) (ext ++ b' ' ∷ rest)
  unfolding short_name
  short_name-base s =
      rw
        (
          name_part-word base padding 8 s.word,
          small_mod (length base) s.fits,
          take-word base (b' ' ∷ padding),
          s.layout,
          name_part-word ext rest 3 s.extension,
        )
        refl

  -- The short name of a file with at most seven characters and an extension of at most two is the name,
  -- a dot and the extension.
  pub short_name-dotted :
      IsShort → length ext < 3 → short_name (base ++ b' ' ∷ padding) false ≡ base ++ b'.' ∷ ext
  short_name-dotted s l =
      short_name-base s ∙ rw (small_mod3 (length ext) l, take-word ext (b' ' ∷ rest)) refl

  -- With an extension of three characters and a space behind them, which is what the attributes of an
  -- ordinary file are, the extension is lost.
  pub short_name-lost :
      IsShort → length ext ≡ 3 → short_name (base ++ b' ' ∷ padding) false ≡ base ++ b'.' ∷ []
  short_name-lost s l = short_name-base s ∙ rw l refl
