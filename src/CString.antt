-- ===== src/CString.antt =====
-- Kernel text: oboskrnl/memory_manipulation.h with x86_64-utils/memory_manipulation.asm, and the
-- helpers on paths at the top of oboskrnl/vfs/fileManip/fileHandle.cpp.
-- A C string is the list of its bytes, without the terminator; a read at the end gives 0.
pub mod Paths
pub mod MountId
pub mod Slashes
pub mod Tokens
use mathlib.Core.List.{reverse}
use obos_old.Prelude.{
  ℕ, zero, suc, ◌+◌, ◌-◌, ◌*◌, ◌≡◌, Bool, true, false, ◌&&◌, ◌||◌, List, [], ◌∷◌, Option, none,
  some, ◌==◌, ltb, leb, if◌then◌else◌, length, get_or, take, drop, u32, add32, sub32, mul32,
}

abbrev pub CString : Type 0
CString = List ℕ

-- The index of the first `ch`, or of the terminator.
unfoldable pub str_count_to_char : CString → ℕ → ℕ
str_count_to_char [] ch = 0
str_count_to_char (c ∷ cs) ch = if c == ch then 0 else suc (str_count_to_char cs ch)

same_bytes : CString → CString → Bool
same_bytes [] ds = true
same_bytes (c ∷ cs) [] = false
same_bytes (c ∷ cs) (d ∷ ds) = (c == d) && same_bytes cs ds

-- The lengths first, then the bytes of the first text.
unfoldable pub strcmp : CString → CString → Bool
unfolding same_bytes
strcmp str1 str2 = if length str1 == length str2 then same_bytes str1 str2 else false

unfoldable pub str_contains : CString → ℕ → Bool
unfolding str_count_to_char
str_contains s ch = get_or s (str_count_to_char s ch) 0 == ch

-- `c - '0'` for a signed char, as it is added to a uint32_t.
abbrev pub digit_value : ℕ → ℕ
digit_value c = sub32 (if ltb c 128 then c else u32 + c - 256) 48

mount_id_loop : ℕ → CString → ℕ → ℕ
mount_id_loop zero path ret = ret
mount_id_loop (suc n) [] ret = mount_id_loop n [] (add32 (mul32 ret 10) (digit_value 0))
mount_id_loop (suc n) (c ∷ cs) ret = mount_id_loop n cs (add32 (mul32 ret 10) (digit_value c))

abbrev skip_newline : CString → CString
skip_newline [] = []
skip_newline (c ∷ cs) = if c == b'\n' then cs else c ∷ cs

-- If size == 0, it is determined automatically.
unfoldable pub get_mount_id : CString → ℕ → ℕ
unfolding mount_id_loop str_count_to_char
get_mount_id path size =
    mount_id_loop (if size == 0 then str_count_to_char path b':' else size) (skip_newline path) 0

-- What FileHandle::Open and DirectoryIterator::OpenAt take for the path within the mount point:
-- both counts start at the beginning of `path`. Behind the terminator there is nothing to read.
unfoldable pub real_path : CString → Option CString
unfolding str_count_to_char
real_path path =
    let offset = str_count_to_char path b':' + str_count_to_char path b'/' in
    if leb offset (length path) then some (drop offset path) else none

-- The bytes up to the first `ch`.
unfoldable pub take_to : CString → ℕ → CString
take_to [] ch = []
take_to (c ∷ cs) ch = if c == ch then [] else c ∷ take_to cs ch

unfoldable pub skip_slashes : CString → CString
skip_slashes [] = []
skip_slashes (c ∷ cs) = if c == b'/' then skip_slashes cs else c ∷ cs

unfoldable pub count_slashes : CString → ℕ
count_slashes [] = 0
count_slashes (c ∷ cs) = (if c == b'/' then 1 else 0) + count_slashes cs

unfoldable pub leading_slashes : CString → ℕ
leading_slashes [] = 0
leading_slashes (c ∷ cs) = if c == b'/' then suc (leading_slashes cs) else 0

-- The loop that walks back from the last byte.
unfoldable pub trailing_slashes : CString → ℕ
unfolding leading_slashes
trailing_slashes s = leading_slashes (reverse s)

-- A token begins at the start of the path and behind each slash, `n` of them at most.
unfoldable pub tokens_loop : Bool → CString → ℕ → List CString
unfolding take_to
tokens_loop start [] n = []
tokens_loop start (c ∷ cs) zero = []
tokens_loop start (c ∷ cs) (suc n) = elim ((c == b'/') || start) [
  | true ↦ take_to (if start then c ∷ cs else cs) b'/' ∷ tokens_loop false cs n
  | false ↦ tokens_loop false cs (suc n)
]

abbrev tokens_of : CString → Option (List CString)
tokens_of [] = none
tokens_of (c ∷ cs) =
    some (tokens_loop true (c ∷ cs) (1 + count_slashes (c ∷ cs) - trailing_slashes (c ∷ cs)))

-- With useOffset = false. A path of slashes alone makes the count of trailing slashes read in
-- front of the text, and `tokens[0]` may be written behind an empty array: `none`.
unfoldable pub divide_path_to_tokens : CString → Option (List CString)
unfolding skip_slashes count_slashes trailing_slashes tokens_loop
divide_path_to_tokens path = tokens_of (skip_slashes path)

unfoldable pub same_tokens : List CString → List CString → Bool
unfolding strcmp
same_tokens [] [] = true
same_tokens [] (d ∷ ds) = false
same_tokens (c ∷ cs) [] = false
same_tokens (c ∷ cs) (d ∷ ds) = strcmp c d && same_tokens cs ds

-- `none` stands for the reads out of bounds of divide_path_to_tokens.
unfoldable pub path_strcmp : CString → CString → Option Bool
unfolding divide_path_to_tokens same_tokens skip_slashes
path_strcmp p1 p2 = elim (divide_path_to_tokens (skip_slashes p1)) [
  | none ↦ none
  | some t1 ↦ elim (divide_path_to_tokens (skip_slashes p2)) [
    | none ↦ none
    | some t2 ↦ some (same_tokens t1 t2)
  ]
]
