-- ===== src/CString/Paths.antt =====
-- strcmp decides equality, and where the path within a mount point begins.
use obos_old.Prelude.{
  ℕ, suc, ◌+◌, ◌≡◌, refl, ◌↔◌, true, false, [], ◌∷◌, ◌++◌, none, some, arith, ◌==◌, leb,
  if◌then◌else◌, has, length, length-append, drop,
}
use obos_old.CString.{CString, str_count_to_char, same_bytes, strcmp, real_path}

same_bytes-eq : (s t : CString) → length s ≡ length t → same_bytes s t ≡ true → s ≡ t
unfolding same_bytes
same_bytes-eq [] [] l h = refl
same_bytes-eq [] (d ∷ t) l h = absurd (omega arith)
same_bytes-eq (c ∷ s) [] l h = absurd (omega arith)
same_bytes-eq (c ∷ s) (d ∷ t) l h = ground (arith, same_bytes-eq s t)

same_bytes_refl : (s : CString) → same_bytes s s ≡ true
unfolding same_bytes
same_bytes_refl [] = refl
same_bytes_refl (c ∷ s) = ground (arith, same_bytes_refl s)

strcmp_self : (s : CString) → strcmp s s ≡ true
unfolding strcmp
strcmp_self s = ground (arith, same_bytes_refl s)

-- strcmp answers true exactly when the two texts are the same.
pub strcmp_iff : (s t : CString) → (strcmp s t ≡ true) ↔ (s ≡ t)
unfolding strcmp
strcmp_iff s t = (λ h. ground (arith, same_bytes-eq s t), λ e. rw e (strcmp_self t))

-- A byte that is not in front of it is found where it stands.
pub count-append :
    (ch : ℕ) (s t : CString) → has ch s ≡ false → str_count_to_char (s ++ ch ∷ t) ch ≡ length s
unfolding str_count_to_char
count-append ch [] t h = ground arith
count-append ch (c ∷ s) t h = ground (arith, count-append ch s t)

count_second :
    (ch b : ℕ) (s t : CString)
    → has ch s ≡ false
    → (b == ch) ≡ false
    → str_count_to_char (s ++ b ∷ ch ∷ t) ch ≡ suc (length s)
unfolding str_count_to_char
count_second ch b [] t h ne = ground arith
count_second ch b (c ∷ s) t h ne = ground (arith, count_second ch b s t)

drop-append : (k : ℕ) (s t : CString) → drop (length s + k) (s ++ t) ≡ drop k t
drop-append k [] t = let e : 0 + k ≡ k = omega arith in rw e
drop-append k (c ∷ s) t =
    let e : suc (length s) + k ≡ suc (length s + k) = omega arith in rw e (drop-append k s t)

-- For a mount id of any number of digits and a path `rest` behind `id:/`, Open does not search for
-- `rest` but for what is left of it when one byte is taken off for each digit after the first;
-- where that is more than there is, it reads behind the text.
pub real_path-drop :
    (d : ℕ) (ds rest : CString)
    → has b':' (d ∷ ds) ≡ false
    → has b'/' (d ∷ ds) ≡ false
    → real_path ((d ∷ ds) ++ b':' ∷ b'/' ∷ rest)
      ≡ (if leb (length ds) (length rest) then some (drop (length ds) rest) else none)
unfolding real_path
real_path-drop d ds rest c s =
    let n : ℕ = suc (length ds) in
    let p : CString = (d ∷ ds) ++ b':' ∷ b'/' ∷ rest in
    let e : str_count_to_char p b':' + str_count_to_char p b'/' ≡ n + suc (suc (length ds)) =
      omega (
        arith,
        count-append b':' (d ∷ ds) (b'/' ∷ rest) c,
        count_second b'/' b':' (d ∷ ds) rest s refl,
      ) in
    let l : length p ≡ n + suc (suc (length rest)) = length-append (d ∷ ds) (b':' ∷ b'/' ∷ rest) in
    let t : drop (n + suc (suc (length ds))) p ≡ drop (length ds) rest =
      drop-append (suc (suc (length ds))) (d ∷ ds) (b':' ∷ b'/' ∷ rest) in
    rw (e, t, l) (ground arith)
