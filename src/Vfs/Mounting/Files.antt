-- ===== src/Vfs/Mounting/Files.antt =====
-- A mount point has the files that its file system driver tells.
use obos_old.Prelude.{
  ℕ, zero, suc, ◌<◌, ◌≡◌, refl, sym, ap, ◌∙◌, subst, ◌++◌, map, if◌then◌else◌, Bool, true, List, [],
  ◌∷◌, none, some, length, arith,
}
use obos_old.Outcome.{done}
use obos_old.CString.{CString, divide_path_to_tokens}
use obos_old.Vfs.Mounting.{
  NodeTree, nothing, FoundFile, FilesystemDriver, further_levels, levels_of, add_levels, add_file,
  add_files, setup_mount_point_entries,
}
use obos_old.CString.Slashes.{Components, join}
use obos_old.CString.Tokens.{divide_path_to_tokens-join}
use obos_old.Vfs.Mounting.Paths.{has_path, Answering, Extends, add_levels-Extends}

-- The path is the names, one or more, with a slash between each two; a name has at least one
-- character and no slash.
unfoldable pub IsSplit : CString → List CString → Type 0
IsSplit path [] = ⊥
IsSplit path (c ∷ cs) = (join c cs ≡ path) × Components (c ∷ cs)

-- The beginnings of a list, from the empty one to the whole list.
unfoldable pub beginnings : List CString → List (List CString)
beginnings [] = [] ∷ []
beginnings (t ∷ ts) = [] ∷ map (λ (p : List CString). t ∷ p) (beginnings ts)

-- The paths of the directories from the root to a file, and the file's own path.
unfoldable pub paths_to : List CString → List CString
paths_to [] = []
paths_to (t ∷ ts) = map (λ p. join t p) (beginnings ts)

-- The directories of the file's path and the file are found, each in the one before it.
unfoldable pub Has : FoundFile → NodeTree → Type 0
Has f entries =
    (names : List CString) × IsSplit f.filepath names × (has_path (paths_to names) entries ≡ true)

-- The names, each behind a slash.
slashed : List CString → CString
slashed [] = []
slashed (t ∷ ts) = b'/' ∷ (t ++ slashed ts)

append_empty : (a : CString) → a ++ [] ≡ a
append_empty [] = refl
append_empty (x ∷ xs) = ap (λ s. x ∷ s) (append_empty xs)

append_assoc : (a b c : CString) → (a ++ b) ++ c ≡ a ++ (b ++ c)
append_assoc [] b c = refl
append_assoc (x ∷ xs) b c = ap (λ s. x ∷ s) (append_assoc xs b c)

slashed-next :
    (before t : CString) (ps : List (List CString))
    → map (λ p. (before ++ (b'/' ∷ t)) ++ slashed p) ps
      ≡ map (λ p. before ++ slashed p) (map (λ (p : List CString). t ∷ p) ps)
unfolding slashed
slashed-next before t [] = refl
slashed-next before t (p ∷ ps) =
    rw (append_assoc before (b'/' ∷ t) (slashed p), slashed-next before t ps) refl

further_levels-beginnings :
    (filepath before : CString) (ts : List CString)
    → before ++ slashed ts ≡ filepath
    → before ∷ further_levels filepath before ts ≡ map (λ p. before ++ slashed p) (beginnings ts)
unfolding further_levels beginnings slashed
further_levels-beginnings filepath before [] h = rw (append_empty before) refl
further_levels-beginnings filepath before (t ∷ []) h = rw (append_empty before, sym h) refl
further_levels-beginnings filepath before (t ∷ u ∷ ts) h =
    let here = before ++ (b'/' ∷ t) in
    let h' : here ++ slashed (u ∷ ts) ≡ filepath =
      append_assoc before (b'/' ∷ t) (slashed (u ∷ ts)) ∙ h in
    let ih = further_levels-beginnings filepath here (u ∷ ts) h' in
    rw (append_empty before)
      (ap (λ (l : List CString). before ∷ l) (ih ∙ slashed-next before t (beginnings (u ∷ ts))))

join-slashed : (c : CString) (cs : List CString) → c ++ slashed cs ≡ join c cs
unfolding slashed
join-slashed c [] = append_empty c
join-slashed c (d ∷ cs) = ap (λ (s : CString). c ++ (b'/' ∷ s)) (join-slashed d cs)

map-join :
    (t : CString) (ps : List (List CString)) → map (λ p. t ++ slashed p) ps ≡ map (λ p. join t p) ps
map-join t [] = refl
map-join t (p ∷ ps) = rw (join-slashed t p, map-join t ps) refl

levels_of-paths_to :
    (filepath : CString) (names : List CString)
    → IsSplit filepath names
    → levels_of filepath names ≡ paths_to names
unfolding levels_of paths_to IsSplit
levels_of-paths_to filepath [] h = absurd h
levels_of-paths_to filepath (t ∷ ts) (h, n) =
    further_levels-beginnings filepath t ts (join-slashed t ts ∙ h) ∙ map-join t (beginnings ts)

divide-IsSplit :
    (filepath : CString) (names : List CString)
    → IsSplit filepath names
    → divide_path_to_tokens filepath ≡ some names
unfolding IsSplit
divide-IsSplit filepath [] h = absurd h
divide-IsSplit filepath (c ∷ cs) (h, (n, ns)) =
    ap divide_path_to_tokens (sym h ∙ sym (append_empty (join c cs)))
    ∙ divide_path_to_tokens-join 0 0 c cs n ns

unfoldable pub HasAll : List FoundFile → NodeTree → Type 0
HasAll [] entries = Unit
HasAll (f ∷ files) entries = Has f entries × HasAll files entries

module _ {S : Type 0} (driver : FilesystemDriver S) where
  -- From the state on, the iterator tells the files, whose paths are names with single slashes between
  -- them, and then the end.
  unfoldable pub Tells : ℕ → S → List FoundFile → Type 0
  Tells iter s [] = (driver.file_iterator_next iter s).0 ≡ some none
  Tells iter s (f ∷ files) =
      ((driver.file_iterator_next iter s).0 ≡ some (some f))
      × ((names : List CString) × IsSplit f.filepath names)
      × Tells iter (driver.file_iterator_next iter s).1 files

  -- The state behind the files.
  unfoldable pub behind : ℕ → S → List FoundFile → S
  behind iter s [] = (driver.file_iterator_next iter s).1
  behind iter s (f ∷ files) = behind iter (driver.file_iterator_next iter s).1 files

  add_files-HasAll :
      (fuel iter : ℕ) (s : S) (files : List FoundFile) (entries : NodeTree)
      → Answering driver.query_file_properties
      → Tells iter s files
      → length files < fuel
      → (after : NodeTree) × (add_files driver fuel iter s entries
          ≡ done (some after, behind iter s files))
        × HasAll files after
        × ((o : List CString) → has_path o entries ≡ true → has_path o after ≡ true)
  unfolding Tells behind Has HasAll add_files add_file Extends
  add_files-HasAll zero iter s files entries a t l = absurd (omega arith)
  add_files-HasAll (suc fuel) iter s [] entries a t l =
      (entries, rw (add_files, t) refl, tt, λ o h. h)
  add_files-HasAll (suc fuel) iter s (f ∷ files) entries a t l =
      let (told, (tokens, names), rest) = t in
      let split = divide-IsSplit f.filepath tokens names in
      let levels = levels_of f.filepath tokens in
      let (more, e, (found, keeps)) =
        add_levels-Extends driver.query_file_properties f a true levels entries in
      let (after, e', all, keeps') =
        add_files-HasAll fuel iter (driver.file_iterator_next iter s).1 files more a rest
          (omega arith) in
      (
        after,
        rw (add_files, told, added f tokens entries more split e) e',
        (
          (
            tokens,
            names,
            subst (λ (l : List CString). has_path l after ≡ true)
                (levels_of-paths_to f.filepath tokens names) (keeps' levels found),
          ),
          all,
        ),
        λ o h. keeps' o (keeps o h),
      )
    where
      added :
          (f : FoundFile) (tokens : List CString) (entries more : NodeTree)
          → divide_path_to_tokens f.filepath ≡ some tokens
          → add_levels driver.query_file_properties f true (levels_of f.filepath tokens) entries
            ≡ some more
          → add_file driver.query_file_properties f entries ≡ done (some more)
      added f tokens entries more split e = rw (add_file, split, e) refl

  setup-done :
      (fuel iter : ℕ) (is_initrd : Bool) (s s1 s2 : S) (after : NodeTree)
      → (if is_initrd then driver.is_initrd_filesystem else driver.is_filesystem) ≡ true
      → driver.file_iterator_create s ≡ (some iter, s1)
      → add_files driver fuel iter s1 nothing ≡ done (some after, s2)
      → (driver.file_iterator_close iter s2).0 ≡ true
      → setup_mount_point_entries driver fuel is_initrd s
        ≡ done (some after, (driver.file_iterator_close iter s2).1)
  unfolding setup_mount_point_entries
  setup-done fuel iter is_initrd s s1 s2 after kind creates e closes =
      rw (setup_mount_point_entries, kind, creates, creates, e, closes) refl

  -- When the driver has the kind of service that is mounted (a file system, or that of the initial
  -- RAM disk), makes an iterator that tells the files and then the end, knows each path that it is
  -- asked for and closes the iterator, the files' paths are names with single slashes between them, and
  -- the fuel is for the files and the end, setupMountPointEntries succeeds. The entries then have,
  -- for each file that the driver told, the first name of its path on the first level, below it the
  -- path of the first two names, and so on, and below all of them the file's own path.
  pub setup_mount_point_entries-HasAll :
      (fuel iter : ℕ) (is_initrd : Bool) (s s1 : S) (files : List FoundFile)
      → (if is_initrd then driver.is_initrd_filesystem else driver.is_filesystem) ≡ true
      → driver.file_iterator_create s ≡ (some iter, s1)
      → Answering driver.query_file_properties
      → Tells iter s1 files
      → (driver.file_iterator_close iter (behind iter s1 files)).0 ≡ true
      → length files < fuel
      → (after : NodeTree) × (setup_mount_point_entries driver fuel is_initrd s
          ≡ done (some after, (driver.file_iterator_close iter (behind iter s1 files)).1))
        × HasAll files after
  setup_mount_point_entries-HasAll fuel iter is_initrd s s1 files kind creates a t closes l =
      let (after, e, all, keeps) = add_files-HasAll fuel iter s1 files nothing a t l in
      (
        after,
        setup-done fuel iter is_initrd s s1 (behind iter s1 files) after kind creates e closes,
        all,
      )
