-- ===== src/Vfs/Mounting.antt =====
-- Mounting: oboskrnl/vfs/mount/mount.cpp. The entries below a mount point are a tree, in which a node
-- has its first child and its next sibling. A file system driver is loaded code: its functions
-- are parameters, over the state `S` of the driver.
pub mod Paths
pub mod Files
pub mod Table
use Prim.Native.Nat.{bit_and, bit_or}
use obos_old.Prelude.{
  ℕ, zero, suc, ◌+◌, ◌*◌, Bool, true, false, ◌&&◌, not, List, [], ◌∷◌, ◌++◌, Option, none, some,
  ◌==◌, if◌then◌else◌, length, u32, u64,
}
use obos_old.Outcome.{Outcome, done, fault, hang, ◌>>=◌}
use obos_old.CString.{CString, strcmp, divide_path_to_tokens}

pub data NodeType : Type 0 where
  untyped : NodeType
  file_node : NodeType
  directory_node : NodeType

-- What a DirectoryEntry keeps of its file: fileAttrib, filesize and direntType.
pub record NodeInfo : Type 0 where
  pub attribs : ℕ
  pub size : ℕ
  pub node_type : NodeType

pub data NodeTree : Type 0 where
  nothing : NodeTree
  node : CString → NodeInfo → (children rest : NodeTree) → NodeTree

-- FILE_ATTRIBUTES_DIRECTORY and FILE_ATTRIBUTES_FILE.
abbrev pub has_directory : ℕ → Bool
has_directory attribs = not (bit_and attribs 4 == 0)

abbrev pub has_file : ℕ → Bool
has_file attribs = not (bit_and attribs 16 == 0)

-- What FileIteratorNext tells of a file.
pub record FoundFile : Type 0 where
  pub filepath : CString
  pub filesize : ℕ
  pub attribs : ℕ

-- The functions that mounting calls. QueryFileProperties gives the size and the attributes.
-- FILE_DOESNT_EXIST, the end, is `none` inside `some`.
pub record FilesystemDriver (S : Type 0) : Type 0 where
  pub is_filesystem : Bool
  pub is_initrd_filesystem : Bool
  pub file_iterator_create : S → Option ℕ × S
  pub file_iterator_next : ℕ → S → Option (Option FoundFile) × S
  pub file_iterator_close : ℕ → S → Bool × S
  pub query_file_properties : CString → Option (ℕ × ℕ)

-- The paths of the nodes from the root of the mount point to a file: the first token, the tokens
-- with slashes between them, and at the end the path as the driver tells it. A token is taken to have
-- a character: of an empty one, the source reads the byte in front of it.
unfoldable pub further_levels : CString → CString → List CString → List CString
further_levels filepath before [] = []
further_levels filepath before (t ∷ []) = filepath ∷ []
further_levels filepath before (t ∷ u ∷ tokens) =
    let here = before ++ (b'/' ∷ t) in here ∷ further_levels filepath here (u ∷ tokens)

unfoldable pub levels_of : CString → List CString → List CString
unfolding further_levels
levels_of filepath [] = []
levels_of filepath (t ∷ tokens) = t ∷ further_levels filepath t tokens

module _ (query : CString → Option (ℕ × ℕ)) (f : FoundFile) where
  -- The size and the attributes of a node that is made on the way to the file.
  unfoldable pub properties_of : CString → Option (ℕ × ℕ)
  properties_of path = if has_directory f.attribs then some (f.filesize, f.attribs) else query path

  -- A node of the first level takes the attributes of its path, the others those of the file.
  unfoldable pub info_at : Bool → ℕ × ℕ → NodeInfo
  info_at true p = record {
    attribs = p.1;
    size = p.0;
    node_type =
        if has_file p.1 then file_node else if has_directory p.1 then directory_node else untyped;
  }
  info_at false p = record {
    attribs = f.attribs;
    size = p.0;
    node_type = if has_directory p.1 then directory_node else file_node;
  }

  -- Nodes for all the levels, each the only child of the one before it.
  unfoldable pub new_branch : Bool → List CString → Option NodeTree
  unfolding properties_of info_at
  new_branch first [] = some nothing
  new_branch first (path ∷ levels) = elim (properties_of path) [
    | none ↦ none
    | some p ↦ elim (new_branch false levels) [
      | none ↦ none
      | some below ↦ some (node path (info_at first p) below nothing)
    ]
  ]

  -- The search on each level, and what is missing behind it. None is a query that failed.
  unfoldable pub add_levels : Bool → List CString → NodeTree → Option NodeTree
  unfolding new_branch
  add_levels first [] entries = some entries
  add_levels first (path ∷ levels) nothing = new_branch first (path ∷ levels)
  add_levels first (path ∷ levels) (node name info children rest) = elim (strcmp name path) [
    | true ↦ elim (add_levels false levels children) [
      | none ↦ none
      | some below ↦ some (node name info below rest)
    ]
    | false ↦ elim (add_levels first (path ∷ levels) rest) [
      | none ↦ none
      | some others ↦ some (node name info children others)
    ]
  ]

-- A file of the driver goes into the tree. Tokens that are read out of bounds are a fault.
unfoldable pub add_file :
    (CString → Option (ℕ × ℕ)) → FoundFile → NodeTree → Outcome (Option NodeTree)
unfolding levels_of add_levels
add_file query f entries = elim (divide_path_to_tokens f.filepath) [
  | none ↦ fault
  | some tokens ↦ done (add_levels query f true (levels_of f.filepath tokens) entries)
]

module _ {S : Type 0} (driver : FilesystemDriver S) where
  -- The loop over the driver's files, with fuel for each and the end.
  unfoldable pub add_files : ℕ → ℕ → S → NodeTree → Outcome (Option NodeTree × S)
  unfolding add_file
  add_files zero iter s entries = hang
  add_files (suc fuel) iter s entries =
      let next = driver.file_iterator_next iter s in
      elim next.0 [
        | none ↦ done (none, next.1)
        | some found ↦ elim found [
          | none ↦ done (some entries, next.1)
          | some f ↦ add_file driver.query_file_properties f entries >>= λ added. elim added [
            | none ↦ done (none, next.1)
            | some more ↦ add_files fuel iter next.1 more
          ]
        ]
      ]

  -- setupMountPointEntries: the entries, unless the driver fails.
  unfoldable pub setup_mount_point_entries :
      ℕ → (is_initrd : Bool) → S → Outcome (Option NodeTree × S)
  unfolding add_files
  setup_mount_point_entries fuel is_initrd s =
      let created = driver.file_iterator_create s in
      if not (if is_initrd then driver.is_initrd_filesystem else driver.is_filesystem)
      then done (none, s)
      else elim created.0 [
        | none ↦ done (none, created.1)
        | some iter ↦ add_files fuel iter created.1 nothing >>= λ r. elim r.0 [
          | none ↦ done (none, r.1)
          | some entries ↦
              let closed = driver.file_iterator_close iter r.1 in
              done (if closed.0 then some entries else none, closed.1)
        ]
      ]
