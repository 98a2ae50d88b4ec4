-- ===== src/Vfs/Mounting/Paths.antt =====
-- Which paths the entries of a mount point have.
use obos_old.Prelude.{
  ℕ, ◌≡◌, refl, sym, ◌∙◌, inl, inr, Bool, true, false, Bool-cases, List, [], ◌∷◌, Option, some,
}
use obos_old.CString.{CString, strcmp}
use obos_old.CString.Paths.{strcmp_iff}
use obos_old.Vfs.Mounting.{
  NodeTree, nothing, node, NodeInfo, FoundFile, has_directory, properties_of, info_at, new_branch,
  add_levels,
}

-- The search from level to level finds the path.
unfoldable pub has_path : List CString → NodeTree → Bool
has_path [] entries = true
has_path (path ∷ levels) nothing = false
has_path (path ∷ levels) (node name info children rest) = elim (strcmp name path) [
  | true ↦ has_path levels children
  | false ↦ has_path (path ∷ levels) rest
]

module _ (name o : CString) (info : NodeInfo) (children rest : NodeTree)
    (others : List CString) where
  has_path-same :
      strcmp name o ≡ true
      → has_path (o ∷ others) (node name info children rest) ≡ has_path others children
  unfolding has_path
  has_path-same s = rw (has_path, s) refl

  has_path-other :
      strcmp name o ≡ false
      → has_path (o ∷ others) (node name info children rest) ≡ has_path (o ∷ others) rest
  unfolding has_path
  has_path-other s = rw (has_path, s) refl

-- A node with more below it has at least the paths that it had.
in_children :
    (name : CString) (info : NodeInfo) (children below rest : NodeTree)
    → ((o : List CString) → has_path o children ≡ true → has_path o below ≡ true)
    → (others : List CString) → has_path others (node name info children rest) ≡ true
    → has_path others (node name info below rest) ≡ true
unfolding has_path
in_children name info children below rest keeps [] h = refl
in_children name info children below rest keeps (o ∷ others) h = elim (Bool-cases (strcmp name o)) [
  | inl s ↦
      has_path-same name o info below rest others s
      ∙ keeps others (sym (has_path-same name o info children rest others s) ∙ h)
  | inr s ↦
      has_path-other name o info below rest others s
      ∙ sym (has_path-other name o info children rest others s)
      ∙ h
]

-- So does a node with more behind it.
in_rest :
    (name : CString) (info : NodeInfo) (children rest more : NodeTree)
    → ((o : List CString) → has_path o rest ≡ true → has_path o more ≡ true)
    → (others : List CString) → has_path others (node name info children rest) ≡ true
    → has_path others (node name info children more) ≡ true
unfolding has_path
in_rest name info children rest more keeps [] h = refl
in_rest name info children rest more keeps (o ∷ others) h = elim (Bool-cases (strcmp name o)) [
  | inl s ↦
      has_path-same name o info children more others s
      ∙ sym (has_path-same name o info children rest others s)
      ∙ h
  | inr s ↦
      has_path-other name o info children more others s
      ∙ keeps (o ∷ others) (sym (has_path-other name o info children rest others s) ∙ h)
]

-- QueryFileProperties knows each path.
unfoldable pub Answering : (CString → Option (ℕ × ℕ)) → Type 0
Answering query = (path : CString) → (p : ℕ × ℕ) × (query path ≡ some p)

module _ (query : CString → Option (ℕ × ℕ)) (f : FoundFile) (answers : Answering query) where
  properties_of-some : (path : CString) → (p : ℕ × ℕ) × (properties_of query f path ≡ some p)
  unfolding properties_of Answering
  properties_of-some path = elim (Bool-cases (has_directory f.attribs)) [
    | inl d ↦ ((f.filesize, f.attribs), rw d refl)
    | inr d ↦ let (p, e) = answers path in (p, rw (d, e) refl)
  ]

  new_branch-has_path :
      (first : Bool) (levels : List CString)
      → (entries : NodeTree) × (new_branch query f first levels ≡ some entries)
        × (has_path levels entries ≡ true)
  unfolding new_branch has_path
  new_branch-has_path first [] = (nothing, refl, refl)
  new_branch-has_path first (path ∷ levels) =
      let (p, e) = properties_of-some path in
      let (below, b, h) = new_branch-has_path false levels in
      (
        node path (info_at query f first p) below nothing,
        rw (new_branch, e, b) refl,
        has_path-same path path (info_at query f first p) below nothing levels
              ((strcmp_iff path path).1 refl)
            ∙ h,
      )

  -- The entries are `entries` and the path, with all the paths that there were.
  unfoldable pub Extends : List CString → (before after : NodeTree) → Type 0
  Extends levels before after =
      (has_path levels after ≡ true)
      × ((others : List CString) → has_path others before ≡ true → has_path others after ≡ true)

  pub add_levels-Extends :
      (first : Bool) (levels : List CString) (entries : NodeTree)
      → (after : NodeTree) × (add_levels query f first levels entries ≡ some after)
        × Extends levels entries after
  unfolding add_levels has_path Extends
  add_levels-Extends first [] entries = (entries, refl, (refl, λ others h. h))
  add_levels-Extends first (path ∷ levels) nothing =
      let (after, e, h) = new_branch-has_path first (path ∷ levels) in
      (after, e, (h, from_none after))
    where
      from_none :
          (after : NodeTree) (others : List CString)
          → has_path others nothing ≡ true
          → has_path others after ≡ true
      from_none after [] h = refl
      from_none after (o ∷ others) h = absurd (cc h)
  add_levels-Extends first (path ∷ levels) (node name info children rest) =
      elim (Bool-cases (strcmp name path)) [
        | inl same ↦
            let (below, e, (h, keeps)) = add_levels-Extends false levels children in
            (
              node name info below rest,
              rw (add_levels, same, e) refl,
              (
                has_path-same name path info below rest levels same ∙ h,
                in_children name info children below rest keeps,
              ),
            )
        | inr other ↦
            let (others, e, (h, keeps)) = add_levels-Extends first (path ∷ levels) rest in
            (
              node name info children others,
              rw (add_levels, other, e) refl,
              (
                has_path-other name path info children others levels other ∙ h,
                in_rest name info children rest others keeps,
              ),
            )
      ]
