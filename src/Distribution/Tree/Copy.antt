-- ===== src/Distribution/Tree/Copy.antt =====
-- A copy of a directory into an empty one has the digest of its source.
use backstop_core.Prelude.{
  String, Bool, true, not, List, [], ◌∷◌, ◌++◌, none, some, ◌≡◌, refl, sym, ap, ◌∙◌, arith, inl,
  inr, All, eq_iff, Bool-cases, lookup, put, lookup-put, keep,
}
use mathlib.Core.List.{append_assoc, append-nil}
use backstop_core.Distribution.Tree.{
  File, Tree, Write, written, broken, Copied, copy_file, copy_dir, in_metadata, hash_entry,
  hash_entries, compute_content_hash, digest_of,
}

-- No two files of a directory have the same path.
abbrev pub Unique {ℓ} : {V : Type ℓ} → List (String × V) → Type ℓ
Unique [] = Unit
Unique {V} ((rel, v) ∷ files) = (lookup {V = V} rel files ≡ none) × Unique files

abbrev Absent : Tree → Tree → Type 0
Absent files source = All (λ e. lookup e.0 files ≡ none) source

outside : String × File → Bool
outside e = not (in_metadata e.0)

put-absent : (k : String) (v : File) (m : Tree) → lookup k m ≡ none → put k v m ≡ m ++ (k, v) ∷ []
unfolding lookup put
put-absent k v [] h = refl
put-absent k v ((j, w) ∷ m) h = ground (arith, put-absent k v m)

Absent-put :
    (rel : String) (v : File) (files source : Tree)
    → lookup rel source ≡ none
    → Absent files source
    → Absent (put rel v files) source
unfolding lookup
Absent-put rel v files [] h a = tt
Absent-put rel v files ((j, w) ∷ source) h (b, a) = (
  lookup-put rel j v files ∙ ground (arith, eq_iff j rel, eq_iff rel j),
  Absent-put rel v files source (ground arith) a,
)

-- What a copy into `files` does, if it succeeds.
abbrev Appends : (Tree → Copied) → Tree → Tree → Type 0
Appends copy source files =
    Absent files source
    → (copy files).succeeded ≡ true
    → (copy files).files ≡ files ++ keep outside source

copy_file-Appends :
    (w : Write) (rel : String) (f : File) (copy : Tree → Copied) (source files : Tree)
    → lookup rel source ≡ none
    → lookup rel files ≡ none
    → ((t : Tree) → Appends copy source t)
    → Absent files source
    → (copy_file w rel f files copy).succeeded ≡ true
    → (copy_file w rel f files copy).files ≡ files ++ (rel, f) ∷ keep outside source
copy_file-Appends w rel none copy source files v b h a e = absurd (cc)
copy_file-Appends written rel (some text) copy source files v b h a e =
    h (put rel (some text) files) (Absent-put rel (some text) files source v a) e
    ∙ ap (λ x. x ++ keep outside source) (put-absent rel (some text) files b)
    ∙ append_assoc files ((rel, some text) ∷ []) (keep outside source)
copy_file-Appends (broken left) rel (some text) copy source files v b h a e = absurd (cc)

copy_dir-Appends :
    (write : String → Write) (source files : Tree)
    → Unique source
    → Appends (copy_dir write source) source files
unfolding copy_dir keep outside
copy_dir-Appends write [] files u a e = sym (append-nil files)
copy_dir-Appends write ((rel, file) ∷ source) files (v, u) (b, a) e =
    elim (Bool-cases (in_metadata rel)) [
      | inl m ↦ rw m (copy_dir-Appends write source files u a (rw m at e))
      | inr m ↦ rw m (
          copy_file-Appends (write rel) rel file (copy_dir write source) source files v b
            (λ t. copy_dir-Appends write source t u) a (rw m at e))
    ]

Absent-nil : (t : Tree) → Absent [] t
unfolding lookup
Absent-nil [] = tt
Absent-nil (e ∷ t) = (refl, Absent-nil t)

module _ (sha : String → String) where
  hash_entries-keep :
      (source : Tree) → hash_entries sha (keep outside source) ≡ hash_entries sha source
  unfolding keep outside hash_entries
  hash_entries-keep [] = refl
  hash_entries-keep ((rel, file) ∷ source) = elim (Bool-cases (in_metadata rel)) [
    | inl m ↦ rw m (hash_entries-keep source)
    | inr m ↦ rw m (rw m (ap (hash_entry sha rel file) (hash_entries-keep source)))
  ]

  -- A copy into an empty directory that succeeds has the digest of its source.
  pub compute_content_hash-copy_dir :
      (write : String → Write) (source : Tree)
      → Unique source
      → (copy_dir write source []).succeeded ≡ true
      → compute_content_hash sha (copy_dir write source []).files ≡ compute_content_hash sha source
  unfolding compute_content_hash
  compute_content_hash-copy_dir write source u e =
      ap (compute_content_hash sha) (copy_dir-Appends write source [] u (Absent-nil source) e)
      ∙ ap (digest_of sha) (hash_entries-keep source)
