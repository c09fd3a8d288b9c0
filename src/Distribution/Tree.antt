-- ===== src/Distribution/Tree.antt =====
-- The files of a directory, how pkg/pack/distribution/add.go copies them and how hash.go digests
-- them. A file that cannot be read is `none`.
pub mod Copy
use backstop_core.Prelude.{
  String, Bool, true, false, ◌||◌, List, [], ◌∷◌, Option, none, some, ◌==◌, if◌then◌else◌, put,
}
use backstop_core.Text.Numbers.{concat}
use backstop_core.Text.Split.{has_prefix, join, sort_strings}

-- A file that the program reads and writes as one value: not there, not readable, or its value.
pub data Stored (A : Type 0) : Type 0 where
  missing bad : Stored A
  holds : A → Stored A

-- A read that takes a file that is not there for an error.
abbrev pub stored_value : {A : Type 0} → Stored A → Option A
stored_value (holds a) = some a
stored_value _ = none

abbrev pub File : Type 0
File = Option String

-- The files by their paths relative to the root, in the order of `filepath.Walk`.
abbrev pub Tree : Type 0
Tree = List (String × File)

-- `isRootRepositoryMetadata`, of the path of a file or of the directory at the root it stands in.
unfoldable pub in_metadata : String → Bool
unfolding has_prefix
in_metadata rel = rel == ".git" || has_prefix rel ".git/"

-- What a write does: it succeeds, or it fails and leaves the directory in any state.
pub data Write : Type 0 where
  written : Write
  broken : Tree → Write

pub record Copied : Type 0 where
  pub files : Tree
  pub succeeded : Bool

abbrev pub stopped : Tree → Copied
stopped files = record { files = files; succeeded = false }

-- The write of one file, with what the rest of the walk does to a directory.
abbrev pub copy_file : Write → String → File → Tree → (Tree → Copied) → Copied
copy_file w rel none files rest = stopped files
copy_file written rel (some text) files rest = rest (put rel (some text) files)
copy_file (broken left) rel (some text) files rest = stopped left

-- `copyDirRecursive`, into the files that the target has.
unfoldable pub copy_dir : (String → Write) → Tree → Tree → Copied
unfolding in_metadata
copy_dir write [] files = record { files = files; succeeded = true }
copy_dir write ((rel, file) ∷ source) files =
    if in_metadata rel
    then copy_dir write source files
    else copy_file (write rel) rel file files (copy_dir write source)

module _ (sha : String → String) where
  -- A line of the manifest for each file that has no part in the repository's metadata.
  abbrev pub hash_entry : String → File → Option (List String) → Option (List String)
  hash_entry rel (some text) (some entries) = some (concat (rel ∷ ":" ∷ sha text ∷ []) ∷ entries)
  hash_entry _ _ _ = none

  unfoldable pub hash_entries : Tree → Option (List String)
  unfolding in_metadata concat
  hash_entries [] = some []
  hash_entries ((rel, file) ∷ files) =
      let rest = hash_entries files in if in_metadata rel then rest else hash_entry rel file rest

  abbrev pub digest_of : Option (List String) → Option String
  digest_of none = none
  digest_of (some entries) = some (sha (join "\n" (sort_strings entries)))

  -- `ComputeContentHash`; `none` is its error. `sha` is the digest in hexadecimal.
  unfoldable pub compute_content_hash : Tree → Option String
  unfolding hash_entries sort_strings join
  compute_content_hash files = digest_of (hash_entries files)
