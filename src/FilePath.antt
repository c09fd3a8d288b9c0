-- ===== src/FilePath.antt =====
-- What the source uses of Go's `path/filepath`, as it is on Unix, and `NormalizePath` of
-- pkg/gate/scope.go over it.
use Prim.Native.String.{String, ◌++◌}
use mathlib.Core.List.{reverse, foldl}
use backstop_core.Prelude.{
  code, Bool, true, false, not, ◌&&◌, ◌||◌, List, [], ◌∷◌, Option, none, some, eqb, ◌==◌,
  if◌then◌else◌, is_empty,
}
use backstop_core.Text.{trim_space}
use backstop_core.Text.Split.{split, join}

-- `filepath.IsAbs`
unfoldable pub is_abs : String → Bool
is_abs String.[] = false
is_abs (String.◌∷◌ c s) = eqb (code c) b'/'

-- The elements of a cleaned path are kept on a stack, the last one on top. A `..` takes the
-- element before it away; at the front it stays in a relative path and goes in a rooted one.
unfoldable pub go_up : Bool → List String → List String
go_up true [] = []
go_up false [] = ".." ∷ []
go_up rooted (top ∷ below) = if top == ".." then ".." ∷ top ∷ below else below

unfoldable pub push_element : Bool → List String → String → List String
unfolding go_up
push_element rooted stack e =
    if e == "" || e == "." then stack else if e == ".." then go_up rooted stack else e ∷ stack

-- The elements of `filepath.Clean(path)`.
unfoldable pub elements : String → List String
unfolding push_element is_abs split
elements path = reverse (foldl (push_element (is_abs path)) [] (split b'/' path))

-- `filepath.Clean`
unfoldable pub clean : String → String
unfolding elements join
clean path =
    let es = elements path in
    if is_abs path then "/" ++ join "/" es else if is_empty es then "." else join "/" es

-- `filepath.Rel` of cleaned rooted paths: up from what the base has beyond the common front, and
-- down into what the target has.
unfoldable pub up_all : List String → List String → List String
up_all [] ts = ts
up_all (b ∷ bs) ts = ".." ∷ up_all bs ts

unfoldable pub rel_elements : List String → List String → List String
unfolding up_all
rel_elements [] ts = ts
rel_elements (b ∷ bs) [] = up_all (b ∷ bs) []
rel_elements (b ∷ bs) (t ∷ ts) =
    let deeper = rel_elements bs ts in if b == t then deeper else up_all (b ∷ bs) (t ∷ ts)

-- `filepath.Rel(base, target)` for a rooted target; `none` is its error, for a base that is not
-- rooted.
unfoldable pub rel : String → String → Option String
unfolding rel_elements elements join is_abs
rel base target =
    let es = rel_elements (elements base) (elements target) in
    if is_abs base then some (if is_empty es then "." else join "/" es) else none

-- `NormalizePath`; `filepath.ToSlash` changes nothing on Unix.
unfoldable pub normalize_path : String → String → String
unfolding clean rel
normalize_path project_root file =
    let cleaned = clean file in
    if trim_space file == ""
    then ""
    else if is_abs cleaned && not (project_root == "")
    then elim (rel project_root cleaned) [ none ↦ cleaned | some r ↦ r ]
    else cleaned
