-- ===== src/Gate/Scope.antt =====
-- pkg/gate/scope.go: the file scope of a run. Where the files come from (git, the directory walk)
-- is input; what a scope is, contains and lets through is modelled.
use backstop_core.Prelude.{
  String, Bool, true, false, not, ◌&&◌, ◌||◌, List, [], ◌∷◌, Option, none, some, ◌==◌, is_empty,
  member, keep, if◌then◌else◌,
}
use backstop_core.FilePath.{normalize_path}
use backstop_core.Text.Split.{sort_strings}
use backstop_core.Gate.Violation.{Violation}

-- `GateScopeMode`; `ComputeGateScope` refuses any other value.
pub data ScopeMode : Type 0 where
  diff all file : ScopeMode

abbrev pub is_all : ScopeMode → Bool
is_all ScopeMode.all = true
is_all _ = false

pub record GateScope : Type 0 where
  pub mode : ScopeMode
  pub files : List String
  pub warnings : List String
  pub project_root : String
  pub file_set : List String

-- The set that `newGateScope` builds of the normalised names, the empty name left out.
unfoldable pub normalized_set : String → List String → List String
unfolding member
normalized_set root [] = []
normalized_set root (f ∷ fs) =
    let rest = normalized_set root fs in
    let n = normalize_path root f in if n == "" || member n rest then rest else n ∷ rest

-- `newGateScope`
unfoldable pub new_gate_scope : String → ScopeMode → List String → List String → GateScope
unfolding normalized_set
new_gate_scope root m fs ws =
    let set = normalized_set root fs in
    record {
      mode = m;
      files = sort_strings set;
      warnings = ws;
      project_root = root;
      file_set = set;
    }

-- `(*GateScope).Contains`; `none` is the nil scope.
unfoldable pub scope_contains : Option GateScope → String → Bool
unfolding member
scope_contains none path = true
scope_contains (some s) path =
    if is_all s.mode then true else member (normalize_path s.project_root path) s.file_set

-- `(*GateScope).Empty`
unfoldable pub scope_empty : Option GateScope → Bool
scope_empty none = false
scope_empty (some s) = not (is_all s.mode) && is_empty s.files

-- What `filterViolations` lets through in a narrowed scope.
abbrev pub in_scope : GateScope → Violation → Bool
in_scope s v = v.project_wide || (not (v.file == "") && scope_contains (some s) v.file)

-- `filterViolations`
unfoldable pub filter_violations : Option GateScope → List Violation → List Violation
unfolding keep
filter_violations none vs = vs
filter_violations (some s) vs = if is_all s.mode then vs else keep (in_scope s) vs
