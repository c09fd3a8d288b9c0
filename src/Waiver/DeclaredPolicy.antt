-- ===== src/Waiver/DeclaredPolicy.antt =====
-- pkg/waiver/policy.go: the declared tier that no waiver suppresses.
use backstop_core.Prelude.{String, Bool, true, false, List, [], ◌∷◌, ◌==◌, any, if◌then◌else◌}
use backstop_core.Text.{trim_space, equal_fold}

-- `DeclaredPolicy`: the sets of rules and of severities, each trimmed and without the empty text.
pub record DeclaredPolicy : Type 0 where
  pub rules : List String
  pub severities : List String

unfoldable pub trimmed : List String → List String
unfolding trim_space
trimmed [] = []
trimmed (s ∷ ss) =
    let rest = trimmed ss in let t = trim_space s in if t == "" then rest else t ∷ rest

-- `NewDeclaredPolicy`. The severities are compared without regard to case, where the source lowers
-- both sides.
unfoldable pub new_declared_policy : List String → List String → DeclaredPolicy
unfolding trimmed
new_declared_policy rules severities = record {
  rules = trimmed rules;
  severities = trimmed severities;
}

-- `(*DeclaredPolicy).Waivable`
unfoldable pub waivable : DeclaredPolicy → String → String → Bool
unfolding any trim_space equal_fold
waivable p rule severity =
    if any (λ r. r == rule) p.rules
    then false
    else if any (λ s. equal_fold s (trim_space severity)) p.severities
    then false
    else true
