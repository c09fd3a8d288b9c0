-- ===== src/Distribution/Tamper.antt =====
-- pkg/pack/distribution/tamper.go: what a new version of a pack weakens.
use backstop_core.Prelude.{
  ℕ, String, Bool, ◌||◌, List, [], ◌∷◌, ◌++◌, Option, none, some, ◌==◌, ltb, if◌then◌else◌, lookup,
  put,
}
use backstop_core.Text.Numbers.{concat}
use backstop_core.Text.Split.{has_prefix}
use backstop_core.Distribution.Tree.{Tree, File}

pub record TamperChange : Type 0 where
  pub kind : String
  pub description : String

pub record TamperRule : Type 0 where
  pub id : String
  pub severity : String
  pub risk_class : String

-- `severityRank`, with the zero value of a severity that it does not have.
unfoldable pub severity_rank : String → ℕ
severity_rank severity =
    if severity == "error"
    then 3
    else if severity == "warning"
    then 2
    else if severity == "info"
    then 1
    else 0

-- The files of `testdata`.
abbrev is_fixture : String → Bool
is_fixture rel = rel == "testdata" || has_prefix rel "testdata/"

pub removed_fixture : String → TamperChange
unfolding concat
removed_fixture rel = record {
  kind = "fixture_removal";
  description = concat ("test fixture " ∷ rel ∷ " removed in new version" ∷ []);
}

abbrev unless_kept : String → Option File → List TamperChange → List TamperChange
unless_kept rel none changes = removed_fixture rel ∷ changes
unless_kept rel (some file) changes = changes

-- `detectFixtureRemoval`
unfoldable pub detect_fixture_removal : Tree → Tree → List TamperChange
unfolding lookup has_prefix removed_fixture
detect_fixture_removal new [] = []
detect_fixture_removal new ((rel, file) ∷ old) =
    let rest = detect_fixture_removal new old in
    if is_fixture rel then unless_kept rel (lookup rel new) rest else rest

abbrev pub Rules : Type 0
Rules = List (String × TamperRule)

-- The map of the rules by their identifiers: a later rule takes the place of an earlier one.
unfoldable pub rule_map : List TamperRule → Rules → Rules
unfolding put
rule_map [] m = m
rule_map (rule ∷ rules) m = rule_map rules (put rule.id rule m)

removed_rule : String → TamperChange
unfolding concat
removed_rule id = record {
  kind = "rule_removal";
  description = concat ("rule " ∷ id ∷ " present in old version but absent in new version" ∷ []);
}

abbrev unless_present : String → Option TamperRule → List TamperChange → List TamperChange
unless_present id none changes = removed_rule id ∷ changes
unless_present id (some rule) changes = changes

-- The loop that reports the rules that are gone.
unfoldable pub removed_rules : Rules → Rules → List TamperChange
unfolding lookup removed_rule
removed_rules new [] = []
removed_rules new ((id, rule) ∷ old) = unless_present id (lookup id new) (removed_rules new old)

downgrade : String → TamperRule → TamperRule → TamperChange
unfolding concat
downgrade id old new = record {
  kind = "severity_downgrade";
  description =
      concat
        ("rule " ∷ id ∷ " severity downgraded from " ∷ old.severity ∷ " to " ∷ new.severity ∷ []);
}

class_change : String → TamperRule → TamperRule → TamperChange
unfolding concat
class_change id old new = record {
  kind = "risk_class_change";
  description =
      concat (
        "rule " ∷ id ∷ " risk_class changed from " ∷ old.risk_class ∷ " to " ∷ new.risk_class ∷ []);
}

abbrev changes_of : String → TamperRule → Option TamperRule → List TamperChange
changes_of id old none = []
changes_of id old (some new) =
    (if ltb (severity_rank new.severity) (severity_rank old.severity)
      then downgrade id old new ∷ []
      else [])
    ++ (if old.risk_class == new.risk_class then [] else class_change id old new ∷ [])

-- The loop that reports the rules that are weaker or of another class.
unfoldable pub changed_rules : Rules → Rules → List TamperChange
unfolding lookup severity_rank downgrade class_change
changed_rules new [] = []
changed_rules new ((id, rule) ∷ old) = changes_of id rule (lookup id new) ++ changed_rules new old

abbrev rule_changes :
    Tree → Tree → Option (List TamperRule) → Option (List TamperRule) → Option (List TamperChange)
rule_changes old new (some of_old) (some of_new) =
    let before = rule_map of_old [] in
    let after = rule_map of_new [] in
    some
      (detect_fixture_removal new old ++ removed_rules after before ++ changed_rules after before)
rule_changes _ _ _ _ = none

-- `DetectTamper`: the changes, or the error of a manifest that cannot be read. `rules_of` reads the
-- rules of a pack's manifest.
unfoldable pub detect_tamper :
    (Tree → Option (List TamperRule)) → Tree → Tree → Option (List TamperChange)
unfolding detect_fixture_removal rule_map removed_rules changed_rules
detect_tamper rules_of old new = rule_changes old new (rules_of old) (rules_of new)
