-- ===== src/Tests/Waivers.antt =====
-- Waivers at concrete findings.
use backstop_core.Prelude.{
  Bool, not, ◌==◌, ℕ, String, true, false, List, [], ◌∷◌, Option, none, some, ◌≡◌, refl, In, All,
  inl, inr, ap, sym, ◌∙◌, ◌⊎◌, map, length, ◌++◌, eq_iff,
}
use backstop_core.Waiver.Unbound.{unbound_tokens}
use backstop_core.Waiver.Unbound.Exact.{UnboundBy, unbound_tokens-UnboundBy}
use backstop_core.Waiver.Adjudicate.{Diagnostic, unbound}
use backstop_core.Gate.Waivers.{WaiverInputs, collect_findings, compute_waiver_result}
use backstop_core.Gate.Waivers.Structural.{Structural, compute_waiver_result-In}
use backstop_core.Tests.Samples.{quote, passed_step}
use backstop_core.Prelude.{◌↔◌}
use backstop_core.Waiver.Calendar.{days}
use backstop_core.Waiver.Adjudicate.{
  ParsedToken, harvest_window, suppression_key, refused_by, Finding, adjudicate,
}
use backstop_core.Waiver.Adjudicate.Soundness.{Justified, Uniform, adjudicate-Justified}
use backstop_core.Waiver.Token.{Waiver, ok, deferred, expired}
use backstop_core.Waiver.Adjudicate.Effective.{adjudicate-suppresses}
use backstop_core.Gate.Violation.{Violation, StepResult, Status, is_fail}
use backstop_core.Gate.Policy.{blocks_verdict}
use backstop_core.Gate.Waivers.{
  finding_key, is_suppressed, suppressed_keys, subtract_step, with_hint, waiver_line,
}
use backstop_core.Gate.Waivers.Subtraction.{
  subtract_step-blocked, subtract_step_sound, removed-Justified,
}
use backstop_core.Tests.Samples.{source_line, bad_finding, bad_call, failed_step}

abbrev today : ℕ
today = days 741000

abbrev own_line : Violation → ℕ
own_line v = v.line

-- The waiver on the line of the finding suppresses it.
suppressed_run :
    (adjudicate (bad_finding ∷ []) (some source_line) none today).suppressed ≡ bad_finding ∷ []
unfolding adjudicate backstop_core.Waiver.Token.parse_token
suppressed_run = refl

one-Uniform : (x : Finding) → Uniform (x ∷ [])
one-Uniform x f g (inl p) (inl q) e = ap (λ (y : Finding). y.severity) (sym p ∙ q)
one-Uniform x f g (inr i) j e = absurd i
one-Uniform x f g (inl p) (inr j) e = absurd j

abbrev no_critical : String → String → Bool
no_critical rule severity = not (severity == "critical")

-- The policy is asked and allows the severity of the finding.
allowed_run :
    (adjudicate (bad_finding ∷ []) (some source_line) (some no_critical) today).suppressed
    ≡ bad_finding ∷ []
unfolding adjudicate backstop_core.Waiver.Token.parse_token
allowed_run = refl

adjudicate-Justified_example :
    All
      (Justified source_line (some no_critical) today (bad_finding ∷ []))
      (adjudicate (bad_finding ∷ []) (some source_line) (some no_critical) today).suppressed
adjudicate-Justified_example =
    adjudicate-Justified source_line (some no_critical) today (bad_finding ∷ [])
      (one-Uniform bad_finding)

located_failed : waiver_line failed_step ≡ some own_line
unfolding waiver_line
located_failed = refl

bad_call_blocks : blocks_verdict bad_call ≡ true
unfolding blocks_verdict
bad_call_blocks = refl

abbrev inputs : WaiverInputs
inputs = record {
  read = some source_line;
  policy = none;
  now = today;
  project_tokens = [];
  known_namespaces = [];
}

-- A step with that finding only.
abbrev call_step : StepResult
call_step = record failed_step { violations = bad_call ∷ [] }

located_call : waiver_line call_step ≡ some own_line
unfolding waiver_line
located_call = refl

call-Uniform : Uniform (collect_findings (call_step ∷ []))
unfolding collect_findings backstop_core.Gate.Waivers.finding_of
call-Uniform = one-Uniform bad_finding

-- The pass takes the finding out.
removed_run :
    map
      (λ (s : StepResult). s.violations)
      (compute_waiver_result quote inputs (call_step ∷ [])).results
    ≡ [] ∷ []
unfolding compute_waiver_result backstop_core.Waiver.Token.parse_token adjudicate
removed_run = refl

removed-Justified_example :
    (after : StepResult) × In after (compute_waiver_result quote inputs (call_step ∷ [])).results
    × (after.step_name ≡ call_step.step_name)
    × (In (with_hint call_step.step_name none today bad_call) after.violations
        ⊎ ((f : Finding) × (finding_key f.file f.line f.rule_id
              ≡ finding_key bad_call.file 4 bad_call.rule)
            × In f
                (adjudicate
                  (collect_findings (call_step ∷ []))
                  (some source_line)
                  none
                  today).suppressed
            × Justified source_line none today (collect_findings (call_step ∷ [])) f))
removed-Justified_example =
    removed-Justified quote inputs (call_step ∷ []) source_line call_step own_line bad_call refl
      call-Uniform (inl refl) located_call (inl refl)

subtract_step-blocked_example :
    ((subtract_step [] none today failed_step).status ≡ Status.fail)
    × In
        (with_hint failed_step.step_name none today bad_call)
        (subtract_step [] none today failed_step).violations
unfolding backstop_core.Prelude.member
subtract_step-blocked_example =
    subtract_step-blocked [] none today failed_step own_line located_failed bad_call refl (inl refl)
      bad_call_blocks refl

subtract_step_sound_example :
    ((u : Violation)
      → In u (subtract_step ("pkg/a.go" ∷ []) none today failed_step).violations
      → (v : Violation) × In v failed_step.violations
        × (with_hint failed_step.step_name none today v ≡ u)
        × (is_suppressed ("pkg/a.go" ∷ []) own_line v ≡ false))
    × (is_fail failed_step.status ≡ false
        → (subtract_step ("pkg/a.go" ∷ []) none today failed_step).status ≡ failed_step.status)
subtract_step_sound_example =
    subtract_step_sound ("pkg/a.go" ∷ []) none today failed_step own_line located_failed

abbrev deferral : Waiver
deferral = record {
  rule_id = "org/pack/no-eval";
  reason = deferred;
  expiry = days 741444;
  note = "";
  issue_ref = "ISSUE-050";
  file = "pkg/a.go";
  line = 4;
}

abbrev deferral_token : ParsedToken
deferral_token = record { parsed = ok deferral; file = "pkg/a.go"; line = 4; col = 11 }

token-In : In deferral_token (harvest_window source_line bad_finding)
unfolding harvest_window backstop_core.Waiver.Token.parse_token
token-In = inl refl

still_valid : expired deferral today ≡ false
unfolding expired
still_valid = refl

not_refused : (g : Finding) → refused_by none "org/pack/no-eval" g ≡ false
unfolding refused_by
not_refused g = refl

adjudicate-suppresses_example :
    (g : Finding) × In g (adjudicate (bad_finding ∷ []) (some source_line) none today).suppressed
    × (suppression_key g ≡ suppression_key bad_finding)
adjudicate-suppresses_example =
    adjudicate-suppresses source_line none today (bad_finding ∷ []) bad_finding deferral_token
      deferral (inl refl) token-In refl refl still_valid not_refused

abbrev minor : Finding
minor = record { rule_id = "org/pack/no-eval"; file = "pkg/a.go"; line = 4; severity = "warning" }

abbrev major : Finding
major = record { rule_id = "org/pack/no-eval"; file = "pkg/a.go"; line = 5; severity = "critical" }

-- A policy that refuses the severity of a finding keeps it from being waived.
alone_run : (adjudicate (major ∷ []) (some source_line) (some no_critical) today).suppressed ≡ []
unfolding adjudicate backstop_core.Waiver.Token.parse_token
alone_run = refl

-- Behind another finding of its rule in the window of the same token it is waived all the same: the
-- policy is asked about the severity of the first one only.
together_run :
    (adjudicate (minor ∷ major ∷ []) (some source_line) (some no_critical) today).suppressed
    ≡ minor ∷ major ∷ []
unfolding adjudicate backstop_core.Waiver.Token.parse_token
together_run = refl

abbrev stale : Diagnostic
stale = record {
  rule_id = "org/pack/no-eval";
  file = "pkg/a.go";
  line = 4;
  kind = unbound "org/pack";
}

unbound_tokens-UnboundBy_example :
    In stale (unbound_tokens (deferral ∷ []) ("org/other" ∷ []))
    ↔ ((w : Waiver) × In w (deferral ∷ []) × UnboundBy ("org/other" ∷ []) w stale)
unbound_tokens-UnboundBy_example =
    unbound_tokens-UnboundBy ("org/other" ∷ []) (deferral ∷ []) stale refl

passed-Structural : Structural passed_step
passed-Structural = (
  λ e. differ ((eq_iff passed_step.step_name "pack_engines").1 e),
  λ e. differ ((eq_iff passed_step.step_name "test_substantiveness").1 e),
  λ e. differ ((eq_iff passed_step.step_name "coverage_threshold").1 e),
)
  where
    differ : false ≡ true → ⊥
    differ h = absurd (cc)

compute_waiver_result-In_example :
    let whole = compute_waiver_result quote inputs (failed_step ∷ passed_step ∷ []) in
    let others = compute_waiver_result quote inputs (failed_step ∷ []) in
    (fs : List StepResult) × (bs : List StepResult) × (length fs ≡ 1)
    × (others.results ≡ fs ++ bs)
    × (whole.results ≡ fs ++ passed_step ∷ bs)
    × (whole.active_waivers ≡ others.active_waivers)
    × (whole.step ≡ others.step)
compute_waiver_result-In_example =
    compute_waiver_result-In quote inputs (failed_step ∷ []) [] passed_step passed-Structural
