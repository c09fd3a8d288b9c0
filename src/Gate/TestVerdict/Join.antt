-- ===== src/Gate/TestVerdict/Join.antt =====
-- Which mandated tests the join reports.
use Prim.Native.String.{String}
use backstop_core.Prelude.{
  true, false, List, [], ◌∷◌, Option, ◌==◌, ◌≡◌, refl, sym, ap, ◌∙◌, subst, arith, In, inl, inr,
  any, is_empty, Bool-cases, if_true, if_false, if◌then◌else◌, eq_iff,
}
use backstop_core.Text.{trim_space, equal_fold}
use backstop_core.FilePath.{normalize_path}
use backstop_core.Waiver.DeclaredPolicy.{new_declared_policy, trimmed, waivable}
use backstop_core.Gate.Violation.{Violation}
use backstop_core.Gate.Scope.{GateScope}
use backstop_core.Gate.Policy.{blocks_verdict}
use backstop_core.Gate.StatusDrift.{MandatedTest}
use backstop_core.Gate.TestVerdict.{
  verdict_names_test, contracts_are_due, project_root_of, test_in_scope, messages_naming,
  mandated_failure, is_failed_mandate, mandated_test_failures,
}

messages_naming-nonempty :
    (f : Violation) (vs : List Violation) (name : String)
    → In f vs
    → verdict_names_test f.message name ≡ true
    → is_empty (messages_naming vs name) ≡ false
unfolding messages_naming
messages_naming-nonempty f [] name i h = absurd i
messages_naming-nonempty f (v ∷ vs) name (inl q) h =
    ground (arith, ap (λ (x : Violation). verdict_names_test x.message name) q ∙ h)
messages_naming-nonempty f (v ∷ vs) name (inr i) h =
    ground (arith, messages_naming-nonempty f vs name i h)

messages_naming-named :
    (vs : List Violation) (name : String)
    → is_empty (messages_naming vs name) ≡ false
    → (f : Violation) × In f vs × (verdict_names_test f.message name ≡ true)
unfolding messages_naming
messages_naming-named [] name h = absurd (cc)
messages_naming-named (v ∷ vs) name h = elim (Bool-cases (verdict_names_test v.message name)) [
  | inl e ↦ (v, inl refl, e)
  | inr e ↦
      let (f, i, named) = messages_naming-named vs name (ap is_empty (sym (if_false _ _ e)) ∙ h) in
      (f, inr i, named)
]

failures-In :
    (mt : MandatedTest) (mts : List MandatedTest) (verdicts : List Violation)
    (scope : Option GateScope)
    → In mt mts
    → is_failed_mandate scope verdicts mt ≡ true
    → In
        (mandated_failure scope mt (messages_naming verdicts mt.func_name))
        (mandated_test_failures mts verdicts scope)
unfolding mandated_test_failures
failures-In mt [] verdicts scope i h = absurd i
failures-In mt (m ∷ mts) verdicts scope (inl q) h =
    subst (λ x. In (mandated_failure scope mt (messages_naming verdicts mt.func_name)) x)
      (sym (if_true _ _ (ap (is_failed_mandate scope verdicts) q ∙ h)))
      (inl (
        ap (λ (x : MandatedTest). mandated_failure scope x (messages_naming verdicts x.func_name))
          q))
failures-In mt (m ∷ mts) verdicts scope (inr i) h =
    elim (Bool-cases (is_failed_mandate scope verdicts m)) [
      | inl e ↦ rw e (inr (failures-In mt mts verdicts scope i h))
      | inr e ↦ rw e (failures-In mt mts verdicts scope i h)
    ]

In-failures :
    (v : Violation) (mts : List MandatedTest) (verdicts : List Violation) (scope : Option GateScope)
    → In v (mandated_test_failures mts verdicts scope)
    → (mt : MandatedTest) × In mt mts
      × (is_failed_mandate scope verdicts mt ≡ true)
      × (mandated_failure scope mt (messages_naming verdicts mt.func_name) ≡ v)
unfolding mandated_test_failures
In-failures v [] verdicts scope i = absurd i
In-failures v (m ∷ mts) verdicts scope i = elim (Bool-cases (is_failed_mandate scope verdicts m)) [
  | inl e ↦ elim (subst (In v) (if_true _ _ e) i) [
    | inl q ↦ (m, inl refl, e, q)
    | inr j ↦ let (mt, k, h, q) = In-failures v mts verdicts scope j in (mt, inr k, h, q)
  ]
  | inr e ↦
      let (mt, k, h, q) = In-failures v mts verdicts scope (subst (In v) (if_false _ _ e) i) in
      (mt, inr k, h, q)
]

-- A severity that the production policy declares non-waivable is not waived, whatever the rules.
critical_refused :
    (rules : List String) (rule : String)
    → waivable (new_declared_policy rules ("critical" ∷ [])) rule "critical" ≡ false
unfolding waivable new_declared_policy trimmed any trim_space equal_fold
critical_refused rules rule = ground arith

-- A mandated test of an implemented spec that the scope keeps and that a finding names is reported:
-- by its violation, in its own file, or in its spec's if it has none, which blocks and which no policy
-- that declares the severity `critical` non-waivable lets a waiver suppress.
pub mandated_test_failures-In :
    (mts : List MandatedTest) (verdicts : List Violation) (scope : Option GateScope)
    (mt : MandatedTest) (f : Violation)
    → In mt mts
    → In f verdicts
    → mt.status ≡ "implemented"
    → test_in_scope scope mt ≡ true
    → verdict_names_test f.message mt.func_name ≡ true
    → (v : Violation) × In v (mandated_test_failures mts verdicts scope)
      × (v ≡ mandated_failure scope mt (messages_naming verdicts mt.func_name))
      × (v.file
          ≡ normalize_path
              (project_root_of scope)
              (if mt.file_path == "" then mt.spec_file else mt.file_path))
      × (blocks_verdict v ≡ true)
      × ((rules : List String)
          → waivable (new_declared_policy rules ("critical" ∷ [])) v.rule v.severity ≡ false)
unfolding is_failed_mandate contracts_are_due mandated_failure blocks_verdict trim_space equal_fold
mandated_test_failures-In mts verdicts scope mt f i j due inside named = (
  mandated_failure scope mt (messages_naming verdicts mt.func_name),
  failures-In mt mts verdicts scope i (
      ground (
        arith,
        (eq_iff mt.status "implemented").1 due,
        messages_naming-nonempty f verdicts mt.func_name j named,
      )),
  refl,
  refl,
  refl,
  λ rules. critical_refused rules "mandated_test_failed",
)

-- Each violation of the join is the one of some mandated test of an implemented spec that the scope
-- keeps and that a finding names: it quotes that test with the findings that name it, and its file
-- is that of the test, or of the spec if the test has none.
pub mandated_test_failures_sound :
    (mts : List MandatedTest) (verdicts : List Violation) (scope : Option GateScope) (v : Violation)
    → In v (mandated_test_failures mts verdicts scope)
    → (mt : MandatedTest) × In mt mts
      × (mt.status ≡ "implemented")
      × (test_in_scope scope mt ≡ true)
      × ((f : Violation) × In f verdicts × (verdict_names_test f.message mt.func_name ≡ true))
      × (v ≡ mandated_failure scope mt (messages_naming verdicts mt.func_name))
      × (v.file
          ≡ normalize_path
              (project_root_of scope)
              (if mt.file_path == "" then mt.spec_file else mt.file_path))
unfolding is_failed_mandate contracts_are_due mandated_failure
mandated_test_failures_sound mts verdicts scope v i =
    let (mt, k, h, q) = In-failures v mts verdicts scope i in
    (
      mt,
      k,
      (eq_iff mt.status "implemented").0 (ground arith),
      ground arith,
      messages_naming-named verdicts mt.func_name (ground arith),
      sym q,
      ap (λ (x : Violation). x.file) (sym q),
    )
