-- ===== src/Gate/Polarity/Blocking.antt =====
-- Which dimensions block, and that no waiver lets them pass.
use backstop_core.Prelude.{
  String, Bool, true, false, not, ◌&&◌, ◌||◌, List, [], ◌∷◌, some, any, ◌==◌, ◌≡◌, arith, In, inl,
  inr, ap, ◌∙◌,
}
use backstop_core.Gate.Violation.{Status, is_fail, StepResult}
use backstop_core.Gate.Polarity.{
  ToolchainPass, Config, CapabilityState, is_known_dimension, is_unknown, declared_dimension,
  has_unknown_gate_type, classify_dimension, polarity_step,
}

module _ (quote : String → String) (step dim : String) (cfg : Config) (cap : CapabilityState) where
  abbrev result : StepResult
  result = polarity_step quote step dim (classify_dimension cfg dim cap) cfg cap

  -- A dimension fails its step exactly when it halts the gate, which is when some entry has an
  -- unknown gate type or the dimension is declared and its capability is missing or broken; a waived
  -- entry changes neither.
  pub polarity_step-blocks :
      (result.config_err ≡ (
        has_unknown_gate_type cfg
        || (declared_dimension cfg dim && not (cap.present && cap.working))))
      × (is_fail result.status ≡ result.config_err)
  unfolding polarity_step classify_dimension
  polarity_step-blocks = (ground arith, ground arith)

any-In : {A : Type 0} (p : A → Bool) (a : A) (xs : List A) → In a xs → p a ≡ true → any p xs ≡ true
unfolding any
any-In p a [] i h = absurd i
any-In p a (x ∷ xs) (inl q) h = ground (arith, ap p q ∙ h)
any-In p a (x ∷ xs) (inr i) h = ground (arith, any-In p a xs i h)

-- A gate type that is not empty and is no known dimension, in whatever entry, fails the step of
-- each dimension and halts the gate.
pub polarity_step-unknown :
    (quote : String → String) (step dim : String) (passes : List ToolchainPass)
    (cap : CapabilityState) (tp : ToolchainPass)
    → In tp passes
    → (tp.gate_type == "") ≡ false
    → is_known_dimension tp.gate_type ≡ false
    → let r =
        polarity_step quote step dim (classify_dimension (some passes) dim cap) (some passes) cap in
      (r.status ≡ Status.fail) × (r.config_err ≡ true)
unfolding classify_dimension polarity_step has_unknown_gate_type
polarity_step-unknown quote step dim passes cap tp i named unknown =
    let found = any-In is_unknown tp passes i (ground arith) in (ground arith, ground arith)
