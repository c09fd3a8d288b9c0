-- ===== src/Waiver/Adjudicate/Soundness.antt =====
-- What stands behind each suppressed finding.
use backstop_core.Prelude.{
  ℕ, String, true, false, none, arith, ◌∙◌, List, [], ◌∷◌, ◌++◌, some, ◌==◌, ◌≡◌, refl, sym, eq_iff,
  In, In-keep, All, keep, Bool-cases, inl, inr, if_true, if_false, subst, member,
}
use backstop_core.Waiver.Token.{Waiver, Parsed, ok, err, expired}
use backstop_core.Waiver.Adjudicate.{
  Finding, LineReader, WaiverPolicy, ParsedToken, TokenState, Progress, harvest_window,
  matching_findings, suppression_key, suppress, refused_by, adjudicate_match, adjudicate_matches,
  adjudicate_token, adjudicate_all, adjudicate, harvest, no_result,
}
use backstop_core.Waiver.Adjudicate.Harvest.{
  All-append, EntryOk, harvest-EntryOk, OfRun, harvest-OfRun,
}

pub All-In : {A : Type 0} (P : A → Type 0) (xs : List A) → All P xs → (a : A) → In a xs → P a
All-In P [] h a i = absurd i
All-In P (x ∷ xs) (p, h) a (inl q) = subst P q p
All-In P (x ∷ xs) (p, h) a (inr i) = All-In P xs h a i

pub All-of_In : {A : Type 0} (P : A → Type 0) (xs : List A) → ((a : A) → In a xs → P a) → All P xs
All-of_In P [] h = tt
All-of_In P (x ∷ xs) h = (h x (inl refl), All-of_In P xs (λ a i. h a (inr i)))

-- The policy, if there is one, allows a waiver of the rule at the severity.
abbrev pub Allowed : WaiverPolicy → String → String → Type 0
Allowed none rule severity = Unit
Allowed (some allows) rule severity = allows rule severity ≡ true

-- Why a finding of the run may be suppressed: a token in its own window parses to a waiver of
-- exactly its rule, which has not expired, and which the policy allows at its severity.
pub record Justified (read : LineReader) (policy : WaiverPolicy) (now : ℕ) (findings : List Finding)
    (f : Finding) : Type 0 where
  pub in_run : In f findings
  pub token : ParsedToken
  pub waiver : Waiver
  pub in_window : In token (harvest_window read f)
  pub parses : token.parsed ≡ ok waiver
  pub same_rule : f.rule_id ≡ waiver.rule_id
  pub unexpired : expired waiver now ≡ false
  pub allowed : Allowed policy f.rule_id f.severity

-- The findings of a rule have one severity.
abbrev pub Uniform : List Finding → Type 0
Uniform findings =
    (f g : Finding)
    → In f findings
    → In g findings
    → f.rule_id ≡ g.rule_id
    → f.severity ≡ g.severity

not_refused-Allowed :
    (policy : WaiverPolicy) (rule : String) (f : Finding)
    → refused_by policy rule f ≡ false
    → Allowed policy rule f.severity
unfolding refused_by
not_refused-Allowed none rule f h = tt
not_refused-Allowed (some allows) rule f h = ground arith

module _ (read : LineReader) (policy : WaiverPolicy) (now : ℕ) (findings : List Finding)
    (uniform : Uniform findings) where
  abbrev AllJustified : List Finding → Type 0
  AllJustified = All (Justified read policy now findings)

  -- A token in the window of a finding of the run.
  abbrev Stands : ParsedToken → Finding → Type 0
  Stands t f = In t (harvest_window read f) × In f findings

  suppress-Justified :
      (fs : List Finding) (keys : List String) (out : List Finding)
      → AllJustified fs
      → AllJustified out
      → AllJustified (suppress fs (keys, out)).1
  unfolding suppress
  suppress-Justified [] keys out h k = k
  suppress-Justified (f ∷ fs) keys out (j, h) k =
      elim (Bool-cases (member (suppression_key f) keys)) [
        | inl e ↦
            subst (λ st. AllJustified (suppress fs st).1) (sym (if_true _ _ e))
              (suppress-Justified fs keys out h k)
        | inr e ↦
            subst (λ st. AllJustified (suppress fs st).1) (sym (if_false _ _ e))
              (suppress-Justified fs (suppression_key f ∷ keys) (out ++ f ∷ []) h
                (All-append (Justified read policy now findings) out (f ∷ []) k (j, tt)))
      ]

  -- The matched findings of a token whose waiver is allowed and has not expired.
  matched-Justified :
      (t : ParsedToken) (w : Waiver) (first : Finding) (fs : List Finding)
      → t.parsed ≡ ok w
      → refused_by policy w.rule_id first ≡ false
      → expired w now ≡ false
      → In first findings
      → first.rule_id ≡ w.rule_id
      → All (λ f. Stands t f × (f.rule_id ≡ w.rule_id)) fs
      → AllJustified fs
  matched-Justified t w first [] p r x i q h = tt
  matched-Justified t w first (f ∷ fs) p r x i q (((j, k), e), h) = (
    record {
      in_run = k;
      token = t;
      waiver = w;
      in_window = j;
      parses = p;
      same_rule = e;
      unexpired = x;
      allowed =
          subst (λ rule. Allowed policy rule f.severity) (sym e)
            (subst (Allowed policy w.rule_id) (uniform first f i k (q ∙ sym e))
              (not_refused-Allowed policy w.rule_id first r));
    },
    matched-Justified t w first fs p r x i q h,
  )

  match-Justified :
      (t : ParsedToken) (w : Waiver) (fs : List Finding) (p : Progress)
      → t.parsed ≡ ok w
      → All (λ f. Stands t f × (f.rule_id ≡ w.rule_id)) fs
      → AllJustified p.result.suppressed
      → AllJustified (adjudicate_matches policy now t w fs p).result.suppressed
  unfolding adjudicate_match
  match-Justified t w [] p e h k = k
  match-Justified t w (first ∷ others) p e h k =
      elim (Bool-cases (refused_by policy w.rule_id first)) [
        | inl r ↦ rw r k
        | inr r ↦ elim (Bool-cases (expired w now)) [
          | inl x ↦ rw (r, x) k
          | inr x ↦
              rw (r, x)
                (suppress-Justified (first ∷ others) p.keys p.result.suppressed
                  (matched-Justified t w first (first ∷ others) e r x h.0.0.1 h.0.1 h) k)
        ]
      ]

  windows-matching :
      (st : TokenState) (w : Waiver)
      → All (Stands st.pt) st.findings
      → All
          (λ f. Stands st.pt f × (f.rule_id ≡ w.rule_id))
          (matching_findings w.rule_id st.findings)
  unfolding matching_findings
  windows-matching st w h = All-of_In _ (keep (λ f. f.rule_id == w.rule_id) st.findings) λ f i.
      let (found, e) = In-keep (λ f. f.rule_id == w.rule_id) f st.findings i in
      (All-In (Stands st.pt) st.findings h f found, (eq_iff f.rule_id w.rule_id).0 e)

  token-Justified :
      (r : Parsed) (st : TokenState) (p : Progress)
      → st.pt.parsed ≡ r
      → All (Stands st.pt) st.findings
      → AllJustified p.result.suppressed
      → AllJustified (adjudicate_token policy now st p).result.suppressed
  unfolding adjudicate_token
  token-Justified (err x) st p e h k = rw e k
  token-Justified (ok w) st p e h k = rw e (
      match-Justified st.pt w (matching_findings w.rule_id st.findings) p e
        (windows-matching st w h) k)

  All-Justified :
      (m : List (String × TokenState)) (p : Progress)
      → All (λ e. All (Stands e.1.pt) e.1.findings) m
      → AllJustified p.result.suppressed
      → AllJustified (adjudicate_all policy now m p).result.suppressed
  unfolding adjudicate_all
  All-Justified [] p h k = k
  All-Justified ((key, st) ∷ rest) p (entry, h) k =
      All-Justified rest (adjudicate_token policy now st p) h
        (token-Justified st.pt.parsed st p refl entry k)

  harvest-Stands :
      All (λ (e : String × TokenState). All (Stands e.1.pt) e.1.findings) (harvest read findings [])
  harvest-Stands = All-of_In _ (harvest read findings []) λ e i.
      let ok =
        All-In (EntryOk read) (harvest read findings []) (harvest-EntryOk read findings [] tt) e
          i in
      let run =
        All-In (OfRun findings) (harvest read findings [])
          (harvest-OfRun read findings findings [] (λ f j. j) tt) e i in
      All-of_In (Stands e.1.pt) e.1.findings λ f j. (
        All-In (λ g. In e.1.pt (harvest_window read g)) e.1.findings ok.windows f j,
        All-In (λ g. In g findings) e.1.findings run f j,
      )

  -- When the findings of each rule have one severity, every suppressed finding is justified: it is
  -- one of the findings, a token in its own window, which is its line and the line above, parses to
  -- a waiver of exactly its rule that has not expired, and the policy allows the rule at its
  -- severity.
  pub adjudicate-Justified :
      All
        (Justified read policy now findings)
        (adjudicate findings (some read) policy now).suppressed
  unfolding adjudicate
  adjudicate-Justified =
      All-Justified (harvest read findings []) (record { keys = []; result = no_result })
        harvest-Stands tt
