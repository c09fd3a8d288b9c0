-- ===== src/Waiver/Adjudicate/Effective.antt =====
-- A valid waiver takes effect.
use backstop_core.Prelude.{
  ℕ, String, true, false, ◌||◌, List, [], ◌∷◌, ◌++◌, some, ◌==◌, ◌≡◌, refl, ◌∙◌, sym, ap, subst,
  arith, eq_iff, In, In-append_left, In-append_right, keep-In, keep, Bool-cases, inl, inr, if_true,
  if_false, member,
}
use backstop_core.Waiver.Token.{Waiver, Parsed, ok, err, expired}
use backstop_core.Waiver.Adjudicate.{
  Finding, LineReader, WaiverPolicy, ParsedToken, TokenState, Progress, harvest_window,
  matching_findings, suppression_key, suppress, refused_by, adjudicate_match, adjudicate_matches,
  adjudicate_token, adjudicate_all, adjudicate, harvest, no_result,
}
use backstop_core.Waiver.Adjudicate.Found.{harvest-Has}

-- Each key that counts as suppressed is that of a suppressed finding.
abbrev KeysOk : List String → List Finding → Type 0
KeysOk keys out =
    (k : String) → member k keys ≡ true → (g : Finding) × In g out × (suppression_key g ≡ k)

-- What the suppression of some findings leaves: sound keys, among them the old ones.
record Kept (keys : List String) (st : List String × List Finding) : Type 0 where
  sound : KeysOk st.0 st.1
  grown : (k : String) → member k keys ≡ true → member k st.0 ≡ true

added-KeysOk :
    (f : Finding) (keys : List String) (out : List Finding)
    → KeysOk keys out
    → KeysOk (suppression_key f ∷ keys) (out ++ f ∷ [])
unfolding member
added-KeysOk f keys out known k h = elim (Bool-cases (suppression_key f == k)) [
  | inl e ↦ (f, In-append_right f out (f ∷ []) (inl refl), (eq_iff (suppression_key f) k).0 e)
  | inr e ↦ let (g, i, q) = known k (ground arith) in (g, In-append_left g out (f ∷ []) i, q)
]

suppress-Kept :
    (fs : List Finding) (keys : List String) (out : List Finding)
    → KeysOk keys out
    → Kept keys (suppress fs (keys, out))
unfolding suppress member
suppress-Kept [] keys out known = record { sound = known; grown = λ k h. h }
suppress-Kept (f ∷ fs) keys out known = elim (Bool-cases (member (suppression_key f) keys)) [
  | inl e ↦
      subst (λ st. Kept keys (suppress fs st)) (sym (if_true _ _ e))
        (suppress-Kept fs keys out known)
  | inr e ↦
      let rest =
        suppress-Kept fs (suppression_key f ∷ keys) (out ++ f ∷ [])
          (added-KeysOk f keys out known) in
      subst (λ st. Kept keys (suppress fs st)) (sym (if_false _ _ e))
        (record { sound = rest.sound; grown = λ k h. rest.grown k (ground arith) })
]

suppress-member :
    (f : Finding) (fs : List Finding) (keys : List String) (out : List Finding)
    → KeysOk keys out
    → In f fs
    → member (suppression_key f) (suppress fs (keys, out)).0 ≡ true
unfolding suppress member
suppress-member f [] keys out known i = absurd i
suppress-member f (g ∷ fs) keys out known (inr i) =
    let found =
      λ (st : List String × List Finding). member (suppression_key f) (suppress fs st).0 in
    elim (Bool-cases (member (suppression_key g) keys)) [
      | inl e ↦ ap found (if_true _ _ e) ∙ suppress-member f fs keys out known i
      | inr e ↦
          ap found (if_false _ _ e)
          ∙ suppress-member f fs (suppression_key g ∷ keys) (out ++ g ∷ [])
              (added-KeysOk g keys out known) i
    ]
suppress-member f (g ∷ fs) keys out known (inl q) =
    let found =
      λ (st : List String × List Finding). member (suppression_key f) (suppress fs st).0 in
    elim (Bool-cases (member (suppression_key g) keys)) [
      | inl e ↦
          ap found (if_true _ _ e)
          ∙ (suppress-Kept fs keys out known).grown (suppression_key f)
              (ap (λ x. member (suppression_key x) keys) (sym q) ∙ e)
      | inr e ↦
          ap found (if_false _ _ e)
          ∙ (suppress-Kept fs (suppression_key g ∷ keys) (out ++ g ∷ [])
                (added-KeysOk g keys out known)).grown
              (suppression_key f)
              (ap (λ b. b || member (suppression_key f) keys)
                ((eq_iff (suppression_key g) (suppression_key f)).1 (ap suppression_key q)))
    ]

-- What a round of the second loop leaves of the keys.
abbrev Onward : Progress → Progress → Type 0
Onward p q = Kept p.keys (q.keys, q.result.suppressed)

stays_Kept : (keys : List String) (out : List Finding) → KeysOk keys out → Kept keys (keys, out)
stays_Kept keys out known = record { sound = known; grown = λ k h. h }

match-Onward :
    (policy : WaiverPolicy) (now : ℕ) (t : ParsedToken) (w : Waiver) (fs : List Finding)
    (p : Progress)
    → KeysOk p.keys p.result.suppressed
    → Onward p (adjudicate_matches policy now t w fs p)
unfolding adjudicate_match
match-Onward policy now t w [] p known = stays_Kept p.keys p.result.suppressed known
match-Onward policy now t w (first ∷ others) p known =
    elim (Bool-cases (refused_by policy w.rule_id first)) [
      | inl r ↦ rw r (stays_Kept p.keys p.result.suppressed known)
      | inr r ↦ elim (Bool-cases (expired w now)) [
        | inl x ↦ rw (r, x) (stays_Kept p.keys p.result.suppressed known)
        | inr x ↦ rw (r, x) (suppress-Kept (first ∷ others) p.keys p.result.suppressed known)
      ]
    ]

token-Onward :
    (policy : WaiverPolicy) (now : ℕ) (r : Parsed) (st : TokenState) (p : Progress)
    → st.pt.parsed ≡ r
    → KeysOk p.keys p.result.suppressed
    → Onward p (adjudicate_token policy now st p)
unfolding adjudicate_token
token-Onward policy now (err x) st p e known = rw e (stays_Kept p.keys p.result.suppressed known)
token-Onward policy now (ok w) st p e known =
    rw e (match-Onward policy now st.pt w (matching_findings w.rule_id st.findings) p known)

all-Onward :
    (policy : WaiverPolicy) (now : ℕ) (m : List (String × TokenState)) (p : Progress)
    → KeysOk p.keys p.result.suppressed
    → Onward p (adjudicate_all policy now m p)
unfolding adjudicate_all
all-Onward policy now [] p known = stays_Kept p.keys p.result.suppressed known
all-Onward policy now ((key, st) ∷ rest) p known =
    let here = token-Onward policy now st.pt.parsed st p refl known in
    let later = all-Onward policy now rest (adjudicate_token policy now st p) here.sound in
    record { sound = later.sound; grown = λ k h. later.grown k (here.grown k h) }

match-member :
    (policy : WaiverPolicy) (now : ℕ) (t : ParsedToken) (w : Waiver) (f : Finding)
    (fs : List Finding) (p : Progress)
    → ((g : Finding) → refused_by policy w.rule_id g ≡ false)
    → expired w now ≡ false
    → In f fs
    → KeysOk p.keys p.result.suppressed
    → member (suppression_key f) (adjudicate_matches policy now t w fs p).keys ≡ true
unfolding adjudicate_match
match-member policy now t w f [] p allowed x i known = absurd i
match-member policy now t w f (first ∷ others) p allowed x i known =
    rw (allowed first, x) (suppress-member f (first ∷ others) p.keys p.result.suppressed known i)

token-member :
    (policy : WaiverPolicy) (now : ℕ) (w : Waiver) (f : Finding) (st : TokenState) (p : Progress)
    → st.pt.parsed ≡ ok w
    → ((g : Finding) → refused_by policy w.rule_id g ≡ false)
    → expired w now ≡ false
    → In f st.findings
    → f.rule_id ≡ w.rule_id
    → KeysOk p.keys p.result.suppressed
    → member (suppression_key f) (adjudicate_token policy now st p).keys ≡ true
unfolding adjudicate_token matching_findings
token-member policy now w f st p e allowed x i q known = rw e (
    match-member policy now st.pt w f (keep (λ g. g.rule_id == w.rule_id) st.findings) p allowed x
      (keep-In (λ g. g.rule_id == w.rule_id) f st.findings i ((eq_iff f.rule_id w.rule_id).1 q))
      known)

all-member :
    (policy : WaiverPolicy) (now : ℕ) (w : Waiver) (f : Finding) (e : String × TokenState)
    (m : List (String × TokenState)) (p : Progress)
    → e.1.pt.parsed ≡ ok w
    → ((g : Finding) → refused_by policy w.rule_id g ≡ false)
    → expired w now ≡ false
    → In f e.1.findings
    → f.rule_id ≡ w.rule_id
    → In e m
    → KeysOk p.keys p.result.suppressed
    → member (suppression_key f) (adjudicate_all policy now m p).keys ≡ true
unfolding adjudicate_all
all-member policy now w f e [] p parses allowed x i q j known = absurd j
all-member policy now w f e ((key, st) ∷ rest) p parses allowed x i q (inl r) known =
    let here = token-Onward policy now st.pt.parsed st p refl known in
    (all-Onward policy now rest (adjudicate_token policy now st p) here.sound).grown
      (suppression_key f)
      (token-member policy now w f st p (ap (λ (y : String × TokenState). y.1.pt.parsed) r ∙ parses)
        allowed x (subst (λ (y : String × TokenState). In f y.1.findings) (sym r) i) q known)
all-member policy now w f e ((key, st) ∷ rest) p parses allowed x i q (inr j) known =
    let here = token-Onward policy now st.pt.parsed st p refl known in
    all-member policy now w f e rest (adjudicate_token policy now st p) parses allowed x i q j
      here.sound

-- A valid waiver takes effect: a token in the window of a finding that parses to an unexpired waiver
-- of exactly its rule, which the policy allows whatever the severity, suppresses the finding, or a
-- finding with the same key of file, line and rule in its place.
pub adjudicate-suppresses :
    (read : LineReader) (policy : WaiverPolicy) (now : ℕ) (findings : List Finding) (f : Finding)
    (t : ParsedToken) (w : Waiver)
    → In f findings
    → In t (harvest_window read f)
    → t.parsed ≡ ok w
    → f.rule_id ≡ w.rule_id
    → expired w now ≡ false
    → ((g : Finding) → refused_by policy w.rule_id g ≡ false)
    → (g : Finding) × In g (adjudicate findings (some read) policy now).suppressed
      × (suppression_key g ≡ suppression_key f)
unfolding adjudicate member
adjudicate-suppresses read policy now findings f t w i j parses q x allowed =
    let table = harvest read findings [] in
    let begin : Progress = record { keys = []; result = no_result } in
    let none_yet : KeysOk [] [] = λ k h. absurd (cc) in
    let h = harvest-Has read t f findings [] i j tt in
    (all-Onward policy now table begin none_yet).sound (suppression_key f) (
      all-member policy now w f h.entry table begin
        (ap (λ (y : ParsedToken). y.parsed) h.token ∙ parses) allowed x h.finding_in q h.entry_in
        none_yet)
