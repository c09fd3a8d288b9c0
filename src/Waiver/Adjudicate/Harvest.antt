-- ===== src/Waiver/Adjudicate/Harvest.antt =====
-- What the first loop of adjudication collects: each token with the findings in whose window it
-- stands, and no token under the key of another.
use backstop_core.Prelude.{
  ℕ, String, List, [], ◌∷◌, ◌++◌, Option, none, some, ◌==◌, ◌≡◌, refl, ◌∙◌, sym, subst, eq_iff, In,
  In-append, All, Bool-cases, inl, inr, if_true, if_false,
}
use mathlib.Core.Option.{some-injective}
use mathlib.Core.Path.{ap₂}
use backstop_core.Waiver.Adjudicate.{
  Finding, LineReader, ParsedToken, TokenState, token_at, tokens_at, line_tokens, harvest_lines,
  harvest_window, window_lines, scan_occurrences, token_key, associate, associate_all, harvest,
}
use backstop_core.Waiver.Adjudicate.Keys.{diag_key_injective}

pub All-append :
    {A : Type 0} (P : A → Type 0) (xs ys : List A) → All P xs → All P ys → All P (xs ++ ys)
All-append P [] ys h k = k
All-append P (x ∷ xs) ys (p, h) k = (p, All-append P xs ys h k)

-- The token is what its line, as the reader has it, says at its column.
pub record Genuine (read : LineReader) (t : ParsedToken) : Type 0 where
  pub text : String
  pub line_read : read t.file t.line ≡ some text
  pub parsed_there : t ≡ token_at t.file t.line text t.col

Genuine-tokens_at :
    (read : LineReader) (file : String) (line : ℕ) (text : String) (cols : List ℕ) (t : ParsedToken)
    → read file line ≡ some text
    → In t (tokens_at file line text cols)
    → Genuine read t
unfolding tokens_at
Genuine-tokens_at read file line text [] t e i = absurd i
Genuine-tokens_at read file line text (col ∷ cols) t e (inl q) =
    subst (Genuine read) q (record { text = text; line_read = e; parsed_there = refl })
Genuine-tokens_at read file line text (col ∷ cols) t e (inr i) =
    Genuine-tokens_at read file line text cols t e i

Genuine-line_tokens :
    (read : LineReader) (file : String) (line : ℕ) (o : Option String) (t : ParsedToken)
    → read file line ≡ o
    → In t (line_tokens file line o)
    → Genuine read t
unfolding line_tokens
Genuine-line_tokens read file line none t e i = absurd i
Genuine-line_tokens read file line (some text) t e i =
    Genuine-tokens_at read file line text (scan_occurrences text) t e i

Genuine-harvest_lines :
    (read : LineReader) (file : String) (lines : List ℕ) (t : ParsedToken)
    → In t (harvest_lines read file lines)
    → Genuine read t
unfolding harvest_lines
Genuine-harvest_lines read file [] t i = absurd i
Genuine-harvest_lines read file (line ∷ lines) t i =
    elim (In-append t (line_tokens file line (read file line)) (harvest_lines read file lines) i) [
      | inl here ↦ Genuine-line_tokens read file line (read file line) t refl here
      | inr later ↦ Genuine-harvest_lines read file lines t later
    ]

pub Genuine-harvest_window :
    (read : LineReader) (f : Finding) (t : ParsedToken)
    → In t (harvest_window read f)
    → Genuine read t
unfolding harvest_window
Genuine-harvest_window read f t i = Genuine-harvest_lines read f.file (window_lines f) t i

-- Two tokens that the reader bears out and that have one key are one.
pub same_token :
    (read : LineReader) (t u : ParsedToken)
    → Genuine read t
    → Genuine read u
    → token_key t ≡ token_key u
    → t ≡ u
unfolding token_key
same_token read t u g h e =
    let (files, lines, cols) = diag_key_injective t.file u.file t.line u.line t.col u.col e in
    let texts =
      some-injective g.text h.text (sym g.line_read ∙ ap₂ read files lines ∙ h.line_read) in
    g.parsed_there ∙ (λ i. token_at (files i) (lines i) (texts i) (cols i)) ∙ sym h.parsed_there

-- What an entry of the table of tokens holds.
pub record EntryOk (read : LineReader) (entry : String × TokenState) : Type 0 where
  pub keyed : token_key entry.1.pt ≡ entry.0
  pub genuine : Genuine read entry.1.pt
  pub windows : All (λ f. In entry.1.pt (harvest_window read f)) entry.1.findings

pub associate-EntryOk :
    (read : LineReader) (t : ParsedToken) (f : Finding) (m : List (String × TokenState))
    → In t (harvest_window read f)
    → All (EntryOk read) m
    → All (EntryOk read) (associate (token_key t) t f m)
unfolding associate
associate-EntryOk read t f [] i ok =
    (record { keyed = refl; genuine = Genuine-harvest_window read f t i; windows = (i, tt) }, tt)
associate-EntryOk read t f ((k, st) ∷ rest) i (entry, ok) =
    let grown = record st { findings = st.findings ++ f ∷ [] } in
    elim (Bool-cases (k == token_key t)) [
      | inl e ↦
          let one =
            same_token read st.pt t entry.genuine (Genuine-harvest_window read f t i)
              (entry.keyed ∙ (eq_iff k (token_key t)).0 e) in
          let windows =
            All-append (λ g. In st.pt (harvest_window read g)) st.findings (f ∷ []) entry.windows
              (subst (λ u. In u (harvest_window read f)) (sym one) i, tt) in
          subst (All (EntryOk read)) (sym (if_true _ _ e))
            (record { keyed = entry.keyed; genuine = entry.genuine; windows = windows }, ok)
      | inr e ↦
          subst (All (EntryOk read)) (sym (if_false _ _ e))
            (entry, associate-EntryOk read t f rest i ok)
    ]

pub associate_all-EntryOk :
    (read : LineReader) (ts : List ParsedToken) (f : Finding) (m : List (String × TokenState))
    → ((t : ParsedToken) → In t ts → In t (harvest_window read f))
    → All (EntryOk read) m
    → All (EntryOk read) (associate_all ts f m)
unfolding associate_all
associate_all-EntryOk read [] f m inside ok = ok
associate_all-EntryOk read (t ∷ ts) f m inside ok =
    associate_all-EntryOk read ts f (associate (token_key t) t f m) (λ u i. inside u (inr i))
      (associate-EntryOk read t f m (inside t (inl refl)) ok)

pub harvest-EntryOk :
    (read : LineReader) (fs : List Finding) (m : List (String × TokenState))
    → All (EntryOk read) m
    → All (EntryOk read) (harvest read fs m)
unfolding harvest
harvest-EntryOk read [] m ok = ok
harvest-EntryOk read (f ∷ fs) m ok =
    harvest-EntryOk read fs (associate_all (harvest_window read f) f m)
      (associate_all-EntryOk read (harvest_window read f) f m (λ t i. i) ok)

-- The findings of an entry are findings of the run.
abbrev pub OfRun : List Finding → String × TokenState → Type 0
OfRun findings entry = All (λ f. In f findings) entry.1.findings

module _ (findings : List Finding) where
  associate-OfRun :
      (key : String) (t : ParsedToken) (f : Finding) (m : List (String × TokenState))
      → In f findings
      → All (OfRun findings) m
      → All (OfRun findings) (associate key t f m)
  unfolding associate
  associate-OfRun key t f [] i ok = ((i, tt), tt)
  associate-OfRun key t f ((k, st) ∷ rest) i (entry, ok) = elim (Bool-cases (k == key)) [
    | inl e ↦ rw e (All-append (λ g. In g findings) st.findings (f ∷ []) entry (i, tt), ok)
    | inr e ↦ rw e (entry, associate-OfRun key t f rest i ok)
  ]

  associate_all-OfRun :
      (ts : List ParsedToken) (f : Finding) (m : List (String × TokenState))
      → In f findings
      → All (OfRun findings) m
      → All (OfRun findings) (associate_all ts f m)
  unfolding associate_all
  associate_all-OfRun [] f m i ok = ok
  associate_all-OfRun (t ∷ ts) f m i ok =
      associate_all-OfRun ts f (associate (token_key t) t f m) i
        (associate-OfRun (token_key t) t f m i ok)

pub harvest-OfRun :
    (read : LineReader) (findings fs : List Finding) (m : List (String × TokenState))
    → ((f : Finding) → In f fs → In f findings)
    → All (OfRun findings) m
    → All (OfRun findings) (harvest read fs m)
unfolding harvest
harvest-OfRun read findings [] m inside ok = ok
harvest-OfRun read findings (f ∷ fs) m inside ok =
    harvest-OfRun read findings fs (associate_all (harvest_window read f) f m)
      (λ g i. inside g (inr i))
      (associate_all-OfRun findings (harvest_window read f) f m (inside f (inl refl)) ok)
