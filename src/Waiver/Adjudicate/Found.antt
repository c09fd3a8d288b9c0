-- ===== src/Waiver/Adjudicate/Found.antt =====
-- The first loop of adjudication finds each token of each window.
use backstop_core.Prelude.{
  String, List, [], ◌∷◌, ◌++◌, ◌==◌, ◌≡◌, refl, ◌∙◌, sym, ap, subst, eq_iff, In, In-append_left,
  In-append_right, All, Bool-cases, inl, inr, if_true, if_false,
}
use backstop_core.Waiver.Adjudicate.{
  Finding, LineReader, ParsedToken, TokenState, token_key, associate, associate_all, harvest_window,
  harvest,
}
use backstop_core.Waiver.Adjudicate.Harvest.{
  Genuine, Genuine-harvest_window, EntryOk, same_token, associate-EntryOk, associate_all-EntryOk,
}

-- The table has the token, with the finding among those of its windows.
pub record Has (t : ParsedToken) (f : Finding) (m : List (String × TokenState)) : Type 0 where
  pub entry : String × TokenState
  pub entry_in : In entry m
  pub token : entry.1.pt ≡ t
  pub finding_in : In f entry.1.findings

later-Has :
    (t : ParsedToken) (f : Finding) (e : String × TokenState) (m : List (String × TokenState))
    → Has t f m
    → Has t f (e ∷ m)
later-Has t f e m h = record {
  entry = h.entry;
  entry_in = inr h.entry_in;
  token = h.token;
  finding_in = h.finding_in;
}

grown-Has :
    (t : ParsedToken) (f g : Finding) (k : String) (st : TokenState)
    (rest : List (String × TokenState)) (e : String × TokenState)
    → In e ((k, st) ∷ rest)
    → e.1.pt ≡ t
    → In f e.1.findings
    → Has t f ((k, record st { findings = st.findings ++ g ∷ [] }) ∷ rest)
grown-Has t f g k st rest e (inl q) p i = record {
  entry = (k, record st { findings = st.findings ++ g ∷ [] });
  entry_in = inl refl;
  token = ap (λ (x : String × TokenState). x.1.pt) q ∙ p;
  finding_in =
      In-append_left f st.findings (g ∷ [])
        (subst (λ (x : String × TokenState). In f x.1.findings) (sym q) i);
}
grown-Has t f g k st rest e (inr j) p i = record {
  entry = e;
  entry_in = inr j;
  token = p;
  finding_in = i;
}

apart-Has :
    (t : ParsedToken) (f : Finding) (k : String) (st : TokenState)
    (rest rest' : List (String × TokenState)) (e : String × TokenState)
    → (Has t f rest → Has t f rest')
    → In e ((k, st) ∷ rest)
    → e.1.pt ≡ t
    → In f e.1.findings
    → Has t f ((k, st) ∷ rest')
apart-Has t f k st rest rest' e onward (inl q) p i = record {
  entry = e;
  entry_in = inl q;
  token = p;
  finding_in = i;
}
apart-Has t f k st rest rest' e onward (inr r) p i =
    later-Has t f (k, st) rest'
      (onward (record { entry = e; entry_in = r; token = p; finding_in = i }))

associate-keeps :
    (t : ParsedToken) (f : Finding) (k : String) (u : ParsedToken) (g : Finding)
    (m : List (String × TokenState))
    → Has t f m
    → Has t f (associate k u g m)
unfolding associate
associate-keeps t f k u g [] h = absurd h.entry_in
associate-keeps t f k u g ((j, st) ∷ rest) h = elim (Bool-cases (j == k)) [
  | inl e ↦
      subst (Has t f) (sym (if_true _ _ e))
        (grown-Has t f g j st rest h.entry h.entry_in h.token h.finding_in)
  | inr e ↦ subst (Has t f) (sym (if_false _ _ e)) (
      apart-Has t f j st rest (associate k u g rest) h.entry (associate-keeps t f k u g rest)
        h.entry_in h.token h.finding_in)
]

associate-Has :
    (read : LineReader) (t : ParsedToken) (f : Finding) (m : List (String × TokenState))
    → Genuine read t
    → All (EntryOk read) m
    → Has t f (associate (token_key t) t f m)
unfolding associate
associate-Has read t f [] g ok = record {
  entry = (token_key t, record { pt = t; findings = f ∷ [] });
  entry_in = inl refl;
  token = refl;
  finding_in = inl refl;
}
associate-Has read t f ((k, st) ∷ rest) g (entry, ok) = elim (Bool-cases (k == token_key t)) [
  | inl e ↦ subst (Has t f) (sym (if_true _ _ e)) (record {
    entry = (k, record st { findings = st.findings ++ f ∷ [] });
    entry_in = inl refl;
    token = same_token read st.pt t entry.genuine g (entry.keyed ∙ (eq_iff k (token_key t)).0 e);
    finding_in = In-append_right f st.findings (f ∷ []) (inl refl);
  })
  | inr e ↦
      subst (Has t f) (sym (if_false _ _ e)) (
        later-Has t f (k, st) (associate (token_key t) t f rest) (associate-Has read t f rest g ok))
]

associate_all-keeps :
    (t : ParsedToken) (f : Finding) (us : List ParsedToken) (g : Finding)
    (m : List (String × TokenState))
    → Has t f m
    → Has t f (associate_all us g m)
unfolding associate_all
associate_all-keeps t f [] g m h = h
associate_all-keeps t f (u ∷ us) g m h =
    associate_all-keeps t f us g (associate (token_key u) u g m)
      (associate-keeps t f (token_key u) u g m h)

associate_all-Has :
    (read : LineReader) (t : ParsedToken) (f : Finding) (us : List ParsedToken)
    (m : List (String × TokenState))
    → ((u : ParsedToken) → In u us → In u (harvest_window read f))
    → All (EntryOk read) m
    → In t us
    → Has t f (associate_all us f m)
unfolding associate_all
associate_all-Has read t f [] m inside ok i = absurd i
associate_all-Has read t f (u ∷ us) m inside ok (inl q) =
    let here = Genuine-harvest_window read f u (inside u (inl refl)) in
    associate_all-keeps t f us f (associate (token_key u) u f m)
      (subst (λ x. Has x f (associate (token_key u) u f m)) q (associate-Has read u f m here ok))
associate_all-Has read t f (u ∷ us) m inside ok (inr i) =
    associate_all-Has read t f us (associate (token_key u) u f m) (λ x j. inside x (inr j))
      (associate-EntryOk read u f m (inside u (inl refl)) ok) i

harvest-keeps :
    (read : LineReader) (t : ParsedToken) (f : Finding) (fs : List Finding)
    (m : List (String × TokenState))
    → Has t f m
    → Has t f (harvest read fs m)
unfolding harvest
harvest-keeps read t f [] m h = h
harvest-keeps read t f (g ∷ fs) m h =
    harvest-keeps read t f fs (associate_all (harvest_window read g) g m)
      (associate_all-keeps t f (harvest_window read g) g m h)

pub harvest-Has :
    (read : LineReader) (t : ParsedToken) (f : Finding) (fs : List Finding)
    (m : List (String × TokenState))
    → In f fs
    → In t (harvest_window read f)
    → All (EntryOk read) m
    → Has t f (harvest read fs m)
unfolding harvest
harvest-Has read t f [] m i j ok = absurd i
harvest-Has read t f (g ∷ fs) m (inl q) j ok =
    harvest-keeps read t f fs (associate_all (harvest_window read g) g m) (
      subst (λ x. Has t x (associate_all (harvest_window read g) g m)) q
        (associate_all-Has read t g (harvest_window read g) m (λ u k. k) ok
          (subst (λ x. In t (harvest_window read x)) (sym q) j)))
harvest-Has read t f (g ∷ fs) m (inr i) j ok =
    harvest-Has read t f fs (associate_all (harvest_window read g) g m) i j
      (associate_all-EntryOk read (harvest_window read g) g m (λ u k. k) ok)
