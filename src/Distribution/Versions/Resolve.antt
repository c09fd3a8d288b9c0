-- ===== src/Distribution/Versions/Resolve.antt =====
-- Which version the resolver offers.
use backstop_core.Prelude.{
  String, true, false, List, [], ◌∷◌, Option, none, some, ◌≡◌, refl, sym, ap, ◌∙◌, subst, arith,
  ◌⊎◌, inl, inr, In, Bool-cases, eqb, eqb_iff,
}
use mathlib.Core.Option.{some-injective}
use backstop_core.Distribution.Versions.{
  Version, Latest, newer_than, show_version, parse_version, consider, consider_tag, scan_tags,
  resolve_latest, resolved_to, resolve_git_url,
}
use backstop_core.Distribution.Versions.Order.{
  newer_than-irreflexive, newer_than-asymmetric, newer_than-transitive, not_newer-transitive,
}

-- What one tag does to the latest version so far: nothing, and the tag is no newer version of the
-- major line, or it becomes the latest.
abbrev Moved : Version → String → Latest → Latest → Type 0
Moved c tag l l' =
    ((l' ≡ l)
      × ((u : Version)
          → parse_version tag ≡ some u
          → u.major ≡ c.major
          → newer_than u l.version ≡ false))
    ⊎ ((parse_version tag ≡ some l'.version)
        × (l'.version.major ≡ c.major)
        × (newer_than l'.version l.version ≡ true)
        × (l'.resolved ≡ show_version l'.version))

consider-Moved :
    (c : Version) (tag : String) (u : Version) (l : Latest)
    → parse_version tag ≡ some u
    → Moved c tag l (consider c u l)
unfolding consider
consider-Moved c tag u l e = elim (Bool-cases (eqb u.major c.major)) [
  | inr other ↦
      rw other
        (inl (refl, λ w f same. absurd (other_major w (some-injective u w (sym e ∙ f)) other same)))
  | inl same ↦ elim (Bool-cases (newer_than u l.version)) [
    | inl newer ↦ rw (same, newer) (inr (e, (eqb_iff u.major c.major).0 same, newer, refl))
    | inr older ↦
        rw (same, older)
          (inl (
            refl,
            λ w f major.
                ap (λ x. newer_than x l.version) (sym (some-injective u w (sym e ∙ f))) ∙ older,
          ))
  ]
]
  where
    other_major : (w : Version) → u ≡ w → eqb u.major c.major ≡ false → w.major ≡ c.major → ⊥
    other_major w q other same = ground (arith, ap (λ (x : Version). x.major) q)

consider_tag-Moved :
    (c : Version) (tag : String) (o : Option Version) (l : Latest)
    → parse_version tag ≡ o
    → Moved c tag l (consider_tag c o l)
consider_tag-Moved c tag none l e = inl (refl, λ u f same. absurd (cc))
consider_tag-Moved c tag (some u) l e = consider-Moved c tag u l e

-- What the loop reaches from `st` over the tags.
pub record Best (c : Version) (tags : List String) (st l : Latest) : Type 0 where
  pub top :
      (tag : String) (u : Version)
      → In tag tags
      → parse_version tag ≡ some u
      → u.major ≡ c.major
      → newer_than u l.version ≡ false
  pub grown : newer_than st.version l.version ≡ false
  pub origin :
      (l ≡ st)
      ⊎ ((tag : String) × In tag tags
          × (parse_version tag ≡ some l.version)
          × (l.version.major ≡ c.major)
          × (newer_than l.version st.version ≡ true)
          × (l.resolved ≡ show_version l.version))

stayed-Best :
    (c : Version) (tag : String) (tags : List String) (st l : Latest)
    → ((u : Version)
        → parse_version tag ≡ some u
        → u.major ≡ c.major
        → newer_than u st.version ≡ false)
    → Best c tags st l
    → Best c (tag ∷ tags) st l
stayed-Best c tag tags st l h b = record {
  top = λ t u i e same. elim i [
    | inl q ↦
        not_newer-transitive u st.version l.version (h u (ap parse_version q ∙ e) same) b.grown
    | inr j ↦ b.top t u j e same
  ];
  grown = b.grown;
  origin = elim b.origin [ inl q ↦ inl q | inr (t, i, p, m, n, s) ↦ inr (t, inr i, p, m, n, s) ];
}

moved-Best :
    (c : Version) (tag : String) (tags : List String) (st st' l : Latest)
    → parse_version tag ≡ some st'.version
    → st'.version.major ≡ c.major
    → newer_than st'.version st.version ≡ true
    → st'.resolved ≡ show_version st'.version
    → Best c tags st' l
    → Best c (tag ∷ tags) st l
moved-Best c tag tags st st' l e major newer shown b = record {
  top = λ t u i f same. elim i [
    | inl q ↦
        ap (λ x. newer_than x l.version)
          (some-injective u st'.version (sym f ∙ ap parse_version (sym q) ∙ e))
        ∙ b.grown
    | inr j ↦ b.top t u j f same
  ];
  grown =
      not_newer-transitive st.version st'.version l.version
        (newer_than-asymmetric st'.version st.version newer) b.grown;
  origin = elim b.origin [
    | inl q ↦ inr (
      tag,
      inl refl,
      e ∙ ap (λ x. some x.version) (sym q),
      ap (λ x. x.version.major) q ∙ major,
      ap (λ x. newer_than x.version st.version) q ∙ newer,
      ap (λ x. x.resolved) q ∙ shown ∙ ap (λ x. show_version x.version) (sym q),
    )
    | inr (t, i, p, m, n, s) ↦
        inr (t, inr i, p, m, newer_than-transitive l.version st'.version st.version n newer, s)
  ];
}

scan_tags-Best :
    (c : Version) (tags : List String) (st : Latest) → Best c tags st (scan_tags c tags st)
unfolding scan_tags
scan_tags-Best c [] st = record {
  top = λ tag u i e same. absurd i;
  grown = newer_than-irreflexive st.version;
  origin = inl refl;
}
scan_tags-Best c (tag ∷ tags) st =
    let st' = consider_tag c (parse_version tag) st in
    let rest = scan_tags-Best c tags st' in
    elim (consider_tag-Moved c tag (parse_version tag) st refl) [
      | inl (q, h) ↦
          subst (λ x. Best c (tag ∷ tags) st (scan_tags c tags x)) (sym q)
            (stayed-Best c tag tags st (scan_tags c tags st) h
              (subst (λ x. Best c tags x (scan_tags c tags x)) q rest))
      | inr (e, major, newer, shown) ↦
          moved-Best c tag tags st st' (scan_tags c tags st') e major newer shown rest
    ]

-- For a strict current version and a listing that succeeds the resolver offers a version: no tag of
-- the same major version is newer, and it is the current version as given, or else the normal form
-- of a tag of the same major version that is newer than the current one.
pub resolve_latest-Best :
    (list_tags : String → Option (List String)) (coordinate text : String) (c : Version)
    (tags : List String)
    → parse_version text ≡ some c
    → list_tags (resolve_git_url coordinate) ≡ some tags
    → (l : Latest) × (resolve_latest list_tags coordinate text ≡ resolved_to l.resolved)
      × Best c tags (record { version = c; resolved = text }) l
unfolding resolve_latest
resolve_latest-Best list_tags coordinate text c tags e listed = (
  scan_tags c tags (record { version = c; resolved = text }),
  rw (e, listed) refl,
  scan_tags-Best c tags (record { version = c; resolved = text }),
)
