-- ===== src/Distribution/Update/Recorded.antt =====
-- What an update leaves, however it ends.
use backstop_core.Prelude.{
  String, Bool, true, false, not, ◌&&◌, List, [], ◌∷◌, ◌++◌, Option, none, some, ◌≡◌, refl, sym, ap,
  ◌∙◌, arith, ◌⊎◌, inl, inr, ◌==◌, if◌then◌else◌, Bool-cases, is_empty, if_true, if_false,
}
use mathlib.Core.Option.{some-injective}
use backstop_core.Distribution.Versions.{resolve_git_url}
use backstop_core.Distribution.Reference.{tag_of}
use backstop_core.Distribution.Tree.{Tree, stored_value}
use backstop_core.Distribution.Lockfile.{locked_entry_for, coordinate_for_entry}
use backstop_core.Distribution.Verify.{installed_tree}
use backstop_core.Distribution.Project.{Project, Surroundings, read_pack_version}
use backstop_core.Distribution.Identity.{
  RemoteIdentity, Identified, identified, read_manifest_identity, validate_remote_identity,
}
use backstop_core.Distribution.Tamper.{TamperChange, detect_tamper}
use backstop_core.Distribution.Services.{Services, run_validation_on_scratch_copy}
use backstop_core.Distribution.Update.Placed.{
  Recorded, RecordedOr, copy_of_clone, replace_installed_pack-Placed, record_update-RecordedOr,
}
use backstop_core.Distribution.Update.{
  UpdateResult, UpdateEnding, updated, refused, not_copied, yml_not_written, lock_not_written,
  replace_installed_pack, if_untampered, tamper_check, identified_update, cloned_update,
  resolved_update, versioned_update, update, diverged_warning,
}

nil-is_empty : (changes : List TamperChange) → is_empty changes ≡ true → changes ≡ []
nil-is_empty [] h = refl
nil-is_empty (c ∷ changes) h = absurd (cc)

module _ (env : Surroundings) (s : Services) (acknowledge : Bool) (name : String)
    (p : Project) where
  -- The change from what is installed to the new version weakens nothing, or is acknowledged.
  abbrev pub Cleared : Tree → Type 0
  Cleared new =
      (acknowledge ≡ true)
      ⊎ ((old : Tree)
          → installed_tree name p.packs ≡ some old
          → detect_tamper s.rules_of old new ≡ some [])

  -- The coordinate that the lock records of the pack, and the identity that a clone declares.
  abbrev pub own_coordinate : String
  own_coordinate = (coordinate_for_entry name (locked_entry_for (stored_value p.lock) name)).0

  abbrev pub identity_at : String → String → Tree → Identified
  identity_at coordinate version new =
      validate_remote_identity coordinate version (read_manifest_identity (s.manifest_fields new))

  -- An ending: an update that is recorded and was cleared, an error of the writes, or a project
  -- that is as it was.
  abbrev pub Ends : Project × UpdateEnding → Type 0
  Ends (p', updated r) =
      (new : Tree) × (i : RemoteIdentity) × (s.clone (resolve_git_url own_coordinate)
          (tag_of r.new_version)
        ≡ some new)
      × (identity_at own_coordinate r.new_version new ≡ identified i)
      × Cleared new
      × Recorded env i.install_name (copy_of_clone env i.install_name new) p' r
  Ends (p', refused not_copied) = Unit
  Ends (p', refused yml_not_written) = Unit
  Ends (p', refused lock_not_written) = Unit
  Ends (p', _) = p' ≡ p

  Ends-of_recorded :
      (version : String) (new : Tree) (i : RemoteIdentity) (done : Project × UpdateEnding)
      → s.clone (resolve_git_url own_coordinate) (tag_of version) ≡ some new
      → identity_at own_coordinate version new ≡ identified i
      → Cleared new
      → RecordedOr env i.install_name (copy_of_clone env i.install_name new) version done
      → Ends done
  Ends-of_recorded version new i (p', updated r) q d c (v, h) = (
    new,
    i,
    ap (λ x. s.clone (resolve_git_url own_coordinate) (tag_of x)) v ∙ q,
    ap (λ x. identity_at own_coordinate x new) v ∙ d,
    c,
    h,
  )
  Ends-of_recorded version new i (p', refused not_copied) q d c h = tt
  Ends-of_recorded version new i (p', refused yml_not_written) q d c h = tt
  Ends-of_recorded version new i (p', refused lock_not_written) q d c h = tt
  Ends-of_recorded version new i (p', _) q d c h = absurd h

  if_untampered-Ends :
      (old new : Tree) (o : Option (List TamperChange)) (done : Project × UpdateEnding)
      → installed_tree name p.packs ≡ some old
      → detect_tamper s.rules_of old new ≡ o
      → (Cleared new → Ends done)
      → Ends (if_untampered env s acknowledge o p done)
  if_untampered-Ends old new none done t d h = refl
  if_untampered-Ends old new (some changes) done t d h = elim (Bool-cases acknowledge) [
    | inl a ↦
        rw (if_false {b = not (is_empty changes) && not acknowledge} _ _ (ground arith)) (h (inl a))
    | inr a ↦ elim (Bool-cases (is_empty changes)) [
      | inr n ↦ rw (if_true {b = not (is_empty changes) && not acknowledge} _ _ (ground arith)) refl
      | inl n ↦ rw (if_false {b = not (is_empty changes) && not acknowledge} _ _ (ground arith)) (
          h (
            inr (λ x q.
              ap (λ y. detect_tamper s.rules_of y new) (some-injective x old (sym q ∙ t))
              ∙ d
              ∙ ap some (nil-is_empty changes n))))
    ]
  ]

  tamper_check-Ends :
      (o : Option Tree) (new : Tree) (done : Project × UpdateEnding)
      → installed_tree name p.packs ≡ o
      → (Cleared new → Ends done)
      → Ends (tamper_check env s acknowledge o new p done)
  tamper_check-Ends none new done t h = h (inr (λ old q. absurd (cc)))
  tamper_check-Ends (some old) new done t h =
      if_untampered-Ends old new (detect_tamper s.rules_of old new) done t refl h

  identified_update-Ends :
      (r : UpdateResult) (new : Tree) (i : Identified)
      → identity_at own_coordinate r.new_version new ≡ i
      → s.clone (resolve_git_url own_coordinate) (tag_of r.new_version) ≡ some new
      → Ends (identified_update env s acknowledge name r new i p)
  identified_update-Ends r new (Identified.refused e) d q = refl
  identified_update-Ends r new (identified i) d q =
      elim (Bool-cases (run_validation_on_scratch_copy s new)) [
        | inr e ↦ rw e refl
        | inl e ↦ rw e (
            tamper_check-Ends (installed_tree name p.packs) new _ refl (λ c.
              Ends-of_recorded r.new_version new i _ q d c (
                record_update-RecordedOr env name i.install_name
                  (copy_of_clone env i.install_name new)
                  (record r {
                    warnings = r.warnings ++ (if i.diverged then diverged_warning i ∷ [] else []);
                  })
                  (replace_installed_pack env i.install_name new p)
                  (replace_installed_pack-Placed env i.install_name new p))))
      ]

  cloned_update-Ends :
      (r : UpdateResult) (o : Option Tree)
      → s.clone (resolve_git_url own_coordinate) (tag_of r.new_version) ≡ o
      → Ends (cloned_update env s acknowledge name own_coordinate r o p)
  cloned_update-Ends r none q = refl
  cloned_update-Ends r (some new) q = identified_update-Ends r new _ refl q

  resolved_update-Ends :
      (current : String) (warnings : List String) (o : Option String)
      → Ends (resolved_update env s acknowledge name own_coordinate current warnings o p)
  resolved_update-Ends current warnings none = refl
  resolved_update-Ends current warnings (some resolved) = elim (Bool-cases (resolved == current)) [
    | inl e ↦ rw e refl
    | inr e ↦ elim (Bool-cases (s.is_major_bump current resolved)) [
      | inl m ↦ rw (e, m) refl
      | inr m ↦
          rw (e, m)
            (cloned_update-Ends
              (record {
                old_version = current;
                new_version = resolved;
                content_hash = "";
                warnings = warnings;
              })
              (s.clone (resolve_git_url own_coordinate) (tag_of resolved)) refl)
    ]
  ]

  versioned_update-Ends :
      (o : Option (String × Bool)) → Ends (versioned_update env s acknowledge name o p)
  versioned_update-Ends none = refl
  versioned_update-Ends (some (current, true)) = refl
  versioned_update-Ends (some (current, false)) =
      resolved_update-Ends current _ (s.resolve own_coordinate current)

  -- An update that ends well cloned the new version from the coordinate that the lock records; under
  -- the name that the identity check gives the clone, its whole copy is installed, the lock has an
  -- entry of that version that the copy matches, and backstop.yml has that version; and unless it
  -- was acknowledged the tamper detection found nothing between the clone and what was installed.
  -- An update that ends otherwise leaves the project as it was, unless the replacement of the pack
  -- or a write behind it fails.
  pub update-Ends : Ends (update env s acknowledge name p)
  unfolding update
  update-Ends = versioned_update-Ends (read_pack_version p.yml name)
