-- ===== src/Distribution/Update/Placed.antt =====
-- What the replacement of a pack and the writes behind it leave.
use backstop_core.Prelude.{
  String, true, sym, subst, List, [], Option, none, some, ◌≡◌, refl, ap, ◌∙◌, inl, inr, ◌==◌,
  eq_iff, eq_refl, Bool-cases, lookup, put, lookup-put, if_true,
}
use backstop_core.Distribution.Tree.{
  missing, bad, holds, stored_value, Tree, Copied, copy_dir, compute_content_hash,
}
use backstop_core.Distribution.Lockfile.{LockEntry, Lockfile, recorded_coordinate_for}
use backstop_core.Distribution.Verify.{installed_tree}
use backstop_core.Distribution.Install.{Manifest, put_tree}
use backstop_core.Distribution.Install.Copies.{installed_tree-put_tree}
use backstop_core.Distribution.Project.{
  Project, Surroundings, put_version, compute_lock_status, status_of_tree, matching_status,
}
use backstop_core.Distribution.Remove.{erase_tree}
use backstop_core.Distribution.Update.{
  UpdateResult, UpdateEnding, updated, refused, not_copied, yml_not_written, lock_not_written,
  lock_or_empty, replaced, replace_unless_stuck, replace_installed_pack, git_entry,
  record_git_pack_in_lock, with_yml, record_update,
}

module _ (env : Surroundings) where
  -- The copy of a clone is in place, with its digest, if one is given.
  abbrev pub Placed : String → Copied → Project × Option String → Type 0
  Placed install c (q, none) = Unit
  Placed install c (q, some hash) =
      (c.succeeded ≡ true)
      × (installed_tree install q.packs ≡ some c.files)
      × (compute_content_hash env.sha c.files ≡ some hash)

  Placed-of_hash :
      (install : String) (c : Copied) (q : Project) (o : Option String)
      → c.succeeded ≡ true
      → installed_tree install q.packs ≡ some c.files
      → compute_content_hash env.sha c.files ≡ o
      → Placed install c (q, o)
  Placed-of_hash install c q none d t h = tt
  Placed-of_hash install c q (some hash) d t h = (d, t, h)

  replaced-Placed :
      (install : String) (c : Copied) (p : Project) → Placed install c (replaced env install c p)
  replaced-Placed install c p = elim (Bool-cases c.succeeded) [
    | inr e ↦ rw e tt
    | inl e ↦
        subst
          (λ o.
            Placed install c
              (record p { packs = put_tree install c.files (erase_tree install p.packs) }, o))
          (sym (if_true _ none e))
          (Placed-of_hash install c
            (record p { packs = put_tree install c.files (erase_tree install p.packs) })
            (compute_content_hash env.sha c.files) e
            (installed_tree-put_tree install install c.files (erase_tree install p.packs)
              ∙ rw eq_refl)
            refl)
  ]

  -- The copy of a clone into an empty directory.
  abbrev pub copy_of_clone : String → Tree → Copied
  copy_of_clone install new = copy_dir (env.write install) new []

  pub replace_installed_pack-Placed :
      (install : String) (new : Tree) (p : Project)
      → Placed install (copy_of_clone install new) (replace_installed_pack env install new p)
  unfolding replace_installed_pack
  replace_installed_pack-Placed install new p = stuck_or_not env.stuck
    where
      stuck_or_not :
          (stuck : String → Option Tree)
          → Placed install
              (copy_of_clone install new)
              (replace_unless_stuck env install new (stuck install) p)
      stuck_or_not stuck =
          elim (stuck install)
            as (λ o.
              Placed install (copy_of_clone install new)
                (replace_unless_stuck env install new o p)) [
                  | some left ↦ tt
                  | none ↦ replaced-Placed install (copy_dir (env.write install) new []) p
                ]

  -- Under its name, the whole copy of the clone is installed, the lock holds an entry of the new
  -- version, which it matches, and backstop.yml declares that version.
  abbrev pub Recorded : String → Copied → Project → UpdateResult → Type 0
  Recorded install c p' r =
      (lock : Lockfile) × (entry : LockEntry) × (versions : List (String × String)) × (c.succeeded
        ≡ true)
      × (installed_tree install p'.packs ≡ some c.files)
      × (p'.lock ≡ holds lock)
      × (lookup install lock ≡ some entry)
      × (entry.version ≡ r.new_version)
      × (compute_lock_status env.sha p'.packs install entry ≡ "locked")
      × (p'.yml ≡ holds versions)
      × (lookup install versions ≡ some r.new_version)

  -- What follows the replacement is recorded, or is one of the errors behind it.
  abbrev pub RecordedOr : String → Copied → String → Project × UpdateEnding → Type 0
  RecordedOr install c version (p', updated r) = (r.new_version ≡ version) × Recorded install c p' r
  RecordedOr install c version (p', refused not_copied) = Unit
  RecordedOr install c version (p', refused yml_not_written) = Unit
  RecordedOr install c version (p', refused lock_not_written) = Unit
  RecordedOr install c version (p', _) = ⊥

  locked-status :
      (install version hash coordinate : String) (files : Tree) (q : Project)
      → installed_tree install q.packs ≡ some files
      → compute_content_hash env.sha files ≡ some hash
      → compute_lock_status env.sha q.packs install (git_entry env install version hash coordinate)
        ≡ "locked"
  unfolding compute_lock_status
  locked-status install version hash coordinate files q t h =
      let entry = git_entry env install version hash coordinate in
      ap (status_of_tree env.sha entry) t
      ∙ ap (matching_status entry) h
      ∙ if_true {b = hash == hash} _ _ ((eq_iff hash hash).1 refl)

  lookup-put_self :
      {V : Type 0} (k : String) (v : V) (m : List (String × V)) → lookup k (put k v m) ≡ some v
  lookup-put_self k v m = lookup-put k k v m ∙ if_true {b = k == k} _ _ ((eq_iff k k).1 refl)

  with_yml-RecordedOr :
      (name install : String) (c : Copied) (r : UpdateResult) (yml : Manifest) (q : Project)
      → Placed install c (q, some r.content_hash)
      → RecordedOr install c r.new_version
          (with_yml env name install r (put_version install r.new_version yml) q)
  unfolding record_git_pack_in_lock
  with_yml-RecordedOr name install c r missing q h = tt
  with_yml-RecordedOr name install c r bad q h = tt
  with_yml-RecordedOr name install c r (holds versions) q (d, t, h) =
      let coordinate = recorded_coordinate_for (stored_value q.lock) name in
      let entry = git_entry env install r.new_version r.content_hash coordinate in
      let lock = lock_or_empty (stored_value q.lock) in
      elim (Bool-cases env.can_write_yml) [
        | inr e ↦ rw e tt
        | inl e ↦ elim (Bool-cases env.can_write_lock) [
          | inr f ↦ rw (e, f) tt
          | inl f ↦
              rw (e, f)
                (
                  refl,
                  (
                    put install entry lock,
                    entry,
                    put install r.new_version versions,
                    d,
                    t,
                    refl,
                    lookup-put_self install entry lock,
                    refl,
                    locked-status install r.new_version r.content_hash coordinate c.files q t h,
                    refl,
                    lookup-put_self install r.new_version versions,
                  ),
                )
        ]
      ]

  pub record_update-RecordedOr :
      (name install : String) (c : Copied) (r : UpdateResult) (done : Project × Option String)
      → Placed install c done
      → RecordedOr install c r.new_version (record_update env name install r done)
  record_update-RecordedOr name install c r (q, none) h = tt
  record_update-RecordedOr name install c r (q, some hash) h =
      with_yml-RecordedOr name install c (record r { content_hash = hash }) q.yml q h
