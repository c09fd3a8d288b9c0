-- ===== src/Distribution/Remove/Frame.antt =====
-- What a remove changes, and what it does not.
use backstop_core.Prelude.{
  String, List, Option, none, some, ◌≡◌, ◌≢◌, refl, sym, ap, ◌∙◌, inl, inr, eq_refl, Bool-cases,
  erase, lookup-erase, keep,
}
use backstop_core.Distribution.Tree.{Stored, missing, bad, holds, Tree}
use backstop_core.Distribution.Lockfile.{Lockfile}
use backstop_core.Distribution.Verify.{Installed, installed_tree}
use backstop_core.Distribution.Install.{Manifest}
use backstop_core.Distribution.Project.{
  Project, ProvenanceEntry, Surroundings, read_provenance, is_pack_installed,
}
use backstop_core.Distribution.Remove.{
  RemoveResult, RemoveError, RemoveEnding, removed, refused, erase_version, erase_entry, erase_tree,
  is_of_other, write_provenance, write_lock, write_yml, delete_pack, unless_bad_lock,
  with_provenance, remove,
}

-- How a remove can end: with every trace taken out; or with an error before which nothing but files
-- of the pack changed; or with an error of a write behind the removal of its directory.
pub record Ended (name : String) (p p' : Project) (ending : RemoveEnding) : Type 0 where
  pub done :
      (r : RemoveResult)
      → ending ≡ removed r
      → (packs : List (String × String)) × (entries : List ProvenanceEntry) × (p.yml ≡ holds packs)
        × (read_provenance p.provenance ≡ some entries)
        × (p'.yml ≡ holds (erase name packs))
        × (p'.lock ≡ erase_entry name p.lock)
        × (p'.provenance ≡ holds (keep (is_of_other name) entries))
        × (p'.packs ≡ erase_tree name p.packs)
  pub kept :
      installed_tree name p'.packs ≢ none
      → (p'.yml ≡ p.yml) × (p'.lock ≡ p.lock) × (p'.provenance ≡ p.provenance)

installed_tree-erase_tree :
    (name : String) (packs : Installed) → installed_tree name (erase_tree name packs) ≡ none
unfolding installed_tree
installed_tree-erase_tree name none = refl
installed_tree-erase_tree name (some packs) = lookup-erase name name packs ∙ rw eq_refl

unchanged-Ended : (name : String) (p : Project) (e : RemoveError) → Ended name p p (refused e)
unchanged-Ended name p e = record { done = λ r q. absurd (cc); kept = λ h. (refl, refl, refl) }

-- A refusal behind the removal of the directory.
gone-Ended :
    (name : String) (p p' : Project) (e : RemoveError)
    → p'.packs ≡ erase_tree name p.packs
    → Ended name p p' (refused e)
gone-Ended name p p' e q = record {
  done = λ r f. absurd (cc);
  kept = λ h. absurd (h (ap (installed_tree name) q ∙ installed_tree-erase_tree name p.packs));
}

module _ (env : Surroundings) (name : String) (entries : List ProvenanceEntry) (r : RemoveResult)
    (p : Project) (read : read_provenance p.provenance ≡ some entries) where
  abbrev Ends : Project × RemoveEnding → Type 0
  Ends (p', ending) = Ended name p p' ending

  -- The project behind the writes of backstop.yml and of the lock.
  abbrev written_to : List (String × String) → Stored Lockfile → Project
  written_to packs lock = record p {
    yml = holds (erase name packs);
    lock = lock;
    packs = erase_tree name p.packs;
  }

  write_provenance-Ends :
      (packs : List (String × String)) (lock : Stored Lockfile)
      → p.yml ≡ holds packs
      → lock ≡ erase_entry name p.lock
      → Ends (write_provenance env name entries r (written_to packs lock))
  write_provenance-Ends packs lock y l = elim (Bool-cases env.can_write_provenance) [
    | inr e ↦ rw e (gone-Ended name p (written_to packs lock) _ refl)
    | inl e ↦ rw e (record {
      done = λ s f. (packs, entries, y, read, refl, l, refl, refl);
      kept = λ h. absurd (h (installed_tree-erase_tree name p.packs));
    })
  ]

  write_lock-Ends :
      (packs : List (String × String)) (lock : Stored Lockfile)
      → p.yml ≡ holds packs
      → p.lock ≡ lock
      → Ends (write_lock env name entries r lock (written_to packs lock))
  write_lock-Ends packs missing y l =
      write_provenance-Ends packs missing y (ap (erase_entry name) (sym l))
  write_lock-Ends packs bad y l = write_provenance-Ends packs bad y (ap (erase_entry name) (sym l))
  write_lock-Ends packs (holds lock) y l = elim (Bool-cases env.can_write_lock) [
    | inr e ↦ rw e (gone-Ended name p (written_to packs (holds lock)) _ refl)
    | inl e ↦
        rw e
          (write_provenance-Ends packs (holds (erase name lock)) y (ap (erase_entry name) (sym l)))
  ]

  abbrev deleted : Project
  deleted = record p { packs = erase_tree name p.packs }

  write_yml-Ends :
      (yml : Manifest)
      → p.yml ≡ yml
      → Ends (write_yml env name entries r (erase_version name yml) deleted)
  write_yml-Ends missing y = gone-Ended name p deleted _ refl
  write_yml-Ends bad y = gone-Ended name p deleted _ refl
  write_yml-Ends (holds packs) y = elim (Bool-cases env.can_write_yml) [
    | inr e ↦ rw e (gone-Ended name p deleted _ refl)
    | inl e ↦ rw e (write_lock-Ends packs p.lock y refl)
  ]

  delete_pack-Ends : (o : Option Tree) → Ends (delete_pack env name entries r o p)
  delete_pack-Ends none = write_yml-Ends p.yml refl
  delete_pack-Ends (some left) = record {
    done = λ s f. absurd (cc);
    kept = λ h. (refl, refl, refl);
  }

  unless_bad_lock-Ends : (l : Stored Lockfile) → Ends (unless_bad_lock env name entries r l p)
  unless_bad_lock-Ends bad = unchanged-Ended name p _
  unless_bad_lock-Ends missing = delete_pack-Ends (env.stuck name)
  unless_bad_lock-Ends (holds lock) = delete_pack-Ends (env.stuck name)

module _ (env : Surroundings) where
  with_provenance-Ended :
      (name : String) (p : Project) (o : Option (List ProvenanceEntry))
      → read_provenance p.provenance ≡ o
      → Ended name p (with_provenance env name o p).0 (with_provenance env name o p).1
  with_provenance-Ended name p none q = unchanged-Ended name p _
  with_provenance-Ended name p (some entries) q = unless_bad_lock-Ends env name entries _ p q p.lock

  -- A remove that succeeds takes the pack, and nothing else, out of backstop.yml, the lock, the
  -- provenance and the packs directory. However it ends, while files of the pack are installed
  -- backstop.yml, the lock and the provenance are as they were.
  pub remove-Ended :
      (name : String) (p : Project) → Ended name p (remove env name p).0 (remove env name p).1
  unfolding remove
  remove-Ended name p = elim (Bool-cases (is_pack_installed p.yml name)) [
    | inr e ↦ rw e (unchanged-Ended name p _)
    | inl e ↦ rw e (with_provenance-Ended name p (read_provenance p.provenance) refl)
  ]
