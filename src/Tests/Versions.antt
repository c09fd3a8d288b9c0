-- ===== src/Tests/Versions.antt =====
-- Resolutions of versions at concrete tags.
use backstop_core.Prelude.{String, List, [], ◌∷◌, Option, some, ◌≡◌, refl, true}
use backstop_core.Distribution.Versions.{
  Version, Latest, parse_version, resolve_latest, resolved_to, is_major_bump,
}
use backstop_core.Distribution.Versions.Resolve.{Best, resolve_latest-Best}

abbrev published : List String
published = "v1.2.0" ∷ "1.10.0" ∷ "v1.11.0-rc1" ∷ "v2.0.0" ∷ "vv1.99.0" ∷ []

abbrev lists : String → Option (List String)
lists url = some published

abbrev release : Version
release = record { major = 1; minor = 2; patch = 0 }

-- Versions compare by number, and neither a prerelease nor another major version is offered.
resolved_run : resolve_latest lists "org/pack" "1.2.0" ≡ resolved_to "1.10.0"
unfolding resolve_latest
resolved_run = refl

bump_run : is_major_bump "1.2.0" "2.0.0" ≡ true
unfolding is_major_bump
bump_run = refl

parsed_run : parse_version "1.2.0" ≡ some release
unfolding parse_version
parsed_run = refl

resolve_latest-Best_example :
    (l : Latest) × (resolve_latest lists "org/pack" "1.2.0" ≡ resolved_to l.resolved)
    × Best release published (record { version = release; resolved = "1.2.0" }) l
resolve_latest-Best_example =
    resolve_latest-Best lists "org/pack" "1.2.0" release published parsed_run refl
