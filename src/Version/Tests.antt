-- ===== src/Version/Tests.antt =====
-- Versions at concrete inputs.
use resctl_demo.Prelude.{◌≡◌, refl}
use resctl_demo.Prelude.Outcome.{ok, panicked}
use resctl_demo.Text.{text, cmp_text}
use resctl_demo.Version.{from_str_radix, parse_version, parse_semver}

git_version :
    parse_version (text "2.2.1-5-gabc123-dirty x86")
    ≡ ok (text "2.2.1", (text "gabc123-dirty", text "x86"))
unfolding parse_version cmp_text from_str_radix
git_version = refl

-- An empty piece has no first character.
empty_piece : parse_version (text "2.2-") ≡ panicked
unfolding parse_version cmp_text
empty_piece = refl

semantic : parse_semver (text "2.10.x") ≡ (2, (10, 0))
unfolding parse_semver
semantic = refl
