-- ===== src/Enforce/Tests.antt =====
-- `EnforceConfig` at a concrete input.
use resctl_demo.Prelude.{◌≡◌, refl, none, some, false}
use resctl_demo.Text.{text, cmp_text}
use resctl_demo.Enforce.{EnforceConfig, default, parse_and_merge, to_passive_string, merge_one}
use resctl_demo.Enforce.RoundTrip.{print-parse}

abbrev no_cpu_no_io : EnforceConfig
no_cpu_no_io = record default { cpu = false; io = false }

parsed : parse_and_merge (text "all,none/io,cpu") default ≡ some no_cpu_no_io
unfolding parse_and_merge merge_one cmp_text
parsed = refl

refused : parse_and_merge (text "cpu,disk") default ≡ none
unfolding parse_and_merge merge_one cmp_text
refused = refl

print-parse_example : parse_and_merge (to_passive_string no_cpu_no_io) default ≡ some no_cpu_no_io
print-parse_example = print-parse (text "all,none/io,cpu") no_cpu_no_io parsed
