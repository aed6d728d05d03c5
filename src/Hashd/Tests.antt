-- ===== src/Hashd/Tests.antt =====
-- The instances of rd-hashd at concrete inputs. A number stands for itself in tenths, and the
-- machine counts what is done.
use resctl_demo.Prelude.{
  ℕ, suc, zero, ◌≡◌, refl, [], none, some, Bool, true, false, ltb, leb, ◌==◌, if◌then◌else◌, ◌+◌,
  ◌*◌, arith,
}
use resctl_demo.Text.{Text, text}
use resctl_demo.Hashd.{Floats, HashdCmd, HashdKnobs, HashdParams, Hashd, HashdOps}
use resctl_demo.Hashd.Params.{weights_to_fracs, IsFloats, weights_to_fracs-active_iff}
use resctl_demo.Hashd.Set.{HashdSet, Cmds}

abbrev floats : Floats ℕ
floats = record {
  zero = 0;
  tenth = 1;
  half = 5;
  nine_tenths = 9;
  one = 10;
  add = λ x y. x + y;
  div = λ x y. if y == 10 then x else 5;
  le = leb;
  lt = ltb;
  eq = λ x y. x == y;
  round_mul = λ n x. n * x;
  ceil_mul = λ n x. n * x;
  show = λ x. text "";
}

below_one : (x : ℕ) → ltb x 1 ≡ false → (x == 0) ≡ false
below_one zero h = ground (arith, h)
below_one (suc x) h = ground arith

floats-IsFloats : IsFloats floats
floats-IsFloats = record {
  zero_is = refl;
  tenth_not = refl;
  half_not = refl;
  nine_tenths_not = refl;
  one_not = refl;
  small = below_one;
}

abbrev cmd : Bool → HashdCmd ℕ
cmd active = record {
  active = active;
  lat_target_pct = 9;
  lat_target = 1;
  rps_target_ratio = 5;
  mem_ratio = none;
  file_addr_stdev = none;
  anon_addr_stdev = some 2;
  file_ratio = 3;
  file_max_ratio = 4;
  log_bps = 100;
  weight = 5;
}

weights_to_fracs-active_iff_example :
    (floats.eq (weights_to_fracs floats (cmd true) (cmd false)).0 floats.zero ≡ false)
    × (floats.eq (weights_to_fracs floats (cmd true) (cmd false)).1 floats.zero ≡ true)
weights_to_fracs-active_iff_example =
    weights_to_fracs-active_iff floats (cmd true) (cmd false) floats-IsFloats

abbrev params : HashdParams ℕ ℕ
params = record {
  file_size_mean = 1;
  lat_target_pct = 1;
  lat_target = 1;
  rps_max = 1;
  rps_target = 1;
  mem_frac = 1;
  chunk_pages = 1;
  file_addr_stdev_ratio = 1;
  anon_addr_stdev_ratio = 1;
  file_frac = 1;
  log_bps = 1;
  fake_cpu_load = false;
  others = 0;
}

abbrev ops : HashdOps ℕ ℕ ℕ Text
ops = record {
  default_params = params;
  load_params = λ path w. (none, w);
  save_params = λ path p w. (true, suc w);
  new_sys = λ name args w. (some name, w);
  start_svc = λ svc w. (true, svc, suc w);
  drop_svc = λ svc w. suc w;
  apply_resctl = λ resctl svc w. (true, svc, suc w);
  now = λ w. (w, w);
  show_num = λ n. text "";
}

abbrev knobs : HashdKnobs ℕ
knobs = record {
  hash_size = 4;
  rps_max = 10;
  mem_size = 100;
  mem_frac = 8;
  chunk_pages = 2;
  fake_cpu_load = false;
}

abbrev idle : Text → Hashd ℕ Text
idle name = record {
  name = name;
  params_path = name;
  path_args = [];
  lat_target_pct = 9;
  rps_max = 1;
  file_max_ratio = 1;
  svc = none;
  started_at = none;
}

-- The second instance runs, and the first is to run instead.
abbrev set : HashdSet ℕ Text
set = record {
  a = idle (text "a");
  b = record (idle (text "b")) { svc = some (text "b"); started_at = some 1 };
}

abbrev cmds : Cmds ℕ
cmds = record { a = cmd true; b = cmd false }
